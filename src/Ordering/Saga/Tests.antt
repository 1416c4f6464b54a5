-- ===== src/Ordering/Saga/Tests.antt =====
-- A checkout saga at concrete inputs.
use go_marketplace_backend.Base.{ℕ, ◌≡◌, refl, true, false, List, [], ◌∷◌}
use go_marketplace_backend.Base.Int.{pos}
use go_marketplace_backend.Base.Text.{text_eq}
use go_marketplace_backend.Kernel.Money.{kzt}
use go_marketplace_backend.Ordering.Saga.{
  CheckoutSaga, running, Step, awaiting_payment, refund_payment, begin_commit, capture_payment,
  committing, is_expired, compensation_backoff, plan,
}
use go_marketplace_backend.Ordering.Saga.Progress.{
  SagaCommand, begins_compensation, fails_compensation, run, begin_commit_guards, captured_refunds,
  doubling, backoff-doubling,
}

abbrev saga : CheckoutSaga
saga = record {
  order_id = 1 ∷ [];
  buyer_id = 2 ∷ [];
  reservation_id = 3 ∷ [];
  payment_id = 4 ∷ [];
  refund_id = [];
  promo_code = [];
  amount = record { amount = 430; currency = kzt };
  status = running;
  step = awaiting_payment;
  captured = false;
  compensations = [];
  reason = [];
  last_error = [];
  attempts = 0;
  deadline = 100;
  created_at = 9;
  updated_at = 9;
  version = 0;
}

commit_begins : (begin_commit (4 ∷ []) 10 saga).1 ≡ true
unfolding begin_commit text_eq
commit_begins = refl

begin_commit_guards_example :
    (saga.status ≡ running)
    × (saga.payment_id ≡ 4 ∷ [])
    × (committing (begin_commit (4 ∷ []) 10 saga).0 ≡ true)
    × ((later : ℕ) → is_expired later (begin_commit (4 ∷ []) 10 saga).0 ≡ false)
begin_commit_guards_example = begin_commit_guards (4 ∷ []) 10 saga commit_begins

abbrev troubles : List (ℕ × SagaCommand)
troubles = (11, begins_compensation [] (5 ∷ [])) ∷ (12, fails_compensation [] 3) ∷ []

captured_refunds_example :
    (rest : List Step) × (plan (run troubles (capture_payment 10 saga).0) ≡ refund_payment ∷ rest)
captured_refunds_example = captured_refunds 10 saga troubles refl

backoff-doubling_example :
    (compensation_backoff 0 ≡ pos 0) × (compensation_backoff 90 ≡ pos (doubling 89))
backoff-doubling_example = backoff-doubling 89
