-- ===== src/Ordering/Saga.antt =====
-- The checkout saga (internal/ordering/domain/saga.go), method by method. A method gives the saga that
-- it leaves behind, also when it returns an error. Times and durations are nanoseconds.
pub mod Compensation
pub mod Progress
mod Tests
use go_marketplace_backend.Base.{
  ℕ, suc, ◌+◌, ◌-◌, ◌*◌, ◌^◌, min, Bool, true, false, ◌&&◌, ◌||◌, not, List, [], ◌∷◌, ◌++◌, ltb,
  leb, ◌==◌, if◌then◌else◌, Option, none, some, Result, ok, err, Outcome, any, length,
}
use go_marketplace_backend.Base.Int.{ℤ, pos, min_ℤ, ltb_ℤ, ◌+ℤ◌, shift_left64}
use go_marketplace_backend.Base.Text.{Text, is_empty, is_blank, trim_space, text_eq}
use go_marketplace_backend.Kernel.Identifier.{Ident, id_is_zero}
use go_marketplace_backend.Kernel.Money.{Money}
use go_marketplace_backend.Ordering.Types.{
  OrderError, invalid_id, invalid_reference, saga_not_running, saga_not_manual,
}

pub data SagaStatus : Type 0 where
  running compensating completed compensated manual : SagaStatus

abbrev status_code : SagaStatus → ℕ
status_code running = 0
status_code compensating = 1
status_code completed = 2
status_code compensated = 3
status_code manual = 4

abbrev pub in_status : SagaStatus → SagaStatus → Bool
in_status a b = status_code a == status_code b

pub data Step : Type 0 where
  stock_reserved promo_redeemed awaiting_payment committing_stock stock_committed : Step
  payment_captured all_done : Step
  refund_payment cancel_payment return_stock release_promo close_order : Step

abbrev pub step_code : Step → ℕ
step_code stock_reserved = 0
step_code promo_redeemed = 1
step_code awaiting_payment = 2
step_code committing_stock = 3
step_code stock_committed = 4
step_code payment_captured = 5
step_code all_done = 6
step_code refund_payment = 7
step_code cancel_payment = 8
step_code return_stock = 9
step_code release_promo = 10
step_code close_order = 11

unfoldable pub at_step : Step → Step → Bool
at_step a b = step_code a == step_code b

pub record SagaSpec : Type 0 where
  pub order_id : Ident
  pub buyer_id : Ident
  pub reservation_id : Text
  pub payment_id : Text
  pub promo_code : Text
  pub amount : Money
  pub deadline : ℕ

pub record CheckoutSaga : Type 0 where
  pub order_id : Ident
  pub buyer_id : Ident
  pub reservation_id : Text
  pub payment_id : Text
  pub refund_id : Text
  pub promo_code : Text
  pub amount : Money
  pub status : SagaStatus
  pub step : Step
  pub captured : Bool
  pub compensations : List Step
  pub reason : Text
  pub last_error : Text
  pub attempts : ℕ
  pub deadline : ℕ
  pub created_at : ℕ
  pub updated_at : ℕ
  pub version : ℕ

take : ℕ → Text → Text
take ℕ.zero s = []
take (suc n) [] = []
take (suc n) (c ∷ s) = c ∷ take n s

unfoldable pub truncate : Text → Text
unfolding take
truncate value =
    let trimmed = trim_space value in
    if ltb 1000 (length trimmed) then take 1000 trimmed else trimmed

unfoldable pub start_saga : SagaSpec → ℕ → Result OrderError CheckoutSaga
start_saga spec now =
    if id_is_zero spec.order_id || id_is_zero spec.buyer_id
    then err invalid_id
    else if is_blank spec.reservation_id || is_blank spec.payment_id
    then err invalid_reference
    else ok (record {
      order_id = spec.order_id;
      buyer_id = spec.buyer_id;
      reservation_id = spec.reservation_id;
      payment_id = spec.payment_id;
      refund_id = [];
      promo_code = spec.promo_code;
      amount = spec.amount;
      status = running;
      step = stock_reserved;
      captured = false;
      compensations = [];
      reason = [];
      last_error = [];
      attempts = 0;
      deadline = spec.deadline;
      created_at = now;
      updated_at = now;
      version = 0;
    })

-- `if err := s.running(); err != nil { return err }`, and what follows it.
abbrev pub if_running :
    CheckoutSaga → Outcome CheckoutSaga OrderError → Outcome CheckoutSaga OrderError
if_running s k = if not (in_status s.status running) then (s, some saga_not_running) else k

unfoldable pub redeem_promo : ℕ → CheckoutSaga → Outcome CheckoutSaga OrderError
redeem_promo now s = if_running s (record s { step = promo_redeemed; updated_at = now }, none)

unfoldable pub await_payment : Text → ℕ → CheckoutSaga → Outcome CheckoutSaga OrderError
await_payment payment_id now s = if_running s (
    if is_blank payment_id
    then (s, some invalid_reference)
    else (record s { payment_id = payment_id; step = awaiting_payment; updated_at = now }, none))

-- With whether the stock is to be committed now.
unfoldable pub begin_commit : Text → ℕ → CheckoutSaga → CheckoutSaga × Bool
begin_commit payment_id now s =
    if not (in_status s.status running) || not (text_eq s.payment_id payment_id)
    then (s, false)
    else elim s.step [
      | awaiting_payment ↦ (record s { step = committing_stock; updated_at = now }, true)
      | committing_stock ↦ (s, true)
      | stock_committed ↦ (s, true)
      | payment_captured ↦ (s, true)
      | _ ↦ (s, false)
    ]

unfoldable pub commit_stock : ℕ → CheckoutSaga → Outcome CheckoutSaga OrderError
commit_stock now s = if_running s (record s { step = stock_committed; updated_at = now }, none)

unfoldable pub capture_payment : ℕ → CheckoutSaga → Outcome CheckoutSaga OrderError
capture_payment now s =
    if_running s (record s { captured = true; step = payment_captured; updated_at = now }, none)

unfoldable pub complete : ℕ → CheckoutSaga → Outcome CheckoutSaga OrderError
complete now s =
    if in_status s.status completed
    then (s, none)
    else if_running s (
      record s {
        status = completed;
        step = all_done;
        attempts = 0;
        last_error = [];
        updated_at = now;
      },
      none,
    )

unfoldable pub record_error : Text → ℕ → CheckoutSaga → CheckoutSaga
unfolding truncate
record_error error now s = record s { last_error = truncate error; updated_at = now }

unfoldable pub committing : CheckoutSaga → Bool
unfolding at_step
committing s =
    in_status s.status running
    && (at_step s.step committing_stock
        || at_step s.step stock_committed
        || at_step s.step payment_captured)

unfoldable pub is_expired : ℕ → CheckoutSaga → Bool
unfolding committing
is_expired now s =
    in_status s.status running && not (committing s) && not (s.deadline == 0) && ltb s.deadline now

abbrev pub second : ℕ
second = 1000000000

unfoldable pub compensation_backoff : ℕ → ℤ
unfolding shift_left64
compensation_backoff attempts =
    if attempts == 0
    then pos 0
    else min_ℤ (shift_left64 (10 * second) (min (attempts - 1) 10)) (pos (600 * second))

unfoldable pub due_for_compensation : ℕ → CheckoutSaga → Bool
unfolding compensation_backoff ◌+ℤ◌
due_for_compensation now s =
    in_status s.status compensating
    && not (ltb_ℤ (pos now) (pos s.updated_at +ℤ compensation_backoff s.attempts))

unfoldable pub begin_compensation : Text → Text → ℕ → CheckoutSaga → Outcome CheckoutSaga OrderError
unfolding truncate
begin_compensation reason refund_id now s =
    if in_status s.status compensating
      || in_status s.status compensated
      || in_status s.status manual
    then (s, none)
    else if is_blank refund_id
    then (s, some invalid_reference)
    else (
      record s {
        status = compensating;
        reason = truncate reason;
        refund_id = refund_id;
        attempts = 0;
        updated_at = now;
      },
      none,
    )

-- The steps of a compensation, in order.
unfoldable pub plan : CheckoutSaga → List Step
plan s =
    (if s.captured then refund_payment else cancel_payment)
    ∷ return_stock
    ∷ (if is_empty s.promo_code then close_order ∷ [] else release_promo ∷ close_order ∷ [])

unfoldable pub is_done : List Step → Step → Bool
is_done done step = any (λ d. at_step d step) done

abbrev pub undone : List Step → List Step → List Step
undone done [] = []
undone done (x ∷ xs) = let rest = undone done xs in if is_done done x then rest else x ∷ rest

unfoldable pub pending : CheckoutSaga → List Step
unfolding plan
pending s = if in_status s.status compensating then undone s.compensations (plan s) else []

abbrev pub is_nil : List Step → Bool
is_nil [] = true
is_nil (_ ∷ _) = false

unfoldable pub compensate : Step → ℕ → CheckoutSaga → CheckoutSaga
unfolding pending is_done
compensate step now s =
    let t : CheckoutSaga = record s {
      compensations =
          if is_done s.compensations step then s.compensations else s.compensations ++ step ∷ [];
      updated_at = now;
    } in
    if in_status t.status compensating && is_nil (pending t)
    then record t { status = compensated; last_error = [] }
    else t

unfoldable pub fail_compensation : Text → ℕ → ℕ → CheckoutSaga → CheckoutSaga
unfolding truncate
fail_compensation error max_attempts now s =
    let t : CheckoutSaga = record s {
      attempts = s.attempts + 1;
      last_error = truncate error;
      updated_at = now;
    } in
    if leb max_attempts t.attempts then record t { status = manual } else t

unfoldable pub resume : ℕ → CheckoutSaga → Outcome CheckoutSaga OrderError
resume now s =
    if not (in_status s.status manual)
    then (s, some saga_not_manual)
    else (record s { status = compensating; attempts = 0; updated_at = now }, none)

unfoldable pub change_payment : Text → ℕ → CheckoutSaga → Outcome CheckoutSaga OrderError
unfolding at_step
change_payment payment_id now s =
    if not (in_status s.status running) || not (at_step s.step awaiting_payment)
    then (s, some saga_not_running)
    else if is_blank payment_id
    then (s, some invalid_reference)
    else (record s { payment_id = payment_id; updated_at = now }, none)
