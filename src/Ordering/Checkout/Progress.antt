-- ===== src/Ordering/Checkout/Progress.antt =====
-- What follows the authorization of a payment (internal/ordering/application/command/progress.go).
use go_marketplace_backend.Base.{
  ℕ, Bool, true, false, ◌||◌, not, List, ◌∷◌, ◌++◌, if◌then◌else◌, Option, none, some, Result, ok,
  err, length,
}
use go_marketplace_backend.Base.Text.{Text, text_eq}
use go_marketplace_backend.Kernel.Identifier.{Ident, parse_id}
use go_marketplace_backend.Ordering.Types.{
  Order, OrderError, transition_error, paid_amount_mismatch,
}
use go_marketplace_backend.Ordering.Order
use go_marketplace_backend.Ordering.Saga
use go_marketplace_backend.Ordering.Saga.{
  CheckoutSaga, Step, committing_stock, stock_committed, payment_captured, at_step, begin_commit,
  commit_stock, capture_payment, record_error,
}
use go_marketplace_backend.Ordering.Checkout.{
  Fault, Fails, Dependencies, M, pure, fail, ◌>>=◌, ◌>>◌, attempt, done, call, read, is_fault, wrap,
  error_of, joined, load_saga, mutate_saga, mutate_both, with_id, saga_not_found,
  reservation_expired, from_order, internal, for_each,
}
use go_marketplace_backend.Ordering.Checkout.Compensation.{
  is_reservation_not_found, is_reservation_resolved, abort,
}

abbrev pub is_reservation_expired : Fault → Bool
is_reservation_expired reservation_expired = true
is_reservation_expired _ = false

abbrev pub is_saga_not_found : Fault → Bool
is_saga_not_found saga_not_found = true
is_saga_not_found _ = false

-- `errors.Is` of a `TransitionError` or of `ErrPaidAmountMismatch`
abbrev pub is_unpayable : Fault → Bool
is_unpayable (from_order (transition_error _ _)) = true
is_unpayable (from_order paid_amount_mismatch) = true
is_unpayable _ = false

-- `KindOf` finds the first error of the kernel; one that is not of the kernel is internal.
abbrev pub is_internal : Fails → Bool
is_internal (internal _ ∷ _) = true
is_internal _ = false

-- The texts of the reasons that the handlers give.
pub record Reasons : Type 0 where
  pub promo_rejected : Text
  pub payment_rejected : Text
  pub stock_invalid : Text
  pub capture_rejected : Text
  pub not_payable : Text
  pub superseded : Text
  pub timed_out : Text
  pub retry_aborted : Text
  pub cancelled_prefix : Text

module _ {W : Type 0} (d : Dependencies W) (reasons : Reasons) where
  unfoldable pub record_failure : Ident → Fails → M W (Unit {0})
  record_failure id cause = do
    now ← read d.now
    written ← attempt (mutate_saga id (λ saga. ok (tt, record_error (d.render cause) now saga)))
    fail (cause ++ error_of written)

  -- `none` for a nil saga: the checkout has been aborted.
  abbrev pub aborted : Ident → Text → M W (Option CheckoutSaga)
  aborted id reason = do abort d id reason; pure none

  abbrev pub failed : Ident → Fails → M W (Option CheckoutSaga)
  failed id cause = do record_failure id cause; pure none

  -- A method of the saga, as the closure of a transaction that gives the saga back.
  abbrev pub stepping :
      (CheckoutSaga → CheckoutSaga × Option OrderError)
      → CheckoutSaga
      → Result Fails (Option CheckoutSaga × CheckoutSaga)
  stepping method saga = elim (wrap (method saga)) [ ok s ↦ ok (some s, s) | err e ↦ err e ]

  unfoldable pub commit_reserved : CheckoutSaga → M W (Option CheckoutSaga)
  commit_reserved saga = do
    answer ← attempt (call (d.commit saga.reservation_id))
    elim answer [
      | err e ↦
          if is_fault is_reservation_resolved e
            || is_fault is_reservation_not_found e
            || is_fault is_reservation_expired e
          then aborted saga.order_id reasons.stock_invalid
          else failed saga.order_id e
      | ok _ ↦ do now ← read d.now; mutate_saga saga.order_id (stepping (commit_stock now))
    ]

  unfoldable pub capture_authorized : CheckoutSaga → M W (Option CheckoutSaga)
  capture_authorized saga = do
    answer ← attempt (call (d.capture saga.payment_id saga.amount.amount))
    elim answer [
      | err e ↦
          if not (is_internal e)
          then aborted saga.order_id reasons.capture_rejected
          else failed saga.order_id e
      | ok _ ↦ do now ← read d.now; mutate_saga saga.order_id (stepping (capture_payment now))
    ]

  -- The closure of `complete`.
  abbrev pub completing : ℕ → Order → CheckoutSaga → Result Fails (Order × CheckoutSaga)
  completing now order saga = elim (wrap (Order.mark_paid saga.amount now order)) [
    | err e ↦ err e
    | ok o ↦ elim (wrap (Saga.complete now saga)) [ err e ↦ err e | ok s ↦ ok (o, s) ]
  ]

  unfoldable pub complete_paid : CheckoutSaga → M W (Unit {0})
  complete_paid saga = do
    now ← read d.now
    answer ← attempt (mutate_both saga.order_id (completing now))
    elim answer [
      | ok _ ↦ done
      | err e ↦
          if is_fault is_unpayable e then abort d saga.order_id reasons.not_payable else fail e
    ]

  -- The three `if`s of `advance`: a stage runs at its step, and a nil saga ends the chain.
  abbrev pub at_stage :
      Step → (CheckoutSaga → M W (Option CheckoutSaga)) → CheckoutSaga → M W (Option CheckoutSaga)
  at_stage step stage saga = if at_step saga.step step then stage saga else pure (some saga)

  abbrev pub and_then :
      Option CheckoutSaga → (CheckoutSaga → M W (Option CheckoutSaga)) → M W (Option CheckoutSaga)
  and_then none stage = pure none
  and_then (some saga) stage = stage saga

  abbrev pub complete_last : Option CheckoutSaga → M W (Unit {0})
  complete_last none = done
  complete_last (some saga) =
      if not (at_step saga.step payment_captured) then done else complete_paid saga

  unfoldable pub advance : Ident → M W (Unit {0})
  unfolding at_step
  advance id = do
    saga ← load_saga id
    first ← at_stage committing_stock commit_reserved saga
    second ← and_then first (at_stage stock_committed capture_authorized)
    complete_last second

  -- The closure assigns whether the payment is another one, and whether to go on.
  abbrev pub authorizing : Text → ℕ → CheckoutSaga → Result Fails ((Bool × Bool) × CheckoutSaga)
  authorizing payment now saga =
      let (s, proceed) = begin_commit payment now saga in
      ok ((not (text_eq saga.payment_id payment), proceed), s)

  unfoldable pub payment_authorized : Text → Text → M W (Unit {0})
  payment_authorized raw payment = with_id (parse_id raw) done λ id. do
    now ← read d.now
    answer ← attempt (mutate_saga id (authorizing payment now))
    elim answer [
      | ok (stray, proceed) ↦
          if stray
          then call (d.cancel_payment payment reasons.superseded)
          else if not proceed
          then done
          else advance id
      | err e ↦ if is_fault is_saga_not_found e then done else fail e
    ]

  -- `ids` is what the query for stalled sagas answers.
  unfoldable pub resume_stalled : List Ident → M W ℕ
  unfolding for_each
  resume_stalled ids = do
    e ← for_each (λ id. do ran ← attempt (advance id); pure (error_of ran)) ids
    joined (length ids) e
