-- ===== src/Ordering/Checkout/Compensation.antt =====
-- The compensator (internal/ordering/application/command/compensation.go). The loop of `Run` is on fuel;
-- that it runs out is the fault `out_of_rounds`. A saga has at most four steps to undo, so that
-- `rounds`, five, is enough.
use go_marketplace_backend.Base.{
  ℕ, zero, suc, Bool, true, false, ◌||◌, not, List, [], ◌∷◌, ◌++◌, if◌then◌else◌, Result, ok, err,
  length,
}
use go_marketplace_backend.Base.Text.{Text}
use go_marketplace_backend.Kernel.Identifier.{Ident}
use go_marketplace_backend.Payment.Types
use go_marketplace_backend.Ordering.Status.{Status}
use go_marketplace_backend.Ordering.Types.{Order}
use go_marketplace_backend.Ordering.Order
use go_marketplace_backend.Ordering.Saga.{
  CheckoutSaga, Step, refund_payment, cancel_payment, return_stock, release_promo, close_order,
  pending, compensate, fail_compensation, begin_compensation, is_expired,
}
use go_marketplace_backend.Ordering.Checkout.{
  Fault, Fails, Dependencies, M, pure, fail, ◌>>=◌, ◌>>◌, attempt, done, call, read, is_fault,
  saved, wrap, error_of, joined, load_saga, mutate_saga, mutate_order, payment_not_found,
  invalid_transition, reservation_not_found, reservation_resolved, reservation_not_committed,
  for_each, order_not_found, not_expired, out_of_rounds, unknown_step, PaymentInfo,
}

abbrev pub is_payment_not_found : Fault → Bool
is_payment_not_found payment_not_found = true
is_payment_not_found _ = false

abbrev pub is_invalid_transition : Fault → Bool
is_invalid_transition invalid_transition = true
is_invalid_transition _ = false

abbrev pub is_reservation_not_found : Fault → Bool
is_reservation_not_found reservation_not_found = true
is_reservation_not_found _ = false

abbrev pub is_reservation_resolved : Fault → Bool
is_reservation_resolved reservation_resolved = true
is_reservation_resolved _ = false

abbrev pub is_not_committed : Fault → Bool
is_not_committed reservation_not_committed = true
is_not_committed _ = false

abbrev pub is_order_not_found : Fault → Bool
is_order_not_found order_not_found = true
is_order_not_found _ = false

abbrev pub is_not_expired : Fault → Bool
is_not_expired not_expired = true
is_not_expired _ = false

-- The pending statuses of a payment, in which it is cancelled, and the captured one.
pub data Settling : Type 0 where
  by_cancel by_refund nothing : Settling

abbrev pub settling : Types.Status → Settling
settling Types.Status.created = by_cancel
settling Types.Status.pending = by_cancel
settling Types.Status.authorized = by_cancel
settling Types.Status.captured = by_refund
settling _ = nothing

abbrev pub is_open : Status → Bool
is_open Status.created = true
is_open Status.awaiting_payment = true
is_open _ = false

abbrev pub rounds : ℕ
rounds = 5

-- The `switch` of `closeOrder` as what becomes of the order.
abbrev pub closing : CheckoutSaga → ℕ → Order → Result Fails Order
closing saga now o = if is_open o.status then wrap (Order.fail saga.reason now o) else ok o

-- The closure of `ExpireCheckoutsHandler.Handle`.
abbrev pub expiring : Text → ℕ → Text → CheckoutSaga → Result Fails (Unit {0} × CheckoutSaga)
expiring reason now reference saga =
    if not (is_expired now saga)
    then err (not_expired ∷ [])
    else saved (wrap (begin_compensation reason reference now saga))

module _ {W : Type 0} (d : Dependencies W) where
  -- What `Refund` is called with in both places.
  abbrev pub refund_all : CheckoutSaga → PaymentInfo → M W (Unit {0})
  refund_all saga info = call (d.refund info.payment_id saga.refund_id 0 saga.reason)

  -- `Cancel`, and `Refund` where the payment cannot be cancelled any more.
  abbrev pub cancel_or_refund : CheckoutSaga → PaymentInfo → M W (Unit {0})
  cancel_or_refund saga info = do
    answer ← attempt (call (d.cancel_payment info.payment_id saga.reason))
    elim answer [
      | ok _ ↦ done
      | err e ↦ if is_fault is_invalid_transition e then refund_all saga info else fail e
    ]

  abbrev pub settle_status : Settling → CheckoutSaga → PaymentInfo → M W (Unit {0})
  settle_status by_cancel saga info = cancel_or_refund saga info
  settle_status by_refund saga info = refund_all saga info
  settle_status nothing saga info = done

  unfoldable pub settle_payment : CheckoutSaga → M W (Unit {0})
  settle_payment saga = do
    answer ← attempt (call (d.info saga.payment_id))
    elim answer [
      | err e ↦ if is_fault is_payment_not_found e then done else fail e
      | ok info ↦ settle_status (settling info.status) saga info
    ]

  -- The second call of `returnStock`.
  abbrev pub restore_stock : Text → M W (Unit {0})
  restore_stock reservation = do
    answer ← attempt (call (d.restore reservation))
    elim answer [
      | ok _ ↦ done
      | err e ↦
          if is_fault is_reservation_not_found e || is_fault is_not_committed e
          then done
          else fail e
    ]

  unfoldable pub return_reserved : Text → M W (Unit {0})
  return_reserved reservation = do
    answer ← attempt (call (d.release reservation))
    elim answer [
      | ok _ ↦ done
      | err e ↦
          if is_fault is_reservation_not_found e
          then done
          else if not (is_fault is_reservation_resolved e)
          then fail e
          else restore_stock reservation
    ]

  unfoldable pub close_failed : CheckoutSaga → M W (Unit {0})
  close_failed saga = do
    now ← read d.now
    answer ← attempt (mutate_order saga.order_id (closing saga now))
    elim answer [ ok _ ↦ done | err e ↦ if is_fault is_order_not_found e then done else fail e ]

  unfoldable pub execute : CheckoutSaga → Step → M W (Unit {0})
  execute saga refund_payment = settle_payment saga
  execute saga cancel_payment = settle_payment saga
  execute saga return_stock = return_reserved saga.reservation_id
  execute saga release_promo = call (d.release_code saga.promo_code saga.order_id)
  execute saga close_order = close_failed saga
  execute saga _ = fail (unknown_step ∷ [])

  -- What is written of the step and returned.
  unfoldable pub record_step : Ident → Step → Result Fails (Unit {0}) → M W (Unit {0})
  record_step id step answer = do
    now ← read d.now
    elim answer [
      | ok _ ↦ mutate_saga id (λ saga. ok (tt, compensate step now saga))
      | err e ↦ do
        written ← attempt (
            mutate_saga id (λ saga.
              ok (tt, fail_compensation (d.render e) d.policy.compensation_attempts now saga)))
        fail (e ++ error_of written)
    ]

  -- A round of the loop, over the steps that are pending; `next` is what follows it.
  abbrev pub round : Ident → CheckoutSaga → M W (Unit {0}) → List Step → M W (Unit {0})
  round id saga next [] = done
  round id saga next (step ∷ _) = do
    answer ← attempt (execute saga step)
    record_step id step answer
    next

  unfoldable pub run : ℕ → Ident → M W (Unit {0})
  run zero id = fail (out_of_rounds ∷ [])
  run (suc fuel) id = do saga ← load_saga id; round id saga (run fuel id) (pending saga)

  unfoldable pub abort : Ident → Text → M W (Unit {0})
  abort id reason = do
    now ← read d.now
    reference ← read d.reference
    mutate_saga id (λ saga. saved (wrap (begin_compensation reason reference now saga)))
    run rounds id

  -- One round of the loop, with the error that it adds.
  unfoldable pub expire_checkout : Text → Ident → M W Fails
  expire_checkout reason id = do
    now ← read d.now
    reference ← read d.reference
    answer ← attempt (mutate_saga id (expiring reason now reference))
    elim answer [
      | err e ↦ if is_fault is_not_expired e then pure [] else pure e
      | ok _ ↦ do ran ← attempt (run rounds id); pure (error_of ran)
    ]

  -- `ids` is what the query for expired sagas answers.
  unfoldable pub expire_checkouts : Text → List Ident → M W ℕ
  unfolding for_each
  expire_checkouts reason ids = do e ← for_each (expire_checkout reason) ids; joined (length ids) e

  -- `ids` is what the query for compensating sagas answers.
  unfoldable pub run_compensations : List Ident → M W ℕ
  unfolding for_each
  run_compensations ids = do
    e ← for_each (λ id. do ran ← attempt (run rounds id); pure (error_of ran)) ids
    joined (length ids) e
