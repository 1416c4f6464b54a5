-- ===== src/Ordering/Checkout/Orders.antt =====
-- The handlers of a buyer and of support (internal/ordering/application/command/orders.go).
use go_marketplace_backend.Base.{
  ℕ, Bool, false, ◌||◌, not, [], ◌∷◌, ◌++◌, if◌then◌else◌, Option, none, some, Result, ok, err,
  fail_if,
}
use go_marketplace_backend.Base.Text.{Text, text_eq}
use go_marketplace_backend.Kernel.Identifier.{Ident, parse_id}
use go_marketplace_backend.Payment.Types
use go_marketplace_backend.Ordering.Types.{Order, cancellation_denied}
use go_marketplace_backend.Ordering.Order
use go_marketplace_backend.Ordering.Saga.{
  CheckoutSaga, SagaStatus, Step, in_status, at_step, committing, begin_compensation,
  change_payment, is_expired, resume,
}
use go_marketplace_backend.Ordering.Checkout.{
  Fails, Dependencies, M, pure, fail, ◌>>=◌, ◌>>◌, attempt, done, call, read, saved, wrap, lift,
  error_of, mutate_saga, mutate_both, CreateRequest, PaymentInfo, payment_not_found,
  retry_not_allowed, order_not_found, saga_not_found, from_order, with_id,
}
use go_marketplace_backend.Ordering.Checkout.Actors.{
  Principal, orders_support, actor_for, authorize,
}
use go_marketplace_backend.Ordering.Checkout.Compensation.{run, rounds}
use go_marketplace_backend.Ordering.Checkout.Progress.{Reasons}
use go_marketplace_backend.Ordering.Checkout.Purchase.{checked}

-- What a retry does with the payment that is there.
pub data Retry : Type 0 where
  keeps renews refuses : Retry

abbrev pub retry_of : Types.Status → Retry
retry_of Types.Status.pending = keeps
retry_of Types.Status.failed = renews
retry_of Types.Status.cancelled = renews
retry_of _ = refuses

pub record RetryPaymentResult : Type 0 where
  pub order_id : Ident
  pub payment_id : Text
  pub payment_url : Text

module _ {W : Type 0} (d : Dependencies W) (reasons : Reasons) where
  -- The closure of `CancelOrderHandler.Handle`.
  abbrev pub cancelling :
      Principal → Text → Text → ℕ → Order → CheckoutSaga → Result Fails (Order × CheckoutSaga)
  cancelling principal reason reference now order saga = elim (actor_for principal order) [
    | err e ↦ err e
    | ok actor ↦
        if committing saga
        then err (from_order cancellation_denied ∷ [])
        else elim (wrap (Order.cancel actor reason now order)) [
          | err e ↦ err e
          | ok o ↦
              elim (wrap
                (begin_compensation (reasons.cancelled_prefix ++ reason) reference now saga)) [
                  | err e ↦ err e
                  | ok s ↦ ok (o, s)
                ]
        ]
  ]

  unfoldable pub cancel_order : Principal → Text → Text → M W (Unit {0})
  cancel_order principal raw reason = with_id (parse_id raw) (fail (order_not_found ∷ [])) λ id. do
    now ← read d.now
    reference ← read d.reference
    mutate_both id (cancelling principal reason reference now)
    ran ← attempt (run d rounds id)
    done

  -- The closure of `RetryPaymentHandler.Handle`.
  abbrev pub repaying : Text → ℕ → Order → CheckoutSaga → Result Fails (Order × CheckoutSaga)
  repaying payment now order saga = elim (wrap (change_payment payment now saga)) [
    | err e ↦ err e
    | ok s ↦ elim (wrap (Order.await_payment payment now order)) [
      | err e ↦ err e
      | ok o ↦ ok (o, s)
    ]
  ]

  abbrev pub retry_request : CheckoutSaga → Text → CreateRequest
  retry_request saga payment = record {
    payment_id = payment;
    order_id = saga.order_id;
    buyer_id = saga.buyer_id;
    amount = saga.amount.amount;
    currency = saga.amount.currency;
    return_url = d.return_url saga.order_id;
    save_method = false;
    method_id = [];
  }

  abbrev pub retried : CheckoutSaga → PaymentInfo → RetryPaymentResult
  retried saga info = record {
    order_id = saga.order_id;
    payment_id = info.payment_id;
    payment_url = info.redirect_url;
  }

  unfoldable pub renew_payment : CheckoutSaga → M W RetryPaymentResult
  renew_payment saga = do
    payment ← read d.reference
    answer ← call (d.create (retry_request saga payment))
    created ← lift (checked (ok answer))
    now ← read d.now
    changed ← attempt (mutate_both saga.order_id (repaying created.payment_id now))
    elim changed [
      | err e ↦ do
        undone ← attempt (call (d.cancel_payment created.payment_id reasons.retry_aborted))
        fail (e ++ error_of undone)
      | ok _ ↦ pure (retried saga created)
    ]

  abbrev pub retry_with : Retry → CheckoutSaga → PaymentInfo → M W RetryPaymentResult
  retry_with keeps saga info = pure (retried saga info)
  retry_with renews saga info = renew_payment saga
  retry_with refuses saga info = fail (retry_not_allowed ∷ [])

  abbrev pub not_retryable : CheckoutSaga → ℕ → Bool
  not_retryable saga now =
      not (in_status saga.status SagaStatus.running)
      || not (at_step saga.step Step.awaiting_payment)
      || is_expired now saga

  -- `found` is what the query for the saga of a payment answers.
  unfoldable pub retry_payment : Principal → Option CheckoutSaga → M W RetryPaymentResult
  retry_payment principal none = fail (payment_not_found ∷ [])
  retry_payment principal (some saga) =
      if not (text_eq saga.buyer_id principal.user_id) then fail (payment_not_found ∷ []) else do
        now ← read d.now
        lift (fail_if (not_retryable saga now) (retry_not_allowed ∷ []))
        info ← call (d.info saga.payment_id)
        retry_with (retry_of info.status) saga info

  unfoldable pub resume_saga : Principal → Text → M W (Unit {0})
  resume_saga principal raw = do
    lift (authorize principal orders_support)
    with_id (parse_id raw) (fail (saga_not_found ∷ [])) λ id. do
      now ← read d.now
      mutate_saga id (λ saga. saved (wrap (resume now saga)))
      run d rounds id
