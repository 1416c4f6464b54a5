-- ===== src/Ordering/Checkout/Purchase.antt =====
-- Placing an order (internal/ordering/application/command/place_order.go: `Handle`, `start`, `pay`). What
-- the draft reads is `Draft.Ports`; the quote of pricing and the tariffs are arguments, as there.
use go_marketplace_backend.Base.{
  ℕ, ◌+◌, Bool, true, false, ◌&&◌, not, [], ◌∷◌, ◌++◌, ltb, ◌==◌, if◌then◌else◌, Result, ok, err,
}
use go_marketplace_backend.Base.Int.{ℤ}
use go_marketplace_backend.Base.Text.{Text, is_empty}
use go_marketplace_backend.Kernel.Identifier.{Ident}
use go_marketplace_backend.Payment.Types
use go_marketplace_backend.Pricing.Types.{PricingError}
use go_marketplace_backend.Pricing.Quotes.{QuoteRequest, QuoteView}
use go_marketplace_backend.Shipping.{TariffRequest, TariffQuote, ShippingError}
use go_marketplace_backend.Ordering.Types.{Order}
use go_marketplace_backend.Ordering.Order
use go_marketplace_backend.Ordering.Saga
use go_marketplace_backend.Ordering.Saga.{CheckoutSaga, SagaSpec, start_saga, redeem_promo}
use go_marketplace_backend.Ordering.Draft.{Ports, Draft}
use go_marketplace_backend.Ordering.Checkout.{
  Fails, Dependencies, M, pure, fail, ◌>>=◌, ◌>>◌, attempt, done, call, read, saved, wrap, lift,
  error_of, load_saga, mutate_saga, mutate_both, save_order, save_saga, CreateRequest, PaymentInfo,
  payment_unavailable, from_order,
}
use go_marketplace_backend.Ordering.Checkout.Prepare.{PlaceOrder, prepare}
use go_marketplace_backend.Ordering.Checkout.Compensation.{abort}
use go_marketplace_backend.Ordering.Checkout.Progress.{Reasons}

pub record PlaceOrderResult : Type 0 where
  pub order_id : Ident
  pub payment_id : Text
  pub payment_url : Text
  pub total : ℕ
  pub currency : Text

abbrev pub status_is_pending : Types.Status → Bool
status_is_pending Types.Status.pending = true
status_is_pending _ = false

-- The earlier of the payment's timeout and the end of the reservation.
abbrev pub earlier : ℕ → ℕ → ℕ
earlier deadline expires_at =
    if not (expires_at == 0) && ltb expires_at deadline then expires_at else deadline

-- A payment that is created but not pending is an error.
abbrev pub checked : Result Fails PaymentInfo → Result Fails PaymentInfo
checked (err e) = err e
checked (ok info) =
    if not (status_is_pending info.status) then err (payment_unavailable ∷ []) else ok info

-- What a saga is begun with.
abbrev pub begun : Order → Text → Text → ℕ → SagaSpec
begun order reservation payment deadline = record {
  order_id = order.id;
  buyer_id = order.buyer_id;
  reservation_id = reservation;
  payment_id = payment;
  promo_code = order.promo_code;
  amount = order.total;
  deadline = deadline;
}

module _ {W : Type 0} (d : Dependencies W) (reasons : Reasons) where
  -- A call of the compensator after a fault, and both errors.
  abbrev pub aborting : {A : Type 0} → Ident → Text → Fails → M W A
  aborting id reason e = do ended ← attempt (abort d id reason); fail (e ++ error_of ended)

  -- What `start` does for an order with a promo code.
  unfoldable pub redeem_code : Order → ℤ → M W (Unit {0})
  redeem_code order basis = if is_empty order.promo_code then done else do
    answer ←
        attempt
          (call (d.redeem_code order.promo_code order.id order.buyer_id basis order.total.currency))
    elim answer [
      | err e ↦ aborting order.id reasons.promo_rejected e
      | ok _ ↦ do
        now ← read d.now
        mutate_saga order.id (λ saga. saved (wrap (redeem_promo now saga)))
    ]

  unfoldable pub start : Order → Draft → M W (Unit {0})
  unfolding redeem_code
  start order plan = do
    reservation ← read d.reference
    expires_at ← call (d.reserve reservation order.id plan.lines)
    now ← read d.now
    payment ← read d.reference
    let deadline = earlier (now + d.policy.payment_timeout) expires_at
    elim (start_saga (begun order reservation payment deadline) now) [
      | err e ↦ do
        released ← attempt (call (d.release reservation))
        fail (from_order e ∷ error_of released)
      | ok saga ↦ do save_order order; save_saga saga; redeem_code order plan.promo_basis
    ]

  abbrev pub create_request : CheckoutSaga → Order → PlaceOrder → CreateRequest
  create_request saga order cmd = record {
    payment_id = saga.payment_id;
    order_id = order.id;
    buyer_id = order.buyer_id;
    amount = order.total.amount;
    currency = order.total.currency;
    return_url = d.return_url order.id;
    save_method = cmd.save_method;
    method_id = cmd.method_id;
  }

  -- The closure of `pay`.
  abbrev pub awaiting : Text → ℕ → Order → CheckoutSaga → Result Fails (Order × CheckoutSaga)
  awaiting payment now order saga = elim (wrap (Order.await_payment payment now order)) [
    | err e ↦ err e
    | ok o ↦ elim (wrap (Saga.await_payment payment now saga)) [ err e ↦ err e | ok s ↦ ok (o, s) ]
  ]

  unfoldable pub pay : Order → PlaceOrder → M W (Text × Text)
  pay order cmd = do
    saga ← load_saga order.id
    answer ← attempt (call (d.create (create_request saga order cmd)))
    elim (checked answer) [
      | err e ↦ aborting order.id reasons.payment_rejected e
      | ok created ↦ do
        now ← read d.now
        mutate_both order.id (awaiting created.payment_id now)
        pure (created.payment_id, created.redirect_url)
    ]

  module _ (to_upper : Text → Text) (ports : Ports)
      (quotes : QuoteRequest → Result PricingError QuoteView)
      (tariffs : TariffRequest → Result ShippingError TariffQuote) where
    unfoldable pub place_order : PlaceOrder → M W PlaceOrderResult
    place_order cmd = do
      now ← read d.now
      (buyer, plan, order) ← lift (prepare to_upper ports quotes tariffs cmd now)
      start order plan
      (payment_id, payment_url) ← pay order cmd
      removed ← attempt (call (d.remove_ordered buyer plan.skus))
      pure (record {
        order_id = order.id;
        payment_id = payment_id;
        payment_url = payment_url;
        total = order.total.amount;
        currency = order.total.currency;
      })
