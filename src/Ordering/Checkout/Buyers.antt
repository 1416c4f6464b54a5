-- ===== src/Ordering/Checkout/Buyers.antt =====
-- Placing an order, and the handlers of a buyer and of support
-- (internal/ordering/application/command: place_order.go, orders.go), on the stored orders and sagas.
use go_marketplace_backend.Base.{ℕ, ◌+◌, ◌≡◌, true, not, Option, none, some, Result, ok, err, arith}
use go_marketplace_backend.Base.Int.{ℤ}
use go_marketplace_backend.Base.Text.{Text, is_empty, text_eq}
use go_marketplace_backend.Kernel.Identifier.{Ident, parse_id}
use go_marketplace_backend.Pricing.Types.{PricingError}
use go_marketplace_backend.Pricing.Quotes.{QuoteRequest, QuoteView}
use go_marketplace_backend.Shipping.{TariffRequest, TariffQuote, ShippingError}
use go_marketplace_backend.Ordering.Status.{Status}
use go_marketplace_backend.Ordering.Types.{Order}
use go_marketplace_backend.Ordering.Saga
use go_marketplace_backend.Ordering.Saga.{CheckoutSaga, SagaStatus, SagaSpec, start_saga}
use go_marketplace_backend.Ordering.Draft.{Ports, Draft}
use go_marketplace_backend.Ordering.Checkout.{Fails, wrap, Store, Dependencies, PaymentInfo}
use go_marketplace_backend.Ordering.Checkout.Compensation.{rounds}
use go_marketplace_backend.Ordering.Checkout.Actors.{Principal}
use go_marketplace_backend.Ordering.Checkout.Prepare.{PlaceOrder, prepare, prepare-created}
use go_marketplace_backend.Ordering.Checkout.Progress.{Reasons}
use go_marketplace_backend.Ordering.Checkout.Purchase.{
  begun, earlier, aborting, redeem_code, start, checked, awaiting, pay, place_order,
}
use go_marketplace_backend.Ordering.Checkout.Orders.{
  cancelling, cancel_order, Retry, keeps, renews, refuses, repaying, renew_payment, retry_with,
  retry_payment, resume_saga,
}
use go_marketplace_backend.Ordering.Checkout.Agreement.{
  Agree, is_early, redeem_promo-Agree, resume-Agree,
}
use go_marketplace_backend.Ordering.Checkout.Pairs.{
  awaiting-Agree, repaying-Agree, cancelling-Agree, saved-eq-ok,
}
use go_marketplace_backend.Ordering.Checkout.Stores.{Fact, Holds, IsConsistent, Ends, paired_saga}
use go_marketplace_backend.Ordering.Checkout.Rules.{
  Keeps, call-Keeps, bind-Keeps, then-Keeps, attempt-Keeps, cases-Keeps, result-Keeps, pure-Keeps,
  fail-Keeps, read-Keeps, pull-Keeps, if-Keeps, with_id-Keeps, weaken-Keeps, lift-Keeps,
}
use go_marketplace_backend.Ordering.Checkout.Transactions.{
  mutate_saga-Keeps, mutate_both-Keeps, load_saga-Keeps, save_both-Keeps,
}
use go_marketplace_backend.Ordering.Checkout.Runs.{
  Any, Unsold, Safe, about, run-Safe, abort-Keeps, Ends-both,
}

-- The saga stands before the payment.
abbrev Fresh : Fact
Fresh o s = is_early s.step ≡ true

fresh-unsold : (id : Ident) (st : Store) → Holds id Fresh st → Holds id Unsold st
fresh-unsold id st h = (
  h.0,
  λ o s ho hs c.
      let (p, _, a) = paired_saga id st s h.0 hs in
      let early = h.1 o s ho hs in ground (arith, a, early, c),
)

-- An order that has been made, and the saga that is begun for it.
start-Agree :
    (o : Order) (s : CheckoutSaga) (reservation payment : Text) (deadline now : ℕ)
    → o.status ≡ Status.created
    → start_saga (begun o reservation payment deadline) now ≡ ok s
    → Agree o.id o s × (is_early s.step ≡ true)
unfolding start_saga Saga.is_done
start-Agree o s reservation payment deadline now c e = ground (arith, c, e)

redeemed_early :
    (now : ℕ) (s t : CheckoutSaga) → wrap (Saga.redeem_promo now s) ≡ ok t → is_early t.step ≡ true
unfolding Saga.redeem_promo
redeemed_early now s t e = ground (arith, e)

-- The same is known on either answer.
known :
    {A : Type 0} (P : Store → Type 0) (r : Result Fails A) (st : Store)
    → Ends (λ _. P) P r st
    → P st
known P (ok a) st h = h
known P (err e) st h = h

module _ {W : Type 0} (d : Dependencies W) (reasons : Reasons) where
  aborting-Keeps :
      {A : Type 0} {Q : A → Store → Type 0} (id : Ident) (reason : Text) (e : Fails)
      → Keeps (Holds id Unsold) (aborting d reasons {A = A} id reason e) Q IsConsistent
  aborting-Keeps id reason e =
      bind-Keeps (attempt-Keeps (abort-Keeps d id reason)) λ ended. fail-Keeps _ (Ends-both ended)

  redeem_code-Keeps :
      (o : Order) (basis : ℤ)
      → Keeps
          (Holds o.id Fresh)
          (redeem_code d reasons o basis)
          (λ _. Holds o.id Fresh)
          IsConsistent
  unfolding redeem_code
  redeem_code-Keeps o basis = if-Keeps (is_empty o.promo_code) (pure-Keeps tt (λ _ p. p)) (
      bind-Keeps (attempt-Keeps (call-Keeps _)) λ answer.
        cases-Keeps answer
          (λ _. bind-Keeps (read-Keeps _) λ now.
            weaken-Keeps
              (mutate_saga-Keeps o.id _ Fresh (λ _. Fresh)
                (λ p s t x a f e.
                  let g = saved-eq-ok (wrap (Saga.redeem_promo now s)) e in
                  (redeem_promo-Agree o.id p s a now t f g, redeemed_early now s t g)))
              (λ _ p. p) (λ _ _ p. p) (λ _ p. p.0))
          λ e.
            weaken-Keeps (aborting-Keeps o.id reasons.promo_rejected e) (fresh-unsold o.id)
              (λ _ _ p. p) (λ _ p. p))

  start-Keeps :
      (o : Order) (plan : Draft)
      → o.status ≡ Status.created
      → Keeps IsConsistent (start d reasons o plan) (λ _. Holds o.id Fresh) IsConsistent
  unfolding start
  start-Keeps o plan c = bind-Keeps (read-Keeps _) λ reservation.
      bind-Keeps (call-Keeps _) λ expires_at. bind-Keeps (read-Keeps _) λ now.
        bind-Keeps (read-Keeps _) λ payment.
          let deadline = earlier (now + d.policy.payment_timeout) expires_at in
          result-Keeps (start_saga (begun o reservation payment deadline) now)
            (λ saga e.
              let (a, f) = start-Agree o saga reservation payment deadline now c e in
              save_both-Keeps o saga Fresh a f (redeem_code-Keeps o plan.promo_basis))
            λ x.
              bind-Keeps (attempt-Keeps (call-Keeps _))
                λ released. fail-Keeps _ (Ends-both released)

  pay-Keeps :
      (o : Order) (cmd : PlaceOrder)
      → Keeps (Holds o.id Fresh) (pay d reasons o cmd) (λ _. IsConsistent) IsConsistent
  unfolding pay
  pay-Keeps o cmd =
      bind-Keeps (weaken-Keeps (load_saga-Keeps o.id Fresh) (λ _ p. p) (λ _ _ p. p) (λ _ p. p.0))
        λ saga. pull-Keeps λ key.
          bind-Keeps
            (weaken-Keeps (attempt-Keeps (call-Keeps _))
              (λ st p. (p.0, λ p' s ho hs. (p.1 p' s ho hs).1)) (λ _ _ p. p) (λ _ p. p))
            λ answer.
              weaken-Keeps
                (result-Keeps (checked answer)
                  (λ created _. bind-Keeps (read-Keeps _) λ now.
                    then-Keeps
                      (weaken-Keeps
                        (mutate_both-Keeps o.id (awaiting d reasons created.payment_id now) Fresh
                          Any
                          (λ o' p s t a f e. (
                            awaiting-Agree d reasons o.id o' s a created.payment_id now p t e,
                            tt,
                          )))
                        (λ _ p. p) (λ _ _ p. p.0) (λ _ p. p.0))
                      (pure-Keeps _ (λ _ p. p)))
                  λ e.
                    weaken-Keeps (aborting-Keeps o.id reasons.payment_rejected e)
                      (fresh-unsold o.id) (λ _ _ p. p) (λ _ p. p))
                (λ st p. known (Holds o.id Fresh) answer st p) (λ _ _ p. p) (λ _ p. p)

  module _ (to_upper : Text → Text) (ports : Ports)
      (quotes : QuoteRequest → Result PricingError QuoteView)
      (tariffs : TariffRequest → Result ShippingError TariffQuote) where
    pub place_order-Safe :
        (cmd : PlaceOrder) → Safe (place_order d reasons to_upper ports quotes tariffs cmd)
    unfolding place_order
    place_order-Safe cmd = bind-Keeps (read-Keeps _) λ now.
        bind-Keeps (lift-Keeps (prepare to_upper ports quotes tariffs cmd now)) λ made.
          pull-Keeps λ e.
            then-Keeps
              (start-Keeps made.2 made.1
                (prepare-created to_upper ports quotes tariffs cmd now made.0 made.1 made.2 e))
              (bind-Keeps (pay-Keeps made.2 cmd) λ paid.
                bind-Keeps (attempt-Keeps (call-Keeps _))
                  λ removed. pure-Keeps _ (Ends-both removed))

  pub cancel_order-Safe :
      (principal : Principal) (raw reason : Text)
      → Safe (cancel_order d reasons principal raw reason)
  unfolding cancel_order
  cancel_order-Safe principal raw reason =
      with_id-Keeps (parse_id raw) (fail-Keeps _ (λ _ p. p)) λ id. bind-Keeps (read-Keeps _) λ now.
        bind-Keeps (read-Keeps _) λ reference.
          then-Keeps
            (weaken-Keeps
              (mutate_both-Keeps id (cancelling d reasons principal reason reference now) Any Any
                (λ o p s t a f e.
                  (cancelling-Agree d reasons id o s a principal reason reference now p t e, tt)))
              (about id) (λ _ _ p. p.0) (λ _ p. p.0))
            (bind-Keeps (attempt-Keeps (run-Safe d rounds id)) λ ran. pure-Keeps tt (Ends-both ran))

  renew_payment-Safe : (saga : CheckoutSaga) → Safe (renew_payment d reasons saga)
  unfolding renew_payment
  renew_payment-Safe saga = bind-Keeps (read-Keeps _) λ payment. bind-Keeps (call-Keeps _) λ answer.
      bind-Keeps (lift-Keeps (checked (ok answer))) λ created. pull-Keeps λ _.
        bind-Keeps (read-Keeps _) λ now.
          bind-Keeps
            (attempt-Keeps (
              weaken-Keeps
                (mutate_both-Keeps saga.order_id (repaying d reasons created.payment_id now) Any Any
                  (λ o p s t a f e. (
                    repaying-Agree d reasons saga.order_id o s a created.payment_id now p t e,
                    tt,
                  )))
                (about saga.order_id) (λ _ _ p. p.0) (λ _ p. p.0)))
            λ changed.
              cases-Keeps changed (λ _. pure-Keeps _ (λ _ p. p))
                λ e.
                  bind-Keeps (attempt-Keeps (call-Keeps _))
                    λ undone. fail-Keeps _ (Ends-both undone)

  retry_with-Safe :
      (how : Retry) (saga : CheckoutSaga) (info : PaymentInfo)
      → Safe (retry_with d reasons how saga info)
  retry_with-Safe keeps saga info = pure-Keeps _ (λ _ p. p)
  retry_with-Safe renews saga info = renew_payment-Safe saga
  retry_with-Safe refuses saga info = fail-Keeps _ (λ _ p. p)

  pub retry_payment-Safe :
      (principal : Principal) (found : Option CheckoutSaga)
      → Safe (retry_payment d reasons principal found)
  unfolding retry_payment
  retry_payment-Safe principal none = fail-Keeps _ (λ _ p. p)
  retry_payment-Safe principal (some saga) =
      if-Keeps (not (text_eq saga.buyer_id principal.user_id)) (fail-Keeps _ (λ _ p. p)) (
        bind-Keeps (read-Keeps _) λ now.
          then-Keeps (weaken-Keeps (lift-Keeps _) (λ _ p. p) (λ _ _ p. p.1) (λ _ p. p))
            (bind-Keeps (call-Keeps _) λ info. retry_with-Safe _ saga info))

  pub resume_saga-Safe :
      (principal : Principal) (raw : Text) → Safe (resume_saga d reasons principal raw)
  unfolding resume_saga
  resume_saga-Safe principal raw =
      then-Keeps (weaken-Keeps (lift-Keeps _) (λ _ p. p) (λ _ _ p. p.1) (λ _ p. p)) (
        with_id-Keeps (parse_id raw) (fail-Keeps _ (λ _ p. p)) λ id.
          bind-Keeps (read-Keeps _) λ now.
            then-Keeps
              (weaken-Keeps
                (mutate_saga-Keeps id _ Any (λ _. Any)
                  (λ o s t x a f e. (resume-Agree id o s a now t (saved-eq-ok _ e), tt)))
                (about id) (λ _ _ p. p.0) (λ _ p. p.0))
              (run-Safe d rounds id))
