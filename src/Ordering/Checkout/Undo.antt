-- ===== src/Ordering/Checkout/Undo.antt =====
-- The compensator (internal/ordering/application/command/compensation.go) and the stored orders and sagas.
use go_marketplace_backend.Base.{
  ℕ, ◌≡◌, refl, ap, ◌∙◌, subst, true, false, none, Result, ok, arith, inl, inr, ◌⊎◌, Bool-cases,
  ok-injective, List, ◌∷◌,
}
use go_marketplace_backend.Base.Text.{Text}
use go_marketplace_backend.Kernel.Identifier.{Ident}
use go_marketplace_backend.Ordering.Types.{Order}
use go_marketplace_backend.Ordering.Status.{can_transition_to, transitions, valid_actor}
use go_marketplace_backend.Ordering.Order
use go_marketplace_backend.Ordering.Saga.{
  CheckoutSaga, SagaStatus, Step, close_order, at_step, pending,
}
use go_marketplace_backend.Ordering.Checkout.{Fails, wrap, Store, Dependencies, PaymentInfo}
use go_marketplace_backend.Ordering.Checkout.Compensation.{
  Settling, by_cancel, by_refund, nothing, settling, cancel_or_refund, settle_status,
  settle_payment, restore_stock, return_reserved, closing, close_failed, execute, record_step,
  is_open,
}
use go_marketplace_backend.Ordering.Checkout.Agreement.{
  Agree, is_closed, fail-Agree, fail_compensation-Agree,
}
use go_marketplace_backend.Ordering.Checkout.Pairs.{at_close, compensate-Agree}
use go_marketplace_backend.Ordering.Checkout.Stores.{
  Fact, Holds, IsConsistent, Ends-IsConsistent, Ends,
}
use go_marketplace_backend.Ordering.Checkout.Rules.{
  Keeps, call-Keeps, bind-Keeps, attempt-Keeps, cases-Keeps, pure-Keeps, fail-Keeps, read-Keeps,
  if-Keeps, weaken-Keeps,
}
use go_marketplace_backend.Ordering.Checkout.Transactions.{mutate_saga-Keeps, mutate_order_total}

-- The steps that only call other contexts change nothing that is stored.
module _ {W : Type 0} (d : Dependencies W) {P : Store → Type 0} where
  cancel_or_refund-Keeps :
      (saga : CheckoutSaga) (info : PaymentInfo) → Keeps P (cancel_or_refund d saga info) (λ _. P) P
  cancel_or_refund-Keeps saga info = bind-Keeps (attempt-Keeps (call-Keeps _)) λ answer.
      cases-Keeps answer (λ _. pure-Keeps tt (λ _ p. p))
        λ e. if-Keeps _ (call-Keeps _) (fail-Keeps e (λ _ p. p))

  settle_status-Keeps :
      (how : Settling) (saga : CheckoutSaga) (info : PaymentInfo)
      → Keeps P (settle_status d how saga info) (λ _. P) P
  settle_status-Keeps by_cancel saga info = cancel_or_refund-Keeps saga info
  settle_status-Keeps by_refund saga info = call-Keeps _
  settle_status-Keeps nothing saga info = pure-Keeps tt (λ _ p. p)

  settle_payment-Keeps : (saga : CheckoutSaga) → Keeps P (settle_payment d saga) (λ _. P) P
  unfolding settle_payment
  settle_payment-Keeps saga = bind-Keeps (attempt-Keeps (call-Keeps _)) λ answer.
      cases-Keeps answer (λ info. settle_status-Keeps (settling info.status) saga info)
        λ e. if-Keeps _ (pure-Keeps tt (λ _ p. p)) (fail-Keeps e (λ _ p. p))

  restore_stock-Keeps : (reservation : Text) → Keeps P (restore_stock d reservation) (λ _. P) P
  restore_stock-Keeps reservation = bind-Keeps (attempt-Keeps (call-Keeps _)) λ answer.
      cases-Keeps answer (λ _. pure-Keeps tt (λ _ p. p))
        λ e. if-Keeps _ (pure-Keeps tt (λ _ p. p)) (fail-Keeps e (λ _ p. p))

  return_reserved-Keeps : (reservation : Text) → Keeps P (return_reserved d reservation) (λ _. P) P
  unfolding return_reserved
  return_reserved-Keeps reservation = bind-Keeps (attempt-Keeps (call-Keeps _)) λ answer.
      cases-Keeps answer (λ _. pure-Keeps tt (λ _ p. p))
        λ e.
          if-Keeps _ (pure-Keeps tt (λ _ p. p))
            (if-Keeps _ (fail-Keeps e (λ _ p. p)) (restore_stock-Keeps reservation))

-- The saga that is stored is this one.
abbrev pub Stored : CheckoutSaga → Fact
Stored saga o s = s ≡ saga

-- What is done of a step: after the last the order is closed.
abbrev pub Done : CheckoutSaga → Step → Fact
Done saga step o s = (s ≡ saga) × ((at_close step ≡ false) ⊎ (is_closed o.status ≡ true))

-- Of an order that is not stored anything holds.
pub absent :
    (id : Ident) (F : Fact) (st : Store) → IsConsistent st × (st.orders id ≡ none) → Holds id F st
absent id F st p = (p.0, λ o s ho hs. absurd (cc (ho, p.1)))

fail_total :
    (o : Order) (reason : Text) (now : ℕ)
    → is_open o.status ≡ true
    → (p : Order) × (wrap (Order.fail reason now o) ≡ ok p)
unfolding Order.fail Order.transition can_transition_to transitions valid_actor
fail_total o reason now h = ((Order.fail reason now o).0, ground (arith, h))

-- An order that agrees with a compensating saga can be closed.
pub closing_total :
    (id : Ident) (o : Order) (s saga : CheckoutSaga) (now : ℕ)
    → Agree id o s
    → saga.status ≡ SagaStatus.compensating
    → s ≡ saga
    → (p : Order) × (closing saga now o ≡ ok p) × Agree id p s × Done saga close_order p s
closing_total id o s saga now a c e = elim (Bool-cases (is_open o.status)) [
  | inl opened ↦
      let (p, f) = fail_total o saga.reason now opened in
      let (b, k) =
        subst (λ t. Agree id p s × (is_closed p.status ≡ true)) e
          (fail-Agree id o s a saga.reason now p (ap (λ (t : CheckoutSaga). t.status) e ∙ c) opened
            f) in
      (p, rw opened f, b, (e, inr k))
  | inr shut ↦ (o, rw shut, a, (e, inr (ground (arith, shut, a, c, e))))
]

module _ {W : Type 0} (d : Dependencies W) (saga : CheckoutSaga)
    (c : saga.status ≡ SagaStatus.compensating) where
  close_failed-Keeps :
      Keeps
        (Holds saga.order_id (Stored saga))
        (close_failed d saga)
        (λ _. Holds saga.order_id (Done saga close_order))
        (Holds saga.order_id (Stored saga))
  unfolding close_failed
  close_failed-Keeps = bind-Keeps (read-Keeps _) λ now.
      bind-Keeps
        (attempt-Keeps (
          mutate_order_total saga.order_id (closing saga now) (Stored saga) (Done saga close_order)
            (λ o s a e. closing_total saga.order_id o s saga now a c e)))
        λ answer.
          cases-Keeps answer (λ _. pure-Keeps tt (λ _ p. p))
            λ e. if-Keeps _ (pure-Keeps tt (absent _ _)) (fail-Keeps e (absent _ _))

  pub undone_step :
      (step : Step) (st : Store)
      → at_close step ≡ false
      → Holds saga.order_id (Stored saga) st
      → Holds saga.order_id (Done saga step) st
  undone_step step st h p = (p.0, λ o s ho hs. (p.1 o s ho hs, inl h))

  pub execute-Keeps :
      (step : Step)
      → Keeps
          (Holds saga.order_id (Stored saga))
          (execute d saga step)
          (λ _. Holds saga.order_id (Done saga step))
          (Holds saga.order_id (Stored saga))
  unfolding execute at_step
  execute-Keeps Step.refund_payment =
      weaken-Keeps (settle_payment-Keeps d saga) (λ _ p. p)
        (λ _ st. undone_step Step.refund_payment st refl) (λ _ p. p)
  execute-Keeps Step.cancel_payment =
      weaken-Keeps (settle_payment-Keeps d saga) (λ _ p. p)
        (λ _ st. undone_step Step.cancel_payment st refl) (λ _ p. p)
  execute-Keeps Step.return_stock =
      weaken-Keeps (return_reserved-Keeps d saga.reservation_id) (λ _ p. p)
        (λ _ st. undone_step Step.return_stock st refl) (λ _ p. p)
  execute-Keeps Step.release_promo =
      weaken-Keeps (call-Keeps _) (λ _ p. p) (λ _ st. undone_step Step.release_promo st refl)
        (λ _ p. p)
  execute-Keeps Step.close_order = close_failed-Keeps
  execute-Keeps Step.stock_reserved = fail-Keeps _ (λ _ p. p)
  execute-Keeps Step.promo_redeemed = fail-Keeps _ (λ _ p. p)
  execute-Keeps Step.awaiting_payment = fail-Keeps _ (λ _ p. p)
  execute-Keeps Step.committing_stock = fail-Keeps _ (λ _ p. p)
  execute-Keeps Step.stock_committed = fail-Keeps _ (λ _ p. p)
  execute-Keeps Step.payment_captured = fail-Keeps _ (λ _ p. p)
  execute-Keeps Step.all_done = fail-Keeps _ (λ _ p. p)

  compensating_as : (s : CheckoutSaga) → s ≡ saga → s.status ≡ SagaStatus.compensating
  compensating_as s e = ap (λ (t : CheckoutSaga). t.status) e ∙ c

  pub record_step-Keeps :
      (step : Step) (steps : List Step) (answer : Result Fails (Unit {0}))
      → pending saga ≡ step ∷ steps
      → Keeps
          (Ends
            (λ _. Holds saga.order_id (Done saga step))
            (Holds saga.order_id (Stored saga))
            answer)
          (record_step d saga.order_id step answer)
          (λ _. IsConsistent)
          IsConsistent
  unfolding record_step
  record_step-Keeps step steps answer first = bind-Keeps (read-Keeps _) λ now.
      cases-Keeps answer
        (λ _.
          weaken-Keeps
            (mutate_saga-Keeps saga.order_id _ (Done saga step) (λ _ _ _. Unit {0})
              (λ o s t x a f e. (
                subst (Agree saga.order_id o)
                    (ap (λ (y : Unit {0} × CheckoutSaga). y.1) (ok-injective e))
                    (compensate-Agree saga.order_id o s step steps now a (compensating_as s f.0)
                      (ap pending f.0 ∙ first) f.1),
                tt,
              )))
            (λ _ p. p) (λ _ _ p. p.0) (λ _ p. p.0))
        λ e1.
          bind-Keeps
            (attempt-Keeps (
              mutate_saga-Keeps saga.order_id _ (Stored saga) (λ _ _ _. Unit {0})
                (λ o s t x a f e. (
                  subst (Agree saga.order_id o)
                      (ap (λ (y : Unit {0} × CheckoutSaga). y.1) (ok-injective e))
                      (fail_compensation-Agree saga.order_id o s a (d.render e1)
                        d.policy.compensation_attempts now (compensating_as s f)),
                  tt,
                ))))
            λ written. fail-Keeps _ (Ends-IsConsistent saga.order_id _ _ written)
