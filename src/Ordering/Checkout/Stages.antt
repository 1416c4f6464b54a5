-- ===== src/Ordering/Checkout/Stages.antt =====
-- The stages of a checkout (internal/ordering/application/command/progress.go: `commitStock`, `capture`,
-- `complete`), on the stored orders and sagas.
use go_marketplace_backend.Base.{
  ◌≡◌, refl, sym, ap, subst, true, Option, none, some, ok, arith, inl, inr, Bool-cases,
  ok-injective,
}
use go_marketplace_backend.Base.Text.{Text}
use go_marketplace_backend.Kernel.Identifier.{Ident}
use go_marketplace_backend.Ordering.Types.{Order, OrderError}
use go_marketplace_backend.Ordering.Saga
use go_marketplace_backend.Ordering.Saga.{
  CheckoutSaga, SagaStatus, Step, at_step, committing_stock, stock_committed, payment_captured,
}
use go_marketplace_backend.Ordering.Checkout.{Fails, wrap, Store, Dependencies, M, mutate_saga}
use go_marketplace_backend.Ordering.Checkout.Progress.{
  Reasons, record_failure, aborted, failed, stepping, commit_reserved, capture_authorized,
  completing, complete_paid, at_stage, and_then, complete_last,
}
use go_marketplace_backend.Ordering.Checkout.Agreement.{
  Agree, is_late, is_taken, record_error-Agree, commit_stock-Agree, capture_payment-Agree,
}
use go_marketplace_backend.Ordering.Checkout.Pairs.{elim_ok, completing-Agree}
use go_marketplace_backend.Ordering.Checkout.Stores.{Fact, Holds, IsConsistent, paired_saga}
use go_marketplace_backend.Ordering.Checkout.Rules.{
  Keeps, call-Keeps, bind-Keeps, then-Keeps, attempt-Keeps, cases-Keeps, pure-Keeps, fail-Keeps,
  read-Keeps, if-Keeps, weaken-Keeps,
}
use go_marketplace_backend.Ordering.Checkout.Transactions.{
  mutate_saga-Keeps, mutate_saga_value, mutate_both-Keeps,
}
use go_marketplace_backend.Ordering.Checkout.Runs.{Any, Unsold, Safe, about, abort-Keeps, Ends-both}

-- The saga stands at a step at which its payment is awaited or taken.
abbrev pub Paying : Fact
Paying o s = is_late s.step ≡ true

-- The payment of the saga has been captured.
abbrev Taken : Fact
Taken o s = is_taken s.step ≡ true

taken-paying : (id : Ident) (st : Store) → Holds id Taken st → Holds id Paying st
taken-paying id st h = (h.0, λ o s ho hs. late_of s.step (h.1 o s ho hs))
  where
    late_of : (step : Step) → is_taken step ≡ true → is_late step ≡ true
    late_of step e = ground (arith, e)

-- Such a saga is not completed.
unsold : (id : Ident) (st : Store) → Holds id Paying st → Holds id Unsold st
unsold id st h = (
  h.0,
  λ o s ho hs c.
      let (p, _, a) = paired_saga id st s h.0 hs in
      let late = h.1 o s ho hs in ground (arith, a, late, c),
)

-- The saga that is stored stands at the step of this one.
abbrev pub SameStep : CheckoutSaga → Fact
SameStep saga o s = s.step ≡ saga.step

-- What is known after a stage: of an aborted checkout nothing but that all is consistent.
abbrev pub Staged : Option CheckoutSaga → Store → Type 0
Staged none st = IsConsistent st
Staged (some s) st = Holds s.order_id (SameStep s) st

paying_at :
    (r step : Step) (s : CheckoutSaga)
    → at_step r step ≡ true
    → is_late step ≡ true
    → s.step ≡ r
    → is_late s.step ≡ true
unfolding at_step
paying_at r step s here late e = ground (arith, here, late, e)

taken_at :
    (r : Step) (s : CheckoutSaga)
    → at_step r payment_captured ≡ true
    → s.step ≡ r
    → is_taken s.step ≡ true
unfolding at_step
taken_at r s here e = ground (arith, here, e)

pub loaded :
    (id : Ident) (saga : CheckoutSaga) (st : Store)
    → saga.order_id ≡ id
    → Holds id (λ o t. (t ≡ saga) × Any o t) st
    → Holds saga.order_id (SameStep saga) st
loaded id saga st key p =
    subst (λ k. Holds k (SameStep saga) st) (sym key)
      (p.0, λ o t ho ht. ap (λ (y : CheckoutSaga). y.step) (p.1 o t ho ht).0)

some-injective : {a b : CheckoutSaga} → ◌≡◌ {A = Option CheckoutSaga} (some a) (some b) → a ≡ b
some-injective h = cc

-- What the transaction of a stage gives is the saga that it stores.
abbrev KeyOf : Ident → Option CheckoutSaga → Type 0
KeyOf id none = ⊥
KeyOf id (some s) = s.order_id ≡ id

abbrev StoredAs : Option CheckoutSaga → Fact
StoredAs r o t = r ≡ some t

stepped :
    (id : Ident) (o : Order) (u t : CheckoutSaga) (x : Option CheckoutSaga)
    → Agree id o u
    → ◌≡◌ {A = Option CheckoutSaga × CheckoutSaga} (some u, u) (x, t)
    → KeyOf id x × Agree id o t × (x ≡ some t)
stepped id o u t x a e =
    subst
      (λ (y : Option CheckoutSaga × CheckoutSaga). KeyOf id y.0 × Agree id o y.1 × (y.0 ≡ some y.1))
      e (a.saga_key, a, refl)

staged :
    (id : Ident) (r : Option CheckoutSaga) (st : Store)
    → KeyOf id r × Holds id (StoredAs r) st
    → Staged r st
staged id none st p = absurd p.0
staged id (some s) st p =
    subst (λ k. Holds k (SameStep s) st) (sym p.0)
      (
        p.1.0,
        λ o t ho ht. ap (λ (y : CheckoutSaga). y.step) (some-injective (sym (p.1.1 o t ho ht))),
      )

module _ {W : Type 0} (d : Dependencies W) (reasons : Reasons) where
  record_failure-Safe : (id : Ident) (cause : Fails) → Safe (record_failure d reasons id cause)
  unfolding record_failure
  record_failure-Safe id cause = bind-Keeps (read-Keeps _) λ now.
      bind-Keeps
        (attempt-Keeps (
          weaken-Keeps
            (mutate_saga-Keeps id _ Any (λ _. Any)
              (λ o s t x a f e. (
                subst (Agree id o) (ap (λ (y : Unit {0} × CheckoutSaga). y.1) (ok-injective e))
                    (record_error-Agree id o s a (d.render cause) now),
                tt,
              )))
            (about id) (λ _ _ p. p.0) (λ _ p. p.0)))
        λ written. fail-Keeps _ (Ends-both written)

  aborted-Keeps :
      (id : Ident) (reason : Text)
      → Keeps (Holds id Paying) (aborted d reasons id reason) Staged IsConsistent
  aborted-Keeps id reason =
      then-Keeps (weaken-Keeps (abort-Keeps d id reason) (unsold id) (λ _ _ p. p) (λ _ p. p))
        (pure-Keeps none (λ _ p. p))

  failed-Keeps :
      (id : Ident) (cause : Fails)
      → Keeps (Holds id Paying) (failed d reasons id cause) Staged IsConsistent
  failed-Keeps id cause =
      then-Keeps (weaken-Keeps (record_failure-Safe id cause) (λ _ p. p.0) (λ _ _ p. p) (λ _ p. p))
        (pure-Keeps none (λ _ p. p))

  -- A method of the saga that moves it on from a step at which it is paid.
  stepping-Keeps :
      (id : Ident) (method : CheckoutSaga → CheckoutSaga × Option OrderError)
      → ((o : Order) (s t : CheckoutSaga)
          → Agree id o s
          → is_late s.step ≡ true
          → wrap (method s) ≡ ok t
          → Agree id o t)
      → Keeps {W = W}
          (Holds id Paying)
          (mutate_saga id (stepping d reasons method))
          Staged
          IsConsistent
  stepping-Keeps id method keep =
      weaken-Keeps
        (mutate_saga_value id (stepping d reasons method) Paying (KeyOf id) StoredAs
          (λ o s t x a f e.
            let (u, g, k) = elim_ok (wrap (method s)) _ e in
            let b = keep o s u a f g in stepped id o u t x b (ok-injective k)))
        (λ _ p. p) (staged id) (λ _ p. p.0)

  pub commit_reserved-Keeps :
      (saga : CheckoutSaga)
      → Keeps (Holds saga.order_id Paying) (commit_reserved d reasons saga) Staged IsConsistent
  unfolding commit_reserved
  commit_reserved-Keeps saga = bind-Keeps (attempt-Keeps (call-Keeps _)) λ answer.
      cases-Keeps answer
        (λ _. bind-Keeps (read-Keeps _) λ now.
          stepping-Keeps saga.order_id (Saga.commit_stock now)
            (λ o s t a h e. commit_stock-Agree saga.order_id o s a now t h e))
        λ e.
          if-Keeps _ (aborted-Keeps saga.order_id reasons.stock_invalid)
            (failed-Keeps saga.order_id e)

  pub capture_authorized-Keeps :
      (saga : CheckoutSaga)
      → Keeps (Holds saga.order_id Paying) (capture_authorized d reasons saga) Staged IsConsistent
  unfolding capture_authorized
  capture_authorized-Keeps saga = bind-Keeps (attempt-Keeps (call-Keeps _)) λ answer.
      cases-Keeps answer
        (λ _. bind-Keeps (read-Keeps _) λ now.
          stepping-Keeps saga.order_id (Saga.capture_payment now)
            (λ o s t a h e. capture_payment-Agree saga.order_id o s a now t h e))
        λ e.
          if-Keeps _ (aborted-Keeps saga.order_id reasons.capture_rejected)
            (failed-Keeps saga.order_id e)

  complete_paid-Keeps :
      (saga : CheckoutSaga)
      → Keeps
          (Holds saga.order_id Taken)
          (complete_paid d reasons saga)
          (λ _. IsConsistent)
          IsConsistent
  unfolding complete_paid
  complete_paid-Keeps saga = bind-Keeps (read-Keeps _) λ now.
      bind-Keeps
        (attempt-Keeps (
          weaken-Keeps
            (mutate_both-Keeps saga.order_id (completing d reasons now) Taken Any
              (λ o p s t a f e. (completing-Agree d reasons saga.order_id o s a now p t f e, tt)))
            (λ _ p. p) (λ _ _ p. p)
            (λ st p. unsold saga.order_id st (taken-paying saga.order_id st p))))
        λ answer.
          cases-Keeps answer (λ _. pure-Keeps tt (λ _ p. p.0))
            λ e.
              if-Keeps _ (abort-Keeps d saga.order_id reasons.not_payable)
                (fail-Keeps e (λ _ p. p.0))

  -- A stage that runs at a step at which the payment is taken.
  pub at_stage-Keeps :
      (step : Step) (stage : CheckoutSaga → M W (Option CheckoutSaga)) (r : CheckoutSaga)
      → is_late step ≡ true
      → Keeps (Holds r.order_id Paying) (stage r) Staged IsConsistent
      → Keeps (Holds r.order_id (SameStep r)) (at_stage d reasons step stage r) Staged IsConsistent
  unfolding at_step
  at_stage-Keeps step stage r late h = elim (Bool-cases (at_step r.step step)) [
    | inl here ↦ rw here (
        weaken-Keeps h
          (λ _ p. (p.0, λ o s ho hs. paying_at r.step step s here late (p.1 o s ho hs)))
          (λ _ _ p. p) (λ _ p. p))
    | inr other ↦ rw other (pure-Keeps (some r) (λ _ p. p))
  ]

  pub and_then-Keeps :
      (r : Option CheckoutSaga) (stage : CheckoutSaga → M W (Option CheckoutSaga))
      → ((s : CheckoutSaga) → Keeps (Holds s.order_id (SameStep s)) (stage s) Staged IsConsistent)
      → Keeps (Staged r) (and_then d reasons r stage) Staged IsConsistent
  and_then-Keeps none stage h = pure-Keeps none (λ _ p. p)
  and_then-Keeps (some s) stage h = h s

  pub complete_last-Keeps :
      (r : Option CheckoutSaga)
      → Keeps (Staged r) (complete_last d reasons r) (λ _. IsConsistent) IsConsistent
  unfolding at_step
  complete_last-Keeps none = pure-Keeps tt (λ _ p. p)
  complete_last-Keeps (some r) = elim (Bool-cases (at_step r.step payment_captured)) [
    | inl here ↦ rw here (
        weaken-Keeps (complete_paid-Keeps r)
          (λ _ p. (p.0, λ o s ho hs. taken_at r.step s here (p.1 o s ho hs))) (λ _ _ p. p)
          (λ _ p. p))
    | inr other ↦ rw other (pure-Keeps tt (λ _ p. p.0))
  ]
