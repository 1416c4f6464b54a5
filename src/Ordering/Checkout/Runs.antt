-- ===== src/Ordering/Checkout/Runs.antt =====
-- The compensator's loop and the handlers that begin it (internal/ordering/application/command:
-- compensation.go), on the stored orders and sagas.
use go_marketplace_backend.Base.{
  ℕ, zero, suc, ◌≡◌, ◌≢◌, refl, subst, true, List, [], ◌∷◌, Result, ok, err, arith, inl, inr,
  Bool-cases, not,
}
use go_marketplace_backend.Base.Text.{Text}
use go_marketplace_backend.Kernel.Identifier.{Ident}
use go_marketplace_backend.Ordering.Types.{Order}
use go_marketplace_backend.Ordering.Saga.{CheckoutSaga, SagaStatus, Step, pending, is_expired}
use go_marketplace_backend.Ordering.Saga.Compensation.{pending_compensating}
use go_marketplace_backend.Ordering.Checkout.{Fails, Store, Dependencies, M, for_each, joined}
use go_marketplace_backend.Ordering.Checkout.Compensation.{
  round, run, rounds, abort, expiring, expire_checkout, expire_checkouts, run_compensations,
}
use go_marketplace_backend.Ordering.Checkout.Agreement.{Agree, begin_compensation-Agree}
use go_marketplace_backend.Ordering.Checkout.Pairs.{saved-eq-ok, fail_cases}
use go_marketplace_backend.Ordering.Checkout.Stores.{Fact, Holds, IsConsistent, Ends}
use go_marketplace_backend.Ordering.Checkout.Rules.{
  Keeps, bind-Keeps, then-Keeps, attempt-Keeps, cases-Keeps, pure-Keeps, fail-Keeps, read-Keeps,
  pull-Keeps, if-Keeps, weaken-Keeps,
}
use go_marketplace_backend.Ordering.Checkout.Transactions.{mutate_saga-Keeps, load_saga-Keeps}
use go_marketplace_backend.Ordering.Checkout.Undo.{Stored, execute-Keeps, record_step-Keeps}

-- Nothing is known of the order and the saga.
abbrev pub Any : Fact
Any o s = Unit {0}

-- A checkout that is not completed: its compensation may begin.
abbrev pub Unsold : Fact
Unsold o s = s.status ≢ SagaStatus.completed

-- A handler that keeps the stored orders and sagas consistent, whether it fails or not.
abbrev pub Safe : {W A : Type 0} → M W A → Type 0
Safe m = Keeps IsConsistent m (λ _. IsConsistent) IsConsistent

pub about : (id : Ident) (st : Store) → IsConsistent st → Holds id Any st
about id st c = (c, λ o s ho hs. tt)

-- A saga that has expired is running.
expired_running :
    (now : ℕ) (s : CheckoutSaga) → is_expired now s ≡ true → s.status ≢ SagaStatus.completed
unfolding is_expired
expired_running now s e c = ground (arith, e, c)

expiring-Agree :
    (id : Ident) (o : Order) (s t : CheckoutSaga) (reason reference : Text) (now : ℕ)
    → Agree id o s
    → expiring reason now reference s ≡ ok (tt, t)
    → Agree id o t
expiring-Agree id o s t reason reference now a e = elim (Bool-cases (is_expired now s)) [
  | inl expired ↦
      begin_compensation-Agree id o s a reason reference now t (expired_running now s expired)
        (saved-eq-ok _ (fail_cases (not (is_expired now s)) _ _ e))
  | inr early ↦ ground (arith, early, e)
]

pub Ends-both :
    {A : Type 0} (r : Result Fails A) (st : Store)
    → Ends (λ _. IsConsistent) IsConsistent r st
    → IsConsistent st
Ends-both (ok a) st h = h
Ends-both (err e) st h = h

module _ {W : Type 0} (d : Dependencies W) where
  round-Keeps :
      (saga : CheckoutSaga) (next : M W (Unit {0})) (steps : List Step)
      → pending saga ≡ steps
      → Safe next
      → Keeps
          (Holds saga.order_id (Stored saga))
          (round d saga.order_id saga next steps)
          (λ _. IsConsistent)
          IsConsistent
  round-Keeps saga next [] e safe = pure-Keeps tt (λ _ p. p.0)
  round-Keeps saga next (step ∷ steps) e safe =
      let c = pending_compensating step steps saga e in
      bind-Keeps (attempt-Keeps (execute-Keeps d saga c step))
        λ answer. then-Keeps (record_step-Keeps d saga c step steps answer e) safe

  pub run-Safe : (fuel : ℕ) (id : Ident) → Safe (run d fuel id)
  unfolding run
  run-Safe zero id = fail-Keeps _ (λ _ p. p)
  run-Safe (suc fuel) id =
      bind-Keeps (weaken-Keeps (load_saga-Keeps id Any) (about id) (λ _ _ p. p) (λ _ p. p.0))
        λ saga. pull-Keeps λ key.
          weaken-Keeps
            (subst
              (λ k.
                Keeps (Holds k (Stored saga)) (round d k saga (run d fuel id) (pending saga))
                  (λ _. IsConsistent) IsConsistent)
              key (round-Keeps saga (run d fuel id) (pending saga) refl (run-Safe fuel id)))
            (λ _ p. (p.0, λ o s ho hs. (p.1 o s ho hs).0)) (λ _ _ p. p) (λ _ p. p)

  pub abort-Keeps :
      (id : Ident) (reason : Text)
      → Keeps (Holds id Unsold) (abort d id reason) (λ _. IsConsistent) IsConsistent
  unfolding abort
  abort-Keeps id reason = bind-Keeps (read-Keeps _) λ now. bind-Keeps (read-Keeps _) λ reference.
      then-Keeps
        (weaken-Keeps
          (mutate_saga-Keeps id _ Unsold (λ _. Any)
            (λ o s t x a f e.
              (begin_compensation-Agree id o s a reason reference now t f (saved-eq-ok _ e), tt)))
          (λ _ p. p) (λ _ _ p. p.0) (λ _ p. p.0))
        (run-Safe rounds id)

  expire_checkout-Safe : (reason : Text) (id : Ident) → Safe (expire_checkout d reason id)
  unfolding expire_checkout
  expire_checkout-Safe reason id = bind-Keeps (read-Keeps _) λ now.
      bind-Keeps (read-Keeps _) λ reference.
        bind-Keeps
          (attempt-Keeps (
            weaken-Keeps
              (mutate_saga-Keeps id (expiring reason now reference) Any (λ _. Any)
                (λ o s t x a f e. (expiring-Agree id o s t reason reference now a e, tt)))
              (about id) (λ _ _ p. p.0) (λ _ p. p.0)))
          λ answer.
            cases-Keeps answer
              (λ _.
                bind-Keeps (attempt-Keeps (run-Safe rounds id)) λ ran. pure-Keeps _ (Ends-both ran))
              (λ e. if-Keeps _ (pure-Keeps [] (λ _ p. p)) (pure-Keeps e (λ _ p. p)))

pub joined-Safe : {W A : Type 0} (a : A) (e : Fails) → Safe {W = W} (joined a e)
joined-Safe a [] = pure-Keeps a (λ _ p. p)
joined-Safe a (x ∷ e) = fail-Keeps (x ∷ e) (λ _ p. p)

-- A loop of handlers that keep the store consistent.
pub for_each-Safe :
    {W : Type 0} (body : Ident → M W Fails)
    → ((id : Ident) → Safe (body id))
    → (ids : List Ident) → Safe (for_each body ids)
unfolding for_each
for_each-Safe body h [] = pure-Keeps [] (λ _ p. p)
for_each-Safe body h (id ∷ ids) =
    bind-Keeps (h id) λ e. bind-Keeps (for_each-Safe body h ids) λ rest. pure-Keeps _ (λ _ p. p)

module _ {W : Type 0} (d : Dependencies W) where
  pub expire_checkouts-Safe :
      (reason : Text) (ids : List Ident) → Safe (expire_checkouts d reason ids)
  unfolding expire_checkouts
  expire_checkouts-Safe reason ids =
      bind-Keeps (for_each-Safe _ (expire_checkout-Safe d reason) ids) λ e. joined-Safe _ e

  pub run_compensations-Safe : (ids : List Ident) → Safe (run_compensations d ids)
  unfolding run_compensations
  run_compensations-Safe ids =
      bind-Keeps
        (for_each-Safe _
          (λ id.
            bind-Keeps (attempt-Keeps (run-Safe d rounds id)) λ ran. pure-Keeps _ (Ends-both ran))
          ids)
        λ e. joined-Safe _ e
