-- ===== src/Ordering/Checkout/Closing.antt =====
-- How the compensator ends (internal/ordering/application/command/compensation.go: `Run`, `Abort`).
use go_marketplace_backend.Base.{
  ℕ, zero, suc, ◌≡◌, ◌≢◌, refl, sym, ◌∙◌, subst, true, List, [], ◌∷◌, some, Result, ok, arith, inl,
  inr, Option-cases,
}
use go_marketplace_backend.Base.Text.{Text}
use go_marketplace_backend.Kernel.Identifier.{Ident}
use go_marketplace_backend.Ordering.Types.{Order}
use go_marketplace_backend.Ordering.Saga
use go_marketplace_backend.Ordering.Saga.{CheckoutSaga, SagaStatus, Step, pending, is_nil}
use go_marketplace_backend.Ordering.Saga.Compensation.{pending_compensating}
use go_marketplace_backend.Ordering.Checkout.{Fails, Store, Dependencies, World, M, wrap}
use go_marketplace_backend.Ordering.Checkout.Compensation.{round, run, rounds, abort}
use go_marketplace_backend.Ordering.Checkout.Agreement.{Agree, is_closed, begin_compensation-Agree}
use go_marketplace_backend.Ordering.Checkout.Pairs.{closing_pending, closing_left, saved-eq-ok}
use go_marketplace_backend.Ordering.Checkout.Stores.{Holds, IsConsistent, Ends, paired_saga}
use go_marketplace_backend.Ordering.Checkout.Rules.{
  Keeps, bind-Keeps, attempt-Keeps, then-Keeps, fail-Keeps, pure-Keeps, read-Keeps, weaken-Keeps,
}
use go_marketplace_backend.Ordering.Checkout.Transactions.{mutate_saga-Keeps}
use go_marketplace_backend.Ordering.Checkout.Undo.{execute-Keeps}
use go_marketplace_backend.Ordering.Checkout.Rounds.{
  Undoing, some-injective, record_step-left, run-none, run-some,
}

-- The saga is compensated, and its order is cancelled or failed.
abbrev pub IsClosed : Ident → Store → Type 0
IsClosed id st =
    (o : Order) × (s : CheckoutSaga) × (st.orders id ≡ some o)
    × (st.sagas id ≡ some s)
    × (s.status ≡ SagaStatus.compensated)
    × (is_closed o.status ≡ true)

compensated_closed :
    (id : Ident) (o : Order) (s : CheckoutSaga)
    → Agree id o s
    → s.status ≡ SagaStatus.compensated
    → is_closed o.status ≡ true
compensated_closed id o s a c = ground (arith, a, c)

-- Nothing is pending of a saga that compensates or has compensated: it has compensated.
nothing_pending :
    (id : Ident) (o : Order) (s : CheckoutSaga)
    → Agree id o s
    → Undoing o s
    → pending s ≡ []
    → s.status ≡ SagaStatus.compensated
nothing_pending id o s a (inr c) e = c
nothing_pending id o s a (inl c) e =
    let left = closing_pending s c (closing_left id o s a c) in ground (arith, e, left)

pub nothing_left :
    (id : Ident) (saga : CheckoutSaga) (st : Store)
    → pending saga ≡ []
    → Holds id Undoing st
    → st.sagas id ≡ some saga
    → IsClosed id st
nothing_left id saga st e h g =
    let (o, f, a) = paired_saga id st saga h.0 g in
    let c = nothing_pending id o saga a (h.1 o saga f g) e in
    (o, saga, f, g, c, compensated_closed id o saga a c)

module _ {W : Type 0} (d : Dependencies W) where
  round-IsClosed :
      (saga : CheckoutSaga) (next : M W (Unit {0})) (steps : List Step)
      → pending saga ≡ steps
      → Keeps (Holds saga.order_id Undoing) next (λ _. IsClosed saga.order_id) (λ _. Unit {0})
      → Keeps
          (λ st. Holds saga.order_id Undoing st × (st.sagas saga.order_id ≡ some saga))
          (round d saga.order_id saga next steps)
          (λ _. IsClosed saga.order_id)
          (λ _. Unit {0})
  round-IsClosed saga next [] e later =
      pure-Keeps tt (λ st p. nothing_left saga.order_id saga st e p.0 p.1)
  round-IsClosed saga next (step ∷ steps) e later =
      let c = pending_compensating step steps saga e in
      bind-Keeps
        (weaken-Keeps (attempt-Keeps {F = λ _. Unit {0}} (execute-Keeps d saga c step))
          (λ st p. (p.0.0, λ o s ho hs. some-injective (sym hs ∙ p.1))) (λ _ _ p. p) (λ _ p. p))
        λ answer. then-Keeps (record_step-left d saga step steps answer e) (
          weaken-Keeps later (λ st p. (p.0, λ o s ho hs. (p.1 o s ho hs).1)) (λ _ _ p. p)
            (λ _ p. p))

  run-IsClosed :
      (fuel : ℕ) (id : Ident)
      → Keeps (Holds id Undoing) (run d fuel id) (λ _. IsClosed id) (λ _. Unit {0})
  unfolding run
  run-IsClosed zero id = fail-Keeps _ (λ _ _. tt)
  run-IsClosed (suc fuel) id = record {
    ends = λ w p. elim (Option-cases (w.store.sagas id)) [
      | inl e ↦ rw (run-none d fuel id w e) tt
      | inr (s, e) ↦
          let (o, f, a) = paired_saga id w.store s p.0 e in
          rw (run-some d fuel id w s e) (
            (subst
                (λ k.
                  Keeps (λ st. Holds k Undoing st × (st.sagas k ≡ some s))
                    (round d k s (run d fuel id) (pending s)) (λ _. IsClosed k) (λ _. Unit {0}))
                a.saga_key
                (round-IsClosed s (run d fuel id) (pending s) refl (
                  subst
                    (λ k. Keeps (Holds k Undoing) (run d fuel id) (λ _. IsClosed k) (λ _. Unit {0}))
                    (sym a.saga_key) (run-IsClosed fuel id)))).ends
              w (p, e))
    ];
  }

-- The compensation of a saga that is neither completed nor given to an operator.
abbrev pub IsAbortable : CheckoutSaga → Type 0
IsAbortable s = (s.status ≢ SagaStatus.completed) × (s.status ≢ SagaStatus.manual)

pub begin_compensation-Undoing :
    (o : Order) (s t : CheckoutSaga) (reason reference : Text) (now : ℕ)
    → IsAbortable s
    → wrap (Saga.begin_compensation reason reference now s) ≡ ok t
    → Undoing o t
unfolding Saga.begin_compensation
begin_compensation-Undoing o s t reason reference now h e = ground (arith, h, e)

at_ok :
    {A : Type 0} (Q : A → Store → Type 0) (E : Store → Type 0) (r : Result Fails A) (st : Store)
    (a : A)
    → Ends Q E r st
    → r ≡ ok a
    → Q a st
at_ok Q E r st a h e = subst (λ x. Ends Q E x st) e h

module _ {W : Type 0} (d : Dependencies W) where
  abort-IsClosed :
      (id : Ident) (reason : Text)
      → Keeps
          (Holds id (λ o s. IsAbortable s))
          (abort d id reason)
          (λ _. IsClosed id)
          (λ _. Unit {0})
  unfolding abort
  abort-IsClosed id reason = bind-Keeps (read-Keeps _) λ now. bind-Keeps (read-Keeps _) λ reference.
      then-Keeps
        (weaken-Keeps
          (mutate_saga-Keeps id _ (λ o s. IsAbortable s) (λ _. Undoing)
            (λ o s t x a f e.
              let began = saved-eq-ok _ e in
              (
                begin_compensation-Agree id o s a reason reference now t f.0 began,
                begin_compensation-Undoing o s t reason reference now f began,
              )))
          (λ _ p. p) (λ _ _ p. p) (λ _ _. tt))
        (run-IsClosed d rounds id)

  -- On consistent stores, whatever the other contexts answer: when the abort of a checkout whose saga is
  -- stored, and neither completed nor left to an operator, answers without an error, the saga is stored
  -- as compensated, and its order is stored as cancelled or failed.
  pub abort_closes :
      (id : Ident) (reason : Text) (w : World W) (s : CheckoutSaga)
      → IsConsistent w.store
      → w.store.sagas id ≡ some s
      → s.status ≢ SagaStatus.completed
      → s.status ≢ SagaStatus.manual
      → (abort d id reason w).0 ≡ ok tt
      → IsClosed id (abort d id reason w).1.store
  abort_closes id reason w s c e h k ended =
      at_ok (λ _. IsClosed id) (λ _. Unit {0}) _ _ tt
        ((abort-IsClosed id reason).ends w
          (c, λ o t ho ht. subst IsAbortable (some-injective (sym e ∙ ht)) (h, k)))
        ended
