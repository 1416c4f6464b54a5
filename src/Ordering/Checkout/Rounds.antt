-- ===== src/Ordering/Checkout/Rounds.antt =====
-- How many rounds the compensator takes (internal/ordering/application/command/compensation.go, `Run`).
use go_marketplace_backend.Base.{
  ℕ, suc, ◌≤◌, ◌≡◌, ap, ◌∙◌, subst, List, [], ◌∷◌, Option, none, some, Result, ok, err, arith, inl,
  inr, ok-injective, length, ◌⊎◌,
}
use go_marketplace_backend.Kernel.Identifier.{Ident}
use go_marketplace_backend.Ordering.Saga
use go_marketplace_backend.Ordering.Saga.{
  CheckoutSaga, SagaStatus, Step, is_done, undone, pending, compensate,
}
use go_marketplace_backend.Ordering.Types.{Order}
use go_marketplace_backend.Ordering.Saga.Compensation.{
  pending_compensating, pending-compensate, compensate_last, compensate_next,
}
use go_marketplace_backend.Ordering.Checkout.{
  Fails, Store, Dependencies, World, M, ◌>>=◌, load_saga, saga_not_found,
}
use go_marketplace_backend.Ordering.Checkout.Compensation.{record_step, round, run}
use go_marketplace_backend.Ordering.Checkout.Agreement.{Agree}
use go_marketplace_backend.Ordering.Checkout.Pairs.{compensate-Agree}
use go_marketplace_backend.Ordering.Checkout.Stores.{Fact, Holds, Ends, paired_saga}
use go_marketplace_backend.Ordering.Checkout.Rules.{
  Keeps, bind-Keeps, attempt-Keeps, cases-Keeps, fail-Keeps, read-Keeps, weaken-Keeps,
}
use go_marketplace_backend.Ordering.Checkout.Transactions.{
  mutate_saga-Keeps, load_saga-none, load_saga-some,
}
use go_marketplace_backend.Ordering.Checkout.Undo.{Stored, Done}

unfoldable pub after :
    {W A B : Type 0} → (A → M W B) → Result Fails A × World W → Result Fails B × World W
after next x = elim x.0 [ ok a ↦ next a x.1 | err e ↦ (err e, x.1) ]

bind_at :
    {W A B : Type 0} (m : M W A) (next : A → M W B) (w : World W) {x : Result Fails A × World W}
    → m w ≡ x
    → (m >>= next) w ≡ after next x
unfolding ◌>>=◌ after
bind_at m next w e = ap (after next) e

trivial :
    {A : Type 0} (r : Result Fails A) (st : Store) → Ends (λ _ _. Unit {0}) (λ _. Unit {0}) r st
trivial (ok a) st = tt
trivial (err e) st = tt

anything :
    {W A : Type 0} {P : Store → Type 0} (m : M W A) → Keeps P m (λ _ _. Unit {0}) (λ _. Unit {0})
anything m = record { ends = λ w p. trivial (m w).0 (m w).1.store }

-- The saga compensates, or has compensated.
abbrev pub Undoing : Fact
Undoing o s = (s.status ≡ SagaStatus.compensating) ⊎ (s.status ≡ SagaStatus.compensated)

-- The steps that are left after one that has been done.
abbrev pub Left : List Step → Fact
Left steps o s = (pending s ≡ steps) × Undoing o s

pub compensate-Left :
    (o : Order) (s : CheckoutSaga) (step : Step) (steps : List Step) (now : ℕ)
    → s.status ≡ SagaStatus.compensating
    → pending s ≡ step ∷ steps
    → Left steps o (compensate step now s)
compensate-Left o s step [] now c e =
    (pending-compensate step [] now s c e, inr (compensate_last step now s c e))
compensate-Left o s step (y ∷ rest) now c e =
    let (t, p) = compensate_next step y rest now s c e in (p, inl t)

pub some-injective : {a b : CheckoutSaga} → ◌≡◌ {A = Option CheckoutSaga} (some a) (some b) → a ≡ b
some-injective h = cc

pub left_short :
    (id : Ident) (st : Store) (t : CheckoutSaga) (xs : List Step)
    → Holds id (Left xs) st
    → st.sagas id ≡ some t
    → length (pending t) ≤ length xs
left_short id st t xs l e =
    let (o, f, _) = paired_saga id st t l.0 e in
    let same : length (pending t) ≡ length xs = ap length (l.1 o t f e).0 in omega (arith, same)

length-undone : (done xs : List Step) → length (undone done xs) ≤ length xs
length-undone done [] = omega arith
length-undone done (x ∷ xs) = ground (arith, length-undone done xs)

pub length-pending : (s : CheckoutSaga) → length (pending s) ≤ 4
unfolding pending Saga.plan
length-pending s = ground (arith, length-undone s.compensations (Saga.plan s))

module _ {W : Type 0} (d : Dependencies W) where
  pub record_step-left :
      (saga : CheckoutSaga) (step : Step) (steps : List Step) (answer : Result Fails (Unit {0}))
      → pending saga ≡ step ∷ steps
      → Keeps
          (Ends
            (λ _. Holds saga.order_id (Done saga step))
            (Holds saga.order_id (Stored saga))
            answer)
          (record_step d saga.order_id step answer)
          (λ _. Holds saga.order_id (Left steps))
          (λ _. Unit {0})
  unfolding record_step
  record_step-left saga step steps answer e =
      let c = pending_compensating step steps saga e in
      bind-Keeps (read-Keeps _) λ now.
        cases-Keeps answer
          (λ _.
            weaken-Keeps
              (mutate_saga-Keeps saga.order_id _ (Done saga step) (λ _. Left steps)
                (λ o s t x a f g.
                  let written = ap (λ (y : Unit {0} × CheckoutSaga). y.1) (ok-injective g) in
                  let status = ap (λ (y : CheckoutSaga). y.status) f.0 ∙ c in
                  (
                    subst (Agree saga.order_id o) written (
                        compensate-Agree saga.order_id o s step steps now a status
                          (ap pending f.0 ∙ e) f.1),
                    subst (λ y. Left steps o y) written
                        (compensate-Left o s step steps now status (ap pending f.0 ∙ e)),
                  )))
              (λ _ p. p) (λ _ _ p. p) (λ _ p. tt))
          λ x.
            bind-Keeps (attempt-Keeps {Q = λ _ _. Unit {0}} {E = λ _. Unit {0}} (anything _))
              λ written. fail-Keeps _ (λ _ p. tt)

  pub run-none :
      (fuel : ℕ) (id : Ident) (w : World W)
      → w.store.sagas id ≡ none
      → run d (suc fuel) id w ≡ (err (saga_not_found ∷ []), w)
  unfolding run after
  run-none fuel id w e = bind_at (load_saga id) _ w (load_saga-none id w e)

  pub run-some :
      (fuel : ℕ) (id : Ident) (w : World W) (s : CheckoutSaga)
      → w.store.sagas id ≡ some s
      → run d (suc fuel) id w ≡ round d id s (run d fuel id) (pending s) w
  unfolding run after
  run-some fuel id w s e = bind_at (load_saga id) _ w (load_saga-some id w s e)
