-- ===== src/Ordering/Checkout/Loop.antt =====
-- The `for` of `Compensator.Run` without fuel (internal/ordering/application/command/compensation.go), and
-- the loop on fuel beside it.
use go_marketplace_backend.Base.{
  ℕ, zero, suc, ◌≤◌, ◌<◌, ◌≡◌, refl, sym, ap, ◌∙◌, subst, List, [], ◌∷◌, some, Result, ok, err,
  arith, inl, inr, length, Option-cases, Result-cases,
}
use go_marketplace_backend.Kernel.Identifier.{Ident}
use go_marketplace_backend.Ordering.Saga.{CheckoutSaga, Step, pending}
use go_marketplace_backend.Ordering.Saga.Compensation.{pending_compensating}
use go_marketplace_backend.Ordering.Checkout.{
  Fails, Dependencies, World, M, pure, attempt, ◌>>=◌, ◌>>◌, load_saga,
}
use go_marketplace_backend.Ordering.Checkout.Compensation.{execute, record_step, round, run, rounds}
use go_marketplace_backend.Ordering.Checkout.Stores.{Holds, IsConsistent, Ends, paired_saga}
use go_marketplace_backend.Ordering.Checkout.Rules.{Keeps, bind-Keeps, attempt-Keeps}
use go_marketplace_backend.Ordering.Checkout.Transactions.{load_saga-none, load_saga-some}
use go_marketplace_backend.Ordering.Checkout.Undo.{Stored, execute-Keeps}
use go_marketplace_backend.Ordering.Checkout.Rounds.{
  after, Left, left_short, length-pending, some-injective, record_step-left, run-none, run-some,
}

module _ {W : Type 0} (d : Dependencies W) where
  -- What the loop does in one pass on the first pending step: the step, and the record of its answer.
  unfoldable pub pass : Ident → CheckoutSaga → Step → M W (Unit {0})
  pass id saga step = do answer ← attempt (execute d saga step); record_step d id step answer

  -- `Loop id w out`: the loop, entered in the world `w`, is left with the answer and the world `out`. A loop
  -- that is never left has no derivation.
  pub data Loop (id : Ident) : World W → Result Fails (Unit {0}) × World W → Type 0 where
    unloaded : {w v : World W} {e : Fails} → load_saga id w ≡ (err e, v) → Loop id w (err e, v)
    finished :
        {w v : World W} {s : CheckoutSaga}
        → load_saga id w ≡ (ok s, v)
        → pending s ≡ []
        → Loop id w (ok tt, v)
    stopped :
        {w v u : World W} {s : CheckoutSaga} {x : Step} {xs : List Step} {e : Fails}
        → load_saga id w ≡ (ok s, v)
        → pending s ≡ x ∷ xs
        → pass id s x v ≡ (err e, u)
        → Loop id w (err e, u)
    again :
        {w v u : World W} {s : CheckoutSaga} {x : Step} {xs : List Step}
        {out : Result Fails (Unit {0}) × World W}
        → load_saga id w ≡ (ok s, v)
        → pending s ≡ x ∷ xs
        → pass id s x v ≡ (ok tt, u)
        → Loop id u out
        → Loop id w out

  pass-Left :
      (saga : CheckoutSaga) (x : Step) (xs : List Step)
      → pending saga ≡ x ∷ xs
      → Keeps
          (Holds saga.order_id (Stored saga))
          (pass saga.order_id saga x)
          (λ _. Holds saga.order_id (Left xs))
          (λ _. Unit {0})
  unfolding pass
  pass-Left saga x xs e =
      bind-Keeps (attempt-Keeps (execute-Keeps d saga (pending_compensating x xs saga e) x))
        λ answer. record_step-left d saga x xs answer e

  round-pass :
      (id : Ident) (s : CheckoutSaga) (x : Step) (xs : List Step) (next : M W (Unit {0}))
      (w : World W)
      → round d id s next (x ∷ xs) w ≡ after (λ _. next) (pass id s x w)
  unfolding pass after ◌>>=◌ ◌>>◌ attempt
  round-pass id s x xs next w = refl

  pass_ok :
      (id : Ident) (s : CheckoutSaga) (x : Step) (xs : List Step) (w v : World W)
      → s.order_id ≡ id
      → pending s ≡ x ∷ xs
      → Holds id (Stored s) w.store
      → pass id s x w ≡ (ok tt, v)
      → Holds id (Left xs) v.store
  pass_ok id s x xs w v key e h h1 =
      subst
        (λ (y : Result Fails (Unit {0}) × World W).
          Ends (λ _. Holds id (Left xs)) (λ _. Unit {0}) y.0 y.1.store)
        h1
        ((subst
            (λ k. Keeps (Holds k (Stored s)) (pass k s x) (λ _. Holds k (Left xs)) (λ _. Unit {0}))
            key (pass-Left s x xs e)).ends
          w h)

  rounds-Loop :
      (fuel : ℕ) (id : Ident) (s : CheckoutSaga) (steps : List Step) (w : World W)
      → load_saga id w ≡ (ok s, w)
      → s.order_id ≡ id
      → pending s ≡ steps
      → Holds id (Stored s) w.store
      → ((x : Step) (xs : List Step) (v : World W)
          → steps ≡ x ∷ xs
          → Holds id (Left xs) v.store
          → Loop id v (run d fuel id v))
      → Loop id w (round d id s (run d fuel id) steps w)
  unfolding pure after
  rounds-Loop fuel id s [] w l key e h later = finished l e
  rounds-Loop fuel id s (x ∷ xs) w l key e h later = elim (Result-cases (pass id s x w).0) [
    | inl (tt, f) ↦
        let v = (pass id s x w).1 in
        let done : pass id s x w ≡ (ok tt, v) = ap (λ (r : Result Fails (Unit {0})). (r, v)) f in
        subst (Loop id w)
          (sym (round-pass id s x xs (run d fuel id) w ∙ ap (after (λ _. run d fuel id)) done))
          (again l e done (later x xs v refl (pass_ok id s x xs w v key e h done)))
    | inr (y, f) ↦
        let v = (pass id s x w).1 in
        let left : pass id s x w ≡ (err y, v) = ap (λ (r : Result Fails (Unit {0})). (r, v)) f in
        subst (Loop id w)
          (sym (round-pass id s x xs (run d fuel id) w ∙ ap (after (λ _. run d fuel id)) left))
          (stopped l e left)
  ]

  Loop-from :
      (n fuel : ℕ) (id : Ident) (w : World W)
      → IsConsistent w.store
      → ((s : CheckoutSaga) → w.store.sagas id ≡ some s → length (pending s) ≤ n)
      → n < fuel
      → Loop id w (run d fuel id w)
  Loop-from n zero id w c short h = absurd (omega arith)
  Loop-from n (suc fuel) id w c short h = elim (Option-cases (w.store.sagas id)) [
    | inl e ↦ subst (Loop id w) (sym (run-none d fuel id w e)) (unloaded (load_saga-none id w e))
    | inr (s, e) ↦
        let (o, f, a) = paired_saga id w.store s c e in
        subst (Loop id w) (sym (run-some d fuel id w s e)) (
          rounds-Loop fuel id s (pending s) w (load_saga-some id w s e) a.saga_key refl
            (c, λ p t hp ht. some-injective (sym ht ∙ e))
            (λ x xs v g l.
              let bound = short s e in
              let len : length (pending s) ≡ suc (length xs) = ap length g in
              Loop-from (length xs) fuel id v l.0 (λ t ht. left_short id v.store t xs l ht)
                (omega arith)))
  ]

  -- On consistent stores the compensator's loop is left, whatever the other contexts answer, and with fuel
  -- for five rounds or more the loop on fuel gives the very answer and world that it is left with.
  pub run-Loop :
      (fuel : ℕ) (id : Ident) (w : World W)
      → IsConsistent w.store
      → rounds ≤ fuel
      → Loop id w (run d fuel id w)
  run-Loop fuel id w c h = Loop-from 4 fuel id w c (λ s e. length-pending s) (omega arith)
