-- ===== src/Ordering/Saga/Compensation.antt =====
-- The pending steps of a compensation (internal/ordering/domain/saga.go, `Pending` and `Compensated`).
use go_marketplace_backend.Base.{
  ℕ, ◌≡◌, refl, ◌||◌, true, false, List, [], ◌∷◌, ◌++◌, arith, Bool-cases, inl, inr, All, subst,
}
use go_marketplace_backend.Ordering.Saga.{
  CheckoutSaga, compensating, compensated, Step, at_step, is_done, undone, plan, pending,
  compensate,
}

at_step_refl : (x : Step) → at_step x x ≡ true
unfolding at_step
at_step_refl x = ground arith

pub is_done-append :
    (done : List Step) (x y : Step) → is_done (done ++ x ∷ []) y ≡ (is_done done y || at_step x y)
unfolding is_done
is_done-append [] x y = ground arith
is_done-append (d ∷ done) x y = ground (arith, is_done-append done x y)

abbrev DistinctSteps : List Step → Type 0
DistinctSteps [] = Unit
DistinctSteps (x ∷ xs) = All (λ y. at_step x y ≡ false) xs × DistinctSteps xs

plan-DistinctSteps : (s : CheckoutSaga) → DistinctSteps (plan s)
unfolding plan at_step
plan-DistinctSteps s = ground arith

undone-append_other :
    (done : List Step) (x : Step) (xs : List Step)
    → All (λ y. at_step x y ≡ false) xs
    → undone (done ++ x ∷ []) xs ≡ undone done xs
undone-append_other done x [] h = refl
undone-append_other done x (y ∷ xs) h =
    ground (arith, is_done-append done x y, undone-append_other done x xs h.1)

-- The first undone step is undone no more; the others stay.
undone-append_first :
    (done : List Step) (x : Step) (rest xs : List Step)
    → DistinctSteps xs
    → undone done xs ≡ x ∷ rest
    → undone (done ++ x ∷ []) xs ≡ rest
undone-append_first done x rest [] d e = cc
undone-append_first done x rest (y ∷ xs) d e = elim (Bool-cases (is_done done y)) [
  | inl old ↦ ground (arith, old, is_done-append done x y, undone-append_first done x rest xs d.1)
  | inr new ↦
      let here : y ≡ x = ground (arith, new) in
      let others = undone-append_other done y xs d.0 in
      subst (λ z. undone (done ++ z ∷ []) (y ∷ xs) ≡ rest) here
        (ground (arith, new, is_done-append done y y, at_step_refl y, others))
]

undone_not_done :
    (done : List Step) (x : Step) (rest xs : List Step)
    → undone done xs ≡ x ∷ rest
    → is_done done x ≡ false
undone_not_done done x rest [] e = cc
undone_not_done done x rest (y ∷ xs) e = ground (arith, undone_not_done done x rest xs)

-- One call of `Compensated` on the first pending step.
pub compensate_last :
    (x : Step) (now : ℕ) (s : CheckoutSaga)
    → s.status ≡ compensating
    → pending s ≡ x ∷ []
    → (compensate x now s).status ≡ compensated
unfolding pending compensate
compensate_last x now s c e =
    let first : undone s.compensations (plan s) ≡ x ∷ [] = ground (arith, c) in
    let none_left =
      undone-append_first s.compensations x [] (plan s) (plan-DistinctSteps s) first in
    ground (arith, c, none_left, undone_not_done s.compensations x [] (plan s) first)

pub compensate_next :
    (x y : Step) (rest : List Step) (now : ℕ) (s : CheckoutSaga)
    → s.status ≡ compensating
    → pending s ≡ x ∷ y ∷ rest
    → ((compensate x now s).status ≡ compensating) × (pending (compensate x now s) ≡ y ∷ rest)
unfolding pending compensate
compensate_next x y rest now s c e =
    let first : undone s.compensations (plan s) ≡ x ∷ y ∷ rest = ground (arith, c) in
    let left =
      undone-append_first s.compensations x (y ∷ rest) (plan s) (plan-DistinctSteps s) first in
    ground (arith, c, left, undone_not_done s.compensations x (y ∷ rest) (plan s) first)

-- On a compensating saga, recording the first pending step as done leaves exactly the others pending.
pub pending-compensate :
    (x : Step) (rest : List Step) (now : ℕ) (s : CheckoutSaga)
    → s.status ≡ compensating
    → pending s ≡ x ∷ rest
    → pending (compensate x now s) ≡ rest
unfolding pending
pending-compensate x [] now s c e = ground (arith, compensate_last x now s c e)
pending-compensate x (y ∷ rest) now s c e = (compensate_next x y rest now s c e).1

pub pending_compensating :
    (x : Step) (xs : List Step) (s : CheckoutSaga) → pending s ≡ x ∷ xs → s.status ≡ compensating
unfolding pending
pending_compensating x xs s e = ground arith
