-- ===== src/Ordering/Checkout/Pairs.antt =====
-- The closures that change an order and its saga together, and the record of a compensation step
-- (internal/ordering/application/command: place_order.go, progress.go, orders.go, compensation.go).
use go_marketplace_backend.Base.{
  ℕ, ◌≡◌, refl, Bool, true, false, List, [], ◌∷◌, ◌++◌, none, some, Result, ok, err, Outcome, arith,
  inl, inr, Bool-cases, ◌⊎◌, if◌then◌else◌, subst, ok-injective,
}
use go_marketplace_backend.Base.Text.{Text, trim_space}
use go_marketplace_backend.Kernel.Identifier.{Ident}
use go_marketplace_backend.Ordering.Status.{Status, Actor, is_paid, can_transition_to, transitions}
use go_marketplace_backend.Ordering.Types.{Order, OrderError}
use go_marketplace_backend.Ordering.Order
use go_marketplace_backend.Ordering.Saga
use go_marketplace_backend.Ordering.Saga.{
  CheckoutSaga, SagaStatus, Step, at_step, is_done, undone, is_nil, pending, compensate,
  close_order,
}
use go_marketplace_backend.Ordering.Checkout.{Fails, Dependencies, wrap, saved}
use go_marketplace_backend.Ordering.Checkout.Actors.{Principal, actor_for}
use go_marketplace_backend.Ordering.Checkout.Progress.{Reasons, completing}
use go_marketplace_backend.Ordering.Checkout.Purchase.{awaiting}
use go_marketplace_backend.Ordering.Checkout.Orders.{cancelling, repaying}
use go_marketplace_backend.Ordering.Saga.Compensation.{
  is_done-append, compensate_last, compensate_next,
}
use go_marketplace_backend.Ordering.Checkout.Agreement.{Agree, is_closed, is_taken}

module _ {W : Type 0} (d : Dependencies W) (reasons : Reasons) (id : Ident) (o : Order)
    (s : CheckoutSaga) (a : Agree id o s) where
  pub completing-Agree :
      (now : ℕ) (p : Order) (t : CheckoutSaga)
      → is_taken s.step ≡ true
      → completing d reasons now o s ≡ ok (p, t)
      → Agree id p t
  unfolding Order.mark_paid Order.transition can_transition_to transitions is_paid Saga.complete
  completing-Agree now p t h e = ground (arith, a, e, h)

  pub awaiting-Agree :
      (payment : Text) (now : ℕ) (p : Order) (t : CheckoutSaga)
      → awaiting d reasons payment now o s ≡ ok (p, t)
      → Agree id p t
  unfolding Order.await_payment Order.transition can_transition_to transitions is_paid
      Saga.await_payment
  awaiting-Agree payment now p t e = ground (arith, a, e)

  pub repaying-Agree :
      (payment : Text) (now : ℕ) (p : Order) (t : CheckoutSaga)
      → repaying d reasons payment now o s ≡ ok (p, t)
      → Agree id p t
  unfolding Order.await_payment Order.transition can_transition_to transitions is_paid
      Saga.change_payment
  repaying-Agree payment now p t e = ground (arith, a, e)

-- Inversion of the steps of a closure that succeeds.
pub elim_ok :
    {A B : Type 0} (r : Result Fails A) (next : A → Result Fails B) {b : B}
    → (elim r [ err e ↦ err e | ok a ↦ next a ]) ≡ ok b
    → (a : A) × (r ≡ ok a) × (next a ≡ ok b)
elim_ok (ok a) next h = (a, refl, h)
elim_ok (err e) next h = cc

pub saved-eq-ok :
    (r : Result Fails CheckoutSaga) {x : Unit {0}} {t : CheckoutSaga}
    → saved r ≡ ok (x, t)
    → r ≡ ok t
saved-eq-ok (ok s) h = cc
saved-eq-ok (err e) h = cc

pub fail_cases :
    {B : Type 0} (c : Bool) (e : Fails) (r : Result Fails B) {b : B}
    → (if c then err e else r) ≡ ok b
    → r ≡ ok b
fail_cases true e r h = cc
fail_cases false e r h = h

pub wrap-eq-ok :
    {A : Type 0} (r : Outcome A OrderError) {a : A} → wrap r ≡ ok a → (r.1 ≡ none) × (r.0 ≡ a)
wrap-eq-ok (x, none) h = (refl, cc)
wrap-eq-ok (x, some e) h = cc

-- A saga that is compensated goes with any closed order.
begin_compensation_closed :
    (id : Ident) (o p : Order) (s t : CheckoutSaga) (reason reference : Text) (now : ℕ)
    → Agree id o s
    → (p.id ≡ o.id) × (p.total ≡ o.total) × (is_closed p.status ≡ true)
    → wrap (Saga.begin_compensation reason reference now s) ≡ ok t
    → Agree id p t
unfolding Saga.begin_compensation
begin_compensation_closed id o p s t reason reference now a k e = ground (arith, a, k, e)

transition_done :
    (target : Status) (actor : Actor) (reason : Text) (now : ℕ) (o : Order)
    → (Order.transition target actor reason now o).1 ≡ none
    → let p = (Order.transition target actor reason now o).0 in
      (p.id ≡ o.id) × (p.total ≡ o.total) × (p.status ≡ target)
unfolding Order.transition
transition_done target actor reason now o h = ground (arith, h)

cancel_done :
    (actor : Actor) (reason : Text) (now : ℕ) (o : Order)
    → (Order.cancel actor reason now o).1 ≡ none
    → let p = (Order.cancel actor reason now o).0 in
      (p.id ≡ o.id) × (p.total ≡ o.total) × (p.status ≡ Status.cancelled)
unfolding Order.cancel
cancel_done actor reason now o h =
    ground (arith, h, transition_done Status.cancelled actor (trim_space reason) now o)

cancel-is_closed :
    (actor : Actor) (reason : Text) (now : ℕ) (o p : Order)
    → wrap (Order.cancel actor reason now o) ≡ ok p
    → (p.id ≡ o.id) × (p.total ≡ o.total) × (is_closed p.status ≡ true)
cancel-is_closed actor reason now o p e =
    let (r, f) = wrap-eq-ok (Order.cancel actor reason now o) e in
    let (i, t, st) = cancel_done actor reason now o r in ground (arith, f, i, t, st)

module _ {W : Type 0} (d : Dependencies W) (reasons : Reasons) (id : Ident) (o : Order)
    (s : CheckoutSaga) (a : Agree id o s) where
  pub cancelling-Agree :
      (principal : Principal) (reason reference : Text) (now : ℕ) (p : Order) (t : CheckoutSaga)
      → cancelling d reasons principal reason reference now o s ≡ ok (p, t)
      → Agree id p t
  cancelling-Agree principal reason reference now p t e =
      let (actor, _, e1) = elim_ok (actor_for principal o) _ e in
      let e2 = fail_cases (Saga.committing s) _ _ e1 in
      let (q, cancelled, e3) = elim_ok (wrap (Order.cancel actor reason now o)) _ e2 in
      let (u, began, e4) =
        elim_ok
          (wrap (Saga.begin_compensation (reasons.cancelled_prefix ++ reason) reference now s)) _
          e3 in
      let pairs = ok-injective e4 in
      let kept = cancel-is_closed actor reason now o q cancelled in
      subst (λ (x : Order × CheckoutSaga). Agree id x.0 x.1) pairs
        (begin_compensation_closed id o q s u _ reference now a kept began)

abbrev pub at_close : Step → Bool
at_close step = at_step step close_order

is_done_once :
    (step : Step) (done : List Step)
    → is_done (if is_done done step then done else done ++ step ∷ []) close_order ≡ true
    → (is_done done close_order ≡ true) ⊎ (at_close step ≡ true)
is_done_once step done h = elim (Bool-cases (is_done done step)) [
  | inl old ↦ inl (ground (arith, old, h))
  | inr new ↦ ground (arith, new, h, is_done-append done step close_order)
]

-- The closing of the order is the last step of every plan.
closing_last :
    (s : CheckoutSaga) (step : Step) (steps : List Step)
    → pending s ≡ step ∷ steps
    → at_close step ≡ true
    → steps ≡ []
unfolding pending Saga.plan at_step
closing_last s step steps e h = ground (arith, e, h)

last_closes :
    (s : CheckoutSaga) (step : Step)
    → pending s ≡ step ∷ []
    → is_done s.compensations close_order ≡ false
    → at_close step ≡ true
unfolding pending Saga.plan at_step
last_closes s step e h = ground (arith, e, h)

-- Where the closing of the order is not done, it is pending.
pub closing_pending :
    (s : CheckoutSaga)
    → s.status ≡ SagaStatus.compensating
    → is_done s.compensations close_order ≡ false
    → is_nil (pending s) ≡ false
unfolding pending Saga.plan
closing_pending s c e = ground (arith, c, e)

pub closing_left :
    (id : Ident) (o : Order) (s : CheckoutSaga)
    → Agree id o s
    → s.status ≡ SagaStatus.compensating
    → is_done s.compensations close_order ≡ false
closing_left id o s a c = ground (arith, a, c)

-- The record of the first pending step keeps the agreement, where closing has closed the order.
pub compensate-Agree :
    (id : Ident) (o : Order) (s : CheckoutSaga) (step : Step) (steps : List Step) (now : ℕ)
    → Agree id o s
    → s.status ≡ SagaStatus.compensating
    → pending s ≡ step ∷ steps
    → (at_close step ≡ false) ⊎ (is_closed o.status ≡ true)
    → Agree id o (compensate step now s)
unfolding compensate
compensate-Agree id o s step [] now a c e h =
    let last = last_closes s step e (closing_left id o s a c) in
    ground (arith, a, c, h, last, compensate_last step now s c e)
compensate-Agree id o s step (y ∷ rest) now a c e h =
    let (t, _) = compensate_next step y rest now s c e in
    let once = is_done_once step s.compensations in
    let last = closing_last s step (y ∷ rest) e in
    ground (arith, a, c, t, once, last, closing_left id o s a c)
