-- ===== src/Ordering/Order/History.antt =====
-- The recorded history of an order under calls of its methods (internal/ordering/domain/order.go).
use go_marketplace_backend.Base.{
  ℕ, ◌≡◌, refl, true, List, [], ◌∷◌, ◌++◌, none, some, ok, Option, arith, subst, ◌∙◌, sym,
}
use go_marketplace_backend.Base.Text.{Text, trim_space}
use go_marketplace_backend.Ordering.Status.{
  Status, created, awaiting_payment, paid, in_fulfilment, shipped, delivered, completed, cancelled,
  failed, can_transition_to, Actor, system_actor,
}
use go_marketplace_backend.Ordering.Types.{Order, StatusChange, PlaceSpec}
use go_marketplace_backend.Ordering.Place.{place, summary}
use go_marketplace_backend.Ordering.Place.Sums.{place-eq-ok}
use go_marketplace_backend.Ordering.Order.{
  transition, await_payment, mark_paid, fail, mark_shipped, mark_delivered, complete, cancel,
}
use go_marketplace_backend.Ordering.Order.Machine.{
  OrderCommand, awaits, pays, fails, ships, delivers, completes, cancels, call, call-summary,
}

-- An order begins as created; after that each change follows the table.
abbrev pub Allowed : Option Status → Status → Type 0
Allowed none t = t ≡ created
Allowed (some s) t = can_transition_to s t ≡ true

-- The changes lead from one status to another.
abbrev pub Leads : Option Status → List StatusChange → Status → Type 0
Leads prev [] s = prev ≡ some s
Leads prev (c ∷ cs) s = (c.from ≡ prev) × Allowed prev c.to × Leads (some c.to) cs s

pub Leads-append :
    (prev : Option Status) (cs : List StatusChange) (s : Status) (c : StatusChange)
    → Leads prev cs s
    → c.from ≡ some s
    → can_transition_to s c.to ≡ true
    → Leads prev (cs ++ c ∷ []) c.to
Leads-append prev [] s c l f t = (f ∙ sym l, subst (λ q. Allowed q c.to) (sym l) t, refl)
Leads-append prev (x ∷ cs) s c l f t = (l.0, l.1, Leads-append (some x.to) cs s c l.2 f t)

abbrev pub IsRecorded : Order → Type 0
IsRecorded o = Leads none o.history o.status

transition-IsRecorded :
    (target : Status) (actor : Actor) (reason : Text) (now : ℕ) (o : Order)
    → IsRecorded o
    → IsRecorded (transition target actor reason now o).0
unfolding transition
transition-IsRecorded target actor reason now o r = ground (
  arith,
  Leads-append none o.history o.status
      (record {
        from = some o.status;
        to = target;
        actor = actor;
        reason = trim_space reason;
        at = now;
      })
      r refl,
)

-- Every call keeps the history a path that ends in the status.
pub call-IsRecorded :
    (c : OrderCommand) (now : ℕ) (o : Order) → IsRecorded o → IsRecorded (call c now o).0
unfolding call await_payment mark_paid fail mark_shipped mark_delivered complete cancel
call-IsRecorded (awaits payment_id) now o r =
    ground (arith, transition-IsRecorded awaiting_payment system_actor [] now o r)
call-IsRecorded (pays amount) now o r =
    ground (arith, transition-IsRecorded paid system_actor [] now o r)
call-IsRecorded (fails reason) now o r =
    ground (arith, transition-IsRecorded failed system_actor reason now o r)
call-IsRecorded (ships actor) now o r = ground (
  arith,
  transition-IsRecorded in_fulfilment actor [] now o r,
  transition-IsRecorded shipped actor [] now o r,
  transition-IsRecorded shipped actor [] now (transition in_fulfilment actor [] now o).0,
)
call-IsRecorded (delivers actor) now o r =
    ground (arith, transition-IsRecorded delivered actor [] now o r)
call-IsRecorded completes now o r =
    ground (arith, transition-IsRecorded completed system_actor [] now o r)
call-IsRecorded (cancels actor reason) now o r =
    ground (arith, transition-IsRecorded cancelled actor (trim_space reason) now o r)

-- A history of calls, each at its time, failed ones included.
unfoldable pub run : List (ℕ × OrderCommand) → Order → Order
run [] o = o
run ((now, c) ∷ cs) o = run cs (call c now o).0

run-IsRecorded : (cs : List (ℕ × OrderCommand)) (o : Order) → IsRecorded o → IsRecorded (run cs o)
unfolding run
run-IsRecorded [] o r = r
run-IsRecorded ((now, c) ∷ cs) o r = run-IsRecorded cs (call c now o).0 (call-IsRecorded c now o r)

run-summary : (cs : List (ℕ × OrderCommand)) (o : Order) → summary (run cs o) ≡ summary o
unfolding run
run-summary [] o = refl
run-summary ((now, c) ∷ cs) o = run-summary cs (call c now o).0 ∙ call-summary c now o

-- After any history of calls on an order that was placed, the recorded changes lead from the creation
-- to the present status along the table of transitions, and what was ordered, for whom and at which
-- price is as it was when the order was placed.
pub run_life :
    (to_upper : Text → Text) (spec : PlaceSpec) (start : ℕ) (cs : List (ℕ × OrderCommand))
    {o : Order}
    → place to_upper spec start ≡ ok o
    → IsRecorded (run cs o) × (summary (run cs o) ≡ summary o)
run_life to_upper spec start cs {o} e =
    let (address, parts, t, events, valid, built, added, made) =
      place-eq-ok to_upper spec start e in
    (run-IsRecorded cs o (subst IsRecorded made (refl, refl, refl)), run-summary cs o)
