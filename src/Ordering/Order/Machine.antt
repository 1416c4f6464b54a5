-- ===== src/Ordering/Order/Machine.antt =====
-- The methods of the order aggregate (internal/ordering/domain/order.go) as one data type of commands.
use go_marketplace_backend.Base.{ℕ, ◌≡◌, true, [], some, Outcome, arith}
use go_marketplace_backend.Base.Text.{Text, trim_space}
use go_marketplace_backend.Kernel.Money.{Money}
use go_marketplace_backend.Ordering.Status.{
  Status, awaiting_payment, paid, in_fulfilment, shipped, delivered, completed, cancelled, failed,
  can_transition_to, is_terminal, Actor, system_actor,
}
use go_marketplace_backend.Ordering.Place.{summary}
use go_marketplace_backend.Ordering.Types.{OrderError, Order}
use go_marketplace_backend.Ordering.Order.{
  transition, await_payment, mark_paid, fail, mark_shipped, mark_delivered, complete, cancel,
}

pub data OrderCommand : Type 0 where
  awaits : (payment_id : Text) → OrderCommand
  pays : (amount : Money) → OrderCommand
  fails : (reason : Text) → OrderCommand
  ships : (actor : Actor) → OrderCommand
  delivers : (actor : Actor) → OrderCommand
  completes : OrderCommand
  cancels : (actor : Actor) (reason : Text) → OrderCommand

unfoldable pub call : OrderCommand → ℕ → Order → Outcome Order OrderError
call (awaits payment_id) now o = await_payment payment_id now o
call (pays amount) now o = mark_paid amount now o
call (fails reason) now o = fail reason now o
call (ships actor) now o = mark_shipped actor now o
call (delivers actor) now o = mark_delivered actor now o
call completes now o = complete now o
call (cancels actor reason) now o = cancel actor reason now o

-- A call that returns an error leaves the order as it was.
pub order_call_unchanged :
    (c : OrderCommand) (now : ℕ) (o : Order) {x : OrderError}
    → (call c now o).1 ≡ some x
    → (call c now o).0 ≡ o
unfolding call transition await_payment mark_paid fail mark_shipped mark_delivered complete cancel
    can_transition_to
order_call_unchanged (awaits payment_id) now o e = ground arith
order_call_unchanged (pays amount) now o e = ground arith
order_call_unchanged (fails reason) now o e = ground arith
order_call_unchanged (ships actor) now o e = ground arith
order_call_unchanged (delivers actor) now o e = ground arith
order_call_unchanged completes now o e = ground arith
order_call_unchanged (cancels actor reason) now o e = ground arith

transition-summary :
    (target : Status) (actor : Actor) (reason : Text) (now : ℕ) (o : Order)
    → summary (transition target actor reason now o).0 ≡ summary o
unfolding transition
transition-summary target actor reason now o = ground arith

-- No call, failed or not, changes what was ordered, for whom, or at which price.
pub call-summary : (c : OrderCommand) (now : ℕ) (o : Order) → summary (call c now o).0 ≡ summary o
unfolding call await_payment mark_paid fail mark_shipped mark_delivered complete cancel
call-summary (awaits payment_id) now o =
    ground (arith, transition-summary awaiting_payment system_actor [] now o)
call-summary (pays amount) now o = ground (arith, transition-summary paid system_actor [] now o)
call-summary (fails reason) now o =
    ground (arith, transition-summary failed system_actor reason now o)
call-summary (ships actor) now o = ground (
  arith,
  transition-summary in_fulfilment actor [] now o,
  transition-summary shipped actor [] now o,
  transition-summary shipped actor [] now (transition in_fulfilment actor [] now o).0,
)
call-summary (delivers actor) now o = ground (arith, transition-summary delivered actor [] now o)
call-summary completes now o = ground (arith, transition-summary completed system_actor [] now o)
call-summary (cancels actor reason) now o =
    ground (arith, transition-summary cancelled actor (trim_space reason) now o)

-- No call changes the status of an order that is completed, cancelled, failed or returned.
pub order_call_terminal :
    (c : OrderCommand) (now : ℕ) (o : Order)
    → is_terminal o.status ≡ true
    → (call c now o).0.status ≡ o.status
unfolding call transition await_payment mark_paid fail mark_shipped mark_delivered complete cancel
    can_transition_to is_terminal
order_call_terminal (awaits payment_id) now o t = ground arith
order_call_terminal (pays amount) now o t = ground arith
order_call_terminal (fails reason) now o t = ground arith
order_call_terminal (ships actor) now o t = ground arith
order_call_terminal (delivers actor) now o t = ground arith
order_call_terminal completes now o t = ground arith
order_call_terminal (cancels actor reason) now o t = ground arith
