-- ===== src/Ordering/Order.antt =====
-- The order aggregate after it is placed (internal/ordering/domain/order.go), method by method. A method
-- gives the order that it leaves behind, also when it returns an error.
pub mod Machine
pub mod History
use go_marketplace_backend.Base.{
  ℕ, ◌+◌, Bool, true, false, ◌&&◌, ◌||◌, not, List, [], ◌∷◌, ◌++◌, ltb, leb, ◌==◌, if◌then◌else◌,
  Option, none, some, Result, ok, err, Outcome, then_do, map,
}
use go_marketplace_backend.Base.Text.{Text, is_blank, trim_space, text_eq}
use go_marketplace_backend.Kernel.Identifier.{Ident}
use go_marketplace_backend.Kernel.Money.{Money, equals}
use go_marketplace_backend.Ordering.Address.{within}
use go_marketplace_backend.Ordering.Place.{summary}
use go_marketplace_backend.Ordering.Status.{
  Status, created, awaiting_payment, paid, in_fulfilment, shipped, delivered, completed, cancelled,
  failed, returning, returned, same_status, can_transition_to, cancellable, is_terminal, is_paid,
  ActorKind, buyer, system, Actor, system_actor, valid_actor,
}
use go_marketplace_backend.Ordering.Types.{
  OrderError, invalid_id, invalid_reason, invalid_reference, paid_amount_mismatch,
  cancellation_denied, transition_error, Part, Order, OrderEvent, order_awaiting_payment,
  order_paid, order_failed, order_cancelled, order_shipped, order_delivered, order_completed,
}

-- `transition`
unfoldable pub transition : Status → Actor → Text → ℕ → Order → Outcome Order OrderError
transition target actor reason now o =
    if not (can_transition_to o.status target)
    then (o, some (transition_error o.status target))
    else if not (valid_actor actor)
    then (o, some invalid_id)
    else (
      record o {
        history =
            o.history
            ++ record {
              from = some o.status;
              to = target;
              actor = actor;
              reason = trim_space reason;
              at = now;
            }
              ∷ [];
        status = target;
        updated_at = now;
      },
      none,
    )

-- What a method does after a step that may fail.
abbrev pub after :
    Outcome Order OrderError → (Order → Outcome Order OrderError) → Outcome Order OrderError
after (o, none) k = k o
after (o, some e) k = (o, some e)

abbrev pub emit : OrderEvent → Order → Order
emit e o = record o { events = o.events ++ e ∷ [] }

unfoldable pub await_payment : Text → ℕ → Order → Outcome Order OrderError
await_payment payment_id now o =
    if is_blank payment_id
    then (o, some invalid_reference)
    else if same_status o.status awaiting_payment
    then (
      if text_eq o.payment_id payment_id
          then o
          else emit (order_awaiting_payment o.id o.buyer_id payment_id now)
              (record o { payment_id = payment_id; updated_at = now }),
      none,
    )
    else after (transition awaiting_payment system_actor [] now o) λ p. (
      emit (order_awaiting_payment p.id p.buyer_id payment_id now)
          (record p { payment_id = payment_id }),
      none,
    )

unfoldable pub mark_paid : Money → ℕ → Order → Outcome Order OrderError
mark_paid amount now o =
    if same_status o.status paid
    then (o, none)
    else if not (can_transition_to o.status paid)
    then (o, some (transition_error o.status paid))
    else if not (equals amount o.total)
    then (o, some paid_amount_mismatch)
    else after (transition paid system_actor [] now o)
        λ p. (emit (order_paid (summary p) p.payment_id now) p, none)

unfoldable pub fail : Text → ℕ → Order → Outcome Order OrderError
fail reason now o =
    if same_status o.status failed
    then (o, none)
    else after (transition failed system_actor reason now o)
        λ p. (emit (order_failed p.id p.buyer_id (trim_space reason) now) p, none)

unfoldable pub mark_shipped : Actor → ℕ → Order → Outcome Order OrderError
mark_shipped actor now o =
    if same_status o.status shipped
    then (o, none)
    else after
        (if same_status o.status paid then transition in_fulfilment actor [] now o else (o, none))
        λ p.
          after (transition shipped actor [] now p)
            λ q. (emit (order_shipped q.id q.buyer_id now) q, none)

unfoldable pub mark_delivered : Actor → ℕ → Order → Outcome Order OrderError
mark_delivered actor now o =
    if same_status o.status delivered
    then (o, none)
    else after (transition delivered actor [] now o)
        λ p. (emit (order_delivered p.id p.buyer_id now) (record p { delivered_at = now }), none)

unfoldable pub complete : ℕ → Order → Outcome Order OrderError
complete now o =
    if same_status o.status completed
    then (o, none)
    else after (transition completed system_actor [] now o)
        λ p. (emit (order_completed (summary p) now) p, none)

-- `now.Sub(o.deliveredAt) >= returnWindow`, for a window that is not negative.
unfoldable pub ready_to_complete : ℕ → ℕ → Order → Bool
ready_to_complete return_window now o =
    same_status o.status delivered
    && not (o.delivered_at == 0)
    && leb (o.delivered_at + return_window) now

abbrev pub is_buyer : ActorKind → Bool
is_buyer buyer = true
is_buyer _ = false

abbrev pub is_system : ActorKind → Bool
is_system system = true
is_system _ = false

unfoldable pub cancel : Actor → Text → ℕ → Order → Outcome Order OrderError
cancel actor raw now o =
    if same_status o.status cancelled
    then (o, none)
    else let reason = trim_space raw in
      if not (within reason 1 500)
      then (o, some invalid_reason)
      else if is_buyer actor.kind && not (text_eq actor.id o.buyer_id)
      then (o, some cancellation_denied)
      else if not (is_system actor.kind) && not (cancellable o.status)
      then (o, some cancellation_denied)
      else let (p, refused) = transition cancelled actor reason now o in
        elim refused [
          | some e ↦ (p, some (if is_terminal p.status then cancellation_denied else e))
          | none ↦ (
            emit (order_cancelled p.id p.buyer_id actor reason (is_paid o.status) p.total now) p,
            none,
          )
        ]

unfoldable pub seller_ids : Order → List Ident
seller_ids o = map (λ (p : Part). p.seller_id) o.parts
