-- ===== src/Ordering/Checkout/Fulfilment.antt =====
-- The handlers of fulfilment (internal/ordering/application/command/fulfillment.go).
use go_marketplace_backend.Base.{ℕ, not, List, [], ◌∷◌, if◌then◌else◌, Option, Result, ok, length}
use go_marketplace_backend.Base.Text.{Text}
use go_marketplace_backend.Kernel.Identifier.{Ident, parse_id}
use go_marketplace_backend.Ordering.Status.{Actor}
use go_marketplace_backend.Ordering.Types.{Order, OrderError}
use go_marketplace_backend.Ordering.Order
use go_marketplace_backend.Ordering.Checkout.{
  Fails, Dependencies, M, pure, fail, ◌>>=◌, attempt, read, wrap, lift, error_of, joined,
  load_order, mutate_order, save_order, order_not_found, for_each, with_id,
}
use go_marketplace_backend.Ordering.Checkout.Actors.{Principal, seller_actor}

module _ {W : Type 0} (d : Dependencies W) where
  -- One transaction; a failure of the call within it writes nothing.
  abbrev pub by_seller :
      (Actor → ℕ → Order → Order × Option OrderError) → Principal → Text → M W (Unit {0})
  by_seller method principal raw = with_id (parse_id raw) (fail (order_not_found ∷ [])) λ id. do
    order ← load_order id
    actor ← seller_actor d principal order
    now ← read d.now
    o ← lift (wrap (method actor now order))
    save_order o

  unfoldable pub ship_order : Principal → Text → M W (Unit {0})
  ship_order principal raw = by_seller Order.mark_shipped principal raw

  unfoldable pub deliver_order : Principal → Text → M W (Unit {0})
  deliver_order principal raw = by_seller Order.mark_delivered principal raw

  -- The closure of the loop.
  abbrev pub completing_order : ℕ → Order → Result Fails Order
  completing_order now order =
      if not (Order.ready_to_complete d.policy.return_window now order)
      then ok order
      else wrap (Order.complete now order)

  unfoldable pub complete_order : Ident → M W Fails
  complete_order id = do
    now ← read d.now
    answer ← attempt (mutate_order id (completing_order now))
    pure (error_of answer)

  -- `ids` is what the query for delivered orders answers.
  unfoldable pub complete_delivered : List Ident → M W ℕ
  unfolding for_each
  complete_delivered ids = do e ← for_each complete_order ids; joined (length ids) e
