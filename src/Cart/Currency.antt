-- ===== src/Cart/Currency.antt =====
-- The currency of a cart and the prices of its items through a merge, `Absorb` (internal/cart/domain/cart.go).
use go_marketplace_backend.Base.{
  ℕ, ◌≡◌, refl, Bool, true, false, ◌||◌, ◌==◌, List, [], ◌∷◌, ◌++◌, update_first, length, arith,
  Option, none, some, ◌∙◌,
}
use go_marketplace_backend.Base.Int.{ℤ, pos, ◌≤ℤ◌, min_ℤ}
use go_marketplace_backend.Base.Text.{Text, text_eq, is_empty}
use go_marketplace_backend.Cart.Types.{Limits, Item, Cart}
use go_marketplace_backend.Cart.Owners.{same_owner_as}
use go_marketplace_backend.Cart.{has_sku, absorb_item, absorb_items, absorb_all, absorb}
use go_marketplace_backend.Cart.Absorb.{merged}

absorb_item-currency :
    (limits : Limits) (incoming : Item) (available : ℤ) (now : ℕ) (c : Cart)
    → (absorb_item incoming available limits now c).currency ≡ c.currency
unfolding absorb_item
absorb_item-currency limits incoming available now c = ground arith

absorb_items-currency :
    (limits : Limits) (available : Text → ℤ) (now : ℕ) (is : List Item) (c : Cart)
    → (absorb_items is available limits now c).currency ≡ c.currency
unfolding absorb_items
absorb_items-currency limits available now [] c = refl
absorb_items-currency limits available now (i ∷ is) c =
    absorb_items-currency limits available now is _
    ∙ absorb_item-currency limits i (available i.sku) now c

abbrev pub first_price : List Item → Option ℤ
first_price [] = none
first_price (i ∷ is) = some i.price

update_first-first_price :
    (matches : Item → Bool) (f : Item → Item) (is : List Item)
    → ((i : Item) → (f i).price ≡ i.price)
    → first_price (update_first matches f is) ≡ first_price is
update_first-first_price matches f [] same = refl
update_first-first_price matches f (i ∷ is) same = ground (arith, same i)

append-first_price :
    (is js : List Item) (p : ℤ) → first_price is ≡ some p → first_price (is ++ js) ≡ some p
append-first_price [] js p e = cc e
append-first_price (i ∷ is) js p e = e

absorb_item-first_price :
    (limits : Limits) (incoming : Item) (available : ℤ) (now : ℕ) (c : Cart) (p : ℤ)
    → first_price c.items ≡ some p
    → first_price (absorb_item incoming available limits now c).items ≡ some p
unfolding absorb_item
absorb_item-first_price limits incoming available now c p e =
    let rewritten =
      update_first-first_price (has_sku incoming.sku) (merged incoming available limits now) c.items
        (λ i. refl) in
    let quantity = min_ℤ (min_ℤ incoming.quantity available) limits.max_quantity in
    let appended =
      append-first_price c.items (record incoming { quantity = quantity; updated_at = now } ∷ []) p
        e in
    ground (arith, e, rewritten, appended)

absorb_items-first_price :
    (limits : Limits) (available : Text → ℤ) (now : ℕ) (is : List Item) (c : Cart) (p : ℤ)
    → first_price c.items ≡ some p
    → first_price (absorb_items is available limits now c).items ≡ some p
unfolding absorb_items
absorb_items-first_price limits available now [] c p e = e
absorb_items-first_price limits available now (i ∷ is) c p e =
    absorb_items-first_price limits available now is _ p
      (absorb_item-first_price limits i (available i.sku) now c p e)

-- The first item of a merge into an empty cart.
absorb_item-empty :
    (limits : Limits) (incoming : Item) (available : ℤ) (now : ℕ) (c : Cart)
    → c.items ≡ []
    → pos 1 ≤ℤ limits.max_items
    → pos 1 ≤ℤ limits.max_quantity
    → pos 1 ≤ℤ incoming.quantity
    → pos 1 ≤ℤ available
    → first_price (absorb_item incoming available limits now c).items ≡ some incoming.price
unfolding absorb_item
absorb_item-empty limits incoming available now c e room units some_units in_stock =
    ground (arith, e, room, units, some_units, in_stock)

-- The limits allow an item and a unit, the cart is empty and keeps a currency, and the cart that is merged
-- into it is another one of another owner, whose first item has units and is in stock: after the merge the
-- first item of the cart has the price of that item, and the currency is the cart's as before, whatever the
-- currency of the merged cart is.
pub absorb-stale_currency :
    (limits : Limits) (other : Cart) (i : Item) (is : List Item) (available : Text → ℤ) (now : ℕ)
    (c : Cart)
    → c.items ≡ []
    → is_empty c.currency ≡ false
    → (text_eq other.id c.id || same_owner_as other.owner c.owner) ≡ false
    → other.items ≡ i ∷ is
    → pos 1 ≤ℤ limits.max_items
    → pos 1 ≤ℤ limits.max_quantity
    → pos 1 ≤ℤ i.quantity
    → pos 1 ≤ℤ available i.sku
    → ((absorb other available limits now c).0.currency ≡ c.currency)
      × (first_price (absorb other available limits now c).0.items ≡ some i.price)
unfolding absorb absorb_all absorb_items
absorb-stale_currency limits other i is available now c e h two stock room units some_units
      in_stock =
    let kept = absorb_items-currency limits available now other.items c in
    let alike : (length c.items == 0 || text_eq c.currency other.currency) ≡ true =
      ground (arith, e) in
    let set : is_empty (absorb_items other.items available limits now c).currency ≡ false =
      rw kept h in
    let begun =
      absorb_item-empty limits i (available i.sku) now c e room units some_units in_stock in
    let priced : first_price (absorb_items other.items available limits now c).items
        ≡ some i.price =
      rw stock (absorb_items-first_price limits available now is _ i.price begun) in
    rw (two, alike, set, absorb, absorb_all) (kept, priced)
