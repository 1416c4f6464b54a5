-- ===== src/Cart/Overflow.antt =====
-- The sum of quantities in `Add` (internal/cart/domain/cart.go) past the largest `int`.
use go_marketplace_backend.Base.{
  ℕ, ◌+◌, ◌≤◌, ◌<◌, ◌≡◌, refl, true, List, [], ◌∷◌, find, update_first, arith, Option, none, some,
  inl, inr, Bool-cases, ok,
}
use go_marketplace_backend.Base.Int.{ℤ, pos, negsuc, ◌≤ℤ◌, add64}
use go_marketplace_backend.Base.Text.{Text}
use go_marketplace_backend.Cart.Types.{Limits, Item, Offer, Cart}
use go_marketplace_backend.Cart.{has_sku, accept, check_quantity, requoted, add}

updated_find :
    (sku : Text) (f : Item → Item) (is : List Item) {i : Item}
    → ((x : Item) → (f x).sku ≡ x.sku)
    → find (has_sku sku) is ≡ some i
    → find (has_sku sku) (update_first (has_sku sku) f is) ≡ some (f i)
updated_find sku f [] same e = cc e
updated_find sku f (j ∷ is) {i} same e = elim (Bool-cases (has_sku sku j)) [
  | inl here ↦
      let found : ◌≡◌ {A = Option Item} (some j) (some i) = rw (here, find) at e in
      let one : j ≡ i = cc found in
      let written : has_sku sku (f j) ≡ true = rw (same j) here in
      rw (here, update_first, written, find) (rw one refl)
  | inr there ↦
      rw (there, update_first, there, find) (updated_find sku f is same (rw (there, find) at e))
]

sum_wraps :
    (a b : ℕ)
    → 9223372036854775808 ≤ a + b
    → a + b < 18446744073709551616
    → add64 (pos a) (pos b) ≤ℤ negsuc 0
unfolding add64
sum_wraps a b low high = ground (arith, low, high)

check_negative :
    (a : ℕ) (total available : ℤ) (limits : Limits)
    → 0 < a
    → total ≤ℤ negsuc 0
    → pos 1 ≤ℤ available
    → pos 0 ≤ℤ limits.max_quantity
    → check_quantity (pos a) total available limits ≡ ok tt
unfolding check_quantity
check_negative a total available limits some_a neg some_left room = ground arith

-- On an offer that the cart accepts and with stock available, an `Add` whose quantity and that in the cart
-- together exceed the largest `int` succeeds, and leaves the item with a negative quantity.
pub add_wraps :
    (limits : Limits) (offer : Offer) (a b : ℕ) (available : ℤ) (now : ℕ) (c : Cart) {item : Item}
    → accept offer c ≡ ok tt
    → find (has_sku offer.sku) c.items ≡ some item
    → item.quantity ≡ pos b
    → 0 < a
    → 9223372036854775808 ≤ a + b
    → a + b < 18446744073709551616
    → pos 1 ≤ℤ available
    → pos 0 ≤ℤ limits.max_quantity
    → ((add offer (pos a) available limits now c).1 ≡ none)
      × ((j : Item) × (find (has_sku offer.sku) (add offer (pos a) available limits now c).0.items
            ≡ some j)
          × (j.quantity ≤ℤ negsuc 0))
unfolding add
add_wraps limits offer a b available now c {item} accepted found held some_a low high some_left
      room =
    let total = add64 (pos a) item.quantity in
    let neg : total ≤ℤ negsuc 0 = rw held (sum_wraps a b low high) in
    let checked = check_negative a total available limits some_a neg some_left room in
    let written = updated_find offer.sku (requoted offer total now) c.items (λ x. refl) found in
    rw (accepted, found, checked) (refl, (requoted offer total now item, written, neg))
