-- ===== src/Cart/Absorb.antt =====
-- The merge of a cart into another, `Absorb` (internal/cart/domain/cart.go).
use go_marketplace_backend.Base.{
  ℕ, ◌≡◌, refl, Bool, true, false, ◌||◌, ◌==◌, List, [], ◌∷◌, ◌++◌, All, find, update_first, length,
  arith, Option, some, sym, inl, inr, Bool-cases, Option-cases, subst,
}
use go_marketplace_backend.Base.Int.{ℤ, pos, ◌≤ℤ◌, leb_ℤ, min_ℤ}
use go_marketplace_backend.Base.Text.{Text, text_eq}
use go_marketplace_backend.Cart.Types.{Limits, Item, Cart}
use go_marketplace_backend.Cart.Owners.{same_owner_as}
use go_marketplace_backend.Cart.{
  has_sku, merged_quantity, absorb_item, absorb_items, absorb_all, absorb,
}
use go_marketplace_backend.Cart.Writes.{IsCart, rewritten-IsCart, appended-IsCart}
use go_marketplace_backend.Cart.Items.{IsItem}

≤ℤ_trans : (a b c : ℤ) → a ≤ℤ b → b ≤ℤ c → a ≤ℤ c
≤ℤ_trans a b c h k = omega (arith, h, k)

either_false : (a b : Bool) → (a || b) ≡ false → (a ≡ false) × (b ≡ false)
either_false a b h = ground arith

not_nothing : (q : ℤ) → leb_ℤ q (pos 0) ≡ false → pos 1 ≤ℤ q
not_nothing q h = ground arith

min_ℤ-le : (a b : ℤ) → min_ℤ a b ≤ℤ b
min_ℤ-le a b = ground arith

merged_more :
    (existing incoming available : ℤ) (limits : Limits)
    → existing ≤ℤ merged_quantity existing incoming available limits
merged_more existing incoming available limits = ground arith

merged_bounds :
    (existing incoming available : ℤ) (limits : Limits)
    → existing ≤ℤ limits.max_quantity
    → (existing ≤ℤ merged_quantity existing incoming available limits)
      × (merged_quantity existing incoming available limits ≤ℤ limits.max_quantity)
merged_bounds existing incoming available limits h = ground (arith, h)

abbrev pub merged : Item → ℤ → Limits → ℕ → Item → Item
merged incoming available limits now i = record i {
  quantity = merged_quantity i.quantity incoming.quantity available limits;
  updated_at = now;
}

merged-IsItem :
    (limits : Limits) (incoming : Item) (available : ℤ) (now : ℕ) (i : Item)
    → IsItem limits i
    → IsItem limits (merged incoming available limits now i)
merged-IsItem limits incoming available now i v =
    let (more, less) = merged_bounds i.quantity incoming.quantity available limits v.few_units in
    record {
      some_units = ≤ℤ_trans (pos 1) i.quantity _ v.some_units more;
      few_units = less;
      priced = v.priced;
    }

absorb_item-IsCart :
    (limits : Limits) (incoming : Item) (available : ℤ) (now : ℕ) (c : Cart)
    → IsItem limits incoming
    → IsCart limits c
    → IsCart limits (absorb_item incoming available limits now c)
unfolding absorb_item
absorb_item-IsCart limits incoming available now c w v =
    let quantity = min_ℤ (min_ℤ incoming.quantity available) limits.max_quantity in
    elim (Option-cases (find (has_sku incoming.sku) c.items)) [
      | inr (item, found) ↦
          rw (found, absorb_item)
            (rewritten-IsCart limits incoming.sku (merged incoming available limits now) c _
              (λ i. refl) (merged-IsItem limits incoming available now) refl v)
      | inl missing ↦
          elim (Bool-cases
            (leb_ℤ limits.max_items (pos (length c.items)) || leb_ℤ quantity (pos 0))) [
              | inl refused ↦ rw (missing, refused, absorb_item) v
              | inr taken ↦
                  let (room_left, some_left) = either_false _ _ taken in
                  rw (missing, taken, absorb_item)
                    (appended-IsCart limits
                      (record incoming { quantity = quantity; updated_at = now }) c _ missing
                      (record {
                        some_units = not_nothing quantity some_left;
                        few_units =
                            min_ℤ-le (min_ℤ incoming.quantity available) limits.max_quantity;
                        priced = w.priced;
                      })
                      room_left refl v)
            ]
    ]

absorb_items-IsCart :
    (limits : Limits) (available : Text → ℤ) (now : ℕ) (is : List Item) (c : Cart)
    → All (IsItem limits) is
    → IsCart limits c
    → IsCart limits (absorb_items is available limits now c)
unfolding absorb_items
absorb_items-IsCart limits available now [] c _ v = v
absorb_items-IsCart limits available now (i ∷ is) c (w, ws) v =
    absorb_items-IsCart limits available now is (absorb_item i (available i.sku) limits now c) ws
      (absorb_item-IsCart limits i (available i.sku) now c w v)

pub absorb-IsCart :
    (limits : Limits) (other : Cart) (available : Text → ℤ) (now : ℕ) (c : Cart)
    → IsCart limits other
    → IsCart limits c
    → IsCart limits (absorb other available limits now c).0
unfolding absorb absorb_all
absorb-IsCart limits other available now c w v =
    let d = absorb_items other.items available limits now c in
    let kept = absorb_items-IsCart limits available now other.items c w.in_order v in
    ground (arith, kept)

-- Every SKU of the first list stands in the second, with at least its quantity.
abbrev pub Covers : List Item → List Item → Type 0
Covers is js =
    (sku : Text) (i : Item)
    → find (has_sku sku) is ≡ some i
    → (j : Item) × (find (has_sku sku) js ≡ some j) × (i.quantity ≤ℤ j.quantity)

Covers-refl : (is : List Item) → Covers is is
Covers-refl is sku i e = (i, e, omega arith)

Covers-trans : (is js ks : List Item) → Covers is js → Covers js ks → Covers is ks
Covers-trans is js ks first second sku i e =
    let (j, found, more) = first sku i e in
    let (k, found2, more2) = second sku j found in
    (k, found2, ≤ℤ_trans i.quantity j.quantity k.quantity more more2)

Covers-cons :
    (i j : Item) (is js : List Item)
    → i.sku ≡ j.sku
    → i.quantity ≤ℤ j.quantity
    → Covers is js
    → Covers (i ∷ is) (j ∷ js)
Covers-cons i j is js same more rest sku k e = elim (Bool-cases (has_sku sku i)) [
  | inl here ↦
      let written : has_sku sku j ≡ true = rw (sym same) here in
      let found : ◌≡◌ {A = Option Item} (some i) (some k) = rw (here, find) at e in
      let one : i ≡ k = cc found in
      (j, rw (written, find) refl, subst (λ (x : Item). x.quantity ≤ℤ j.quantity) one more)
  | inr there ↦
      let written : has_sku sku j ≡ false = rw (sym same) there in
      let (m, found, less) = rest sku k (rw (there, find) at e) in
      (m, rw (written, find) found, less)
]

update_first-Covers :
    (sku : Text) (f : Item → Item) (is : List Item)
    → ((i : Item) → i.sku ≡ (f i).sku)
    → ((i : Item) → i.quantity ≤ℤ (f i).quantity)
    → Covers is (update_first (has_sku sku) f is)
update_first-Covers sku f [] same more = Covers-refl []
update_first-Covers sku f (i ∷ is) same more = elim (Bool-cases (has_sku sku i)) [
  | inl here ↦
      rw (here, update_first) (Covers-cons i (f i) is is (same i) (more i) (Covers-refl is))
  | inr there ↦
      rw (there, update_first)
        (Covers-cons i i is _ refl (omega arith) (update_first-Covers sku f is same more))
]

append-Covers : (is js : List Item) → Covers is (is ++ js)
append-Covers [] js sku k e = cc e
append-Covers (i ∷ is) js sku k e =
    Covers-cons i i is (is ++ js) refl (omega arith) (append-Covers is js) sku k e

absorb_item-Covers :
    (limits : Limits) (incoming : Item) (available : ℤ) (now : ℕ) (c : Cart)
    → Covers c.items (absorb_item incoming available limits now c).items
unfolding absorb_item
absorb_item-Covers limits incoming available now c =
    let quantity = min_ℤ (min_ℤ incoming.quantity available) limits.max_quantity in
    let f = merged incoming available limits now in
    elim (Option-cases (find (has_sku incoming.sku) c.items)) [
      | inr (item, found) ↦
          rw (found, absorb_item)
            (update_first-Covers incoming.sku f c.items (λ i. refl)
              (λ i. merged_more i.quantity incoming.quantity available limits))
      | inl missing ↦
          elim (Bool-cases
            (leb_ℤ limits.max_items (pos (length c.items)) || leb_ℤ quantity (pos 0))) [
              | inl refused ↦ rw (missing, refused, absorb_item) (Covers-refl c.items)
              | inr taken ↦
                  rw (missing, taken, absorb_item)
                    (append-Covers c.items
                      (record incoming { quantity = quantity; updated_at = now } ∷ []))
            ]
    ]

absorb_items-Covers :
    (limits : Limits) (available : Text → ℤ) (now : ℕ) (is : List Item) (c : Cart)
    → Covers c.items (absorb_items is available limits now c).items
unfolding absorb_items
absorb_items-Covers limits available now [] c = Covers-refl c.items
absorb_items-Covers limits available now (i ∷ is) c =
    let d = absorb_item i (available i.sku) limits now c in
    Covers-trans c.items d.items _ (absorb_item-Covers limits i (available i.sku) now c)
      (absorb_items-Covers limits available now is d)

-- A merge loses no item of the cart that it goes into, and lowers no quantity.
pub absorb-Covers :
    (limits : Limits) (other : Cart) (available : Text → ℤ) (now : ℕ) (c : Cart)
    → Covers c.items (absorb other available limits now c).0.items
unfolding absorb absorb_all
absorb-Covers limits other available now c =
    let more = absorb_items-Covers limits available now other.items c in
    let same = Covers-refl c.items in
    elim (Bool-cases (text_eq other.id c.id || same_owner_as other.owner c.owner)) [
      | inl one ↦ rw (one, absorb) same
      | inr two ↦ elim (Bool-cases (length c.items == 0 || text_eq c.currency other.currency)) [
        | inl alike ↦ rw (two, alike, absorb, absorb_all) more
        | inr foreign ↦ rw (two, foreign, absorb, absorb_all) same
      ]
    ]
