-- ===== src/Cart/Writes.antt =====
-- The invariant of a cart under fixed limits, and `Add`, `SetQuantity`, `Remove` and `RemoveSKUs`
-- (internal/cart/domain/cart.go).
use go_marketplace_backend.Base.{
  ℕ, ◌+◌, ◌≤◌, ◌≡◌, refl, false, ◌&&◌, ◌==◌, List, [], ◌∷◌, ◌++◌, All, All-append, find,
  update_first, length, length-append, arith, Option, some, inl, inr, Bool-cases, Option-cases, ok,
  then_do-keeps, subst,
}
use go_marketplace_backend.Base.Int.{ℤ, pos, negsuc, ◌≤ℤ◌, leb_ℤ, pos_part, add64, add64-exact}
use go_marketplace_backend.Base.Text.{Text}
use go_marketplace_backend.Cart.Types.{Limits, Item, Offer, Cart}
use go_marketplace_backend.Cart.{
  touch, has_sku, accept, check_quantity, requoted, fresh_item, add, remove, set_quantity,
  remove_skus, remove_first, remove_listed,
}
use go_marketplace_backend.Cart.Items.{
  Distinct, IsItem, Absent, update_first-Distinct, update_first-length, update_first-IsItem,
  append-Distinct, remove_first-Distinct, remove_first-IsItem, remove_first-length,
  remove_listed-Distinct, remove_listed-IsItem, remove_listed-length,
}

-- No SKU twice, at most so many items, and every item in order.
pub record IsCart (limits : Limits) (c : Cart) : Type 0 where
  pub distinct : Distinct c.items
  pub few : pos (length c.items) ≤ℤ limits.max_items
  pub in_order : All (IsItem limits) c.items

-- A quantity whose sum with the maximal quantity fits an `int`.
abbrev pub Addable : Limits → ℤ → Type 0
Addable limits quantity = pos_part quantity + pos_part limits.max_quantity ≤ 9223372036854775807

check_quantity-eq-ok :
    (requested total available : ℤ) (limits : Limits) {u : Unit {0}}
    → check_quantity requested total available limits ≡ ok u
    → (pos 1 ≤ℤ requested) × (total ≤ℤ limits.max_quantity) × (total ≤ℤ available)
unfolding check_quantity
check_quantity-eq-ok requested total available limits e = ground arith

accept-eq-ok :
    (offer : Offer) (c : Cart) {u : Unit {0}} → accept offer c ≡ ok u → pos 1 ≤ℤ offer.price
unfolding accept
accept-eq-ok offer c e = ground arith

-- What the lookup finds is in order.
pub find-IsItem :
    (limits : Limits) (sku : Text) (is : List Item) {i : Item}
    → All (IsItem limits) is
    → find (has_sku sku) is ≡ some i
    → IsItem limits i
find-IsItem limits sku [] v e = cc
find-IsItem limits sku (j ∷ is) {i} (first, v) e = elim (Bool-cases (has_sku sku j)) [
  | inl here ↦
      let same : ◌≡◌ {A = Option Item} (some j) (some i) = rw (here, find) at e in
      let one : j ≡ i = cc same in subst (IsItem limits) one first
  | inr there ↦ find-IsItem limits sku is v (rw (there, find) at e)
]

written-IsItem :
    (limits : Limits) (offer : Offer) (quantity : ℤ) (now : ℕ) (i : Item)
    → pos 1 ≤ℤ quantity
    → quantity ≤ℤ limits.max_quantity
    → pos 1 ≤ℤ offer.price
    → IsItem limits (requoted offer quantity now i)
written-IsItem limits offer quantity now i some_units few_units priced = record {
  some_units = some_units;
  few_units = few_units;
  priced = priced;
}

pub rewritten-IsCart :
    (limits : Limits) (sku : Text) (f : Item → Item) (c d : Cart)
    → ((i : Item) → (f i).sku ≡ i.sku)
    → ((i : Item) → IsItem limits i → IsItem limits (f i))
    → d.items ≡ update_first (has_sku sku) f c.items
    → IsCart limits c
    → IsCart limits d
rewritten-IsCart limits sku f c d same keeps e v = record {
  distinct = rw e (update_first-Distinct limits sku f same c.items v.distinct);
  few = rw (e, update_first-length limits sku f c.items) v.few;
  in_order = rw e (update_first-IsItem limits sku f keeps c.items v.in_order);
}

pub appended-IsCart :
    (limits : Limits) (i : Item) (c d : Cart)
    → Absent i.sku c.items
    → IsItem limits i
    → leb_ℤ limits.max_items (pos (length c.items)) ≡ false
    → d.items ≡ c.items ++ i ∷ []
    → IsCart limits c
    → IsCart limits d
appended-IsCart limits i c d absent item room e v =
    let longer = length-append c.items (i ∷ []) in
    record {
      distinct = rw e (append-Distinct c.items i absent v.distinct);
      few = rw (e, longer) (ground (arith, room));
      in_order = rw e (All-append (IsItem limits) c.items (i ∷ []) v.in_order (item, tt));
    }

sum_positive :
    (limits : Limits) (quantity existing : ℤ)
    → Addable limits quantity
    → pos 1 ≤ℤ quantity
    → pos 1 ≤ℤ existing
    → existing ≤ℤ limits.max_quantity
    → pos 1 ≤ℤ add64 quantity existing
sum_positive limits (pos a) (pos b) fits some_a some_b few =
    let exact = add64-exact a b (omega (arith, fits, few)) in
    rw exact (omega (arith, some_a, some_b))
sum_positive limits (pos a) (negsuc b) fits some_a some_b few = ground (arith, some_b)
sum_positive limits (negsuc a) existing fits some_a some_b few = ground (arith, some_a)

pub add-IsCart :
    (limits : Limits) (offer : Offer) (quantity available : ℤ) (now : ℕ) (c : Cart)
    → Addable limits quantity
    → IsCart limits c
    → IsCart limits (add offer quantity available limits now c).0
unfolding add
add-IsCart limits offer quantity available now c fits v =
    then_do-keeps (IsCart limits) c (accept offer c) _ v (λ _ accepted.
      let priced = accept-eq-ok offer c accepted in
      elim (Option-cases (find (has_sku offer.sku) c.items)) [
        | inl missing ↦ elim (Bool-cases (leb_ℤ limits.max_items (pos (length c.items)))) [
          | inl full ↦ rw (missing, full) v
          | inr room ↦
              rw (missing, room)
                (then_do-keeps (IsCart limits) c (check_quantity quantity quantity available limits)
                  _ v
                  (λ _ checked.
                    let (some_units, few_units, _) =
                      check_quantity-eq-ok quantity quantity available limits checked in
                    appended-IsCart limits (fresh_item offer quantity now) c _ missing
                      (record { some_units = some_units; few_units = few_units; priced = priced })
                      room refl v))
        ]
        | inr (item, found) ↦
            let total = add64 quantity item.quantity in
            let old = find-IsItem limits offer.sku c.items v.in_order found in
            rw found (
              then_do-keeps (IsCart limits) c (check_quantity quantity total available limits) _ v
                (λ _ checked.
                  let (some_units, few_units, _) =
                    check_quantity-eq-ok quantity total available limits checked in
                  let positive =
                    sum_positive limits quantity item.quantity fits some_units old.some_units
                      old.few_units in
                  rewritten-IsCart limits offer.sku (requoted offer total now) c _ (λ i. refl)
                    (λ i w. written-IsItem limits offer total now i positive few_units priced) refl
                    v))
      ])

pub remove-IsCart :
    (limits : Limits) (sku : Text) (now : ℕ) (c : Cart)
    → IsCart limits c
    → IsCart limits (remove sku limits now c).0
unfolding remove
remove-IsCart limits sku now c v = elim (Option-cases (find (has_sku sku) c.items)) [
  | inl missing ↦ rw (missing, remove) v
  | inr (item, found) ↦
      let shorter = remove_first-length limits sku c.items in
      let kept : IsCart limits (touch limits now (record c { items = remove_first sku c.items })) =
        record {
          distinct = remove_first-Distinct limits sku c.items v.distinct;
          few = omega (arith, v.few, shorter);
          in_order = remove_first-IsItem limits sku c.items v.in_order;
        } in
      rw (found, remove) kept
]

pub set_quantity-IsCart :
    (limits : Limits) (offer : Offer) (quantity available : ℤ) (now : ℕ) (c : Cart)
    → IsCart limits c
    → IsCart limits (set_quantity offer quantity available limits now c).0
unfolding set_quantity
set_quantity-IsCart limits offer quantity available now c v =
    elim (Option-cases (find (has_sku offer.sku) c.items)) [
      | inl missing ↦ rw (missing, set_quantity) v
      | inr (item, found) ↦ elim (Bool-cases (leb_ℤ quantity (pos 0) && leb_ℤ (pos 0) quantity)) [
        | inl nothing ↦ rw (found, nothing, set_quantity) (remove-IsCart limits offer.sku now c v)
        | inr something ↦
            rw (found, something, set_quantity)
              (then_do-keeps (IsCart limits) c (accept offer c) _ v (λ _ accepted.
                then_do-keeps (IsCart limits) c (check_quantity quantity quantity available limits)
                  _ v
                  (λ _ checked.
                    let (some_units, few_units, _) =
                      check_quantity-eq-ok quantity quantity available limits checked in
                    let priced = accept-eq-ok offer c accepted in
                    rewritten-IsCart limits offer.sku (requoted offer quantity now) c _ (λ i. refl)
                      (λ i w.
                        written-IsItem limits offer quantity now i some_units few_units priced)
                      refl v)))
      ]
    ]

pub remove_skus-IsCart :
    (limits : Limits) (skus : List Text) (now : ℕ) (c : Cart)
    → IsCart limits c
    → IsCart limits (remove_skus skus limits now c).0
unfolding remove_skus
remove_skus-IsCart limits skus now c v =
    let shorter = remove_listed-length limits skus c.items in
    let kept : IsCart limits (record c { items = remove_listed skus c.items }) = record {
      distinct = remove_listed-Distinct limits skus c.items v.distinct;
      few = omega (arith, v.few, shorter);
      in_order = remove_listed-IsItem limits skus c.items v.in_order;
    } in
    let touched : IsCart limits
        (touch limits now (record c { items = remove_listed skus c.items })) =
      record { distinct = kept.distinct; few = kept.few; in_order = kept.in_order } in
    elim (Bool-cases (length (remove_listed skus c.items) == length c.items)) [
      | inl same ↦ rw same kept
      | inr fewer ↦ rw fewer touched
    ]
