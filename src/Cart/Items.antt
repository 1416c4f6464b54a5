-- ===== src/Cart/Items.antt =====
-- The lists of items of a cart (internal/cart/domain/cart.go): what the lookups find and what the writes
-- keep.
use go_marketplace_backend.Base.{
  ◌≤◌, ◌≡◌, refl, false, List, [], ◌∷◌, ◌++◌, All, any, find, update_first, length, arith, none,
  ◌∙◌, inl, inr, Bool-cases,
}
use go_marketplace_backend.Base.Int.{pos, ◌≤ℤ◌}
use go_marketplace_backend.Base.Text.{Text, text_eq, text_eq_iff}
use go_marketplace_backend.Cart.Types.{Limits, Item}
use go_marketplace_backend.Cart.{has_sku, remove_first, remove_listed}

-- No SKU twice.
abbrev pub Distinct : List Item → Type 0
Distinct [] = Unit
Distinct (i ∷ is) = (find (has_sku i.sku) is ≡ none) × Distinct is

-- A quantity of 1 to the maximum, at a positive price.
pub record IsItem (limits : Limits) (i : Item) : Type 0 where
  pub some_units : pos 1 ≤ℤ i.quantity
  pub few_units : i.quantity ≤ℤ limits.max_quantity
  pub priced : pos 1 ≤ℤ i.price

-- No item has the SKU.
abbrev pub Absent : Text → List Item → Type 0
Absent sku is = find (has_sku sku) is ≡ none

Absent-head :
    (sku : Text) (i : Item) (is : List Item)
    → Absent sku (i ∷ is)
    → (has_sku sku i ≡ false) × Absent sku is
Absent-head sku i is e = ground arith

Absent-cons :
    (sku : Text) (i : Item) (is : List Item)
    → has_sku sku i ≡ false
    → Absent sku is
    → Absent sku (i ∷ is)
Absent-cons sku i is h e = rw (h, find) e

module _ (limits : Limits) (sku : Text) (f : Item → Item) where
  -- A write through the pointer to an item.
  pub update_first-Absent :
      ((i : Item) → (f i).sku ≡ i.sku)
      → (other : Text) (is : List Item) → Absent other is
      → Absent other (update_first (has_sku sku) f is)
  update_first-Absent keeps other [] e = refl
  update_first-Absent keeps other (i ∷ is) e =
      let (h, a) = Absent-head other i is e in
      let written : has_sku other (f i) ≡ false = rw (keeps i) h in
      elim (Bool-cases (has_sku sku i)) [
        | inl here ↦ rw (here, update_first) (Absent-cons other (f i) is written a)
        | inr there ↦
            rw (there, update_first)
              (Absent-cons other i _ h (update_first-Absent keeps other is a))
      ]

  pub update_first-Distinct :
      ((i : Item) → (f i).sku ≡ i.sku)
      → (is : List Item) → Distinct is
      → Distinct (update_first (has_sku sku) f is)
  update_first-Distinct keeps [] d = tt
  update_first-Distinct keeps (i ∷ is) (fresh, d) = elim (Bool-cases (has_sku sku i)) [
    | inl here ↦ rw (here, update_first, keeps i) (fresh, d)
    | inr there ↦
        rw (there, update_first)
          (update_first-Absent keeps i.sku is fresh, update_first-Distinct keeps is d)
  ]

  pub update_first-length : (is : List Item) → length (update_first (has_sku sku) f is) ≡ length is
  update_first-length [] = refl
  update_first-length (i ∷ is) = ground (arith, update_first-length is)

  pub update_first-IsItem :
      ((i : Item) → IsItem limits i → IsItem limits (f i))
      → (is : List Item) → All (IsItem limits) is
      → All (IsItem limits) (update_first (has_sku sku) f is)
  update_first-IsItem keeps [] v = tt
  update_first-IsItem keeps (i ∷ is) (first, v) = elim (Bool-cases (has_sku sku i)) [
    | inl here ↦ rw (here, update_first) (keeps i first, v)
    | inr there ↦ rw (there, update_first) (first, update_first-IsItem keeps is v)
  ]

Absent-append :
    (sku : Text) (is : List Item) (j : Item)
    → Absent sku is
    → has_sku sku j ≡ false
    → Absent sku (is ++ j ∷ [])
Absent-append sku [] j e h = Absent-cons sku j [] h refl
Absent-append sku (i ∷ is) j e h =
    let (h2, a) = Absent-head sku i is e in
    Absent-cons sku i (is ++ j ∷ []) h2 (Absent-append sku is j a h)

has_sku_comm : (i j : Item) → has_sku i.sku j ≡ has_sku j.sku i
has_sku_comm i j = ground (arith, text_eq_iff i.sku j.sku, text_eq_iff j.sku i.sku)

-- A new item at the end.
pub append-Distinct :
    (is : List Item) (j : Item) → Absent j.sku is → Distinct is → Distinct (is ++ j ∷ [])
append-Distinct [] j a d = (refl, tt)
append-Distinct (i ∷ is) j a (fresh, d) =
    let (h, b) = Absent-head j.sku i is a in
    (Absent-append i.sku is j fresh (has_sku_comm i j ∙ h), append-Distinct is j b d)

module _ (limits : Limits) where
  -- A deletion keeps what is absent absent, and the rest in order.
  remove_first-Absent :
      (sku other : Text) (is : List Item) → Absent other is → Absent other (remove_first sku is)
  unfolding remove_first
  remove_first-Absent sku other [] a = a
  remove_first-Absent sku other (i ∷ is) a =
      let (h, b) = Absent-head other i is a in
      elim (Bool-cases (has_sku sku i)) [
        | inl here ↦ rw here b
        | inr there ↦ rw there (Absent-cons other i _ h (remove_first-Absent sku other is b))
      ]

  pub remove_first-Distinct :
      (sku : Text) (is : List Item) → Distinct is → Distinct (remove_first sku is)
  unfolding remove_first
  remove_first-Distinct sku [] d = tt
  remove_first-Distinct sku (i ∷ is) (fresh, d) = elim (Bool-cases (has_sku sku i)) [
    | inl here ↦ rw here d
    | inr there ↦ rw there (remove_first-Absent sku i.sku is fresh, remove_first-Distinct sku is d)
  ]

  pub remove_first-IsItem :
      (sku : Text) (is : List Item)
      → All (IsItem limits) is
      → All (IsItem limits) (remove_first sku is)
  unfolding remove_first
  remove_first-IsItem sku [] v = tt
  remove_first-IsItem sku (i ∷ is) (first, v) = elim (Bool-cases (has_sku sku i)) [
    | inl here ↦ rw here v
    | inr there ↦ rw there (first, remove_first-IsItem sku is v)
  ]

  pub remove_first-length : (sku : Text) (is : List Item) → length (remove_first sku is) ≤ length is
  unfolding remove_first
  remove_first-length sku [] = omega arith
  remove_first-length sku (i ∷ is) = ground (arith, remove_first-length sku is)

  remove_listed-Absent :
      (skus : List Text) (other : Text) (is : List Item)
      → Absent other is
      → Absent other (remove_listed skus is)
  unfolding remove_listed
  remove_listed-Absent skus other [] a = a
  remove_listed-Absent skus other (i ∷ is) a =
      let (h, b) = Absent-head other i is a in
      elim (Bool-cases (any (text_eq i.sku) skus)) [
        | inl listed ↦ rw listed (remove_listed-Absent skus other is b)
        | inr kept ↦ rw kept (Absent-cons other i _ h (remove_listed-Absent skus other is b))
      ]

  pub remove_listed-Distinct :
      (skus : List Text) (is : List Item) → Distinct is → Distinct (remove_listed skus is)
  unfolding remove_listed
  remove_listed-Distinct skus [] d = tt
  remove_listed-Distinct skus (i ∷ is) (fresh, d) = elim (Bool-cases (any (text_eq i.sku) skus)) [
    | inl listed ↦ rw listed (remove_listed-Distinct skus is d)
    | inr kept ↦
        rw kept (remove_listed-Absent skus i.sku is fresh, remove_listed-Distinct skus is d)
  ]

  pub remove_listed-IsItem :
      (skus : List Text) (is : List Item)
      → All (IsItem limits) is
      → All (IsItem limits) (remove_listed skus is)
  unfolding remove_listed
  remove_listed-IsItem skus [] v = tt
  remove_listed-IsItem skus (i ∷ is) (first, v) = elim (Bool-cases (any (text_eq i.sku) skus)) [
    | inl listed ↦ rw listed (remove_listed-IsItem skus is v)
    | inr kept ↦ rw kept (first, remove_listed-IsItem skus is v)
  ]

  pub remove_listed-length :
      (skus : List Text) (is : List Item) → length (remove_listed skus is) ≤ length is
  unfolding remove_listed
  remove_listed-length skus [] = omega arith
  remove_listed-length skus (i ∷ is) = ground (arith, remove_listed-length skus is)
