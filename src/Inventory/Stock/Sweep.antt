-- ===== src/Inventory/Stock/Sweep.antt =====
-- When `ExpireDue` succeeds (internal/inventory/domain/stock_item.go).
use go_marketplace_backend.Base.{
  ℕ, ◌≤◌, ◌≡◌, ◌||◌, refl, inl, inr, Bool, true, false, List, [], ◌∷◌, none, some, ok, arith, find,
  All, Bool-cases, update_first, subst, if◌then◌else◌,
}
use go_marketplace_backend.Base.Text.{text_eq_iff, text_eq_refl}
use go_marketplace_backend.Kernel.Identifier.{Ident}
use go_marketplace_backend.Kernel.Quantity.{max_quantity, add, sub}
use go_marketplace_backend.Inventory.Types.{expired, same_status, Hold, MovementReason, StockItem}
use go_marketplace_backend.Inventory.Stock.{
  has_id, is_held, is_due, due_ids, resolve, expire, expire_all, expire_due, physical,
}
use go_marketplace_backend.Inventory.Stock.Holds.{Distinct, held_total, held_units}
use go_marketplace_backend.Inventory.Stock.Invariant.{IsStock, resolve-IsStock}

abbrev expirable : Hold → Bool
expirable h = is_held h || same_status h.status expired

-- The first hold under an identifier is held or expired.
abbrev open_to : Ident → List Hold → Bool
open_to id [] = false
open_to id (h ∷ hs) = let rest = open_to id hs in if has_id id h then expirable h else rest

open_to_found :
    (id : Ident) (hs : List Hold)
    → open_to id hs ≡ true
    → (h : Hold) × (find (has_id id) hs ≡ some h) × (expirable h ≡ true)
open_to_found id [] o = cc
open_to_found id (h ∷ hs) o = elim (Bool-cases (has_id id h)) [
  | inl same ↦ (h, ground (arith, same), ground (arith, same))
  | inr other ↦
      let (x, found, open_x) = open_to_found id hs (ground (arith, other)) in
      (x, ground (arith, other, found), open_x)
]

open_to_lapsed :
    (id other : Ident) (now : ℕ) (hs : List Hold)
    → open_to id hs ≡ true
    → open_to id
        (update_first (has_id other) (λ h. record h { status = expired; resolved_at = now }) hs)
      ≡ true
open_to_lapsed id other now [] o = cc
open_to_lapsed id other now (h ∷ hs) o = ground (arith, open_to_lapsed id other now hs)

open_to_cons :
    (id : Ident) (h : Hold) (hs : List Hold)
    → Distinct (h ∷ hs)
    → open_to id hs ≡ true
    → open_to id (h ∷ hs) ≡ true
open_to_cons id h hs d o = elim (Bool-cases (has_id id h)) [
  | inl same ↦
      let e : h.reservation_id ≡ id = (text_eq_iff h.reservation_id id).0 same in
      let missing : find (has_id id) hs ≡ none = subst (λ k. find (has_id k) hs ≡ none) e d.0 in
      let (x, found, _) = open_to_found id hs o in absurd (cc (missing, found))
  | inr other ↦ ground (arith, other)
]

AllOpen : List Hold → List Ident → Type 0
AllOpen hs ids = All (λ i. open_to i hs ≡ true) ids

AllOpen-cons :
    (h : Hold) (hs : List Hold) (ids : List Ident)
    → Distinct (h ∷ hs)
    → AllOpen hs ids
    → AllOpen (h ∷ hs) ids
unfolding AllOpen
AllOpen-cons h hs [] d a = tt
AllOpen-cons h hs (i ∷ ids) d (o, a) = (open_to_cons i h hs d o, AllOpen-cons h hs ids d a)

AllOpen-lapsed :
    (other : Ident) (now : ℕ) (hs : List Hold) (ids : List Ident)
    → AllOpen hs ids
    → AllOpen
        (update_first (has_id other) (λ h. record h { status = expired; resolved_at = now }) hs)
        ids
unfolding AllOpen
AllOpen-lapsed other now hs [] a = tt
AllOpen-lapsed other now hs (i ∷ ids) (o, a) =
    (open_to_lapsed i other now hs o, AllOpen-lapsed other now hs ids a)

due_ids-AllOpen : (now : ℕ) (hs : List Hold) → Distinct hs → AllOpen hs (due_ids now hs)
unfolding due_ids AllOpen
due_ids-AllOpen now [] d = tt
due_ids-AllOpen now (h ∷ hs) d =
    let rest = AllOpen-cons h hs (due_ids now hs) d (due_ids-AllOpen now hs d.1) in
    elim (Bool-cases (is_due now h)) [
      | inl due ↦
          let grown : h.reservation_id ∷ due_ids now hs ≡ due_ids now (h ∷ hs) =
            ground (arith, due) in
          subst (AllOpen (h ∷ hs)) grown (ground (arith, due, text_eq_refl h.reservation_id), rest)
      | inr later ↦
          let same : due_ids now hs ≡ due_ids now (h ∷ hs) = ground (arith, later) in
          subst (AllOpen (h ∷ hs)) same rest
    ]

held_units-le :
    (id : Ident) (hs : List Hold) (h : Hold)
    → find (has_id id) hs ≡ some h
    → held_units h ≤ held_total hs
held_units-le id [] h f = cc
held_units-le id (x ∷ hs) h f = ground (arith, held_units-le id hs h)

-- One round of the second loop.
resolve_expired :
    (id : Ident) (now : ℕ) (s : StockItem)
    → IsStock s
    → physical s ≤ max_quantity
    → open_to id s.holds ≡ true
    → let r = resolve id expired MovementReason.release now s in
      (r.1 ≡ none)
      × (physical r.0 ≡ physical s)
      × ((ids : List Ident) → AllOpen s.holds ids → AllOpen r.0.holds ids)
unfolding resolve add sub physical
resolve_expired id now s v fits o =
    let (h, found, open_h) = open_to_found id s.holds o in
    let small = held_units-le id s.holds h found in
    elim (Bool-cases (same_status h.status expired)) [
      | inl done ↦
          let kept : s.holds ≡ (resolve id expired MovementReason.release now s).0.holds =
            ground (arith, found, done) in
          (
            ground (arith, found, done),
            ground (arith, found, done),
            λ ids a. subst (λ hs. AllOpen hs ids) kept a,
          )
      | inr fresh ↦
          let moved : update_first (has_id id)
                (λ x. record x { status = expired; resolved_at = now }) s.holds
              ≡ (resolve id expired MovementReason.release now s).0.holds =
            ground (arith, v, found, fresh, open_h, small) in
          (
            ground (arith, v, found, fresh, open_h, small),
            ground (arith, v, found, fresh, open_h, small),
            λ ids a. subst (λ hs. AllOpen hs ids) moved (AllOpen-lapsed id now s.holds ids a),
          )
    ]

expire_all_succeeds :
    (ids : List Ident) (now : ℕ) (s : StockItem)
    → IsStock s
    → physical s ≤ max_quantity
    → AllOpen s.holds ids
    → (expire_all ids now s).1 ≡ none
unfolding expire_all expire AllOpen
expire_all_succeeds [] now s v fits a = refl
expire_all_succeeds (id ∷ ids) now s v fits (o, a) =
    let (fine, kept, open_rest) = resolve_expired id now s v fits o in
    rw (fine, expire_all)
      (expire_all_succeeds ids now (resolve id expired MovementReason.release now s).0
        (resolve-IsStock id expired MovementReason.release now s refl v fine)
        (omega (arith, kept, fits)) (open_rest ids a))

-- On a consistent item whose available and reserved units together are at most the maximal stock,
-- `ExpireDue` returns no error, and returns exactly the reservations that were due.
pub expire_due_total :
    (now : ℕ) (s : StockItem)
    → IsStock s
    → physical s ≤ max_quantity
    → (expire_due now s).1 ≡ ok (due_ids now s.holds)
unfolding expire_due
expire_due_total now s v fits =
    let fine =
      expire_all_succeeds (due_ids now s.holds) now s v fits
        (due_ids-AllOpen now s.holds v.distinct) in
    ground (arith, fine)
