-- ===== src/Inventory/Stock/Holds.antt =====
-- The list of holds: the units that are held, and that no reservation is listed twice.
use go_marketplace_backend.Base.{
  ℕ, ◌+◌, ◌≡◌, refl, false, List, [], ◌∷◌, ◌++◌, if◌then◌else◌, none, some, find, update_first,
  arith, Bool-cases, inl, inr,
}
use go_marketplace_backend.Base.Text.{text_eq_iff}
use go_marketplace_backend.Kernel.Identifier.{Ident}
use go_marketplace_backend.Inventory.Types.{Hold}
use go_marketplace_backend.Inventory.Stock.{has_id, is_held}

-- The units that a hold keeps reserved.
abbrev pub held_units : Hold → ℕ
held_units h = if is_held h then h.quantity.value else 0

abbrev pub held_total : List Hold → ℕ
held_total [] = 0
held_total (h ∷ hs) = held_units h + held_total hs

abbrev pub Distinct : List Hold → Type 0
Distinct [] = Unit
Distinct (h ∷ hs) = (find (has_id h.reservation_id) hs ≡ none) × Distinct hs

pub held_total-append :
    (hs : List Hold) (h : Hold) → held_total (hs ++ h ∷ []) ≡ held_total hs + held_units h
held_total-append [] h = omega arith
held_total-append (x ∷ hs) h = omega (arith, held_total-append hs h)

pub find-reservation_id :
    (id : Ident) (hs : List Hold) (h : Hold) → find (has_id id) hs ≡ some h → h.reservation_id ≡ id
find-reservation_id id [] h e = cc
find-reservation_id id (x ∷ hs) h e =
    ground (arith, text_eq_iff x.reservation_id id, find-reservation_id id hs h)

pub held_total-update :
    (id : Ident) (f : Hold → Hold) (hs : List Hold) (h : Hold)
    → find (has_id id) hs ≡ some h
    → held_total (update_first (has_id id) f hs) + held_units h ≡ held_total hs + held_units (f h)
held_total-update id f [] h e = cc
held_total-update id f (x ∷ hs) h e = elim (Bool-cases (has_id id x)) [
  | inl same ↦
      rw (same, update_first, held_total)
        (let same_hold : x ≡ h = ground arith in rw (← same_hold) (omega arith))
  | inr other ↦
      rw (other, update_first, held_total)
        (omega (arith, held_total-update id f hs h (ground arith)))
]

-- What changes a hold and leaves its reservation alone.
abbrev pub KeepsId : (Hold → Hold) → Type 0
KeepsId f = (h : Hold) → (f h).reservation_id ≡ h.reservation_id

find-update_none :
    (k id : Ident) (f : Hold → Hold) (hs : List Hold)
    → KeepsId f
    → find (has_id k) hs ≡ none
    → find (has_id k) (update_first (has_id id) f hs) ≡ none
find-update_none k id f [] keep e = refl
find-update_none k id f (x ∷ hs) keep e = ground (arith, keep x, find-update_none k id f hs keep)

pub Distinct-update :
    (id : Ident) (f : Hold → Hold) (hs : List Hold)
    → KeepsId f
    → Distinct hs
    → Distinct (update_first (has_id id) f hs)
Distinct-update id f [] keep d = tt
Distinct-update id f (x ∷ hs) keep d = ground (
  arith,
  keep x,
  Distinct-update id f hs keep d.1,
  find-update_none x.reservation_id id f hs keep,
)

find-append_none :
    (k : Ident) (hs : List Hold) (h : Hold)
    → find (has_id k) hs ≡ none
    → has_id k h ≡ false
    → find (has_id k) (hs ++ h ∷ []) ≡ none
find-append_none k [] h e n = ground arith
find-append_none k (x ∷ hs) h e n = ground (arith, find-append_none k hs h)

pub Distinct-append :
    (hs : List Hold) (h : Hold)
    → Distinct hs
    → find (has_id h.reservation_id) hs ≡ none
    → Distinct (hs ++ h ∷ [])
Distinct-append [] h d e = (refl, tt)
Distinct-append (x ∷ hs) h d e = ground (
  arith,
  text_eq_iff x.reservation_id h.reservation_id,
  text_eq_iff h.reservation_id x.reservation_id,
  Distinct-append hs h d.1,
  find-append_none x.reservation_id hs h,
)
