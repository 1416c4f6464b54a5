-- ===== src/Inventory/Stock/Expiry.antt =====
-- The holds after `ExpireDue` (internal/inventory/domain/stock_item.go).
use go_marketplace_backend.Base.{
  ℕ, ◌≡◌, refl, inl, inr, Bool, true, false, List, [], ◌∷◌, none, some, ok, arith, Option-cases,
  find, any, All, Bool-cases, update_first, subst,
}
use go_marketplace_backend.Base.Text.{text_eq, text_eq_iff, text_eq_refl}
use go_marketplace_backend.Kernel.Identifier.{Ident}
use go_marketplace_backend.Kernel.Quantity.{add, sub}
use go_marketplace_backend.Inventory.Types.{expired, same_status, Hold, MovementReason, StockItem}
use go_marketplace_backend.Inventory.Stock.{
  has_id, is_held, is_due, due_ids, resolve, expire, expire_all, expire_due,
}
use go_marketplace_backend.Inventory.Stock.Holds.{Distinct}
use go_marketplace_backend.Inventory.Stock.Invariant.{IsStock, resolve-IsStock}

abbrev listed : List Ident → Hold → Bool
listed ids h = any (λ i. text_eq h.reservation_id i) ids

-- Every hold that is due is on the list.
abbrev Covers : ℕ → List Ident → List Hold → Type 0
Covers now ids hs = All (λ h. is_due now h ≡ true → listed ids h ≡ true) hs

Covers-more :
    (now : ℕ) (id : Ident) (ids : List Ident) (hs : List Hold)
    → Covers now ids hs
    → Covers now (id ∷ ids) hs
Covers-more now id ids [] c = tt
Covers-more now id ids (h ∷ hs) c = (λ d. ground (arith, c.0 d), Covers-more now id ids hs c.1)

due_ids-Covers : (now : ℕ) (hs : List Hold) → Covers now (due_ids now hs) hs
unfolding due_ids
due_ids-Covers now [] = tt
due_ids-Covers now (h ∷ hs) = elim (Bool-cases (is_due now h)) [
  | inl due ↦
      let grown : h.reservation_id ∷ due_ids now hs ≡ due_ids now (h ∷ hs) = ground (arith, due) in
      subst (λ ids. Covers now ids (h ∷ hs)) grown
        (
          λ d. rw (text_eq_refl h.reservation_id),
          Covers-more now h.reservation_id (due_ids now hs) hs (due_ids-Covers now hs),
        )
  | inr not_due ↦
      let same : due_ids now hs ≡ due_ids now (h ∷ hs) = ground (arith, not_due) in
      subst (λ ids. Covers now ids (h ∷ hs)) same (λ d. cc, due_ids-Covers now hs)
]

-- The write of `Expire`.
abbrev lapsed : ℕ → Hold → Hold
lapsed now h = record h { status = expired; resolved_at = now }

-- Without the first identifier the list covers what does not bear it.
Covers-others :
    (now : ℕ) (id : Ident) (ids : List Ident) (hs : List Hold)
    → find (has_id id) hs ≡ none
    → Covers now (id ∷ ids) hs
    → Covers now ids hs
Covers-others now id ids [] none_there c = tt
Covers-others now id ids (h ∷ hs) none_there c = elim (Bool-cases (has_id id h)) [
  | inl same ↦ cc (rw (same, find) at none_there)
  | inr other ↦
      (λ d. ground (arith, c.0 d, other), Covers-others now id ids hs (ground (arith, other)) c.1)
]

-- Once the first reservation on the list is expired, the rest of the list covers the holds.
Covers-lapsed :
    (now : ℕ) (id : Ident) (ids : List Ident) (hs : List Hold)
    → Distinct hs
    → Covers now (id ∷ ids) hs
    → Covers now ids (update_first (has_id id) (lapsed now) hs)
Covers-lapsed now id ids [] d c = tt
Covers-lapsed now id ids (h ∷ hs) d c = elim (Bool-cases (has_id id h)) [
  | inl same ↦
      let e : h.reservation_id ≡ id = (text_eq_iff h.reservation_id id).0 same in
      rw (same, update_first)
        (λ f. cc, Covers-others now id ids hs (subst (λ k. find (has_id k) hs ≡ none) e d.0) c.1)
  | inr other ↦
      rw (other, update_first)
        (λ e. ground (arith, c.0 e, other), Covers-lapsed now id ids hs d.1 c.1)
]

-- So it is where that reservation is no longer held.
Covers-settled :
    (now : ℕ) (id : Ident) (ids : List Ident) (hs : List Hold) (h : Hold)
    → Distinct hs
    → find (has_id id) hs ≡ some h
    → is_held h ≡ false
    → Covers now (id ∷ ids) hs
    → Covers now ids hs
Covers-settled now id ids [] h d found is c = tt
Covers-settled now id ids (x ∷ hs) h d found is c = elim (Bool-cases (has_id id x)) [
  | inl same ↦
      let e : x.reservation_id ≡ id = (text_eq_iff x.reservation_id id).0 same in
      let first : x ≡ h = ground (arith, same) in
      (
        λ f. ground (arith, first, is),
        Covers-others now id ids hs (subst (λ k. find (has_id k) hs ≡ none) e d.0) c.1,
      )
  | inr other ↦ (
    λ e. ground (arith, c.0 e, other),
    Covers-settled now id ids hs h d.1 (ground (arith, other)) is c.1,
  )
]

resolve-Covers :
    (now : ℕ) (id : Ident) (ids : List Ident) (s : StockItem)
    → Distinct s.holds
    → (resolve id expired MovementReason.release now s).1 ≡ none
    → Covers now (id ∷ ids) s.holds
    → Covers now ids (resolve id expired MovementReason.release now s).0.holds
unfolding resolve add sub
resolve-Covers now id ids s d e c = elim (Option-cases (find (has_id id) s.holds)) [
  | inl missing ↦ cc (rw (missing, resolve) at e)
  | inr (h, found) ↦ elim (Bool-cases (same_status h.status expired)) [
    | inl done ↦
        let kept : s.holds ≡ (resolve id expired MovementReason.release now s).0.holds =
          ground (arith, found, done) in
        subst (Covers now ids) kept
          (Covers-settled now id ids s.holds h d found (ground (arith, done)) c)
    | inr fresh ↦
        let moved : update_first (has_id id) (lapsed now) s.holds
            ≡ (resolve id expired MovementReason.release now s).0.holds =
          ground (arith, found, fresh) in
        subst (Covers now ids) moved (Covers-lapsed now id ids s.holds d c)
  ]
]

expire_all-Covers :
    (now : ℕ) (ids : List Ident) (s : StockItem)
    → IsStock s
    → (expire_all ids now s).1 ≡ none
    → Covers now ids s.holds
    → Covers now [] (expire_all ids now s).0.holds
unfolding expire_all expire
expire_all-Covers now [] s v e c = c
expire_all-Covers now (id ∷ ids) s v e c =
    elim (Option-cases (resolve id expired MovementReason.release now s).1) [
      | inl fine ↦
          rw (fine, expire_all)
            (expire_all-Covers now ids (resolve id expired MovementReason.release now s).0
              (resolve-IsStock id expired MovementReason.release now s refl v fine)
              (rw (fine, expire_all) at e) (resolve-Covers now id ids s v.distinct fine c))
      | inr (x, broken) ↦ cc (rw (broken, expire_all) at e)
    ]

-- Nothing that is held stays held past its time.
abbrev pub NoneDue : ℕ → List Hold → Type 0
NoneDue now hs = All (λ h. is_due now h ≡ false) hs

none_due : (now : ℕ) (hs : List Hold) → Covers now [] hs → NoneDue now hs
none_due now [] c = tt
none_due now (h ∷ hs) c = (
  elim (Bool-cases (is_due now h)) [ inl due ↦ absurd (cc (c.0 due)) | inr fine ↦ fine ],
  none_due now hs c.1,
)

-- An `ExpireDue` of a consistent item that returns no error leaves no hold that is held past its time.
pub expire_due-NoneDue :
    (now : ℕ) (s : StockItem) {ids : List Ident}
    → IsStock s
    → (expire_due now s).1 ≡ ok ids
    → NoneDue now (expire_due now s).0.holds
unfolding expire_due
expire_due-NoneDue now s v e =
    none_due now (expire_all (due_ids now s.holds) now s).0.holds
      (expire_all-Covers now (due_ids now s.holds) s v (ground arith) (due_ids-Covers now s.holds))
