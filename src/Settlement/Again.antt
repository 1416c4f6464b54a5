-- ===== src/Settlement/Again.antt =====
-- An order that is accrued a second time (internal/settlement/application/command/accrue.go).
use go_marketplace_backend.Base.{
  ℕ, suc, ◌≡◌, refl, true, false, List, [], ◌∷◌, Option, none, some, ok, arith, All, find, length,
  Option-cases, Result-cases, Bool-cases, inl, inr, ◌⊎◌, subst, ◌∙◌, sym, Outcome,
}
use go_marketplace_backend.Base.Int.{ℤ}
use go_marketplace_backend.Base.Text.{Text, text_eq_refl}
use go_marketplace_backend.Kernel.Identifier.{Ident, id_is_zero}
use go_marketplace_backend.Kernel.Money.{new_currency}
use go_marketplace_backend.Settlement.{
  Entry, SettlementError, accrue, is_of, save, AccrueSettlement, SellerTotals, sum_items, new_entry,
  accrue_all, settle,
}

-- The order is accrued for the seller.
abbrev Holds : Text → Text → List Entry → Type 0
Holds order_id seller_id entries = (e : Entry) × (find (is_of order_id seller_id) entries ≡ some e)

Holds-cons :
    (order_id seller_id : Text) (e : Entry) (entries : List Entry)
    → Holds order_id seller_id entries
    → Holds order_id seller_id (e ∷ entries)
Holds-cons order_id seller_id e entries (old, found) =
    elim (Bool-cases (is_of order_id seller_id e)) [
      | inl here ↦ (e, rw (here, find) refl)
      | inr there ↦ (old, rw (there, find) found)
    ]

save-cases :
    (e : Entry) (entries : List Entry)
    → ((save e entries ≡ none) × Holds e.order_id e.seller_id entries)
      ⊎ (save e entries ≡ some (e ∷ entries))
unfolding save
save-cases e entries = elim (Option-cases (find (is_of e.order_id e.seller_id) entries)) [
  | inr (old, found) ↦ inl (rw (found, save) refl, (old, found))
  | inl missing ↦ inr (rw (missing, save) refl)
]

save_held :
    (e : Entry) (entries : List Entry)
    → Holds e.order_id e.seller_id entries
    → save e entries ≡ none
unfolding save
save_held e entries (old, found) = rw (found, save) refl

new_entry-keys :
    (order_id currency : Text) (id : Ident) (now : ℕ) (t : SellerTotals) {e : Entry}
    → new_entry order_id currency id now t ≡ ok e
    → (e.order_id ≡ order_id) × (e.seller_id ≡ t.seller)
unfolding new_entry accrue
new_entry-keys order_id currency id now t h = ground (arith, h)

-- An entry that is made does not depend on its identifier and its time.
abbrev Makes : Text → Text → SellerTotals → Type 0
Makes order_id currency t =
    (id : Ident) (now : ℕ)
    → id_is_zero id ≡ false
    → (e : Entry) × (new_entry order_id currency id now t ≡ ok e)

new_entry-Makes :
    (order_id currency : Text) (id : Ident) (now : ℕ) (t : SellerTotals) {e : Entry}
    → new_entry order_id currency id now t ≡ ok e
    → Makes order_id currency t
unfolding new_entry accrue
new_entry-Makes order_id currency id now t {e} h id2 now2 given =
    (record e { id = id2; accrued_at = now2 }, ground (arith, given, h))

Holds-entry :
    (order_id seller_id : Text) (e : Entry) (entries : List Entry)
    → e.order_id ≡ order_id
    → e.seller_id ≡ seller_id
    → Holds order_id seller_id (e ∷ entries)
Holds-entry order_id seller_id e entries order seller =
    let here : is_of order_id seller_id e ≡ true =
      rw (sym order, sym seller, text_eq_refl e.order_id, text_eq_refl e.seller_id) refl in
    (e, rw (here, find) refl)

-- What the second loop leaves for an element of `bySeller`: its order is accrued under its key, or an entry can
-- be made for it and is there.
abbrev Settled : Text → Text → List Entry → SellerTotals → Type 0
Settled order_id currency entries t =
    Holds order_id t.key entries ⊎ (Makes order_id currency t × Holds order_id t.seller entries)

-- What is accrued stays.
accrue_all-Holds :
    (order_id currency : Text) (ids : ℕ → Ident) (now : ℕ) (ts : List SellerTotals)
    (entries : List Entry) (n : ℕ) (o k : Text)
    → Holds o k entries
    → Holds o k (accrue_all order_id currency ids now ts (entries, n)).0.0
unfolding accrue_all
accrue_all-Holds order_id currency ids now [] entries n o k h = h
accrue_all-Holds order_id currency ids now (t ∷ ts) entries n o k h =
    let kept = accrue_all-Holds order_id currency ids now ts entries n o k h in
    elim (Option-cases (find (is_of order_id t.key) entries)) [
      | inr (old, found) ↦ rw (found, accrue_all) kept
      | inl missing ↦ elim (Result-cases (new_entry order_id currency (ids (length ts)) now t)) [
        | inr (x, refused) ↦ rw (missing, refused, accrue_all) h
        | inl (e, made) ↦ elim (save-cases e entries) [
          | inl (again, _) ↦ rw (missing, made, again, accrue_all) kept
          | inr fresh ↦
              rw (missing, made, fresh, accrue_all)
                (accrue_all-Holds order_id currency ids now ts (e ∷ entries) (suc n) o k
                  (Holds-cons o k e entries h))
        ]
      ]
    ]

accrue_all-Settled :
    (order_id currency : Text) (ids : ℕ → Ident) (now : ℕ) (ts : List SellerTotals)
    (entries : List Entry) (n : ℕ)
    → (accrue_all order_id currency ids now ts (entries, n)).1 ≡ none
    → All (Settled order_id currency (accrue_all order_id currency ids now ts (entries, n)).0.0) ts
unfolding accrue_all
accrue_all-Settled order_id currency ids now [] entries n h = tt
accrue_all-Settled order_id currency ids now (t ∷ ts) entries n h =
    let whole = accrue_all order_id currency ids now (t ∷ ts) (entries, n) in
    let after : (es : List Entry) (m : ℕ)
        → whole ≡ accrue_all order_id currency ids now ts (es, m)
        → Settled order_id currency (accrue_all order_id currency ids now ts (es, m)).0.0 t
        → All (Settled order_id currency whole.0.0) (t ∷ ts) =
      λ es m e head.
        subst
          (λ (r : Outcome (List Entry × ℕ) SettlementError).
            All (Settled order_id currency r.0.0) (t ∷ ts))
          (sym e) (head, accrue_all-Settled order_id currency ids now ts es m (rw e at h)) in
    let stays = accrue_all-Holds order_id currency ids now ts in
    elim (Option-cases (find (is_of order_id t.key) entries)) [
      | inr (old, found) ↦
          after entries n (rw (found, accrue_all) refl)
            (inl (stays entries n order_id t.key (old, found)))
      | inl missing ↦ elim (Result-cases (new_entry order_id currency (ids (length ts)) now t)) [
        | inr (x, refused) ↦ cc (rw (missing, refused, accrue_all) at h)
        | inl (e, made) ↦
            let (order, seller) = new_entry-keys order_id currency (ids (length ts)) now t made in
            let makes = new_entry-Makes order_id currency (ids (length ts)) now t made in
            elim (save-cases e entries) [
              | inl (again, held) ↦
                  after entries n (rw (missing, made, again, accrue_all) refl) (
                    inr
                      (makes, stays entries n order_id t.seller (rw (sym order, sym seller) held)))
              | inr fresh ↦
                  after (e ∷ entries) (suc n) (rw (missing, made, fresh, accrue_all) refl) (
                    inr (
                      makes,
                      stays (e ∷ entries) (suc n) order_id t.seller
                          (Holds-entry order_id t.seller e entries order seller),
                    ))
            ]
      ]
    ]

accrue_all_again :
    (order_id currency : Text) (ids : ℕ → Ident) (now : ℕ) (ts : List SellerTotals)
    (entries : List Entry) (n : ℕ)
    → ((k : ℕ) → id_is_zero (ids k) ≡ false)
    → All (Settled order_id currency entries) ts
    → accrue_all order_id currency ids now ts (entries, n) ≡ ((entries, n), none)
unfolding accrue_all
accrue_all_again order_id currency ids now [] entries n given s = refl
accrue_all_again order_id currency ids now (t ∷ ts) entries n given (first, s) =
    let rest = accrue_all_again order_id currency ids now ts entries n given s in
    elim (Option-cases (find (is_of order_id t.key) entries)) [
      | inr (old, found) ↦ rw (found, accrue_all) rest
      | inl missing ↦ elim first [
        | inl (old, found) ↦ cc (sym missing ∙ found)
        | inr (make, (old, found)) ↦
            let (e, made) = make (ids (length ts)) now (given (length ts)) in
            let (order, seller) = new_entry-keys order_id currency (ids (length ts)) now t made in
            let again = save_held e entries (rw (order, seller) (old, found)) in
            rw (missing, made, again, accrue_all) rest
      ]
    ]

-- Where the generator gives no empty identifier: an order that has been accrued without an error is, when it
-- is accrued again, at any time and with any new identifiers, left as it is: nothing is added to the ledger,
-- and no error is returned.
pub settle_again :
    (rates : Text → Text → Option ℤ) (standard : ℤ) (ids ids2 : ℕ → Ident) (now now2 : ℕ)
    (cmd : AccrueSettlement) (entries : List Entry)
    → ((k : ℕ) → id_is_zero (ids2 k) ≡ false)
    → (settle rates standard ids now cmd entries).1 ≡ none
    → let saved = (settle rates standard ids now cmd entries).0.0 in
      settle rates standard ids2 now2 cmd saved ≡ ((saved, 0), none)
unfolding settle
settle_again rates standard ids ids2 now now2 cmd entries given h =
    elim (Result-cases (new_currency cmd.currency)) [
      | inr (x, bad) ↦ cc (rw (bad, settle) at h)
      | inl (currency, good) ↦
          elim (Result-cases (sum_items rates standard currency cmd.items [])) [
            | inr (x, bad) ↦ cc (rw (good, bad, settle) at h)
            | inl (totals, summed) ↦
                rw (good, summed, settle, good, summed)
                  (accrue_all_again cmd.order_id currency ids2 now2 totals _ 0 given (
                    accrue_all-Settled cmd.order_id currency ids now totals entries 0
                      (rw (good, summed, settle) at h)))
          ]
    ]
