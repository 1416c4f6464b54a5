-- ===== src/Settlement/Ledger.antt =====
-- The ledger under the accrual of orders (internal/settlement/application/command/accrue.go).
use go_marketplace_backend.Base.{
  ℕ, suc, ◌+◌, ◌≡◌, ◌||◌, not, List, [], ◌∷◌, Option, none, some, ok, arith, All, find, length,
  Option-cases, Result-cases, inl, inr, >>=-eq-ok, or_fail, or_fail-eq-ok, fail_if, ok-injective,
  subst,
}
use go_marketplace_backend.Base.Int.{ℤ}
use go_marketplace_backend.Base.Text.{Text, is_empty, text_eq, text_eq_iff}
use go_marketplace_backend.Kernel.Identifier.{Ident, id_is_zero}
use go_marketplace_backend.Kernel.Money.{Money, sub, new_money, new_currency}
use go_marketplace_backend.Kernel.Money.Laws.{sub-eq-ok}
use go_marketplace_backend.Settlement.{
  Entry, invalid_id, invalid_amount, panics, accrue, is_of, save, AccrueSettlement, SellerTotals,
  sum_items, new_entry, accrue_all, settle,
}

-- What a seller earns is split exactly between the marketplace and the seller, in one currency.
pub record IsBalanced (e : Entry) : Type 0 where
  pub split : e.net.amount + e.commission.amount ≡ e.gross.amount
  pub net_currency : e.net.currency ≡ e.gross.currency
  pub commission_currency : e.commission.currency ≡ e.gross.currency

-- One entry for an order and a seller.
abbrev pub Single : List Entry → Type 0
Single [] = Unit
Single (e ∷ es) = (find (is_of e.order_id e.seller_id) es ≡ none) × Single es

pub record IsLedger (entries : List Entry) : Type 0 where
  pub balanced : All IsBalanced entries
  pub single : Single entries

accrue-IsBalanced :
    (id : Ident) (order_id : Text) (seller_id : Ident) (gross commission : Money) (now : ℕ)
    {e : Entry}
    → accrue id order_id seller_id gross commission now ≡ ok e
    → IsBalanced e
unfolding accrue
accrue-IsBalanced id order_id seller_id gross commission now h =
    let (_, _, e1) =
      >>=-eq-ok (fail_if (id_is_zero id || is_empty order_id || id_is_zero seller_id) invalid_id) _
        h in
    let (_, k2, e2) =
      >>=-eq-ok (fail_if (not (text_eq commission.currency gross.currency)) invalid_amount) _ e1 in
    let (net, k3, e3) = >>=-eq-ok (or_fail (sub gross commission) (λ _. invalid_amount)) _ e2 in
    let (split, same, other) =
      sub-eq-ok gross commission (or_fail-eq-ok (sub gross commission) (λ _. invalid_amount) k3) in
    let alike = text_eq_iff commission.currency gross.currency in
    subst IsBalanced (ok-injective e3) (record {
      split = omega (arith, split);
      net_currency = same;
      commission_currency = ground (arith, k2, alike);
    })

new_entry-IsBalanced :
    (order_id currency : Text) (id : Ident) (now : ℕ) (t : SellerTotals) {e : Entry}
    → new_entry order_id currency id now t ≡ ok e
    → IsBalanced e
unfolding new_entry
new_entry-IsBalanced order_id currency id now t h =
    let (gross, _, e1) = >>=-eq-ok (or_fail (new_money t.gross currency) panics) _ h in
    let (commission, _, e2) = >>=-eq-ok (or_fail (new_money t.commission currency) panics) _ e1 in
    accrue-IsBalanced id order_id t.seller gross commission now e2

save-IsLedger :
    (e : Entry) (entries : List Entry) {saved : List Entry}
    → IsBalanced e
    → IsLedger entries
    → save e entries ≡ some saved
    → IsLedger saved
unfolding save
save-IsLedger e entries {saved} b v h =
    elim (Option-cases (find (is_of e.order_id e.seller_id) entries)) [
      | inr (old, found) ↦ cc (rw (found, save) at h)
      | inl missing ↦
          let made : ◌≡◌ {A = Option (List Entry)} (some (e ∷ entries)) (some saved) =
            rw (missing, save) at h in
          let one : e ∷ entries ≡ saved = cc made in
          subst IsLedger one (record { balanced = (b, v.balanced); single = (missing, v.single) })
    ]

accrue_all-IsLedger :
    (order_id currency : Text) (ids : ℕ → Ident) (now : ℕ) (ts : List SellerTotals)
    (entries : List Entry) (n : ℕ)
    → IsLedger entries
    → IsLedger (accrue_all order_id currency ids now ts (entries, n)).0.0
unfolding accrue_all
accrue_all-IsLedger order_id currency ids now [] entries n v = v
accrue_all-IsLedger order_id currency ids now (t ∷ ts) entries n v =
    let kept = accrue_all-IsLedger order_id currency ids now ts entries n v in
    elim (Option-cases (find (is_of order_id t.key) entries)) [
      | inr (old, found) ↦ rw (found, accrue_all) kept
      | inl missing ↦ elim (Result-cases (new_entry order_id currency (ids (length ts)) now t)) [
        | inr (x, refused) ↦ rw (missing, refused, accrue_all) v
        | inl (e, made) ↦ elim (Option-cases (save e entries)) [
          | inl again ↦ rw (missing, made, again, accrue_all) kept
          | inr (saved, fresh) ↦
              let b = new_entry-IsBalanced order_id currency (ids (length ts)) now t made in
              let w = save-IsLedger e entries b v fresh in
              rw (missing, made, fresh, accrue_all)
                (accrue_all-IsLedger order_id currency ids now ts saved (suc n) w)
        ]
      ]
    ]

-- Whatever the rates are, the accrual of an order, also one that fails on the way, keeps a ledger in which
-- each entry is split exactly into net and commission, in one currency, and no order stands twice for one
-- seller.
pub settle-IsLedger :
    (rates : Text → Text → Option ℤ) (standard : ℤ) (ids : ℕ → Ident) (now : ℕ)
    (cmd : AccrueSettlement) (entries : List Entry)
    → IsLedger entries
    → IsLedger (settle rates standard ids now cmd entries).0.0
unfolding settle
settle-IsLedger rates standard ids now cmd entries v =
    elim (Result-cases (new_currency cmd.currency)) [
      | inr (x, bad) ↦ rw (bad, settle) v
      | inl (currency, good) ↦
          elim (Result-cases (sum_items rates standard currency cmd.items [])) [
            | inr (x, bad) ↦ rw (good, bad, settle) v
            | inl (totals, summed) ↦
                rw (good, summed, settle)
                  (accrue_all-IsLedger cmd.order_id currency ids now totals entries 0 v)
          ]
    ]
