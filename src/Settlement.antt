-- ===== src/Settlement.antt =====
-- The settlement context: the ledger of what sellers have earned (internal/settlement/domain/entry.go), its
-- store (internal/settlement/infrastructure/memory/store.go) and the handler that accrues an order
-- (internal/settlement/application/command/accrue.go). `MustBasisPoints` and `MustMoney` panic: the error
-- `panics`. The handler stops at an error and keeps what it has saved. The rates of commission, the clock and
-- the new identifiers are arguments.
pub mod Ledger
mod Again
mod Tests
use go_marketplace_backend.Base.{
  ℕ, suc, Bool, true, false, ◌&&◌, ◌||◌, not, List, [], ◌∷◌, ◌++◌, if◌then◌else◌, Option, none,
  some, Result, ok, err, ◌>>=◌, ◌>>◌, fail_if, or_fail, Outcome, length, find, any,
}
use go_marketplace_backend.Base.Int.{ℤ, pos, add64}
use go_marketplace_backend.Base.Text.{Text, is_empty, text_eq}
use go_marketplace_backend.Kernel.Error.{KernelError}
use go_marketplace_backend.Kernel.Identifier.{Ident, id_is_zero, parse_id}
use go_marketplace_backend.Kernel.Money.{
  Money, sub, new_money, new_currency, new_basis_points, apply_percent,
}

pub record Entry : Type 0 where
  pub id : Ident
  pub order_id : Text
  pub seller_id : Ident
  pub gross : Money
  pub commission : Money
  pub net : Money
  pub accrued_at : ℕ

pub data SettlementError : Type 0 where
  invalid_id invalid_amount : SettlementError
  from_kernel : KernelError → SettlementError
  panics : KernelError → SettlementError

-- No amount of money is negative.
unfoldable pub accrue : Ident → Text → Ident → Money → Money → ℕ → Result SettlementError Entry
accrue id order_id seller_id gross commission now = do
  fail_if (id_is_zero id || is_empty order_id || id_is_zero seller_id) invalid_id
  fail_if (not (text_eq commission.currency gross.currency)) invalid_amount
  net ← or_fail (sub gross commission) (λ _. invalid_amount)
  ok (record {
    id = id;
    order_id = order_id;
    seller_id = seller_id;
    gross = gross;
    commission = commission;
    net = net;
    accrued_at = now;
  })

-- The key of the map of entries; an order and a seller have no '|'.
abbrev pub is_of : Text → Text → Entry → Bool
is_of order_id seller_id e = text_eq e.order_id order_id && text_eq e.seller_id seller_id

-- The store after `Save`, unless the order is already accrued for the seller.
unfoldable pub save : Entry → List Entry → Option (List Entry)
save e entries = elim (find (is_of e.order_id e.seller_id) entries) [
  | some _ ↦ none
  | none ↦ some (e ∷ entries)
]

pub record AccrueItem : Type 0 where
  pub seller_id : Text
  pub category_id : Text
  pub amount : ℤ

pub record AccrueSettlement : Type 0 where
  pub order_id : Text
  pub currency : Text
  pub items : List AccrueItem

-- An element of `bySeller` with its key.
pub record SellerTotals : Type 0 where
  pub key : Text
  pub seller : Ident
  pub gross : ℤ
  pub commission : ℤ

-- In the order in which the keys are first seen.
unfoldable pub add_totals : Text → Ident → ℤ → ℤ → List SellerTotals → List SellerTotals
add_totals key seller amount commission [] =
    record {
      key = key;
      seller = seller;
      gross = add64 (pos 0) amount;
      commission = add64 (pos 0) commission;
    }
    ∷ []
add_totals key seller amount commission (t ∷ ts) =
    let rest = add_totals key seller amount commission ts in
    if text_eq t.key key
    then record t { gross = add64 t.gross amount; commission = add64 t.commission commission } ∷ ts
    else t ∷ rest

abbrev pub rate_or : ℤ → Option ℤ → ℤ
rate_or standard none = standard
rate_or standard (some rate) = rate

-- The first loop of `Handle`. `rates` is what the directory of sellers answers, if it does.
unfoldable pub sum_items :
    (Text → Text → Option ℤ)
    → ℤ
    → Text
    → List AccrueItem
    → List SellerTotals
    → Result SettlementError (List SellerTotals)
unfolding add_totals
sum_items rates standard currency [] ts = ok ts
sum_items rates standard currency (i ∷ is) ts = do
  seller ← or_fail (parse_id i.seller_id) from_kernel
  points ← or_fail (new_basis_points (rate_or standard (rates i.seller_id i.category_id))) panics
  amount ← or_fail (new_money i.amount currency) panics
  sum_items rates standard currency is
      (add_totals i.seller_id seller i.amount (pos (apply_percent amount points).amount) ts)

-- One entry to be: the two `MustMoney` and `Accrue`.
unfoldable pub new_entry : Text → Text → Ident → ℕ → SellerTotals → Result SettlementError Entry
unfolding accrue
new_entry order_id currency id now t = do
  gross ← or_fail (new_money t.gross currency) panics
  commission ← or_fail (new_money t.commission currency) panics
  accrue id order_id t.seller gross commission now

-- The second loop, with the number of entries so far. `ids` numbers the new identifiers from the end.
unfoldable pub accrue_all :
    Text
    → Text
    → (ℕ → Ident)
    → ℕ
    → List SellerTotals
    → List Entry × ℕ
    → Outcome (List Entry × ℕ) SettlementError
unfolding save new_entry
accrue_all order_id currency ids now [] s = (s, none)
accrue_all order_id currency ids now (t ∷ ts) (entries, n) =
    elim (find (is_of order_id t.key) entries) [
      | some _ ↦ accrue_all order_id currency ids now ts (entries, n)
      | none ↦ elim (new_entry order_id currency (ids (length ts)) now t) [
        | err e ↦ ((entries, n), some e)
        | ok entry ↦ elim (save entry entries) [
          | none ↦ accrue_all order_id currency ids now ts (entries, n)
          | some saved ↦ accrue_all order_id currency ids now ts (saved, suc n)
        ]
      ]
    ]

unfoldable pub settle :
    (Text → Text → Option ℤ)
    → ℤ
    → (ℕ → Ident)
    → ℕ
    → AccrueSettlement
    → List Entry
    → Outcome (List Entry × ℕ) SettlementError
unfolding sum_items accrue_all
settle rates standard ids now cmd entries = elim (new_currency cmd.currency) [
  | err e ↦ ((entries, 0), some (from_kernel e))
  | ok currency ↦ elim (sum_items rates standard currency cmd.items []) [
    | err e ↦ ((entries, 0), some e)
    | ok totals ↦ accrue_all cmd.order_id currency ids now totals (entries, 0)
  ]
]
