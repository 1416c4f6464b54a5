-- ===== src/Inventory/Stock/Invariant.antt =====
-- The invariant of the stock aggregate (internal/inventory/domain/stock_item.go), method by method.
use go_marketplace_backend.Base.{ℕ, ◌≡◌, refl, inl, inr, false, none, ok, arith, Option-cases, find}
use go_marketplace_backend.Base.Text.{Text}
use go_marketplace_backend.Kernel.Identifier.{Ident}
use go_marketplace_backend.Kernel.Quantity.{Quantity, add, sub}
use go_marketplace_backend.Kernel.Quantity.Laws.{IsQuantity}
use go_marketplace_backend.Inventory.Types.{
  HoldStatus, held, restored, same_status, Hold, MovementReason, StockItem,
}
use go_marketplace_backend.Inventory.Stock.{
  has_id, open_stock, restock, set_available, reserve, resolve, restore, return_units,
}
use go_marketplace_backend.Inventory.Stock.Holds.{
  held_total, Distinct, held_total-append, held_total-update, Distinct-append, Distinct-update,
}

pub record IsStock (s : StockItem) : Type 0 where
  pub available_bounded : IsQuantity s.available
  pub reserved_bounded : IsQuantity s.reserved
  pub reserved_exact : s.reserved.value ≡ held_total s.holds
  pub distinct : Distinct s.holds

pub open_stock-IsStock :
    (sku : Text) (seller : Ident) (now : ℕ) {s : StockItem}
    → open_stock sku seller now ≡ ok s
    → IsStock s
unfolding open_stock
open_stock-IsStock sku seller now h = ground arith

pub restock-IsStock :
    (seller : Ident) (q : Quantity) (ref : Text) (now : ℕ) (s : StockItem)
    → IsStock s
    → IsStock (restock seller q ref now s).0
unfolding restock add
restock-IsStock seller q ref now s v = ground arith

pub set_available-IsStock :
    (seller : Ident) (q : Quantity) (ref : Text) (now : ℕ) (s : StockItem)
    → IsQuantity q
    → IsStock s
    → IsStock (set_available seller q ref now s).0
unfolding set_available
set_available-IsStock seller q ref now s b v = ground arith

pub reserve-IsStock :
    (id order : Ident) (q : Quantity) (expires_at now : ℕ) (s : StockItem)
    → IsStock s
    → IsStock (reserve id order q expires_at now s).0
unfolding reserve add sub
reserve-IsStock id order q expires_at now s v = ground (
  arith,
  held_total-append s.holds (record {
    reservation_id = id;
    order_id = order;
    quantity = q;
    status = held;
    expires_at = expires_at;
    created_at = now;
    resolved_at = 0;
  }),
  Distinct-append s.holds (record {
    reservation_id = id;
    order_id = order;
    quantity = q;
    status = held;
    expires_at = expires_at;
    created_at = now;
    resolved_at = 0;
  }),
)

pub return_units-IsStock :
    (ref : Text) (q : Quantity) (now : ℕ) (s : StockItem)
    → IsStock s
    → IsStock (return_units ref q now s).0
unfolding return_units add
return_units-IsStock ref q now s v = ground arith

-- The write that settles a hold.
abbrev marked : HoldStatus → ℕ → Hold → Hold
marked status now h = record h { status = status; resolved_at = now }

pub resolve-IsStock :
    (id : Ident) (status : HoldStatus) (reason : MovementReason) (now : ℕ) (s : StockItem)
    → same_status status held ≡ false
    → IsStock s
    → (resolve id status reason now s).1 ≡ none
    → IsStock (resolve id status reason now s).0
unfolding resolve add sub
resolve-IsStock id status reason now s settles v e =
    elim (Option-cases (find (has_id id) s.holds)) [
      | inl missing ↦ ground (arith, missing)
      | inr (h, found) ↦ ground (
        arith,
        found,
        held_total-update id (marked status now) s.holds h found,
        Distinct-update id (marked status now) s.holds (λ x. refl) v.distinct,
      )
    ]

pub restore-IsStock :
    (id : Ident) (now : ℕ) (s : StockItem) → IsStock s → IsStock (restore id now s).0
unfolding restore add
restore-IsStock id now s v = elim (Option-cases (find (has_id id) s.holds)) [
  | inl missing ↦ ground (arith, missing)
  | inr (h, found) ↦ ground (
    arith,
    found,
    held_total-update id (marked restored now) s.holds h found,
    Distinct-update id (marked restored now) s.holds (λ x. refl) v.distinct,
  )
]
