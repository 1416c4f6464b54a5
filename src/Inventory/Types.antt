-- ===== src/Inventory/Types.antt =====
-- The data of the inventory domain: holds, movements, events, errors and the stock aggregate
-- (internal/inventory/domain: stock_item.go, movement.go, events.go, errors.go). A time is a number of
-- nanoseconds, 0 for the zero `time.Time`. Errors go without their details.
use go_marketplace_backend.Base.{ℕ, List, Bool, true, false}
use go_marketplace_backend.Base.Int.{ℤ}
use go_marketplace_backend.Base.Text.{Text}
use go_marketplace_backend.Kernel.Identifier.{Ident}
use go_marketplace_backend.Kernel.Quantity.{Quantity}

pub data HoldStatus : Type 0 where
  held committed released expired restored : HoldStatus

-- `==` on the strings of the statuses.
abbrev pub same_status : HoldStatus → HoldStatus → Bool
same_status held held = true
same_status committed committed = true
same_status released released = true
same_status expired expired = true
same_status restored restored = true
same_status _ _ = false

pub record Hold : Type 0 where
  pub reservation_id : Ident
  pub order_id : Ident
  pub quantity : Quantity
  pub status : HoldStatus
  pub expires_at : ℕ
  pub created_at : ℕ
  pub resolved_at : ℕ

pub data MovementReason : Type 0 where
  reserve release commit restock return correction : MovementReason

pub record Movement : Type 0 where
  pub sku : Text
  pub delta : ℤ
  pub reason : MovementReason
  pub reference_id : Text
  pub occurred_at : ℕ

pub data StockEvent : Type 0 where
  stock_changed :
      (sku : Text) (seller_id : Ident) (available reserved : ℕ) (reason : MovementReason) (at : ℕ)
      → StockEvent
  stock_reserved :
      (sku : Text) (seller_id reservation_id order_id : Ident) (quantity expires_at at : ℕ)
      → StockEvent
  reservation_resolved :
      (sku : Text) (seller_id reservation_id order_id : Ident) (quantity : ℕ) (status : HoldStatus)
      (at : ℕ)
      → StockEvent

pub data StockError : Type 0 where
  invalid_id invalid_quantity invalid_reference invalid_ttl : StockError
  reservation_not_found not_stock_owner insufficient_stock : StockError
  already_resolved reservation_not_committed stock_overflow : StockError

pub record StockItem : Type 0 where
  pub sku : Text
  pub seller_id : Ident
  pub available : Quantity
  pub reserved : Quantity
  pub holds : List Hold
  pub movements : List Movement
  pub created_at : ℕ
  pub updated_at : ℕ
  pub version : ℕ
  pub events : List StockEvent
