-- ===== src/Ordering/Types.antt =====
-- The data of the ordering domain: items, parts, orders, events and errors
-- (internal/ordering/domain: order.go, events.go, errors.go). A time is a number of nanoseconds, 0 for
-- the zero `time.Time`. Errors go without their details; `panics` stands for the panic of a `Must`
-- function with the error that it is given.
use go_marketplace_backend.Base.{ℕ, Bool, List, Option}
use go_marketplace_backend.Base.Int.{ℤ}
use go_marketplace_backend.Base.Text.{Text}
use go_marketplace_backend.Kernel.Error.{KernelError}
use go_marketplace_backend.Kernel.Identifier.{Ident}
use go_marketplace_backend.Kernel.Money.{Money}
use go_marketplace_backend.Ordering.Status.{Status, Actor}

pub data OrderError : Type 0 where
  invalid_id empty_order too_many_items invalid_item invalid_address invalid_shipping : OrderError
  invalid_reason invalid_reference currency_mismatch paid_amount_mismatch : OrderError
  cancellation_denied saga_not_running saga_not_manual : OrderError
  transition_error : Status → Status → OrderError
  panics : KernelError → OrderError

pub record Address : Type 0 where
  pub recipient : Text
  pub phone : Text
  pub country : Text
  pub city : Text
  pub line : Text
  pub postal_code : Text

pub record Item : Type 0 where
  pub sku : Text
  pub product_id : Text
  pub category_id : Text
  pub seller_id : Ident
  pub title : Text
  pub quantity : ℤ
  pub unit_price : Money
  pub base : Money
  pub final : Money

pub record ShippingCost : Type 0 where
  pub seller_id : Ident
  pub cost : Money

pub record Part : Type 0 where
  pub seller_id : Ident
  pub subtotal : Money
  pub discount : Money
  pub shipping : Money
  pub total : Money

-- `from` is absent in the first entry of a history.
pub record StatusChange : Type 0 where
  pub from : Option Status
  pub to : Status
  pub actor : Actor
  pub reason : Text
  pub at : ℕ

pub record PlaceSpec : Type 0 where
  pub id : Ident
  pub buyer_id : Ident
  pub address : Address
  pub delivery_method : Text
  pub promo_code : Text
  pub currency : Text
  pub items : List Item
  pub shipping : List ShippingCost

pub record Summary : Type 0 where
  pub order_id : Ident
  pub buyer_id : Ident
  pub currency : Text
  pub subtotal : Money
  pub discount : Money
  pub shipping : Money
  pub total : Money
  pub promo_code : Text
  pub items : List Item
  pub parts : List Part

pub data OrderEvent : Type 0 where
  order_created : (order : Summary) (at : ℕ) → OrderEvent
  order_awaiting_payment : (order_id buyer_id : Ident) (payment_id : Text) (at : ℕ) → OrderEvent
  order_paid : (order : Summary) (payment_id : Text) (at : ℕ) → OrderEvent
  order_failed : (order_id buyer_id : Ident) (reason : Text) (at : ℕ) → OrderEvent
  order_cancelled :
      (order_id buyer_id : Ident) (actor : Actor) (reason : Text) (refund_required : Bool)
      (total : Money) (at : ℕ)
      → OrderEvent
  order_shipped : (order_id buyer_id : Ident) (at : ℕ) → OrderEvent
  order_delivered : (order_id buyer_id : Ident) (at : ℕ) → OrderEvent
  order_completed : (order : Summary) (at : ℕ) → OrderEvent

pub record Order : Type 0 where
  pub id : Ident
  pub buyer_id : Ident
  pub status : Status
  pub address : Address
  pub delivery_method : Text
  pub promo_code : Text
  pub items : List Item
  pub parts : List Part
  pub subtotal : Money
  pub discount : Money
  pub shipping : Money
  pub total : Money
  pub payment_id : Text
  pub history : List StatusChange
  pub created_at : ℕ
  pub updated_at : ℕ
  pub delivered_at : ℕ
  pub version : ℕ
  pub events : List OrderEvent
