-- ===== src/Cart/Types.antt =====
-- The data of the cart domain (internal/cart/domain: cart.go, owner.go, errors.go). A time and a duration
-- are numbers of nanoseconds, an `int` and a price are signed. Errors go without their details.
use go_marketplace_backend.Base.{ℕ, List}
use go_marketplace_backend.Base.Int.{ℤ}
use go_marketplace_backend.Base.Text.{Text}
use go_marketplace_backend.Kernel.Identifier.{Ident}

-- `no_owner` is the empty kind.
pub data OwnerKind : Type 0 where
  user device no_owner : OwnerKind

pub record Owner : Type 0 where
  pub kind : OwnerKind
  pub id : Text

pub record Limits : Type 0 where
  pub max_items : ℤ
  pub max_quantity : ℤ
  pub anonymous_ttl : ℕ

pub record Item : Type 0 where
  pub sku : Text
  pub seller_id : Text
  pub quantity : ℤ
  pub price : ℤ
  pub added_at : ℕ
  pub updated_at : ℕ

pub record Offer : Type 0 where
  pub sku : Text
  pub seller_id : Text
  pub price : ℤ
  pub currency : Text

-- `expires_at` is 0 for the zero time.
pub record Cart : Type 0 where
  pub id : Ident
  pub owner : Owner
  pub currency : Text
  pub items : List Item
  pub promo_code : Text
  pub created_at : ℕ
  pub updated_at : ℕ
  pub expires_at : ℕ
  pub version : ℕ

pub data CartError : Type 0 where
  invalid_id invalid_device invalid_sku invalid_quantity invalid_promo_code invalid_price :
      CartError
  item_not_found too_many_items exceeds_stock offer_unavailable currency_mismatch same_owner :
      CartError
