-- ===== src/Pricing/Types.antt =====
-- The data of the pricing domain (internal/pricing/domain: promo_code.go, discount_rule.go,
-- calculator.go, events.go, errors.go). A time is a number of nanoseconds, 0 for the zero `time.Time`.
-- Errors go without their details.
use go_marketplace_backend.Base.{ℕ, List, Bool}
use go_marketplace_backend.Base.Int.{ℤ}
use go_marketplace_backend.Base.Text.{Text}
use go_marketplace_backend.Kernel.Identifier.{Ident}
use go_marketplace_backend.Kernel.Money.{Money, BasisPoints}
use go_marketplace_backend.Kernel.Error.{KernelError}
use go_marketplace_backend.Kernel.Quantity.{Quantity}

-- `unknown_kind` stands for every other string.
pub data DiscountKind : Type 0 where
  percentage fixed buy_n_get_m unknown_kind : DiscountKind

pub record DiscountSpec : Type 0 where
  pub kind : DiscountKind
  pub basis_points : ℤ
  pub amount : ℤ
  pub currency : Text
  pub buy_quantity : ℤ
  pub free_units : ℤ

pub data PromoCodeStatus : Type 0 where
  active disabled : PromoCodeStatus

pub record Redemption : Type 0 where
  pub order_id : Ident
  pub customer_id : Ident
  pub amount : Money
  pub at : ℕ

pub record PromoCodeSpec : Type 0 where
  pub discount : DiscountSpec
  pub min_cart_amount : ℤ
  pub currency : Text
  pub total_limit : ℤ
  pub per_customer_limit : ℤ
  pub starts_at : ℕ
  pub ends_at : ℕ

-- `kernel_error` stands for an error of the kernel that is passed on as it is, `port_failed` for one of a
-- repository.
pub data PricingError : Type 0 where
  invalid_id invalid_promo_code invalid_discount invalid_limits invalid_period : PricingError
  invalid_name invalid_target invalid_price invalid_quantity empty_quote : PricingError
  currency_mismatch promo_code_inactive promo_code_expired promo_code_depleted : PricingError
  promo_code_per_buyer cart_below_minimum promo_already_used : PricingError
  promotion_ended offer_price_inactive : PricingError
  invalid_sku invalid_lines promo_code_not_found offer_price_not_found : PricingError
  port_failed : Text → PricingError
  kernel_error : KernelError → PricingError

pub record CartLine : Type 0 where
  pub sku : Text
  pub seller_id : Ident
  pub product_id : Ident
  pub category_path : List Ident
  pub unit_price : Money
  pub quantity : Quantity

pub record Target : Type 0 where
  pub skus : List Text
  pub sellers : List Ident
  pub categories : List Ident

-- The fields that the three kinds of rule share.
pub record RuleHead : Type 0 where
  pub id : Ident
  pub target : Target
  pub priority : ℤ
  pub exclusive : Bool

-- `newRule` makes every rule, so that the numbers of a `buy_n_get_m_rule` are positive.
pub data DiscountRule : Type 0 where
  percentage_rule : (head : RuleHead) (basis_points : BasisPoints) → DiscountRule
  fixed_rule : (head : RuleHead) (amount : Money) → DiscountRule
  buy_n_get_m_rule : (head : RuleHead) (buy free : ℕ) → DiscountRule

-- The kind of an applied discount: that of its rule, or "promo_code".
pub data AppliedKind : Type 0 where
  by_rule : DiscountKind → AppliedKind
  by_promo_code : AppliedKind

pub record AppliedDiscount : Type 0 where
  pub rule_id : Text
  pub kind : AppliedKind
  pub amount : Money
  pub promo_code : Text

pub record LineBreakdown : Type 0 where
  pub sku : Text
  pub seller_id : Ident
  pub product_id : Ident
  pub quantity : Quantity
  pub unit_price : Money
  pub base : Money
  pub discounts : List AppliedDiscount
  pub final : Money

pub record Quote : Type 0 where
  pub lines : List LineBreakdown
  pub subtotal : Money
  pub discount : Money
  pub total : Money
  pub promo_code : Text
  pub currency : Text

pub data PromoEvent : Type 0 where
  promo_code_changed : (code : Text) (status : PromoCodeStatus) (at : ℕ) → PromoEvent
  promo_code_redeemed : (code order_id customer_id : Text) (amount : Money) (at : ℕ) → PromoEvent
  promo_code_released : (code order_id : Text) (at : ℕ) → PromoEvent

-- `used` counts redemptions: far fewer than 2^63.
pub record PromoCode : Type 0 where
  pub code : Text
  pub spec : DiscountSpec
  pub min_cart_amount : Money
  pub total_limit : ℤ
  pub per_customer_limit : ℤ
  pub used : ℕ
  pub status : PromoCodeStatus
  pub starts_at : ℕ
  pub ends_at : ℕ
  pub created_at : ℕ
  pub updated_at : ℕ
  pub version : ℕ
  pub redemptions : List Redemption
  pub releases : List Ident
  pub events : List PromoEvent
