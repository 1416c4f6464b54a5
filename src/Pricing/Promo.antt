-- ===== src/Pricing/Promo.antt =====
-- Promo codes (internal/pricing/domain/promo_code.go), method by method. A method gives the promo code
-- that it leaves behind, also when it returns an error.
pub mod Limits
pub mod Redeem
use go_marketplace_backend.Base.{
  ℕ, ◌+◌, ◌-◌, Bool, true, false, ◌&&◌, ◌||◌, not, List, [], ◌∷◌, ◌++◌, ltb, ◌==◌, if◌then◌else◌,
  Option, none, some, Result, ok, err, ◌>>=◌, ◌>>◌, fail_if, or_fail, any, Outcome, then_do,
}
use go_marketplace_backend.Base.Int.{ℤ, pos, ltb_ℤ, leb_ℤ}
use go_marketplace_backend.Base.Text.{Text, is_empty, text_eq}
use go_marketplace_backend.Kernel.Identifier.{Ident, id_is_zero}
use go_marketplace_backend.Kernel.Money.{
  Money, Sign, new_money, new_currency, new_basis_points, apply_percent, compare, kzt,
}
use go_marketplace_backend.Pricing.Types.{
  DiscountKind, percentage, fixed, buy_n_get_m, unknown_kind, DiscountSpec, PromoCodeStatus, active,
  disabled, Redemption, PromoCodeSpec, PricingError, invalid_id, invalid_promo_code,
  invalid_discount, invalid_limits, invalid_period, currency_mismatch, promo_code_inactive,
  promo_code_expired, promo_code_depleted, promo_code_per_buyer, cart_below_minimum,
  promo_already_used, PromoEvent, promo_code_changed, promo_code_redeemed, promo_code_released,
  PromoCode,
}

abbrev is_zero_or_less : ℤ → Bool
is_zero_or_less v = leb_ℤ v (pos 0)

-- `DiscountSpec.validate`
unfoldable pub validate : DiscountSpec → Result PricingError (Unit {0})
validate s = elim s.kind [
  | percentage ↦ do
    _ ← or_fail (new_basis_points s.basis_points) (λ _. invalid_discount)
    fail_if (leb_ℤ s.basis_points (pos 0) && leb_ℤ (pos 0) s.basis_points) invalid_discount
  | fixed ↦ do
    fail_if (is_zero_or_less s.amount) invalid_discount
    _ ← or_fail (new_currency s.currency) (λ _. invalid_discount)
    ok tt
  | buy_n_get_m ↦
      fail_if
        (is_zero_or_less s.buy_quantity
          || is_zero_or_less s.free_units
          || leb_ℤ s.buy_quantity s.free_units)
        invalid_discount
  | unknown_kind ↦ err invalid_discount
]

abbrev is_buy_n_get_m : DiscountKind → Bool
is_buy_n_get_m buy_n_get_m = true
is_buy_n_get_m _ = false

abbrev pub default_currency : Text → DiscountSpec → Text
default_currency raw spec =
    if not (is_empty raw) then raw else if not (is_empty spec.currency) then spec.currency else kzt

abbrev pub has_negative_limit : PromoCodeSpec → Bool
has_negative_limit spec =
    ltb_ℤ spec.total_limit (pos 0)
    || ltb_ℤ spec.per_customer_limit (pos 0)
    || ltb_ℤ spec.min_cart_amount (pos 0)

abbrev pub is_empty_period : PromoCodeSpec → Bool
is_empty_period spec = not (spec.ends_at == 0) && not (ltb spec.starts_at spec.ends_at)

abbrev pub new_promo : Text → PromoCodeSpec → Money → ℕ → PromoCode
new_promo code spec minimum now = record {
  code = code;
  spec = spec.discount;
  min_cart_amount = minimum;
  total_limit = spec.total_limit;
  per_customer_limit = spec.per_customer_limit;
  used = 0;
  status = active;
  starts_at = spec.starts_at;
  ends_at = spec.ends_at;
  created_at = now;
  updated_at = now;
  version = 0;
  redemptions = [];
  releases = [];
  events = promo_code_changed code active now ∷ [];
}

unfoldable pub create_promo_code : Text → PromoCodeSpec → ℕ → Result PricingError PromoCode
create_promo_code code spec now = do
  fail_if (is_empty code) invalid_promo_code
  fail_if (is_buy_n_get_m spec.discount.kind) invalid_discount
  validate spec.discount
  fail_if (has_negative_limit spec) invalid_limits
  fail_if (is_empty_period spec) invalid_period
  currency ←
      or_fail (new_currency (default_currency spec.currency spec.discount)) (λ _. invalid_discount)
  minimum ← or_fail (new_money spec.min_cart_amount currency) (λ _. invalid_limits)
  ok (new_promo code spec minimum now)

-- Every kind but a percentage is taken as a fixed amount, in the currency of the subtotal.
unfoldable pub discount : PromoCode → Money → Result PricingError Money
discount p subtotal = elim p.spec.kind [
  | percentage ↦ elim (new_basis_points p.spec.basis_points) [
    | err _ ↦ err invalid_discount
    | ok points ↦ ok (apply_percent subtotal points)
  ]
  | _ ↦ elim (new_money p.spec.amount subtotal.currency) [
    | err _ ↦ err invalid_discount
    | ok amount ↦ elim (compare amount subtotal) [
      | err _ ↦ ok subtotal
      | ok Sign.more ↦ ok subtotal
      | ok _ ↦ ok amount
    ]
  ]
]

abbrev is_active : PromoCodeStatus → Bool
is_active active = true
is_active disabled = false

-- The last check of `EnsureUsable`.
abbrev check_minimum : PromoCode → Money → Result PricingError (Unit {0})
check_minimum p subtotal =
    if p.min_cart_amount.amount == 0 then ok tt else elim (compare subtotal p.min_cart_amount) [
      | err _ ↦ err currency_mismatch
      | ok Sign.less ↦ err cart_below_minimum
      | ok _ ↦ ok tt
    ]

unfoldable pub ensure_usable : Money → ℤ → ℕ → PromoCode → Result PricingError (Unit {0})
ensure_usable subtotal customer_usage now p =
    if not (is_active p.status)
    then err promo_code_inactive
    else if not (p.starts_at == 0) && ltb now p.starts_at
    then err promo_code_expired
    else if not (p.ends_at == 0) && not (ltb now p.ends_at)
    then err promo_code_expired
    else if ltb_ℤ (pos 0) p.total_limit && leb_ℤ p.total_limit (pos p.used)
    then err promo_code_depleted
    else if ltb_ℤ (pos 0) p.per_customer_limit && leb_ℤ p.per_customer_limit customer_usage
    then err promo_code_per_buyer
    else check_minimum p subtotal

abbrev pub of_order : Ident → Redemption → Bool
of_order order r = text_eq r.order_id order

unfoldable pub redeem : Ident → Ident → Money → ℤ → ℕ → PromoCode → Outcome PromoCode PricingError
redeem order customer subtotal customer_usage now p =
    if id_is_zero order || id_is_zero customer
    then (p, some invalid_id)
    else if any (of_order order) p.redemptions
    then (p, some promo_already_used)
    else then_do p (ensure_usable subtotal customer_usage now p) λ _.
      then_do p (discount p subtotal) λ amount. (
        record p {
          used = p.used + 1;
          updated_at = now;
          redemptions =
              p.redemptions
              ++ record { order_id = order; customer_id = customer; amount = amount; at = now }
                ∷ [];
          events = p.events ++ promo_code_redeemed p.code order customer amount now ∷ [];
        },
        none,
      )

unfoldable pub release : Ident → Bool → ℕ → PromoCode → Outcome PromoCode PricingError
release order redeemed now p =
    if id_is_zero order
    then (p, some invalid_id)
    else if not redeemed || any (λ r. text_eq r order) p.releases
    then (p, none)
    else (
      record p {
        used = p.used - 1;
        updated_at = now;
        releases = p.releases ++ order ∷ [];
        events = p.events ++ promo_code_released p.code order now ∷ [];
      },
      none,
    )

unfoldable pub pull_redemptions : PromoCode → PromoCode × List Redemption
pull_redemptions p = (record p { redemptions = [] }, p.redemptions)

unfoldable pub pull_releases : PromoCode → PromoCode × List Ident
pull_releases p = (record p { releases = [] }, p.releases)

abbrev set_status : PromoCodeStatus → ℕ → PromoCode → PromoCode
set_status status now p = record p {
  status = status;
  updated_at = now;
  events = p.events ++ promo_code_changed p.code status now ∷ [];
}

unfoldable pub disable : ℕ → PromoCode → PromoCode
disable now p = elim p.status [ disabled ↦ p | active ↦ set_status disabled now p ]

unfoldable pub enable : ℕ → PromoCode → PromoCode
enable now p = elim p.status [ active ↦ p | disabled ↦ set_status active now p ]
