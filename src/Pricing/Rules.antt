-- ===== src/Pricing/Rules.antt =====
-- Discount rules (internal/pricing/domain/discount_rule.go): the targets, the three kinds of rule behind
-- the interface `DiscountRule`, and how one is made. No rule reads the `PricingContext`.
use go_marketplace_backend.Base.{
  ◌*◌, ◌/◌, Bool, ◌&&◌, ◌||◌, List, leb, Result, ok, err, ◌>>=◌, ◌>>◌, or_fail, any, length, ◌==◌,
}
use go_marketplace_backend.Base.Int.{ℤ, pos, pos_part}
use go_marketplace_backend.Base.Text.{Text, text_eq}
use go_marketplace_backend.Kernel.Identifier.{Ident}
use go_marketplace_backend.Kernel.Quantity.{new_quantity}
use go_marketplace_backend.Kernel.Money.{
  Money, Sign, new_money, new_currency, new_basis_points, apply_percent, compare, mul_quantity,
  zero_like,
}
use go_marketplace_backend.Pricing.Types.{
  DiscountKind, percentage, fixed, buy_n_get_m, DiscountSpec, PricingError, invalid_discount,
  CartLine, Target, RuleHead, DiscountRule, percentage_rule, fixed_rule, buy_n_get_m_rule,
}
use go_marketplace_backend.Pricing.Promo.{validate}

abbrev pub contains : List Text → Text → Bool
contains xs x = any (λ y. text_eq y x) xs

abbrev pub is_empty_target : Target → Bool
is_empty_target t = length t.skus == 0 && length t.sellers == 0 && length t.categories == 0

unfoldable pub matches : Target → CartLine → Bool
matches t line =
    contains t.skus line.sku
    || contains t.sellers line.seller_id
    || any (contains line.category_path) t.categories

abbrev pub head : DiscountRule → RuleHead
head (percentage_rule h _) = h
head (fixed_rule h _) = h
head (buy_n_get_m_rule h _ _) = h

unfoldable pub is_applicable : DiscountRule → CartLine → Bool
unfolding matches
is_applicable (percentage_rule h _) line = matches h.target line
is_applicable (fixed_rule h amount) line =
    matches h.target line && text_eq amount.currency line.unit_price.currency
is_applicable (buy_n_get_m_rule h buy free) line =
    matches h.target line && leb buy line.quantity.value

-- An amount, but no more than the current price.
abbrev at_most : Money → Money → Money
at_most amount current = elim (compare amount current) [
  | err _ ↦ current
  | ok Sign.more ↦ current
  | ok _ ↦ amount
]

-- With `free` below `buy`, the product is at most the quantity and does not overflow.
unfoldable pub rule_discount : DiscountRule → Money → CartLine → Money
rule_discount (percentage_rule _ points) current line = apply_percent current points
rule_discount (fixed_rule _ amount) current line = at_most amount current
rule_discount (buy_n_get_m_rule _ buy free) current line =
    elim (new_quantity (pos (line.quantity.value / buy * free))) [
      | err _ ↦ zero_like current
      | ok units ↦ elim (mul_quantity line.unit_price units) [
        | err _ ↦ current
        | ok discount ↦ at_most discount current
      ]
    ]

unfoldable pub kind_of : DiscountRule → DiscountKind
kind_of (percentage_rule _ _) = percentage
kind_of (fixed_rule _ _) = fixed
kind_of (buy_n_get_m_rule _ _ _) = buy_n_get_m

unfoldable pub new_rule :
    Ident → DiscountSpec → Target → ℤ → Bool → Result PricingError DiscountRule
new_rule id spec target priority exclusive = do
  validate spec
  let h : RuleHead = record { id = id; target = target; priority = priority; exclusive = exclusive }
  elim spec.kind [
    | percentage ↦ do
      points ← or_fail (new_basis_points spec.basis_points) (λ _. invalid_discount)
      ok (percentage_rule h points)
    | fixed ↦ do
      currency ← or_fail (new_currency spec.currency) (λ _. invalid_discount)
      amount ← or_fail (new_money spec.amount currency) (λ _. invalid_discount)
      ok (fixed_rule h amount)
    | _ ↦ ok (buy_n_get_m_rule h (pos_part spec.buy_quantity) (pos_part spec.free_units))
  ]
