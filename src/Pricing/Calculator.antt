-- ===== src/Pricing/Calculator.antt =====
-- The calculation of a quote (internal/pricing/domain/calculator.go): the rules that apply to a line, the
-- promo code over all lines, and its distribution.
pub mod Lines
pub mod Shares
pub mod Totals
mod Remainder
mod Tests
use go_marketplace_backend.Base.{
  ℕ, zero, ◌+◌, ◌-◌, ◌*◌, Bool, true, false, ◌&&◌, ◌||◌, not, List, [], ◌∷◌, ◌++◌, ltb, ◌==◌,
  if◌then◌else◌, Option, none, some, Result, ok, err, ◌>>=◌, ◌>>◌, fail_if, or_fail,
}
use go_marketplace_backend.Base.Int.{ℤ, pos, negsuc, ltb_ℤ, leb_ℤ, signed64, quot_ℤ}
use go_marketplace_backend.Base.Text.{Text, text_eq}
use go_marketplace_backend.Kernel.Money.{
  Money, new_money, zero_money, zero_like, add, sub, mul_quantity, wrap64,
}
use go_marketplace_backend.Pricing.Types.{
  CartLine, DiscountRule, AppliedDiscount, AppliedKind, by_rule, by_promo_code, LineBreakdown,
  Quote, PromoCode, PricingError, empty_quote, currency_mismatch, invalid_quantity, kernel_error,
}
use go_marketplace_backend.Pricing.Promo.{discount}
use go_marketplace_backend.Pricing.Rules.{head, is_applicable, rule_discount, kind_of}

-- A rule goes before the first one of lower priority. Priorities differ by less than 2^63, so that their
-- difference does not wrap.
unfoldable pub insert_rule : DiscountRule → List DiscountRule → List DiscountRule
insert_rule r [] = r ∷ []
insert_rule r (x ∷ xs) =
    let rest = insert_rule r xs in
    if ltb_ℤ (head x).priority (head r).priority then r ∷ x ∷ xs else x ∷ rest

-- `slices.SortStableFunc` by falling priority: those that come later are put behind their equals.
unfoldable pub sort_rules : List DiscountRule → List DiscountRule → List DiscountRule
unfolding insert_rule
sort_rules sorted [] = sorted
sort_rules sorted (r ∷ rs) = sort_rules (insert_rule r sorted) rs

unfoldable pub select_rules : CartLine → List DiscountRule → List DiscountRule
select_rules line [] = []
select_rules line (r ∷ rs) =
    let rest = select_rules line rs in if is_applicable r line then r ∷ rest else rest

unfoldable pub applicable : List DiscountRule → CartLine → List DiscountRule
unfolding sort_rules select_rules
applicable rules line = sort_rules [] (select_rules line rules)

-- The amount that a rule takes off, and what it leaves.
abbrev pub take_off : Money → Money → Money × Money
take_off final amount = elim (sub final amount) [
  | err _ ↦ (final, zero_like final)
  | ok next ↦ (amount, next)
]

abbrev pub with_discount : DiscountRule → Money × Money → LineBreakdown → LineBreakdown
with_discount r (amount, next) b = record b {
  discounts =
      b.discounts
      ++ record {
        rule_id = (head r).id;
        kind = by_rule (kind_of r);
        amount = amount;
        promo_code = [];
      }
        ∷ [];
  final = next;
}

-- The loop of `line`.
unfoldable pub apply_rules : CartLine → List DiscountRule → LineBreakdown → LineBreakdown
apply_rules line [] b = b
apply_rules line (r ∷ rs) b =
    let amount = rule_discount r b.final line in
    let taken = with_discount r (take_off b.final amount) b in
    elim (b.final.amount == 0) [
      | true ↦ b
      | false ↦ elim (amount.amount == 0) [
        | true ↦ apply_rules line rs b
        | false ↦ elim (head r).exclusive [ true ↦ taken | false ↦ apply_rules line rs taken ]
      ]
    ]

abbrev pub undiscounted : CartLine → Money → LineBreakdown
undiscounted line base = record {
  sku = line.sku;
  seller_id = line.seller_id;
  product_id = line.product_id;
  quantity = line.quantity;
  unit_price = line.unit_price;
  base = base;
  discounts = [];
  final = base;
}

unfoldable pub price_line : CartLine → List DiscountRule → Result PricingError LineBreakdown
price_line line rules = do
  base ← or_fail (mul_quantity line.unit_price line.quantity) kernel_error
  ok (apply_rules line (applicable rules line) (undiscounted line base))

-- The loop of `Calculate`, with the running sums of the final and of the base prices.
unfoldable pub price_lines :
    Text
    → List DiscountRule
    → Money
    → Money
    → List CartLine
    → Result PricingError (Money × Money × List LineBreakdown)
price_lines currency rules subtotal base [] = ok (subtotal, base, [])
price_lines currency rules subtotal base (line ∷ lines) = do
  fail_if (not (text_eq line.unit_price.currency currency)) currency_mismatch
  fail_if (line.quantity.value == 0) invalid_quantity
  b ← price_line line rules
  next_subtotal ← or_fail (add subtotal b.final) kernel_error
  next_base ← or_fail (add base b.base) kernel_error
  (s, t, bs) ← price_lines currency rules next_subtotal next_base lines
  ok (s, t, b ∷ bs)

abbrev is_nil : List LineBreakdown → Bool
is_nil [] = true
is_nil (_ ∷ _) = false

-- What a line has to bear of the promo code: the product and the sum wrap, and the division rounds
-- towards zero.
abbrev pub share_of : ℕ → ℕ → ℕ → Bool → ℕ → ℤ
share_of discount total left last final =
    let raw = quot_ℤ (signed64 (wrap64 (discount * final))) total in
    if last || ltb_ℤ (pos left) raw then pos left else raw

abbrev pub bear : Text → Money → Money → LineBreakdown → LineBreakdown
bear code amount final l = record l {
  final = final;
  discounts =
      l.discounts
      ++ record { rule_id = code; kind = by_promo_code; amount = amount; promo_code = code } ∷ [];
}

abbrev pub is_zero_ℤ : ℤ → Bool
is_zero_ℤ v = leb_ℤ v (pos 0) && leb_ℤ (pos 0) v

-- The second loop of `distribute`.
unfoldable pub distribute_from :
    Money → Text → ℕ → ℕ → List LineBreakdown → Result PricingError (List LineBreakdown)
distribute_from d code total left [] = ok []
distribute_from d code total left (l ∷ ls) =
    let share = share_of d.amount total left (is_nil ls) l.final.amount in
    elim (left == 0) [
      | true ↦ ok (l ∷ ls)
      | false ↦ elim (is_zero_ℤ share) [
        | true ↦ do rest ← distribute_from d code total left ls; ok (l ∷ rest)
        | false ↦ do
          amount ← or_fail (new_money share d.currency) kernel_error
          final ← or_fail (sub l.final amount) kernel_error
          rest ← distribute_from d code total (left - amount.amount) ls
          ok (bear code amount final l ∷ rest)
      ]
    ]

-- The first loop of `distribute`.
unfoldable pub sum_finals : ℕ → List LineBreakdown → ℕ
sum_finals total [] = total
sum_finals total (l ∷ ls) = sum_finals (wrap64 (total + l.final.amount)) ls

unfoldable pub distribute :
    List LineBreakdown → Money → Text → Result PricingError (List LineBreakdown)
unfolding sum_finals
distribute lines d code =
    let total = sum_finals 0 lines in
    if total == 0 then ok lines else distribute_from d code total d.amount lines

-- The part of `Calculate` that applies the promo code: the total, the code and the lines.
unfoldable pub apply_promo :
    Money
    → List LineBreakdown
    → Option PromoCode
    → Result PricingError (Money × Text × List LineBreakdown)
apply_promo subtotal lines none = ok (subtotal, [], lines)
apply_promo subtotal lines (some promo) = do
  d ← discount promo subtotal
  if d.amount == 0 then ok (subtotal, [], lines) else do
    total ← or_fail (sub subtotal d) kernel_error
    shared ← distribute lines d promo.code
    ok (total, promo.code, shared)

unfoldable pub calculate :
    List CartLine → List DiscountRule → Option PromoCode → Result PricingError Quote
calculate [] rules promo = err empty_quote
calculate (line ∷ lines) rules promo = do
  let currency = line.unit_price.currency
  start ← or_fail (zero_money currency) kernel_error
  (subtotal, base, priced) ← price_lines currency rules start start (line ∷ lines)
  (total, code, shared) ← apply_promo subtotal priced promo
  off ← or_fail (sub base total) kernel_error
  ok (record {
    lines = shared;
    subtotal = base;
    discount = off;
    total = total;
    promo_code = code;
    currency = currency;
  })
