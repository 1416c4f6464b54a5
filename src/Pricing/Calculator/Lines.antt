-- ===== src/Pricing/Calculator/Lines.antt =====
-- The money of one line of a quote (internal/pricing/domain/calculator.go, `line`).
use go_marketplace_backend.Base.{
  ℕ, ◌+◌, ◌*◌, ◌≡◌, refl, List, [], ◌∷◌, ok, arith, sum_of, sum_of-append, inl, inr, Bool-cases,
  Result-cases, >>=-eq-ok, or_fail, or_fail-eq-ok, ok-injective, subst, ◌⊎◌, ◌==◌,
}
use go_marketplace_backend.Kernel.Money.{Money, sub, mul_quantity}
use go_marketplace_backend.Kernel.Money.Laws.{IsMoney, sub-eq-ok, mul_quantity-exact}
use go_marketplace_backend.Pricing.Types.{
  CartLine, DiscountRule, AppliedDiscount, LineBreakdown, kernel_error,
}
use go_marketplace_backend.Pricing.Rules.{head, rule_discount}
use go_marketplace_backend.Pricing.Calculator.{
  take_off, with_discount, apply_rules, undiscounted, price_line, applicable,
}

abbrev pub off : AppliedDiscount → ℕ
off a = a.amount.amount

-- A line that is priced: the base is the product of unit price and quantity, and the discounts are what
-- the final price leaves of it.
pub record IsLine (b : LineBreakdown) : Type 0 where
  pub base_exact : b.base.amount ≡ b.unit_price.amount * b.quantity.value
  pub base_fits : IsMoney b.base
  pub balanced : b.final.amount + sum_of off b.discounts ≡ b.base.amount
  pub base_currency : b.base.currency ≡ b.unit_price.currency
  pub final_currency : b.final.currency ≡ b.unit_price.currency

take_off-exact :
    (final amount : Money)
    → ((take_off final amount).0.amount + (take_off final amount).1.amount ≡ final.amount)
      × ((take_off final amount).1.currency ≡ final.currency)
take_off-exact final amount = elim (Result-cases (sub final amount)) [
  | inl (next, e) ↦ ground (arith, e, sub-eq-ok final amount e)
  | inr (x, e) ↦ ground (arith, e)
]

with_discount-IsLine :
    (r : DiscountRule) (amount : Money) (b : LineBreakdown)
    → IsLine b
    → IsLine (with_discount r (take_off b.final amount) b)
with_discount-IsLine r amount b v =
    let (split, same) = take_off-exact b.final amount in
    record {
      base_exact = v.base_exact;
      base_fits = v.base_fits;
      balanced = omega (arith, v, split, sum_of-append off b.discounts _);
      base_currency = v.base_currency;
      final_currency = cc (same, v.final_currency);
    }

-- The fields that no discount touches.
abbrev pub Same : LineBreakdown → LineBreakdown → Type 0
Same a b =
    (a.sku ≡ b.sku)
    × (a.seller_id ≡ b.seller_id)
    × (a.product_id ≡ b.product_id)
    × (a.quantity ≡ b.quantity)
    × (a.unit_price ≡ b.unit_price)
    × (a.base ≡ b.base)

abbrev taken : DiscountRule → CartLine → LineBreakdown → LineBreakdown
taken r line b = with_discount r (take_off b.final (rule_discount r b.final line)) b

apply_rules_cases :
    (line : CartLine) (r : DiscountRule) (rs : List DiscountRule) (b : LineBreakdown)
    → (b ≡ apply_rules line (r ∷ rs) b)
      ⊎ (apply_rules line rs b ≡ apply_rules line (r ∷ rs) b)
      ⊎ (taken r line b ≡ apply_rules line (r ∷ rs) b)
      ⊎ (apply_rules line rs (taken r line b) ≡ apply_rules line (r ∷ rs) b)
unfolding apply_rules
apply_rules_cases line r rs b = elim (Bool-cases (b.final.amount == 0)) [
  | inl free ↦ inl (rw (free, apply_rules) refl)
  | inr costs ↦ elim (Bool-cases ((rule_discount r b.final line).amount == 0)) [
    | inl nothing ↦ inr (inl (rw (costs, nothing, apply_rules) refl))
    | inr something ↦ elim (Bool-cases (head r).exclusive) [
      | inl last ↦ inr (inr (inl (rw (costs, something, last, apply_rules) refl)))
      | inr further ↦ inr (inr (inr (rw (costs, something, further, apply_rules) refl)))
    ]
  ]
]

-- The discounts keep a line balanced, and change nothing else.
abbrev Keeps : LineBreakdown → LineBreakdown → Type 0
Keeps b out = IsLine out × Same out b

apply_rules-IsLine :
    (line : CartLine) (rs : List DiscountRule) (b : LineBreakdown)
    → IsLine b
    → Keeps b (apply_rules line rs b)
unfolding apply_rules
apply_rules-IsLine line [] b v = (v, (refl, refl, refl, refl, refl, refl))
apply_rules-IsLine line (r ∷ rs) b v =
    let after = with_discount-IsLine r (rule_discount r b.final line) b v in
    elim (apply_rules_cases line r rs b) [
      | inl e ↦ subst (Keeps b) e (v, (refl, refl, refl, refl, refl, refl))
      | inr (inl e) ↦ subst (Keeps b) e (apply_rules-IsLine line rs b v)
      | inr (inr (inl e)) ↦ subst (Keeps b) e (after, (refl, refl, refl, refl, refl, refl))
      | inr (inr (inr e)) ↦ subst (Keeps b) e (apply_rules-IsLine line rs (taken r line b) after)
    ]

-- What a cart line becomes.
pub record Prices (line : CartLine) (b : LineBreakdown) : Type 0 where
  pub line_balanced : IsLine b
  pub sku_kept : b.sku ≡ line.sku
  pub seller_kept : b.seller_id ≡ line.seller_id
  pub product_kept : b.product_id ≡ line.product_id
  pub quantity_kept : b.quantity ≡ line.quantity
  pub price_kept : b.unit_price ≡ line.unit_price

pub price_line-Prices :
    (line : CartLine) (rules : List DiscountRule) {b : LineBreakdown}
    → price_line line rules ≡ ok b
    → Prices line b
unfolding price_line
price_line-Prices line rules e =
    let (base, e1, e2) =
      >>=-eq-ok (or_fail (mul_quantity line.unit_price line.quantity) kernel_error) _ e in
    let exact = or_fail-eq-ok (mul_quantity line.unit_price line.quantity) kernel_error e1 in
    let start : IsLine (undiscounted line base) =
      ground (arith, mul_quantity-exact line.unit_price line.quantity, exact) in
    let (v, s) = apply_rules-IsLine line (applicable rules line) (undiscounted line base) start in
    subst (Prices line) (ok-injective e2) (record {
      line_balanced = v;
      sku_kept = s.0;
      seller_kept = s.1;
      product_kept = s.2;
      quantity_kept = s.3;
      price_kept = s.4;
    })
