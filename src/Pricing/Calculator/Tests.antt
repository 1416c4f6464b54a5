-- ===== src/Pricing/Calculator/Tests.antt =====
-- A quote at concrete inputs: two lines of one seller, a tenth off the first by a promotion, and a promo
-- code for 100 off the whole.
use go_marketplace_backend.Base.{
  ℕ, ◌+◌, ◌-◌, ◌≡◌, refl, false, List, [], ◌∷◌, ◌++◌, some, ok, err, arith, All2,
}
use go_marketplace_backend.Base.Int.{pos}
use go_marketplace_backend.Base.Text.{Text, text_eq}
use go_marketplace_backend.Kernel.Quantity.{new_quantity}
use go_marketplace_backend.Kernel.Error.{negative_amount}
use go_marketplace_backend.Kernel.Money.{
  Money, kzt, new_money, new_currency, new_basis_points, apply_percent, zero_money, add, sub,
  mul_quantity, compare,
}
use go_marketplace_backend.Pricing.Types.{
  fixed, PromoCode, active, CartLine, DiscountRule, percentage_rule, LineBreakdown, Quote,
  kernel_error,
}
use go_marketplace_backend.Pricing.Promo.{discount}
use go_marketplace_backend.Pricing.Rules.{is_applicable, rule_discount, kind_of, matches}
use go_marketplace_backend.Pricing.Calculator.{
  insert_rule, select_rules, sort_rules, sum_finals, apply_rules, applicable, price_line,
  price_lines, distribute_from, distribute, apply_promo, calculate, undiscounted, bear,
  with_discount,
}
use go_marketplace_backend.Pricing.Calculator.Shares.{Bears, distribute-exact}
use go_marketplace_backend.Pricing.Calculator.Remainder.{distribute-fails}
use go_marketplace_backend.Pricing.Calculator.Totals.{IsQuote, calculate-IsQuote}

abbrev tenge : ℕ → Money
tenge n = record { amount = n; currency = kzt }

abbrev line_at : Text → ℕ → ℕ → CartLine
line_at sku price quantity = record {
  sku = sku;
  seller_id = b's' ∷ [];
  product_id = b'p' ∷ [];
  category_path = [];
  unit_price = tenge price;
  quantity = record { value = quantity };
}

abbrev tea : CartLine
tea = line_at (b'T' ∷ []) 300 2

abbrev cup : CartLine
cup = line_at (b'C' ∷ []) 460 1

abbrev tenth_off_tea : DiscountRule
tenth_off_tea =
    percentage_rule
      (record {
        id = b'r' ∷ [];
        target = record { skus = (b'T' ∷ []) ∷ []; sellers = []; categories = [] };
        priority = pos 1;
        exclusive = false;
      })
      (record { value = 1000 })

abbrev hundred : PromoCode
hundred = record {
  code = b'A' ∷ [];
  spec = record {
    kind = fixed;
    basis_points = pos 0;
    amount = pos 100;
    currency = kzt;
    buy_quantity = pos 0;
    free_units = pos 0;
  };
  min_cart_amount = tenge 0;
  total_limit = pos 0;
  per_customer_limit = pos 0;
  used = 0;
  status = active;
  starts_at = 0;
  ends_at = 0;
  created_at = 3;
  updated_at = 3;
  version = 0;
  redemptions = [];
  releases = [];
  events = [];
}

abbrev cup_line : LineBreakdown
cup_line = undiscounted cup (tenge 460)

-- What the line bears of the promo code.
abbrev shared : ℕ → LineBreakdown → LineBreakdown
shared n l = bear (b'A' ∷ []) (tenge n) (tenge (l.final.amount - n)) l

abbrev discounted_tea : LineBreakdown
discounted_tea = with_discount tenth_off_tea (tenge 60, tenge 540) (undiscounted tea (tenge 600))

abbrev quoted : Quote
quoted = record {
  lines = shared 54 discounted_tea ∷ shared 46 cup_line ∷ [];
  subtotal = tenge 1060;
  discount = tenge 160;
  total = tenge 900;
  promo_code = b'A' ∷ [];
  currency = kzt;
}

calculated : calculate (tea ∷ cup ∷ []) (tenth_off_tea ∷ []) (some hundred) ≡ ok quoted
unfolding calculate zero_money price_lines text_eq price_line mul_quantity add apply_rules
    applicable is_applicable rule_discount apply_percent sub apply_promo discount compare distribute
    distribute_from new_basis_points new_currency new_money new_quantity insert_rule select_rules
    sort_rules sum_finals kind_of matches
calculated = refl

calculate-IsQuote_example : IsQuote (tea ∷ cup ∷ []) quoted
calculate-IsQuote_example =
    calculate-IsQuote (tea ∷ cup ∷ []) (tenth_off_tea ∷ []) (some hundred) calculated

shares_out :
    distribute (discounted_tea ∷ cup_line ∷ []) (tenge 100) (b'A' ∷ [])
    ≡ ok (shared 54 discounted_tea ∷ shared 46 cup_line ∷ [])
unfolding distribute distribute_from new_money sub text_eq sum_finals new_currency
shares_out = refl

distribute-exact_example :
    (486 + 414 + 100 ≡ 540 + 460)
    × All2 Bears
        (discounted_tea ∷ cup_line ∷ [])
        (shared 54 discounted_tea ∷ shared 46 cup_line ∷ [])
distribute-exact_example =
    distribute-exact (discounted_tea ∷ cup_line ∷ []) (tenge 100) (b'A' ∷ []) (omega arith)
      (omega arith) shares_out

abbrev free_cup : LineBreakdown
free_cup = record cup_line { final = tenge 0 }

abbrev two_paid : List LineBreakdown
two_paid = record cup_line { final = tenge 333 } ∷ record cup_line { final = tenge 667 } ∷ []

tenge_is_currency : new_currency kzt ≡ ok kzt
unfolding new_currency
tenge_is_currency = refl

distribute-fails_example :
    distribute (two_paid ++ free_cup ∷ []) (tenge 100) (b'A' ∷ [])
    ≡ err (kernel_error negative_amount)
distribute-fails_example =
    distribute-fails (tenge 100) (b'A' ∷ []) two_paid free_cup (omega arith) (omega arith)
      tenge_is_currency ((omega arith, refl), ((omega arith, refl), tt)) refl (omega arith)
