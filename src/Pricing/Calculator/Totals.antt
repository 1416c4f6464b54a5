-- ===== src/Pricing/Calculator/Totals.antt =====
-- The totals of a quote (internal/pricing/domain/calculator.go, `Calculate`).
use go_marketplace_backend.Base.{
  ℕ, ◌+◌, ◌≡◌, refl, List, [], ◌∷◌, ok, arith, sum_of, All2, All2-refl, inl, inr, Bool-cases,
  Option, some, none, fail_if, >>=-eq-ok, or_fail, or_fail-eq-ok, ok-injective, subst, ◌==◌, ap,
  ◌∙◌, not,
}
use go_marketplace_backend.Base.Text.{Text, text_eq, text_eq_iff}
use go_marketplace_backend.Kernel.Money.{Money, add, sub, zero_money}
use go_marketplace_backend.Kernel.Money.Laws.{IsMoney, add-eq-ok, sub-eq-ok, zero_money-eq-ok}
use go_marketplace_backend.Pricing.Types.{
  CartLine, DiscountRule, LineBreakdown, Quote, PromoCode, kernel_error, currency_mismatch,
  invalid_quantity,
}
use go_marketplace_backend.Pricing.Promo.{discount}
use go_marketplace_backend.Pricing.Promo.Limits.{discount_bounds}
use go_marketplace_backend.Pricing.Calculator.{
  price_line, price_lines, distribute, apply_promo, calculate,
}
use go_marketplace_backend.Pricing.Calculator.Lines.{Prices, price_line-Prices}
use go_marketplace_backend.Pricing.Calculator.Shares.{final_of, Bears, Bears-refl, distribute-exact}

abbrev pub base_of : LineBreakdown → ℕ
base_of l = l.base.amount

-- A line is priced in the currency of the quote.
abbrev pub PricesIn : Text → CartLine → LineBreakdown → Type 0
PricesIn currency line b = Prices line b × (line.unit_price.currency ≡ currency)

-- The running sums.
record Summed (c : Text) (lines : List CartLine) (s0 t0 s t : Money) (bs : List LineBreakdown)
    : Type 0 where
  finals : s.amount ≡ s0.amount + sum_of final_of bs
  bases : t.amount ≡ t0.amount + sum_of base_of bs
  final_fits : IsMoney s
  base_fits : IsMoney t
  final_currency : s.currency ≡ c
  base_currency : t.currency ≡ c
  priced : All2 (PricesIn c) lines bs

price_lines-Summed :
    (c : Text) (rules : List DiscountRule) (s0 t0 : Money) (lines : List CartLine) {s t : Money}
    {bs : List LineBreakdown}
    → IsMoney s0
    → IsMoney t0
    → s0.currency ≡ c
    → t0.currency ≡ c
    → price_lines c rules s0 t0 lines ≡ ok (s, t, bs)
    → Summed c lines s0 t0 s t bs
unfolding price_lines
price_lines-Summed c rules s0 t0 [] {s} {t} {bs} vs vt cs ct e = ground arith
price_lines-Summed c rules s0 t0 (line ∷ lines) {s} {t} {bs} vs vt cs ct e =
    let (_, k1, e1) =
      >>=-eq-ok (fail_if (not (text_eq line.unit_price.currency c)) currency_mismatch) _ e in
    let (_, k2, e2) = >>=-eq-ok (fail_if (line.quantity.value == 0) invalid_quantity) _ e1 in
    let (b, k3, e3) = >>=-eq-ok (price_line line rules) _ e2 in
    let (s1, k4, e4) = >>=-eq-ok (or_fail (add s0 b.final) kernel_error) _ e3 in
    let (t1, k5, e5) = >>=-eq-ok (or_fail (add t0 b.base) kernel_error) _ e4 in
    let ((s2, t2, rest), k6, e6) = >>=-eq-ok (price_lines c rules s1 t1 lines) _ e5 in
    let (sum_s, same_s, _, fits_s) =
      add-eq-ok s0 b.final (or_fail-eq-ok (add s0 b.final) kernel_error k4) vs in
    let (sum_t, same_t, _, fits_t) =
      add-eq-ok t0 b.base (or_fail-eq-ok (add t0 b.base) kernel_error k5) vt in
    let ih = price_lines-Summed c rules s1 t1 lines fits_s fits_t (same_s ∙ cs) (same_t ∙ ct) k6 in
    let same_currency = text_eq_iff line.unit_price.currency c in
    let head_priced : PricesIn c line b =
      (price_line-Prices line rules k3, ground (arith, same_currency, k1)) in
    let made : ◌≡◌ {A = Money × Money × List LineBreakdown} (s2, t2, b ∷ rest) (s, t, bs) =
      ok-injective e6 in
    let whole : Summed c (line ∷ lines) s0 t0 s2 t2 (b ∷ rest) = record {
      finals = omega (arith, ih.finals, sum_s);
      bases = omega (arith, ih.bases, sum_t);
      final_fits = ih.final_fits;
      base_fits = ih.base_fits;
      final_currency = ih.final_currency;
      base_currency = ih.base_currency;
      priced = (head_priced, ih.priced);
    } in
    subst (λ (r : Money × Money × List LineBreakdown). Summed c (line ∷ lines) s0 t0 r.0 r.1 r.2)
      made whole

All2-Bears-base :
    (bs cs : List LineBreakdown) → All2 Bears bs cs → sum_of base_of cs ≡ sum_of base_of bs
All2-Bears-base [] [] h = refl
All2-Bears-base [] (c ∷ cs) h = absurd h
All2-Bears-base (b ∷ bs) [] h = absurd h
All2-Bears-base (b ∷ bs) (c ∷ cs) (first, h) =
    let same : c.base.amount ≡ b.base.amount = ap (λ (m : Money). m.amount) first.same.5 in
    omega (arith, same, All2-Bears-base bs cs h)

bear-PricesIn :
    (c : Text) (line : CartLine) (b d : LineBreakdown)
    → PricesIn c line b
    → Bears b d
    → PricesIn c line d
bear-PricesIn c line b d (p, same_currency) v = (
  record {
    line_balanced = v.stays_line p.line_balanced;
    sku_kept = v.same.0 ∙ p.sku_kept;
    seller_kept = v.same.1 ∙ p.seller_kept;
    product_kept = v.same.2 ∙ p.product_kept;
    quantity_kept = v.same.3 ∙ p.quantity_kept;
    price_kept = v.same.4 ∙ p.price_kept;
  },
  same_currency,
)

All2-PricesIn :
    (c : Text) (lines : List CartLine) (bs cs : List LineBreakdown)
    → All2 (PricesIn c) lines bs
    → All2 Bears bs cs
    → All2 (PricesIn c) lines cs
All2-PricesIn c [] [] [] p h = tt
All2-PricesIn c [] [] (d ∷ cs) p h = absurd h
All2-PricesIn c [] (b ∷ bs) cs p h = absurd p
All2-PricesIn c (line ∷ lines) [] cs p h = absurd p
All2-PricesIn c (line ∷ lines) (b ∷ bs) [] p h = absurd h
All2-PricesIn c (line ∷ lines) (b ∷ bs) (d ∷ cs) (p, ps) (h, hs) =
    (bear-PricesIn c line b d p h, All2-PricesIn c lines bs cs ps hs)

-- What the promo code leaves.
record Applied (subtotal : Money) (bs : List LineBreakdown) (total : Money)
    (cs : List LineBreakdown) : Type 0 where
  total_exact : total.amount ≡ sum_of final_of cs
  total_currency : total.currency ≡ subtotal.currency
  borne : All2 Bears bs cs

Applied-refl :
    (s : Money) (bs : List LineBreakdown) → s.amount ≡ sum_of final_of bs → Applied s bs s bs
Applied-refl s bs e = record {
  total_exact = e;
  total_currency = refl;
  borne = All2-refl Bears Bears-refl bs;
}

apply_promo-Applied :
    (s : Money) (bs : List LineBreakdown) (promo : Option PromoCode) {total : Money} {code : Text}
    {cs : List LineBreakdown}
    → IsMoney s
    → s.amount ≡ sum_of final_of bs
    → apply_promo s bs promo ≡ ok (total, code, cs)
    → Applied s bs total cs
unfolding apply_promo
apply_promo-Applied s bs none v h e =
    subst (λ (r : Money × Text × List LineBreakdown). Applied s bs r.0 r.2) (ok-injective e)
      (Applied-refl s bs h)
apply_promo-Applied s bs (some promo) v h e =
    let (d, k1, e1) = >>=-eq-ok (discount promo s) _ e in
    let (small, _) = discount_bounds promo s v k1 in
    elim (Bool-cases (d.amount == 0)) [
      | inl nothing ↦
          subst (λ (r : Money × Text × List LineBreakdown). Applied s bs r.0 r.2)
            (ok-injective (rw nothing at e1)) (Applied-refl s bs h)
      | inr something ↦
          let e2 = rw something at e1 in
          let (left, k2, e3) = >>=-eq-ok (or_fail (sub s d) kernel_error) _ e2 in
          let (shared, k3, e4) = >>=-eq-ok (distribute bs d promo.code) _ e3 in
          let (split, same, _) = sub-eq-ok s d (or_fail-eq-ok (sub s d) kernel_error k2) in
          let (exact, borne) =
            distribute-exact bs d promo.code {out = shared} (omega (arith, small, h))
              (omega (arith, v, h)) k3 in
          subst (λ (r : Money × Text × List LineBreakdown). Applied s bs r.0 r.2) (ok-injective e4)
            (record {
              total_exact = omega (arith, split, exact, h);
              total_currency = same;
              borne = borne;
            })
    ]

-- A quote for the lines of a cart.
pub record IsQuote (lines : List CartLine) (q : Quote) : Type 0 where
  pub subtotal_exact : q.subtotal.amount ≡ sum_of base_of q.lines
  pub total_exact : q.total.amount ≡ sum_of final_of q.lines
  pub discount_exact : q.discount.amount + q.total.amount ≡ q.subtotal.amount
  pub subtotal_fits : IsMoney q.subtotal
  pub subtotal_currency : q.subtotal.currency ≡ q.currency
  pub total_currency : q.total.currency ≡ q.currency
  pub lines_priced : All2 (PricesIn q.currency) lines q.lines

-- A quote that is calculated answers the lines of the cart in order, each with its own base price (the
-- product of unit price and quantity, within an int64) and with its final price and its discounts making
-- that up; the subtotal is the sum of the base prices, the total that of the final prices, also with a
-- promo code, and the discount is what lies between. One currency runs through.
pub calculate-IsQuote :
    (lines : List CartLine) (rules : List DiscountRule) (promo : Option PromoCode) {q : Quote}
    → calculate lines rules promo ≡ ok q
    → IsQuote lines q
unfolding calculate
calculate-IsQuote [] rules promo e = cc
calculate-IsQuote (line ∷ lines) rules promo {q} e =
    let c = line.unit_price.currency in
    let (start, k1, e1) = >>=-eq-ok (or_fail (zero_money c) kernel_error) _ e in
    let ((s, t, bs), k2, e2) = >>=-eq-ok (price_lines c rules start start (line ∷ lines)) _ e1 in
    let ((total, code, cs), k3, e3) = >>=-eq-ok (apply_promo s bs promo) _ e2 in
    let (off, k4, e4) = >>=-eq-ok (or_fail (sub t total) kernel_error) _ e3 in
    let (zero_start, same_start) =
      zero_money-eq-ok c (or_fail-eq-ok (zero_money c) kernel_error k1) in
    let small : IsMoney start = omega (arith, zero_start) in
    let summed =
      price_lines-Summed c rules start start (line ∷ lines) small small same_start same_start k2 in
    let applied =
      apply_promo-Applied s bs promo {total = total} {code = code} {cs = cs} summed.final_fits
        (omega (arith, summed.finals, zero_start)) k3 in
    let (split, _, _) = sub-eq-ok t total (or_fail-eq-ok (sub t total) kernel_error k4) in
    subst (IsQuote (line ∷ lines)) (ok-injective e4) (record {
      subtotal_exact = omega (arith, summed.bases, zero_start, All2-Bears-base bs cs applied.borne);
      total_exact = applied.total_exact;
      discount_exact = split;
      subtotal_fits = summed.base_fits;
      subtotal_currency = summed.base_currency;
      total_currency = applied.total_currency ∙ summed.final_currency;
      lines_priced = All2-PricesIn c (line ∷ lines) bs cs summed.priced applied.borne;
    })
