-- ===== src/Pricing/Calculator/Remainder.antt =====
-- Where the distribution of a promo code fails (internal/pricing/domain/calculator.go, `distribute`): the
-- last line is to bear what the rounding leaves.
use native.Mathlib.Nat.{div-lt_iff_lt-mul}
use go_marketplace_backend.Base.{
  ℕ, ◌+◌, ◌-◌, ◌*◌, ◌/◌, ◌≤◌, ◌<◌, ◌≡◌, refl, false, List, [], ◌∷◌, ◌++◌, ok, err, arith, sum_of,
  ◌==◌, inl, inr, Bool-cases, All, ◌∙◌,
}
use go_marketplace_backend.Base.Int.{pos}
use go_marketplace_backend.Base.Text.{Text, text_eq_iff}
use go_marketplace_backend.Kernel.Error.{negative_amount}
use go_marketplace_backend.Kernel.Money.{Money, sub, new_money, new_currency, max_int64}
use go_marketplace_backend.Pricing.Types.{LineBreakdown, kernel_error}
use go_marketplace_backend.Pricing.Calculator.Shares.{final_of, sum_finals-eq}
use go_marketplace_backend.Pricing.Calculator.{
  share_of, is_zero_ℤ, is_nil, distribute_from, distribute, sum_finals,
}

-- The share of a line, rounded down.
abbrev pub rounded : ℕ → ℕ → LineBreakdown → ℕ
rounded discount total l = discount * l.final.amount / total

-- A line whose product with the discount fits an int64, in the currency of the discount.
abbrev Shares : Money → LineBreakdown → Type 0
Shares d l = (d.amount * l.final.amount ≤ max_int64) × (l.final.currency ≡ d.currency)

share_exact :
    (d total left f : ℕ)
    → d * f ≤ max_int64
    → d * f / total ≤ left
    → share_of d total left false f ≡ pos (d * f / total)
share_exact d total left f fits small = ground (arith, fits, small)

share_at_most : (d total f : ℕ) → 0 < total → d ≤ total → d * f / total ≤ f
share_at_most d total f some h =
    let scaled : d * f ≤ total * f = grind arith in
    let more : total * f + total ≡ (f + 1) * total = grind arith in
    let below =
      (div-lt_iff_lt-mul {x = d * f} {y = f + 1} some).1 (omega (arith, scaled, more, some)) in
    omega (arith, below)

new_money_pos :
    (n : ℕ) (c : Text)
    → new_currency c ≡ ok c
    → new_money (pos n) c ≡ ok (record { amount = n; currency = c })
unfolding new_money
new_money_pos n c h = rw (h, new_money) (ground arith)

sub_fits :
    (m : Money) (n : ℕ) (c : Text)
    → m.currency ≡ c
    → n ≤ m.amount
    → sub m (record { amount = n; currency = c })
      ≡ ok (record { amount = m.amount - n; currency = m.currency })
unfolding sub
sub_fits m n c same h = ground (arith, same, h, text_eq_iff m.currency c)

sub_past :
    (m : Money) (n : ℕ) (c : Text)
    → m.currency ≡ c
    → m.amount < n
    → sub m (record { amount = n; currency = c }) ≡ err negative_amount
unfolding sub
sub_past m n c same h = ground (arith, same, h, text_eq_iff m.currency c)

last_fails :
    (d : Money) (code : Text) (total left : ℕ) (l : LineBreakdown)
    → new_currency d.currency ≡ ok d.currency
    → l.final.currency ≡ d.currency
    → l.final.amount < left
    → distribute_from d code total left (l ∷ []) ≡ err (kernel_error negative_amount)
unfolding distribute_from
last_fails d code total left l c same h =
    let some_left : (left == 0) ≡ false = ground (arith, h) in
    let some_share : is_zero_ℤ (pos left) ≡ false = ground (arith, h) in
    rw
      (
        some_left,
        some_share,
        new_money_pos left d.currency c,
        sub_past l.final left d.currency same h,
        distribute_from,
      )
      refl

not_nil : (front : List LineBreakdown) (l : LineBreakdown) → is_nil (front ++ l ∷ []) ≡ false
not_nil [] l = refl
not_nil (x ∷ front) l = refl

distribute_from-fails :
    (d : Money) (code : Text) (total left : ℕ) (front : List LineBreakdown) (l : LineBreakdown)
    → 0 < total
    → d.amount ≤ total
    → new_currency d.currency ≡ ok d.currency
    → All (Shares d) front
    → l.final.currency ≡ d.currency
    → sum_of (rounded d.amount total) front + l.final.amount < left
    → distribute_from d code total left (front ++ l ∷ []) ≡ err (kernel_error negative_amount)
unfolding distribute_from
distribute_from-fails d code total left [] l some small c v same h =
    last_fails d code total left l c same (omega (arith, h))
distribute_from-fails d code total left (x ∷ front) l some small c ((fits, x_same), v) same h =
    let some_left : (left == 0) ≡ false = ground (arith, h) in
    let share = rounded d.amount total x in
    let exact : share_of d.amount total left (is_nil (front ++ l ∷ [])) x.final.amount ≡ pos share =
      rw (not_nil front l)
        (share_exact d.amount total left x.final.amount fits (omega (arith, h))) in
    let taken =
      sub_fits x.final share d.currency x_same
        (share_at_most d.amount total x.final.amount some small) in
    elim (Bool-cases (is_zero_ℤ (pos share))) [
      | inl nothing ↦
          let ih =
            distribute_from-fails d code total left front l some small c v same
              (omega (arith, h)) in
          rw (some_left, exact, nothing, ih, distribute_from) refl
      | inr something ↦
          let ih =
            distribute_from-fails d code total (left - share) front l some small c v same
              (omega (arith, h)) in
          rw
            (
              some_left,
              exact,
              something,
              exact,
              new_money_pos share d.currency c,
              taken,
              ih,
              distribute_from,
            )
            refl
    ]

-- For lines whose final prices sum up to at most an int64, and a discount of at most that sum in a valid
-- currency, which is that of every line; and where the product of the discount and the price of each line
-- before the last is within an int64: when the shares of the lines before the last, rounded down, and the
-- whole price of the last line are together less than the discount, the distribution fails with the error
-- for a negative amount.
pub distribute-fails :
    (d : Money) (code : Text) (front : List LineBreakdown) (l : LineBreakdown)
    → (sum_of final_of (front ++ l ∷ [])) ≤ max_int64
    → d.amount ≤ sum_of final_of (front ++ l ∷ [])
    → new_currency d.currency ≡ ok d.currency
    → All (Shares d) front
    → l.final.currency ≡ d.currency
    → sum_of (rounded d.amount (sum_of final_of (front ++ l ∷ []))) front + l.final.amount
      < d.amount
    → distribute (front ++ l ∷ []) d code ≡ err (kernel_error negative_amount)
unfolding distribute
distribute-fails d code front l fits small c v same h =
    let lines = front ++ l ∷ [] in
    let total : sum_finals 0 lines ≡ sum_of final_of lines =
      sum_finals-eq 0 lines (omega (arith, fits)) ∙ omega arith in
    let costs : (sum_of final_of lines == 0) ≡ false = ground (arith, h, small) in
    rw (total, costs)
      (distribute_from-fails d code (sum_of final_of lines) d.amount front l
        (omega (arith, h, small)) small c v same h)
