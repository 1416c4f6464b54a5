-- ===== src/Pricing/Calculator/Shares.antt =====
-- The distribution of a promo code over the lines of a quote (internal/pricing/domain/calculator.go,
-- `distribute`).
use go_marketplace_backend.Base.{
  ℕ, ◌+◌, ◌-◌, ◌≤◌, ◌≡◌, refl, ◌||◌, Bool, true, false, List, [], ◌∷◌, ok, arith, sum_of,
  sum_of-append, All2, All2-refl, inl, inr, Bool-cases, >>=-eq-ok, or_fail, or_fail-eq-ok,
  ok-injective, subst, ◌⊎◌, ◌==◌, if◌then◌else◌, ap,
}
use go_marketplace_backend.Base.Int.{ℤ, pos, ltb_ℤ}
use go_marketplace_backend.Base.Text.{Text}
use go_marketplace_backend.Kernel.Money.{Money, sub, new_money, max_int64, wrap64}
use go_marketplace_backend.Kernel.Money.Laws.{sub-eq-ok, new_money-eq-ok}
use go_marketplace_backend.Pricing.Types.{LineBreakdown, kernel_error}
use go_marketplace_backend.Pricing.Calculator.Lines.{IsLine, Same, off}
use go_marketplace_backend.Pricing.Calculator.{
  share_of, is_zero_ℤ, is_nil, bear, distribute_from, distribute, sum_finals,
}

abbrev pub final_of : LineBreakdown → ℕ
final_of l = l.final.amount

-- A loop with nothing left to bear.
done_from :
    (d : Money) (code : Text) (total left : ℕ) (l : LineBreakdown) (ls : List LineBreakdown)
    {out : List LineBreakdown}
    → (left == 0) ≡ true
    → distribute_from d code total left (l ∷ ls) ≡ ok out
    → l ∷ ls ≡ out
unfolding distribute_from
done_from d code total left l ls none_left e = ok-injective (rw (none_left, distribute_from) at e)

-- A round that goes on: the share is nothing, or it is taken off the line.
distribute_round :
    (d : Money) (code : Text) (total left : ℕ) (l : LineBreakdown) (ls : List LineBreakdown)
    {out : List LineBreakdown}
    → (left == 0) ≡ false
    → distribute_from d code total left (l ∷ ls) ≡ ok out
    → ((is_zero_ℤ (share_of d.amount total left (is_nil ls) l.final.amount) ≡ true)
        × ((rest : List LineBreakdown) × (distribute_from d code total left ls ≡ ok rest)
            × (l ∷ rest ≡ out)))
      ⊎ ((amount : Money) × (final : Money) × (rest : List LineBreakdown) × (new_money
              (share_of d.amount total left (is_nil ls) l.final.amount)
              d.currency
            ≡ ok amount)
          × (sub l.final amount ≡ ok final)
          × (distribute_from d code total (left - amount.amount) ls ≡ ok rest)
          × (bear code amount final l ∷ rest ≡ out))
unfolding distribute_from
distribute_round d code total left l ls some_left e =
    elim (Bool-cases (is_zero_ℤ (share_of d.amount total left (is_nil ls) l.final.amount))) [
      | inl nothing ↦
          let e0 = rw (some_left, nothing, distribute_from) at e in
          let (rest, e1, e2) = >>=-eq-ok (distribute_from d code total left ls) _ e0 in
          inl (nothing, (rest, e1, ok-injective e2))
      | inr something ↦
          let e0 = rw (some_left, something, distribute_from) at e in
          let (amount, e1, e2) =
            >>=-eq-ok
              (or_fail
                (new_money (share_of d.amount total left (is_nil ls) l.final.amount) d.currency)
                kernel_error)
              _ e0 in
          let (final, e3, e4) = >>=-eq-ok (or_fail (sub l.final amount) kernel_error) _ e2 in
          let (rest, e5, e6) =
            >>=-eq-ok (distribute_from d code total (left - amount.amount) ls) _ e4 in
          inr (
            amount,
            final,
            rest,
            or_fail-eq-ok (new_money _ d.currency) kernel_error e1,
            or_fail-eq-ok (sub l.final amount) kernel_error e3,
            e5,
            ok-injective e6,
          )
    ]

share_of_last : (d total left f : ℕ) → share_of d total left true f ≡ pos left
share_of_last d total left f = refl

capped :
    (raw : ℤ) (left a : ℕ) (last : Bool)
    → (if last || ltb_ℤ (pos left) raw then pos left else raw) ≡ pos a
    → a ≤ left
capped raw left a last e = ground arith

capped_last :
    (raw : ℤ) (left a : ℕ) (last : Bool)
    → last ≡ true
    → (if last || ltb_ℤ (pos left) raw then pos left else raw) ≡ pos a
    → a ≡ left
capped_last raw left a last l e = ground (arith, l)

-- Nothing is left to bear when no line is left.
abbrev Covered : ℕ → List LineBreakdown → Type 0
Covered left ls = is_nil ls ≡ true → left ≡ 0

distribute_from-sum :
    (d : Money) (code : Text) (total left : ℕ) (ls : List LineBreakdown) {out : List LineBreakdown}
    → Covered left ls
    → distribute_from d code total left ls ≡ ok out
    → sum_of final_of out + left ≡ sum_of final_of ls
unfolding distribute_from
distribute_from-sum d code total left [] {out} c e = ground (arith, c refl)
distribute_from-sum d code total left (l ∷ ls) {out} c e = elim (Bool-cases (left == 0)) [
  | inl none_left ↦ ground (arith, none_left)
  | inr some_left ↦ elim (distribute_round d code total left l ls some_left e) [
    | inl (nothing, (rest, e1, e2)) ↦
        let ih =
          distribute_from-sum d code total left ls {out = rest}
            (λ last.
              ground (arith, last, nothing, share_of_last d.amount total left l.final.amount))
            e1 in
        ground (arith, ih, e2)
    | inr (amount, final, rest, made, less, e1, e2) ↦
        let (is_share, _) = new_money-eq-ok _ d.currency made in
        let fits = capped _ left amount.amount (is_nil ls) is_share in
        let ih =
          distribute_from-sum d code total (left - amount.amount) ls {out = rest}
            (λ last. omega (arith, capped_last _ left amount.amount (is_nil ls) last is_share))
            e1 in
        let (split, _, _) = sub-eq-ok l.final amount less in
        let finals : final.amount + sum_of final_of rest ≡ sum_of final_of out =
          ap (sum_of final_of) e2 in
        omega (arith, ih, fits, split, finals)
  ]
]

-- A line and what it is when it has borne its share.
pub record Bears (l m : LineBreakdown) : Type 0 where
  pub same : Same m l
  pub stays_line : IsLine l → IsLine m

pub Bears-refl : (l : LineBreakdown) → Bears l l
Bears-refl l = record { same = (refl, refl, refl, refl, refl, refl); stays_line = λ v. v }

bear-IsLine :
    (code : Text) (amount final : Money) (l : LineBreakdown)
    → sub l.final amount ≡ ok final
    → IsLine l
    → IsLine (bear code amount final l)
bear-IsLine code amount final l e v =
    let (split, same, _) = sub-eq-ok l.final amount e in
    record {
      base_exact = v.base_exact;
      base_fits = v.base_fits;
      balanced = omega (arith, v, split, sum_of-append off l.discounts _);
      base_currency = v.base_currency;
      final_currency = cc (same, v.final_currency);
    }

distribute_from-Bears :
    (d : Money) (code : Text) (total left : ℕ) (ls : List LineBreakdown) {out : List LineBreakdown}
    → distribute_from d code total left ls ≡ ok out
    → All2 Bears ls out
unfolding distribute_from
distribute_from-Bears d code total left [] {out} e = subst (All2 Bears []) (ok-injective e) tt
distribute_from-Bears d code total left (l ∷ ls) {out} e = elim (Bool-cases (left == 0)) [
  | inl none_left ↦
      subst (All2 Bears (l ∷ ls)) (done_from d code total left l ls none_left e)
        (All2-refl Bears Bears-refl (l ∷ ls))
  | inr some_left ↦ elim (distribute_round d code total left l ls some_left e) [
    | inl (nothing, (rest, e1, e2)) ↦
        subst (All2 Bears (l ∷ ls)) e2 (Bears-refl l, distribute_from-Bears d code total left ls e1)
    | inr (amount, final, rest, made, less, e1, e2) ↦ subst (All2 Bears (l ∷ ls)) e2 (
      record {
        same = (refl, refl, refl, refl, refl, refl);
        stays_line = bear-IsLine code amount final l less;
      },
      distribute_from-Bears d code total (left - amount.amount) ls e1,
    )
  ]
]

pub sum_finals-eq :
    (t : ℕ) (ls : List LineBreakdown)
    → t + sum_of final_of ls ≤ max_int64
    → sum_finals t ls ≡ t + sum_of final_of ls
unfolding sum_finals
sum_finals-eq t [] h = omega arith
sum_finals-eq t (l ∷ ls) h =
    let small : wrap64 (t + l.final.amount) ≡ t + l.final.amount = omega arith in
    rw small (omega (arith, sum_finals-eq (t + l.final.amount) ls (omega arith)))

covered : (left : ℕ) (ls : List LineBreakdown) → (sum_of final_of ls == 0) ≡ false → Covered left ls
covered left [] h last = cc
covered left (l ∷ ls) h last = cc

-- A distribution that succeeds takes exactly the discount off the lines.
pub distribute-exact :
    (ls : List LineBreakdown) (d : Money) (code : Text) {out : List LineBreakdown}
    → d.amount ≤ sum_of final_of ls
    → sum_of final_of ls ≤ max_int64
    → distribute ls d code ≡ ok out
    → (sum_of final_of out + d.amount ≡ sum_of final_of ls) × All2 Bears ls out
unfolding distribute
distribute-exact ls d code {out} small fits e =
    let total = sum_finals-eq 0 ls (omega arith) in
    elim (Bool-cases (sum_finals 0 ls == 0)) [
      | inl free ↦
          let same : ls ≡ out = ok-injective (rw free at e) in
          (
            ground (arith, total, free, same),
            subst (All2 Bears ls) same (All2-refl Bears Bears-refl ls),
          )
      | inr costs ↦
          let e1 = rw costs at e in
          (
            distribute_from-sum d code (sum_finals 0 ls) d.amount ls
                (covered d.amount ls (ground (arith, total, costs))) e1,
            distribute_from-Bears d code (sum_finals 0 ls) d.amount ls e1,
          )
    ]
