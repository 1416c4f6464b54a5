-- ===== src/Kernel/Money/Percent.antt =====
-- Percentages of money in basis points (internal/shared/kernel/money.go, `ApplyPercent`).
use go_marketplace_backend.Base.{ℕ, ◌+◌, ◌*◌, ◌/◌, ◌%◌, ◌≤◌, ◌≡◌, arith, ◌<◌, ap, refl}
use go_marketplace_backend.Kernel.Money.{Money, BasisPoints, max_basis_points, apply_percent}
use go_marketplace_backend.Kernel.Money.Laws.{IsMoney}

split_share : (w r v : ℕ) → (10000 * w + r) * v / 10000 ≡ w * v + r * v / 10000
split_share w r v = omega arith

share_bounded : (w r v : ℕ) → r < 10000 → v ≤ 10000 → w * v + r * v / 10000 ≤ 10000 * w + r
share_bounded w r v h p =
    let whole : w * v ≤ w * 10000 = grind arith in
    let rest : r * v ≤ r * 10000 = grind arith in omega arith

-- At every amount of an int64 and every share up to the whole, `ApplyPercent` gives the exact share
-- rounded down, which is at most the amount, in the same currency.
pub apply_percent-exact :
    (m : Money) (bp : BasisPoints)
    → IsMoney m
    → bp.value ≤ max_basis_points
    → ((apply_percent m bp).amount ≡ m.amount * bp.value / 10000)
      × ((apply_percent m bp).amount ≤ m.amount)
      × ((apply_percent m bp).currency ≡ m.currency)
unfolding apply_percent
apply_percent-exact m bp v h =
    let w = m.amount / 10000 in
    let r = m.amount % 10000 in
    let e : 10000 * w + r ≡ m.amount = omega arith in
    let share = ap (λ t. t * bp.value / 10000) e in
    let bound = share_bounded w r bp.value (omega arith) h in
    let small : r * bp.value ≤ r * 10000 = grind arith in
    (
      omega (arith, share, bound, small, split_share w r bp.value),
      omega (arith, bound, small),
      refl,
    )
