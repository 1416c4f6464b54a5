-- ===== src/Pricing/Promo/Limits.antt =====
-- The methods of a promo code (internal/pricing/domain/promo_code.go) as one data type of commands, its
-- limit of uses and the size of its discount.
use go_marketplace_backend.Base.{
  ℕ, ◌≤◌, ◌<◌, ◌≡◌, Bool, List, [], ◌∷◌, ok, arith, fail_if, or_fail, >>=-eq-ok, ok-injective,
  subst, refl, Result-cases, inl, inr,
}
use go_marketplace_backend.Base.Int.{ℤ, pos_part}
use go_marketplace_backend.Base.Text.{Text, is_empty, text_eq_iff}
use go_marketplace_backend.Kernel.Identifier.{Ident}
use go_marketplace_backend.Kernel.Money.{
  Money, BasisPoints, max_basis_points, new_basis_points, new_currency, new_money, compare,
}
use go_marketplace_backend.Kernel.Money.Laws.{IsMoney, new_currency-eq-ok}
use go_marketplace_backend.Kernel.Money.Percent.{apply_percent-exact}
use go_marketplace_backend.Pricing.Types.{
  PromoCode, PromoCodeSpec, invalid_promo_code, invalid_discount, invalid_limits, invalid_period,
}
use go_marketplace_backend.Pricing.Promo.{
  create_promo_code, discount, validate, is_buy_n_get_m, default_currency, has_negative_limit,
  is_empty_period, new_promo, ensure_usable, redeem, release, pull_redemptions, pull_releases,
  disable, enable,
}

pub data PromoCommand : Type 0 where
  redeems : (order customer : Ident) (subtotal : Money) (customer_usage : ℤ) → PromoCommand
  releases : (order : Ident) (redeemed : Bool) → PromoCommand
  pulls_redemptions : PromoCommand
  pulls_releases : PromoCommand
  disables : PromoCommand
  enables : PromoCommand

-- The promo code that a call leaves behind.
unfoldable pub call : PromoCommand → ℕ → PromoCode → PromoCode
call (redeems order customer subtotal usage) now p = (redeem order customer subtotal usage now p).0
call (releases order redeemed) now p = (release order redeemed now p).0
call pulls_redemptions now p = (pull_redemptions p).0
call pulls_releases now p = (pull_releases p).0
call disables now p = disable now p
call enables now p = enable now p

-- A history of calls, each at its time, failed ones included.
unfoldable pub run : List (ℕ × PromoCommand) → PromoCode → PromoCode
run [] p = p
run ((now, c) ∷ cs) p = run cs (call c now p)

-- A limit of zero or less is none.
pub record IsWithin (limit : ℤ) (p : PromoCode) : Type 0 where
  pub same_limit : p.total_limit ≡ limit
  pub within_limit : 0 < pos_part limit → p.used ≤ pos_part limit

call-IsWithin :
    (limit : ℤ) (c : PromoCommand) (now : ℕ) (p : PromoCode)
    → IsWithin limit p
    → IsWithin limit (call c now p)
unfolding call redeem ensure_usable release pull_redemptions pull_releases disable enable
call-IsWithin limit (redeems order customer subtotal usage) now p v = ground (arith, v)
call-IsWithin limit (releases order redeemed) now p v = ground (arith, v)
call-IsWithin limit pulls_redemptions now p v = ground (arith, v)
call-IsWithin limit pulls_releases now p v = ground (arith, v)
call-IsWithin limit disables now p v = ground (arith, v)
call-IsWithin limit enables now p v = ground (arith, v)

run-IsWithin :
    (limit : ℤ) (cs : List (ℕ × PromoCommand)) (p : PromoCode)
    → IsWithin limit p
    → IsWithin limit (run cs p)
unfolding run
run-IsWithin limit [] p v = v
run-IsWithin limit ((now, c) ∷ cs) p v =
    run-IsWithin limit cs (call c now p) (call-IsWithin limit c now p v)

new_promo-IsWithin :
    (code : Text) (spec : PromoCodeSpec) (minimum : Money) (now : ℕ)
    → IsWithin spec.total_limit (new_promo code spec minimum now)
new_promo-IsWithin code spec minimum now = record {
  same_limit = refl;
  within_limit = λ h. omega arith;
}

create_promo_code-IsWithin :
    (code : Text) (spec : PromoCodeSpec) (now : ℕ) {p : PromoCode}
    → create_promo_code code spec now ≡ ok p
    → IsWithin spec.total_limit p
unfolding create_promo_code
create_promo_code-IsWithin code spec now e =
    let (_, _, e1) = >>=-eq-ok (fail_if (is_empty code) invalid_promo_code) _ e in
    let (_, _, e2) =
      >>=-eq-ok (fail_if (is_buy_n_get_m spec.discount.kind) invalid_discount) _ e1 in
    let (_, _, e3) = >>=-eq-ok (validate spec.discount) _ e2 in
    let (_, _, e4) = >>=-eq-ok (fail_if (has_negative_limit spec) invalid_limits) _ e3 in
    let (_, _, e5) = >>=-eq-ok (fail_if (is_empty_period spec) invalid_period) _ e4 in
    let (currency, _, e6) =
      >>=-eq-ok
        (or_fail (new_currency (default_currency spec.currency spec.discount))
          (λ _. invalid_discount))
        _ e5 in
    let (minimum, _, e7) =
      >>=-eq-ok (or_fail (new_money spec.min_cart_amount currency) (λ _. invalid_limits)) _ e6 in
    subst (IsWithin spec.total_limit) (ok-injective e7) (new_promo-IsWithin code spec minimum now)

-- After any history of calls on a promo code that was created with a positive total limit, it is counted
-- as used at most as often as the limit allows.
pub run_limit :
    (code : Text) (spec : PromoCodeSpec) (start : ℕ) (cs : List (ℕ × PromoCommand)) {p : PromoCode}
    → create_promo_code code spec start ≡ ok p
    → 0 < pos_part spec.total_limit
    → (run cs p).used ≤ pos_part spec.total_limit
run_limit code spec start cs {p} e h =
    (run-IsWithin spec.total_limit cs p (create_promo_code-IsWithin code spec start e)).within_limit
      h

new_basis_points-bounded :
    (v : ℤ) {points : BasisPoints}
    → new_basis_points v ≡ ok points
    → points.value ≤ max_basis_points
unfolding new_basis_points
new_basis_points-bounded v e = ground arith

-- A discount that is computed on a subtotal within an int64 is at most the subtotal and in its currency.
pub discount_bounds :
    (p : PromoCode) (subtotal : Money) {d : Money}
    → IsMoney subtotal
    → discount p subtotal ≡ ok d
    → (d.amount ≤ subtotal.amount) × (d.currency ≡ subtotal.currency)
unfolding discount new_money compare
discount_bounds p subtotal v e = elim (Result-cases (new_basis_points p.spec.basis_points)) [
  | inl (points, made) ↦ ground (
    arith,
    made,
    apply_percent-exact subtotal points v (new_basis_points-bounded p.spec.basis_points made),
    text_eq_iff subtotal.currency subtotal.currency,
    new_currency-eq-ok subtotal.currency,
  )
  | inr (x, refused) ↦ ground (arith, refused, new_currency-eq-ok subtotal.currency)
]
