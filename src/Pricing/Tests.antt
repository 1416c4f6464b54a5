-- ===== src/Pricing/Tests.antt =====
-- A promo code at concrete inputs: a tenth off, twice at most.
use go_marketplace_backend.Base.{ℕ, ◌+◌, ◌≤◌, ◌≡◌, refl, true, List, [], ◌∷◌, none, ok, arith}
use go_marketplace_backend.Base.Int.{pos}
use go_marketplace_backend.Kernel.Money.{
  Money, kzt, new_money, new_currency, new_basis_points, apply_percent,
}
use go_marketplace_backend.Pricing.Types.{
  percentage, DiscountSpec, PromoCodeSpec, PromoCode, active, promo_code_changed,
}
use go_marketplace_backend.Pricing.Promo.{
  validate, create_promo_code, discount, ensure_usable, redeem, release,
}
use go_marketplace_backend.Pricing.Promo.Limits.{
  PromoCommand, redeems, releases, run, run_limit, discount_bounds,
}
use go_marketplace_backend.Pricing.Promo.Redeem.{release-redeem}

abbrev tenge : ℕ → Money
tenge n = record { amount = n; currency = kzt }

abbrev tenth : DiscountSpec
tenth = record {
  kind = percentage;
  basis_points = pos 1000;
  amount = pos 0;
  currency = [];
  buy_quantity = pos 0;
  free_units = pos 0;
}

abbrev twice : PromoCodeSpec
twice = record {
  discount = tenth;
  min_cart_amount = pos 0;
  currency = [];
  total_limit = pos 2;
  per_customer_limit = pos 0;
  starts_at = 0;
  ends_at = 0;
}

abbrev promo : PromoCode
promo = record {
  code = b'A' ∷ [];
  spec = tenth;
  min_cart_amount = tenge 0;
  total_limit = pos 2;
  per_customer_limit = pos 0;
  used = 0;
  status = active;
  starts_at = 0;
  ends_at = 0;
  created_at = 3;
  updated_at = 3;
  version = 0;
  redemptions = [];
  releases = [];
  events = promo_code_changed (b'A' ∷ []) active 3 ∷ [];
}

twice_creates : create_promo_code (b'A' ∷ []) twice 3 ≡ ok promo
unfolding create_promo_code validate new_basis_points new_currency new_money
twice_creates = refl

abbrev uses : List (ℕ × PromoCommand)
uses =
    (4, redeems (1 ∷ []) (9 ∷ []) (tenge 500) (pos 0))
    ∷ (5, redeems (2 ∷ []) (9 ∷ []) (tenge 500) (pos 1))
    ∷ (6, redeems (3 ∷ []) (9 ∷ []) (tenge 500) (pos 2))
    ∷ (7, releases (1 ∷ []) true)
    ∷ []

run_limit_example : (run uses promo).used ≤ 2
run_limit_example = run_limit (b'A' ∷ []) twice 3 uses twice_creates (omega arith)

tenth_of_500 : discount promo (tenge 500) ≡ ok (tenge 50)
unfolding discount new_basis_points apply_percent
tenth_of_500 = refl

discount_bounds_example : (50 ≤ 500) × (kzt ≡ kzt)
discount_bounds_example = discount_bounds promo (tenge 500) (omega arith) tenth_of_500

redeem_succeeds : (redeem (1 ∷ []) (9 ∷ []) (tenge 500) (pos 0) 4 promo).1 ≡ none
unfolding redeem ensure_usable discount new_basis_points apply_percent
redeem_succeeds = refl

release-redeem_example :
    let q = (redeem (1 ∷ []) (9 ∷ []) (tenge 500) (pos 0) 4 promo).0 in
    let r = (release (1 ∷ []) true 5 q).0 in
    (q.used ≡ 0 + 1) × (r.used ≡ 0) × (release (1 ∷ []) true 6 r ≡ (r, none))
release-redeem_example =
    release-redeem (1 ∷ []) (9 ∷ []) (tenge 500) (pos 0) 4 5 6 promo redeem_succeeds refl
