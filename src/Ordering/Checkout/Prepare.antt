-- ===== src/Ordering/Checkout/Prepare.antt =====
-- What placing an order checks and computes before it writes
-- (internal/ordering/application/command/place_order.go, `Handle`).
use go_marketplace_backend.Base.{
  ℕ, ◌≡◌, refl, ap, Bool, ◌&&◌, not, [], ◌∷◌, Result, ok, ◌>>=◌, ◌>>◌, fail_if, or_fail, >>=-eq-ok,
  or_fail-eq-ok, ok-injective, subst,
}
use go_marketplace_backend.Base.Int.{ℤ, pos, ltb_ℤ, leb_ℤ}
use go_marketplace_backend.Base.Text.{Text}
use go_marketplace_backend.Kernel.Identifier.{Ident, parse_id}
use go_marketplace_backend.Pricing.Types.{PricingError}
use go_marketplace_backend.Pricing.Quotes.{QuoteRequest, QuoteView}
use go_marketplace_backend.Shipping.{TariffRequest, TariffQuote, ShippingError}
use go_marketplace_backend.Ordering.Status.{Status}
use go_marketplace_backend.Ordering.Types.{Order, Address, PlaceSpec}
use go_marketplace_backend.Ordering.Address.{new_address}
use go_marketplace_backend.Ordering.Place.{place}
use go_marketplace_backend.Ordering.Place.Sums.{place-eq-ok}
use go_marketplace_backend.Ordering.Draft.{Ports, Draft, draft_order}
use go_marketplace_backend.Ordering.Checkout.{
  Fails, unauthenticated, from_order, from_draft, total_changed,
}
use go_marketplace_backend.Ordering.Checkout.Actors.{Principal}

-- What a buyer sends.
pub record PlaceOrder : Type 0 where
  pub actor : Principal
  pub address : Address
  pub delivery_method : Text
  pub method_id : Text
  pub save_method : Bool
  pub expected_total : ℤ

-- `cmd.ExpectedTotal > 0 && cmd.ExpectedTotal != order.Total().Amount()`
abbrev pub is_changed : ℤ → ℕ → Bool
is_changed expected total =
    ltb_ℤ (pos 0) expected && not (leb_ℤ expected (pos total) && leb_ℤ (pos total) expected)

place-created :
    (to_upper : Text → Text) (spec : PlaceSpec) (now : ℕ) (o : Order)
    → place to_upper spec now ≡ ok o
    → o.status ≡ Status.created
place-created to_upper spec now o e =
    let (_, _, _, _, _, _, _, made) = place-eq-ok to_upper spec now e in
    subst (λ (x : Order). x.status ≡ Status.created) made refl

module _ (to_upper : Text → Text) (ports : Ports)
    (quotes : QuoteRequest → Result PricingError QuoteView)
    (tariffs : TariffRequest → Result ShippingError TariffQuote) where
  unfoldable pub prepare : PlaceOrder → ℕ → Result Fails (Ident × Draft × Order)
  prepare cmd now = do
    buyer ← or_fail (parse_id cmd.actor.user_id) (λ _. unauthenticated ∷ [])
    _ ← or_fail (new_address to_upper cmd.address) (λ e. from_order e ∷ [])
    plan ←
        or_fail (draft_order ports quotes tariffs buyer cmd.address cmd.delivery_method)
          (λ e. from_draft e ∷ [])
    order ← or_fail (place to_upper plan.spec now) (λ e. from_order e ∷ [])
    fail_if (is_changed cmd.expected_total order.total.amount) (total_changed ∷ [])
    ok (buyer, plan, order)

  pub prepare-created :
      (cmd : PlaceOrder) (now : ℕ) (buyer : Ident) (plan : Draft) (order : Order)
      → prepare cmd now ≡ ok (buyer, plan, order)
      → order.status ≡ Status.created
  unfolding prepare
  prepare-created cmd now buyer plan order e =
      let (_, _, e1) = >>=-eq-ok (or_fail (parse_id cmd.actor.user_id) _) _ e in
      let (_, _, e2) = >>=-eq-ok (or_fail (new_address to_upper cmd.address) _) _ e1 in
      let (p, _, e3) = >>=-eq-ok (or_fail (draft_order ports quotes tariffs _ _ _) _) _ e2 in
      let (o, placed, e4) = >>=-eq-ok (or_fail (place to_upper p.spec now) _) _ e3 in
      let (_, _, e5) =
        >>=-eq-ok (fail_if (is_changed cmd.expected_total o.total.amount) (total_changed ∷ [])) _
          e4 in
      let same : o ≡ order = ap (λ (x : Ident × Draft × Order). x.2) (ok-injective e5) in
      subst (λ (x : Order). x.status ≡ Status.created) same
        (place-created to_upper p.spec now o
          (or_fail-eq-ok (place to_upper p.spec now) (λ e. from_order e ∷ []) placed))
