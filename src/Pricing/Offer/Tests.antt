-- ===== src/Pricing/Offer/Tests.antt =====
-- An offer price at concrete inputs.
use go_marketplace_backend.Base.{ℕ, ◌≡◌, refl, true, false, List, [], ◌∷◌, ok}
use go_marketplace_backend.Kernel.Money.{Money, kzt}
use go_marketplace_backend.Pricing.Offer.{OfferPrice, new_offer_price, no_money, log}
use go_marketplace_backend.Pricing.Offer.Invariant.{
  OfferCommand, changes_price, sets_compare_at, sets_active, run, IsOffer, run_prices,
}

abbrev tenge : ℕ → Money
tenge n = record { amount = n; currency = kzt }

abbrev offered : OfferPrice
offered = log 2 (record {
  sku = b'T' ∷ [];
  product_id = b'p' ∷ [];
  seller_id = b's' ∷ [];
  price = tenge 300;
  compare_at = no_money;
  active = true;
  updated_at = 2;
  version = 0;
  events = [];
})

offers : new_offer_price (b'T' ∷ []) (b'p' ∷ []) (b's' ∷ []) (tenge 300) 2 ≡ ok offered
unfolding new_offer_price
offers = refl

abbrev changes : List (ℕ × OfferCommand)
changes =
    (3, sets_compare_at (tenge 400))
    ∷ (4, changes_price (tenge 350))
    ∷ (5, changes_price (tenge 500))
    ∷ (6, sets_active false)
    ∷ []

run_prices_example : IsOffer (run changes offered)
run_prices_example = run_prices (b'T' ∷ []) (b'p' ∷ []) (b's' ∷ []) (tenge 300) 2 changes offers
