-- ===== src/Pricing/Offer/Invariant.antt =====
-- The methods of an offer price (internal/pricing/domain/offer_price.go) as one data type of commands, and
-- the invariant of its two prices.
use go_marketplace_backend.Base.{ℕ, ◌<◌, ◌≡◌, ◌⊎◌, Bool, List, [], ◌∷◌, ok, arith}
use go_marketplace_backend.Base.Text.{Text}
use go_marketplace_backend.Kernel.Identifier.{Ident}
use go_marketplace_backend.Kernel.Money.{Money}
use go_marketplace_backend.Kernel.Money.Laws.{compare_cases}
use go_marketplace_backend.Pricing.Offer.{
  OfferPrice, new_offer_price, change_price, set_compare_at, set_active,
}

pub data OfferCommand : Type 0 where
  changes_price : (price : Money) → OfferCommand
  sets_compare_at : (compare_at : Money) → OfferCommand
  sets_active : (active : Bool) → OfferCommand

-- The offer price that a call leaves behind.
unfoldable pub call : OfferCommand → ℕ → OfferPrice → OfferPrice
call (changes_price price) now o = (change_price price now o).0
call (sets_compare_at compare_at) now o = (set_compare_at compare_at now o).0
call (sets_active active) now o = set_active active now o

-- A history of calls, each at its time, failed ones included.
unfoldable pub run : List (ℕ × OfferCommand) → OfferPrice → OfferPrice
run [] o = o
run ((now, c) ∷ cs) o = run cs (call c now o)

pub record IsOffer (o : OfferPrice) : Type 0 where
  pub positive : 0 < o.price.amount
  pub dearer :
      (o.compare_at.amount ≡ 0)
      ⊎ ((o.price.amount < o.compare_at.amount) × (o.compare_at.currency ≡ o.price.currency))

call-IsOffer : (c : OfferCommand) (now : ℕ) (o : OfferPrice) → IsOffer o → IsOffer (call c now o)
unfolding call change_price set_compare_at set_active
call-IsOffer (changes_price price) now o v = ground (arith, compare_cases o.compare_at price)
call-IsOffer (sets_compare_at compare_at) now o v = ground (arith, compare_cases compare_at o.price)
call-IsOffer (sets_active active) now o v = ground arith

run-IsOffer : (cs : List (ℕ × OfferCommand)) (o : OfferPrice) → IsOffer o → IsOffer (run cs o)
unfolding run
run-IsOffer [] o v = v
run-IsOffer ((now, c) ∷ cs) o v = run-IsOffer cs (call c now o) (call-IsOffer c now o v)

new_offer_price-IsOffer :
    (sku : Text) (product seller : Ident) (price : Money) (now : ℕ) {o : OfferPrice}
    → new_offer_price sku product seller price now ≡ ok o
    → IsOffer o
unfolding new_offer_price
new_offer_price-IsOffer sku product seller price now e = ground arith

-- After any history of calls on a new offer price, its price is positive, and its compare-at price is
-- absent or is greater and in the same currency.
pub run_prices :
    (sku : Text) (product seller : Ident) (price : Money) (start : ℕ) (cs : List (ℕ × OfferCommand))
    {o : OfferPrice}
    → new_offer_price sku product seller price start ≡ ok o
    → IsOffer (run cs o)
run_prices sku product seller price start cs {o} e =
    run-IsOffer cs o (new_offer_price-IsOffer sku product seller price start e)
