-- ===== src/Ordering/Draft.antt =====
-- The draft of an order (internal/ordering/application/command/place_order.go: `draft`, `unavailable`,
-- `price`). The ports of the handler are arguments: what the cart and the catalog answer, a record of
-- functions; the quote of pricing; the tariffs of shipping.
mod Totals
pub mod Tests
use go_marketplace_backend.Base.{
  Bool, true, false, ◌&&◌, ◌||◌, not, List, [], ◌∷◌, ◌++◌, ◌==◌, if◌then◌else◌, Option, none, some,
  Result, ok, err, ◌>>=◌, ◌>>◌, fail_if, or_fail, length, map,
}
use go_marketplace_backend.Base.Int.{ℤ, pos, add64}
use go_marketplace_backend.Base.Text.{Text, is_empty, text_eq}
use go_marketplace_backend.Kernel.Error.{KernelError}
use go_marketplace_backend.Kernel.Identifier.{Ident, parse_id}
use go_marketplace_backend.Kernel.Money.{Money, new_money, new_currency}
use go_marketplace_backend.Pricing.Types.{PricingError, offer_price_not_found, offer_price_inactive}
use go_marketplace_backend.Pricing.Quotes.{
  QuoteLine, QuoteRequest, DiscountView, LineView, QuoteView,
}
use go_marketplace_backend.Shipping.{
  standard, Parcel, TariffRequest, ParcelCost, TariffQuote, ShippingError,
}
use go_marketplace_backend.Ordering.Types.{Address, Item, ShippingCost, PlaceSpec}

-- What the cart gives of an item.
pub record CheckoutItem : Type 0 where
  pub sku : Text
  pub quantity : ℤ

pub record Checkout : Type 0 where
  pub promo_code : Text
  pub items : List CheckoutItem

-- The fields of an offer that are read here.
pub record OfferSummary : Type 0 where
  pub title : Text
  pub category_id : Text
  pub status : Text
  pub product_published : Bool

pub record ReserveLine : Type 0 where
  pub sku : Text
  pub quantity : ℤ

pub record Draft : Type 0 where
  pub spec : PlaceSpec
  pub lines : List ReserveLine
  pub skus : List Text
  pub promo_basis : ℤ

-- `port_failed` stands for an error of the cart or of the catalog.
pub data DraftError : Type 0 where
  items_unavailable : DraftError
  from_kernel : KernelError → DraftError
  from_pricing : PricingError → DraftError
  from_shipping : ShippingError → DraftError
  port_failed : Text → DraftError

-- `order_id` is what `NewOrderID` generates.
pub record Ports : Type 0 where
  pub checkout : Ident → Result DraftError Checkout
  pub offers : List Text → Result DraftError (Text → Option OfferSummary)
  pub order_id : Ident

abbrev active : Text
active = b'a' ∷ b'c' ∷ b't' ∷ b'i' ∷ b'v' ∷ b'e' ∷ []

abbrev pub is_offered : Option OfferSummary → Bool
is_offered none = false
is_offered (some o) = text_eq o.status active && o.product_published

unfoldable pub unavailable : List CheckoutItem → (Text → Option OfferSummary) → List Text
unavailable [] offers = []
unavailable (i ∷ is) offers =
    let rest = unavailable is offers in if is_offered (offers i.sku) then rest else i.sku ∷ rest

-- `IsUnpricedOffer`
abbrev pub quote_failed : PricingError → DraftError
quote_failed offer_price_not_found = items_unavailable
quote_failed offer_price_inactive = items_unavailable
quote_failed e = from_pricing e

abbrev pub title_of : Option OfferSummary → Text
title_of none = []
title_of (some o) = o.title

abbrev pub category_of : Option OfferSummary → Text
category_of none = []
category_of (some o) = o.category_id

unfoldable pub price_item : (Text → Option OfferSummary) → Text → LineView → Result DraftError Item
price_item offers currency line = do
  seller ← or_fail (parse_id line.seller_id) from_kernel
  unit_price ← or_fail (new_money line.unit_price currency) from_kernel
  base ← or_fail (new_money line.base currency) from_kernel
  final ← or_fail (new_money line.final currency) from_kernel
  ok (record {
    sku = line.sku;
    product_id = line.product_id;
    category_id = category_of (offers line.sku);
    seller_id = seller;
    title = title_of (offers line.sku);
    quantity = line.quantity;
    unit_price = unit_price;
    base = base;
    final = final;
  })

-- `totals[seller] += amount`, with the sellers in the order in which they are first seen.
unfoldable pub add_total : Text → ℤ → List Parcel → List Parcel
add_total seller amount [] = record { seller_id = seller; subtotal = add64 (pos 0) amount } ∷ []
add_total seller amount (p ∷ ps) =
    let rest = add_total seller amount ps in
    if text_eq p.seller_id seller
    then record p { subtotal = add64 p.subtotal amount } ∷ ps
    else p ∷ rest

-- The inner loop: what the promo code has taken off counts for its basis.
unfoldable pub add_promo : List DiscountView → ℤ → ℤ
add_promo [] basis = basis
add_promo (d ∷ ds) basis =
    add_promo ds (if is_empty d.promo_code then basis else add64 basis d.amount)

-- The variables of the first loop of `price`.
pub record Priced : Type 0 where
  pub items : List Item
  pub parcels : List Parcel
  pub promo_basis : ℤ

unfoldable pub price_items :
    (Text → Option OfferSummary) → Text → List LineView → Priced → Result DraftError Priced
unfolding price_item add_total add_promo
price_items offers currency [] p = ok p
price_items offers currency (line ∷ lines) p = do
  item ← price_item offers currency line
  price_items offers currency lines (record {
    items = p.items ++ item ∷ [];
    parcels = add_total line.seller_id line.final p.parcels;
    promo_basis = add_promo line.discounts (add64 p.promo_basis line.final);
  })

-- The second loop of `price`.
unfoldable pub shipping_costs : Text → List ParcelCost → Result DraftError (List ShippingCost)
shipping_costs currency [] = ok []
shipping_costs currency (c ∷ cs) = do
  seller ← or_fail (parse_id c.seller_id) from_kernel
  cost ← or_fail (new_money c.cost currency) from_kernel
  rest ← shipping_costs currency cs
  ok (record { seller_id = seller; cost = cost } ∷ rest)

unfoldable pub price :
    (TariffRequest → Result ShippingError TariffQuote)
    → (Text → Option OfferSummary)
    → Text
    → QuoteView
    → Draft
    → Result DraftError Draft
unfolding price_items shipping_costs
price tariffs offers currency quote plan = do
  p ←
      price_items offers currency quote.lines
        (record { items = plan.spec.items; parcels = []; promo_basis = plan.promo_basis })
  tariff ←
      or_fail
        (tariffs (record {
          method = plan.spec.delivery_method;
          currency = quote.currency;
          parcels = p.parcels;
        }))
        from_shipping
  costs ← shipping_costs currency tariff.parcels
  ok (record plan {
    spec = record plan.spec { items = p.items; shipping = plan.spec.shipping ++ costs };
    promo_basis = p.promo_basis;
  })

abbrev pub quote_request : Ident → Checkout → QuoteRequest
quote_request buyer checkout = record {
  lines = map (λ (i : CheckoutItem). record { sku = i.sku; quantity = i.quantity }) checkout.items;
  promo_code = checkout.promo_code;
  customer_id = buyer;
}

-- The plan before `price`.
abbrev pub empty_draft : Ident → Ident → Address → Text → Checkout → QuoteView → Text → Draft
empty_draft order_id buyer address method checkout quote currency = record {
  spec = record {
    id = order_id;
    buyer_id = buyer;
    address = address;
    delivery_method = if is_empty method then standard else method;
    promo_code = quote.promo_code;
    currency = currency;
    items = [];
    shipping = [];
  };
  lines = map (λ (i : CheckoutItem). record { sku = i.sku; quantity = i.quantity }) checkout.items;
  skus = map (λ (i : CheckoutItem). i.sku) checkout.items;
  promo_basis = pos 0;
}

unfoldable pub draft_order :
    Ports
    → (QuoteRequest → Result PricingError QuoteView)
    → (TariffRequest → Result ShippingError TariffQuote)
    → Ident
    → Address
    → Text
    → Result DraftError Draft
unfolding price unavailable
draft_order ports quotes tariffs buyer address method = do
  checkout ← ports.checkout buyer
  offers ← ports.offers (map (λ (i : CheckoutItem). i.sku) checkout.items)
  fail_if (not (length (unavailable checkout.items offers) == 0)) items_unavailable
  quote ← or_fail (quotes (quote_request buyer checkout)) quote_failed
  currency ← or_fail (new_currency quote.currency) from_kernel
  price tariffs offers currency quote
      (empty_draft ports.order_id buyer address method checkout quote currency)
