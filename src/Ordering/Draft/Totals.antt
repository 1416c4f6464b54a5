-- ===== src/Ordering/Draft/Totals.antt =====
-- A drafted order (internal/ordering/application/command/place_order.go) from the quote to the totals of the
-- order that is placed, over the contexts of pricing, shipping and ordering.
use go_marketplace_backend.Base.{
  ℕ, ◌+◌, ◌≤◌, ◌≡◌, refl, List, [], ◌∷◌, map, ok, arith, sum_of, sum_of-append, All, Option, Result,
  >>=-eq-ok, or_fail, or_fail-eq-ok, ok-injective, subst, ap, ◌∙◌, sym, fail_if, not, length, ◌==◌,
  if◌then◌else◌, Bool-cases, inl, inr,
}
use go_marketplace_backend.Base.Int.{ℤ, pos, pos_part}
use go_marketplace_backend.Base.Text.{Text, text_eq, is_empty}
use go_marketplace_backend.Kernel.Identifier.{Ident, parse_id}
use go_marketplace_backend.Kernel.Money.{Money, new_money, new_currency, max_int64}
use go_marketplace_backend.Kernel.Money.Laws.{IsMoney, new_money-eq-ok}
use go_marketplace_backend.Pricing.Types.{PricingError}
use go_marketplace_backend.Pricing.Quotes.{QuoteRequest, LineView, QuoteView, PricingData, handle}
use go_marketplace_backend.Pricing.Quotes.Totals.{view_base, view_final, handle-IsView}
use go_marketplace_backend.Shipping.{
  Settings, Parcel, ParcelCost, TariffRequest, TariffQuote, add_costs, tariff_quote, standard,
}
use go_marketplace_backend.Ordering.Types.{Address, Item, ShippingCost, Order}
use go_marketplace_backend.Ordering.Place.{place}
use go_marketplace_backend.Ordering.Place.Parts.{item_base, item_final}
use go_marketplace_backend.Ordering.Place.Sums.{place-IsPriced}
use go_marketplace_backend.Ordering.Draft.{
  CheckoutItem, Checkout, OfferSummary, Draft, items_unavailable, from_kernel, from_shipping, Ports,
  unavailable, quote_failed, price_item, Priced, price_items, shipping_costs, price, quote_request,
  empty_draft, draft_order,
}

amount_of :
    (v : ℤ) (c : Text) {m : Money}
    → or_fail (new_money v c) from_kernel ≡ ok m
    → m.amount ≡ pos_part v
amount_of v c {m} e =
    let (same, _) = new_money-eq-ok v c (or_fail-eq-ok (new_money v c) from_kernel e) in
    sym (ap pos_part same)

price_item-eq-ok :
    (offers : Text → Option OfferSummary) (currency : Text) (line : LineView) {i : Item}
    → price_item offers currency line ≡ ok i
    → (item_base i ≡ view_base line) × (item_final i ≡ view_final line)
unfolding price_item
price_item-eq-ok offers currency line {i} e =
    let (_, _, e1) = >>=-eq-ok (or_fail (parse_id line.seller_id) from_kernel) _ e in
    let (_, _, e2) = >>=-eq-ok (or_fail (new_money line.unit_price currency) from_kernel) _ e1 in
    let (base, k3, e3) = >>=-eq-ok (or_fail (new_money line.base currency) from_kernel) _ e2 in
    let (final, k4, e4) = >>=-eq-ok (or_fail (new_money line.final currency) from_kernel) _ e3 in
    let made = ok-injective e4 in
    (
      sym (ap item_base made) ∙ amount_of line.base currency k3,
      sym (ap item_final made) ∙ amount_of line.final currency k4,
    )

price_items-sums :
    (offers : Text → Option OfferSummary) (currency : Text) (lines : List LineView) (p : Priced)
    {r : Priced}
    → price_items offers currency lines p ≡ ok r
    → (sum_of item_base r.items ≡ sum_of item_base p.items + sum_of view_base lines)
      × (sum_of item_final r.items ≡ sum_of item_final p.items + sum_of view_final lines)
unfolding price_items
price_items-sums offers currency [] p {r} e =
    let same = ap (λ (x : Priced). x.items) (ok-injective e) in
    (omega (arith, ap (sum_of item_base) same), omega (arith, ap (sum_of item_final) same))
price_items-sums offers currency (line ∷ lines) p e =
    let (item, k, e1) = >>=-eq-ok (price_item offers currency line) _ e in
    let (base, final) = price_item-eq-ok offers currency line k in
    let (bases, finals) = price_items-sums offers currency lines _ e1 in
    (
      omega (arith, base, bases, sum_of-append item_base p.items (item ∷ [])),
      omega (arith, final, finals, sum_of-append item_final p.items (item ∷ [])),
    )

abbrev IsCost : ParcelCost → Type 0
IsCost c = pos_part c.cost ≤ max_int64

add_costs-IsCost :
    (s : Settings) (ps : List Parcel) (total : ℤ)
    → pos_part s.fee ≤ max_int64
    → All IsCost (add_costs s ps total).0
unfolding add_costs
add_costs-IsCost s [] total h = tt
add_costs-IsCost s (p ∷ ps) total h = (ground (arith, h), add_costs-IsCost s ps _ h)

shipping_costs-IsMoney :
    (currency : Text) (cs : List ParcelCost) {costs : List ShippingCost}
    → All IsCost cs
    → shipping_costs currency cs ≡ ok costs
    → All (λ (c : ShippingCost). IsMoney c.cost) costs
unfolding shipping_costs
shipping_costs-IsMoney currency [] b e =
    subst (All (λ (c : ShippingCost). IsMoney c.cost)) (ok-injective e) tt
shipping_costs-IsMoney currency (c ∷ cs) (small, b) e =
    let (_, _, e1) = >>=-eq-ok (or_fail (parse_id c.seller_id) from_kernel) _ e in
    let (cost, k2, e2) = >>=-eq-ok (or_fail (new_money c.cost currency) from_kernel) _ e1 in
    let (rest, k3, e3) = >>=-eq-ok (shipping_costs currency cs) _ e2 in
    let same = amount_of c.cost currency k2 in
    subst (All (λ (c : ShippingCost). IsMoney c.cost)) (ok-injective e3)
      (omega (arith, same, small), shipping_costs-IsMoney currency cs b k3)

tariff_quote-IsCost :
    (s : Settings) (request : TariffRequest) {t : TariffQuote}
    → pos_part s.fee ≤ max_int64
    → tariff_quote s request ≡ ok t
    → All IsCost t.parcels
unfolding tariff_quote
tariff_quote-IsCost s request h e =
    let method = if is_empty request.method then standard else request.method in
    let small = add_costs-IsCost s request.parcels (pos 0) h in
    elim (Bool-cases (not (text_eq method standard))) [
      | inl unknown ↦ cc (rw unknown at e)
      | inr known ↦
          subst (λ (t : TariffQuote). All IsCost t.parcels) (ok-injective (rw known at e)) small
    ]

-- What `price` makes of a plan without items.
record IsPlan (v : QuoteView) (d : Draft) : Type 0 where
  bases : sum_of item_base d.spec.items ≡ sum_of view_base v.lines
  finals : sum_of item_final d.spec.items ≡ sum_of view_final v.lines
  costs_fit : All (λ (c : ShippingCost). IsMoney c.cost) d.spec.shipping

price-IsPlan :
    (s : Settings) (offers : Text → Option OfferSummary) (currency : Text) (v : QuoteView)
    (plan : Draft) {d : Draft}
    → pos_part s.fee ≤ max_int64
    → plan.spec.items ≡ []
    → plan.spec.shipping ≡ []
    → price (tariff_quote s) offers currency v plan ≡ ok d
    → IsPlan v d
unfolding price
price-IsPlan s offers currency v plan h no_items no_costs e =
    let start : Priced = record {
      items = plan.spec.items;
      parcels = [];
      promo_basis = plan.promo_basis;
    } in
    let (p, k1, e1) = >>=-eq-ok (price_items offers currency v.lines start) _ e in
    let (t, k2, e2) =
      >>=-eq-ok
        (or_fail
          (tariff_quote s (record {
            method = plan.spec.delivery_method;
            currency = v.currency;
            parcels = p.parcels;
          }))
          from_shipping)
        _ e1 in
    let (costs, k3, e3) = >>=-eq-ok (shipping_costs currency t.parcels) _ e2 in
    let (bases, finals) = price_items-sums offers currency v.lines start k1 in
    let costs_fit =
      shipping_costs-IsMoney currency t.parcels
        (tariff_quote-IsCost s _ h (or_fail-eq-ok _ from_shipping k2)) k3 in
    let no_base = ap (sum_of item_base) no_items in
    let no_final = ap (sum_of item_final) no_items in
    subst (IsPlan v) (ok-injective e3) (record {
      bases = omega (arith, bases, no_base);
      finals = omega (arith, finals, no_final);
      costs_fit = rw no_costs costs_fit;
    })

-- The quote of a drafted order, and the order's totals against it.
record IsDrafted (quotes : QuoteRequest → Result PricingError QuoteView) (ports : Ports)
    (buyer : Ident) (d : Draft) : Type 0 where
  checkout : Checkout
  quote : QuoteView
  checked_out : ports.checkout buyer ≡ ok checkout
  quoted : quotes (quote_request buyer checkout) ≡ ok quote
  planned : IsPlan quote d

draft_order-IsDrafted :
    (s : Settings) (quotes : QuoteRequest → Result PricingError QuoteView) (ports : Ports)
    (buyer : Ident) (address : Address) (method : Text) {d : Draft}
    → pos_part s.fee ≤ max_int64
    → draft_order ports quotes (tariff_quote s) buyer address method ≡ ok d
    → IsDrafted quotes ports buyer d
unfolding draft_order
draft_order-IsDrafted s quotes ports buyer address method h e =
    let (checkout, k1, e1) = >>=-eq-ok (ports.checkout buyer) _ e in
    let (offers, _, e2) =
      >>=-eq-ok (ports.offers (map (λ (i : CheckoutItem). i.sku) checkout.items)) _ e1 in
    let (_, _, e3) =
      >>=-eq-ok (fail_if (not (length (unavailable checkout.items offers) == 0)) items_unavailable)
        _ e2 in
    let (v, k4, e4) =
      >>=-eq-ok (or_fail (quotes (quote_request buyer checkout)) quote_failed) _ e3 in
    let (currency, _, e5) = >>=-eq-ok (or_fail (new_currency v.currency) from_kernel) _ e4 in
    record {
      checkout = checkout;
      quote = v;
      checked_out = k1;
      quoted = or_fail-eq-ok (quotes (quote_request buyer checkout)) quote_failed k4;
      planned =
          price-IsPlan s offers currency v
            (empty_draft ports.order_id buyer address method checkout v currency) h refl refl e5;
    }

-- The totals of an order against a quote.
pub record IsCharged (v : QuoteView) (o : Order) : Type 0 where
  pub subtotal_charged : o.subtotal.amount ≡ pos_part v.subtotal
  pub discount_charged : o.discount.amount ≡ pos_part v.discount
  pub total_charged : o.total.amount ≡ pos_part v.total + o.shipping.amount

-- With a shipping fee within an int64: an order that is placed from a draft has the subtotal and the
-- discount of the quote that pricing gives for the items of the buyer's cart, and as its total that of the
-- quote with the shipping added.
pub draft_order-place :
    (to_upper : Text → Text) (reads : PricingData) (max_lines : ℤ) (now : ℕ) (s : Settings)
    (ports : Ports) (buyer : Ident) (address : Address) (method : Text) (at : ℕ) {d : Draft}
    {o : Order}
    → pos_part s.fee ≤ max_int64
    → draft_order ports (handle to_upper reads max_lines now) (tariff_quote s) buyer address method
      ≡ ok d
    → place to_upper d.spec at ≡ ok o
    → (checkout : Checkout) × (v : QuoteView) × (ports.checkout buyer ≡ ok checkout)
      × (handle to_upper reads max_lines now (quote_request buyer checkout) ≡ ok v)
      × IsCharged v o
draft_order-place to_upper reads max_lines now s ports buyer address method at {d} {o} h e placed =
    let drafted =
      draft_order-IsDrafted s (handle to_upper reads max_lines now) ports buyer address method h
        e in
    let v = drafted.quote in
    let plan = drafted.planned in
    let (_, shown) =
      handle-IsView to_upper reads max_lines now (quote_request buyer drafted.checkout)
        drafted.quoted in
    let priced = place-IsPriced to_upper d.spec at plan.costs_fit placed in
    (
      drafted.checkout,
      v,
      drafted.checked_out,
      drafted.quoted,
      record {
        subtotal_charged = omega (arith, priced.subtotal_exact, plan.bases, shown.subtotal_shown);
        discount_charged = omega (
          arith, priced.subtotal_exact, priced.discount_exact, plan.bases, plan.finals,
          shown.subtotal_shown, shown.total_shown, shown.discount_shown,
        );
        total_charged = omega (
          arith, priced.subtotal_exact, priced.discount_exact, priced.total_exact, plan.bases,
          plan.finals, shown.total_shown,
        );
      },
    )
