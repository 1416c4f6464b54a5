-- ===== src/Pricing/Quotes/Totals.antt =====
-- What a quote that is handled answers (internal/pricing/application/query/quote.go).
use go_marketplace_backend.Base.{
  ℕ, ◌+◌, ◌*◌, ◌≡◌, refl, List, [], ◌∷◌, map, ok, arith, sum_of, All2, some, inl, inr, Option-cases,
  >>=-eq-ok, or_fail, or_fail-eq-ok, ok-injective, subst, ap, ◌∙◌, sym,
}
use go_marketplace_backend.Base.Int.{ℤ, pos, pos_part}
use go_marketplace_backend.Base.Text.{Text, text_eq_iff}
use go_marketplace_backend.Kernel.Identifier.{Ident}
use go_marketplace_backend.Kernel.Quantity.{Quantity, new_quantity}
use go_marketplace_backend.Pricing.Types.{CartLine, LineBreakdown, Quote, kernel_error}
use go_marketplace_backend.Pricing.Offer.{OfferPrice, line_of}
use go_marketplace_backend.Pricing.Calculator.{calculate}
use go_marketplace_backend.Pricing.Calculator.Shares.{final_of}
use go_marketplace_backend.Pricing.Calculator.Totals.{IsQuote, PricesIn, base_of, calculate-IsQuote}
use go_marketplace_backend.Pricing.Quotes.{
  QuoteLine, QuoteRequest, LineView, QuoteView, PricingData, price_of, category_ids, cart_lines,
  read_lines, validate_lines, read_rules, read_promo, line_view, view, handle,
}

new_quantity-eq-ok : (v : ℤ) {q : Quantity} → new_quantity v ≡ ok q → v ≡ pos q.value
unfolding new_quantity
new_quantity-eq-ok v e = ground arith

line_of-eq-ok :
    (quantity : Quantity) (categories : List Ident) (o : OfferPrice) {line : CartLine}
    → line_of quantity categories o ≡ ok line
    → (line.sku ≡ o.sku) × (line.quantity ≡ quantity)
unfolding line_of
line_of-eq-ok quantity categories o e = ground arith

price_of-sku :
    (sku : Text) (ps : List OfferPrice) {p : OfferPrice} → price_of sku ps ≡ some p → p.sku ≡ sku
unfolding price_of
price_of-sku sku [] e = cc
price_of-sku sku (o ∷ ps) {p} e = elim (Option-cases (price_of sku ps)) [
  | inr (later, found) ↦ price_of-sku sku ps (found ∙ rw found at e)
  | inl missing ↦ ground (arith, rw missing at e, text_eq_iff o.sku sku)
]

-- A line of the cart for a line of the request.
abbrev Reads : QuoteLine → CartLine → Type 0
Reads l line = (line.sku ≡ l.sku) × (pos line.quantity.value ≡ l.quantity)

cart_lines-Reads :
    (prices : List OfferPrice) (paths : Ident → List Text) (ls : List QuoteLine)
    {lines : List CartLine}
    → cart_lines prices paths ls ≡ ok lines
    → All2 Reads ls lines
unfolding cart_lines
cart_lines-Reads prices paths [] e = subst (All2 Reads []) (ok-injective e) tt
cart_lines-Reads prices paths (l ∷ ls) e = elim (Option-cases (price_of l.sku prices)) [
  | inl missing ↦ cc (rw (missing, cart_lines) at e)
  | inr (price, found) ↦
      let e1 = rw (found, cart_lines) at e in
      let (q, k1, e2) = >>=-eq-ok (or_fail (new_quantity l.quantity) kernel_error) _ e1 in
      let (line, k2, e3) =
        >>=-eq-ok (line_of q (category_ids (paths price.product_id)) price) _ e2 in
      let (rest, k3, e4) = >>=-eq-ok (cart_lines prices paths ls) _ e3 in
      let amount =
        new_quantity-eq-ok l.quantity (or_fail-eq-ok (new_quantity l.quantity) kernel_error k1) in
      let (same_sku, same_quantity) =
        line_of-eq-ok q (category_ids (paths price.product_id)) price k2 in
      subst (All2 Reads (l ∷ ls)) (ok-injective e4) (
        (
          same_sku ∙ price_of-sku l.sku prices found,
          ap (λ (x : Quantity). pos x.value) same_quantity ∙ sym amount,
        ),
        cart_lines-Reads prices paths ls k3,
      )
]

abbrev pub view_base : LineView → ℕ
view_base l = pos_part l.base

abbrev pub view_final : LineView → ℕ
view_final l = pos_part l.final

-- The answer to a line of the request.
pub record Answers (l : QuoteLine) (v : LineView) : Type 0 where
  pub same_sku : v.sku ≡ l.sku
  pub same_quantity : v.quantity ≡ l.quantity
  pub base_exact : pos_part v.base ≡ pos_part v.unit_price * pos_part v.quantity

view-Answers :
    (currency : Text) (prices : List OfferPrice) (ls : List QuoteLine) (lines : List CartLine)
    (bs : List LineBreakdown)
    → All2 Reads ls lines
    → All2 (PricesIn currency) lines bs
    → All2 Answers ls (map (line_view prices) bs)
view-Answers currency prices [] [] [] r p = tt
view-Answers currency prices [] [] (b ∷ bs) r p = absurd p
view-Answers currency prices [] (line ∷ lines) bs r p = absurd r
view-Answers currency prices (l ∷ ls) [] bs r p = absurd r
view-Answers currency prices (l ∷ ls) (line ∷ lines) [] r p = absurd p
view-Answers currency prices (l ∷ ls) (line ∷ lines) (b ∷ bs) ((sku, quantity), r)
      ((priced, _), p) =
    (
      record {
        same_sku = priced.sku_kept ∙ sku;
        same_quantity = ap (λ (x : Quantity). pos x.value) priced.quantity_kept ∙ quantity;
        base_exact = priced.line_balanced.base_exact;
      },
      view-Answers currency prices ls lines bs r p,
    )

-- The sums over the lines that are shown.
pub view_bases :
    (prices : List OfferPrice) (bs : List LineBreakdown)
    → sum_of view_base (map (line_view prices) bs) ≡ sum_of base_of bs
view_bases prices [] = refl
view_bases prices (b ∷ bs) = ap (λ n. b.base.amount + n) (view_bases prices bs)

pub view_finals :
    (prices : List OfferPrice) (bs : List LineBreakdown)
    → sum_of view_final (map (line_view prices) bs) ≡ sum_of final_of bs
view_finals prices [] = refl
view_finals prices (b ∷ bs) = ap (λ n. b.final.amount + n) (view_finals prices bs)

-- The totals that are shown are those of the lines that are shown.
pub record IsView (v : QuoteView) : Type 0 where
  pub subtotal_shown : pos_part v.subtotal ≡ sum_of view_base v.lines
  pub total_shown : pos_part v.total ≡ sum_of view_final v.lines
  pub discount_shown : pos_part v.discount + pos_part v.total ≡ pos_part v.subtotal

view-IsView :
    (lines : List CartLine) (q : Quote) (prices : List OfferPrice)
    → IsQuote lines q
    → IsView (view q prices)
unfolding view
view-IsView lines q prices v = record {
  subtotal_shown = v.subtotal_exact ∙ sym (view_bases prices q.lines);
  total_shown = v.total_exact ∙ sym (view_finals prices q.lines);
  discount_shown = v.discount_exact;
}

-- What a view of a calculated quote shows.
abbrev Shown : QuoteRequest → QuoteView → Type 0
Shown q v = All2 Answers q.lines v.lines × IsView v

view-Shown :
    (reads : PricingData) (q : QuoteRequest) (skus : List Text) (lines : List CartLine)
    (prices : List OfferPrice) (quote : Quote)
    → read_lines reads q skus ≡ ok (lines, prices)
    → IsQuote lines quote
    → Shown q (view quote prices)
unfolding read_lines view
view-Shown reads q skus lines prices quote e v =
    let (ps, _, e1) = >>=-eq-ok (reads.prices skus) _ e in
    let (paths, _, e2) =
      >>=-eq-ok (reads.category_paths (map (λ (p : OfferPrice). p.product_id) ps)) _ e1 in
    let (ls, k3, e3) = >>=-eq-ok (cart_lines ps paths q.lines) _ e2 in
    let made : ◌≡◌ {A = List CartLine × List OfferPrice} (ls, ps) (lines, prices) =
      ok-injective e3 in
    let answered =
      subst (All2 Reads q.lines) (ap (λ (r : List CartLine × List OfferPrice). r.0) made)
        (cart_lines-Reads ps paths q.lines k3) in
    (
      view-Answers quote.currency prices q.lines lines quote.lines answered v.lines_priced,
      view-IsView lines quote prices v,
    )

-- A quote that is handled answers each line of the request in order, with its SKU and its quantity, at the
-- product of unit price and quantity; its subtotal, its total and its discount are those of the lines, with
-- and without a promo code. It holds whatever the repositories return.
pub handle-IsView :
    (to_upper : Text → Text) (reads : PricingData) (max_lines : ℤ) (now : ℕ) (q : QuoteRequest)
    {v : QuoteView}
    → handle to_upper reads max_lines now q ≡ ok v
    → All2 Answers q.lines v.lines × IsView v
unfolding handle read_lines view
handle-IsView to_upper reads max_lines now q e =
    let (skus, _, e1) = >>=-eq-ok (validate_lines max_lines q) _ e in
    let ((lines, prices), k2, e2) = >>=-eq-ok (read_lines reads q skus) _ e1 in
    let (rules, _, e3) = >>=-eq-ok (read_rules reads now) _ e2 in
    let (promo, _, e4) = >>=-eq-ok (read_promo to_upper reads q lines rules now) _ e3 in
    let (quote, k5, e5) = >>=-eq-ok (calculate lines rules promo) _ e4 in
    subst (Shown q) (ok-injective e5)
      (view-Shown reads q skus lines prices quote k2 (calculate-IsQuote lines rules promo k5))
