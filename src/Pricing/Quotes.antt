-- ===== src/Pricing/Quotes.antt =====
-- The handler of quotes (internal/pricing/application/query/quote.go). What it reads through
-- `PricingData` is an argument, a record of functions, and so is its clock. `to_upper` stands for
-- `strings.ToUpper`, in `NewCode` (internal/pricing/domain/ids.go).
pub mod Totals
use go_marketplace_backend.Base.{
  ℕ, zero, Bool, true, false, ◌&&◌, ◌||◌, not, List, [], ◌∷◌, ◌++◌, ltb, ◌==◌, if◌then◌else◌,
  Option, none, some, Result, ok, err, ◌>>=◌, ◌>>◌, fail_if, or_fail, length, any, map,
}
use go_marketplace_backend.Base.Int.{ℤ, pos, leb_ℤ, ltb_ℤ}
use go_marketplace_backend.Base.Text.{
  Text, is_empty, trim_space, text_eq, matches_class, sku_byte, capital_byte,
}
use go_marketplace_backend.Kernel.Identifier.{Ident, parse_id}
use go_marketplace_backend.Kernel.Quantity.{new_quantity}
use go_marketplace_backend.Pricing.Types.{
  CartLine, DiscountRule, AppliedDiscount, AppliedKind, LineBreakdown, Quote, PromoCode,
  PricingError, invalid_lines, invalid_sku, invalid_id, invalid_promo_code, promo_code_not_found,
  offer_price_not_found, kernel_error,
}
use go_marketplace_backend.Pricing.Promo.{ensure_usable}
use go_marketplace_backend.Pricing.Promotion.{Promotion, is_running, rule}
use go_marketplace_backend.Pricing.Offer.{OfferPrice, line_of}
use go_marketplace_backend.Pricing.Calculator.{calculate}

pub record QuoteLine : Type 0 where
  pub sku : Text
  pub quantity : ℤ

pub record QuoteRequest : Type 0 where
  pub lines : List QuoteLine
  pub promo_code : Text
  pub customer_id : Text

pub record DiscountView : Type 0 where
  pub rule_id : Text
  pub kind : AppliedKind
  pub amount : ℤ
  pub promo_code : Text

pub record LineView : Type 0 where
  pub sku : Text
  pub seller_id : Text
  pub product_id : Text
  pub quantity : ℤ
  pub unit_price : ℤ
  pub compare_at : ℤ
  pub base : ℤ
  pub discounts : List DiscountView
  pub final : ℤ

pub record QuoteView : Type 0 where
  pub lines : List LineView
  pub subtotal : ℤ
  pub discount : ℤ
  pub total : ℤ
  pub currency : Text
  pub promo_code : Text

-- `PricingData`; a path of categories is empty for a product that is missing in the map.
pub record PricingData : Type 0 where
  pub prices : List Text → Result PricingError (List OfferPrice)
  pub category_paths : List Ident → Result PricingError (Ident → List Text)
  pub running_promotions : ℕ → Result PricingError (List Promotion)
  pub find_promo_code : Text → Result PricingError PromoCode
  pub promo_code_usage : Text → Ident → Result PricingError ℤ

unfoldable pub new_sku : Text → Result PricingError Text
new_sku raw =
    let value = trim_space raw in
    if not (matches_class sku_byte 1 64 value) then err invalid_sku else ok value

unfoldable pub new_code : (Text → Text) → Text → Result PricingError Text
new_code to_upper raw =
    let value = to_upper (trim_space raw) in
    if not (matches_class capital_byte 4 32 value) then err invalid_promo_code else ok value

-- The loop of `validate`, with the SKUs so far.
unfoldable pub distinct_skus : List Text → List QuoteLine → Result PricingError (List Text)
unfolding new_sku
distinct_skus skus [] = ok skus
distinct_skus skus (l ∷ ls) = do
  fail_if (leb_ℤ l.quantity (pos 0) || any (text_eq l.sku) skus) invalid_lines
  _ ← new_sku l.sku
  distinct_skus (skus ++ l.sku ∷ []) ls

unfoldable pub validate_lines : ℤ → QuoteRequest → Result PricingError (List Text)
unfolding distinct_skus
validate_lines max_lines q = do
  fail_if (length q.lines == 0 || ltb_ℤ max_lines (pos (length q.lines))) invalid_lines
  distinct_skus [] q.lines

-- `bySKU[sku]`: of several prices of one SKU the last.
unfoldable pub price_of : Text → List OfferPrice → Option OfferPrice
price_of sku [] = none
price_of sku (p ∷ ps) = elim (price_of sku ps) [
  | some later ↦ some later
  | none ↦ if text_eq p.sku sku then some p else none
]

unfoldable pub category_ids : List Text → List Ident
category_ids [] = []
category_ids (raw ∷ rest) =
    let ids = category_ids rest in elim (parse_id raw) [ ok id ↦ id ∷ ids | err _ ↦ ids ]

-- The loop of `lines`.
unfoldable pub cart_lines :
    List OfferPrice → (Ident → List Text) → List QuoteLine → Result PricingError (List CartLine)
unfolding price_of category_ids
cart_lines prices paths [] = ok []
cart_lines prices paths (l ∷ ls) = elim (price_of l.sku prices) [
  | none ↦ err offer_price_not_found
  | some price ↦ do
    quantity ← or_fail (new_quantity l.quantity) kernel_error
    line ← line_of quantity (category_ids (paths price.product_id)) price
    rest ← cart_lines prices paths ls
    ok (line ∷ rest)
]

unfoldable pub read_lines :
    PricingData → QuoteRequest → List Text → Result PricingError (List CartLine × List OfferPrice)
unfolding cart_lines
read_lines reads q skus = do
  prices ← reads.prices skus
  paths ← reads.category_paths (map (λ (p : OfferPrice). p.product_id) prices)
  lines ← cart_lines prices paths q.lines
  ok (lines, prices)

-- The loop of `rules`.
unfoldable pub running_rules : ℕ → List Promotion → Result PricingError (List DiscountRule)
running_rules now [] = ok []
running_rules now (p ∷ ps) =
    let rest = running_rules now ps in
    elim (is_running now p) [ false ↦ rest | true ↦ do r ← rule p; rs ← rest; ok (r ∷ rs) ]

unfoldable pub read_rules : PricingData → ℕ → Result PricingError (List DiscountRule)
unfolding running_rules
read_rules reads now = do promotions ← reads.running_promotions now; running_rules now promotions

-- How often the customer has used the code.
unfoldable pub usage_of : PricingData → Text → Text → Result PricingError ℤ
usage_of reads code customer_id = if is_empty customer_id then ok (pos 0) else do
  customer ← or_fail (parse_id customer_id) (λ _. invalid_id)
  reads.promo_code_usage code customer

unfoldable pub read_promo :
    (Text → Text)
    → PricingData
    → QuoteRequest
    → List CartLine
    → List DiscountRule
    → ℕ
    → Result PricingError (Option PromoCode)
unfolding new_code usage_of
read_promo to_upper reads q lines rules now = if is_empty q.promo_code then ok none else do
  code ← or_fail (new_code to_upper q.promo_code) (λ _. promo_code_not_found)
  promo ← reads.find_promo_code code
  usage ← usage_of reads code q.customer_id
  discounted ← calculate lines rules none
  ensure_usable discounted.total usage now promo
  ok (some promo)

abbrev pub discount_view : AppliedDiscount → DiscountView
discount_view d = record {
  rule_id = d.rule_id;
  kind = d.kind;
  amount = pos d.amount.amount;
  promo_code = d.promo_code;
}

abbrev pub compare_at_of : Option OfferPrice → ℤ
compare_at_of none = pos 0
compare_at_of (some p) = pos p.compare_at.amount

abbrev pub line_view : List OfferPrice → LineBreakdown → LineView
line_view prices l = record {
  sku = l.sku;
  seller_id = l.seller_id;
  product_id = l.product_id;
  quantity = pos l.quantity.value;
  unit_price = pos l.unit_price.amount;
  compare_at = compare_at_of (price_of l.sku prices);
  base = pos l.base.amount;
  discounts = map discount_view l.discounts;
  final = pos l.final.amount;
}

unfoldable pub view : Quote → List OfferPrice → QuoteView
view q prices = record {
  lines = map (line_view prices) q.lines;
  subtotal = pos q.subtotal.amount;
  discount = pos q.discount.amount;
  total = pos q.total.amount;
  currency = q.currency;
  promo_code = q.promo_code;
}

-- `max_lines` is `Policy.MaxQuoteLines`, `now` what the clock says.
unfoldable pub handle :
    (Text → Text) → PricingData → ℤ → ℕ → QuoteRequest → Result PricingError QuoteView
unfolding validate_lines read_lines read_rules read_promo view
handle to_upper reads max_lines now q = do
  skus ← validate_lines max_lines q
  (lines, prices) ← read_lines reads q skus
  rules ← read_rules reads now
  promo ← read_promo to_upper reads q lines rules now
  quote ← calculate lines rules promo
  ok (view quote prices)
