-- ===== src/Ordering/Draft/Tests.antt =====
-- A draft at concrete inputs: two units of one offer at 300, a tenth off by a running promotion, and a
-- shipping fee of 50.
use go_marketplace_backend.Base.{ℕ, ◌≡◌, refl, true, false, [], ◌∷◌, none, some, ok, err, arith}
use go_marketplace_backend.Base.Int.{pos, add64}
use go_marketplace_backend.Base.Text.{Text, text_eq, trim_space, rune_count, matches_class}
use go_marketplace_backend.Kernel.Identifier.{
  parse_id, normalize_uuid, normalize_from, normal_byte, nil_uuid,
}
use go_marketplace_backend.Kernel.Quantity.{new_quantity}
use go_marketplace_backend.Kernel.Money.{
  Money, kzt, new_money, new_currency, new_basis_points, apply_percent, zero_money, add, sub,
  mul_quantity, compare, equals,
}
use go_marketplace_backend.Pricing.Types.{percentage, port_failed}
use go_marketplace_backend.Pricing.Promo.{validate}
use go_marketplace_backend.Pricing.Rules.{new_rule, matches, is_applicable, rule_discount, kind_of}
use go_marketplace_backend.Pricing.Promotion.{Promotion, active, is_running, rule}
use go_marketplace_backend.Pricing.Offer.{OfferPrice, no_money, line_of}
use go_marketplace_backend.Pricing.Calculator.{
  calculate, price_lines, price_line, applicable, select_rules, sort_rules, insert_rule,
  apply_rules, apply_promo,
}
use go_marketplace_backend.Pricing.Quotes.{
  QuoteView, PricingData, handle, validate_lines, distinct_skus, new_sku, read_lines, cart_lines,
  price_of, category_ids, read_rules, running_rules, read_promo, view,
}
use go_marketplace_backend.Shipping.{Settings, tariff_quote, add_costs, standard}
use go_marketplace_backend.Ordering.Status.{created, buyer}
use go_marketplace_backend.Ordering.Types.{Address, Item, Order, order_created}
use go_marketplace_backend.Ordering.Address.{new_address, within, drop_formatting, matches_phone}
use go_marketplace_backend.Ordering.Place.{
  place, summary, validate_items, validate_item, check_prices, build_parts, collect_all, collect,
  add_item, must_add, ship, ship_all, add_parts, add_part,
}
use go_marketplace_backend.Ordering.Draft.{
  Checkout, OfferSummary, Draft, Ports, draft_order, unavailable, price, price_items, price_item,
  add_total, add_promo, shipping_costs, quote_request,
}
use go_marketplace_backend.Ordering.Draft.Totals.{IsCharged, draft_order-place}

abbrev pub seller : Text
seller =
    b'0' ∷ b'0' ∷ b'0' ∷ b'0' ∷ b'0' ∷ b'0' ∷ b'0' ∷ b'0' ∷ b'-' ∷ b'0' ∷ b'0' ∷ b'0' ∷ b'0' ∷ b'-'
    ∷ b'0' ∷ b'0' ∷ b'0' ∷ b'0' ∷ b'-' ∷ b'0' ∷ b'0' ∷ b'0' ∷ b'0' ∷ b'-' ∷ b'0' ∷ b'0' ∷ b'0'
    ∷ b'0' ∷ b'0' ∷ b'0' ∷ b'0' ∷ b'0' ∷ b'0' ∷ b'0' ∷ b'0' ∷ b'a' ∷ []

abbrev pub tenge : ℕ → Money
tenge n = record { amount = n; currency = kzt }

abbrev tea_price : OfferPrice
tea_price = record {
  sku = b'T' ∷ [];
  product_id = b'p' ∷ [];
  seller_id = seller;
  price = tenge 300;
  compare_at = no_money;
  active = true;
  updated_at = 1;
  version = 0;
  events = [];
}

abbrev tenth_off_tea : Promotion
tenth_off_tea = record {
  id = b'r' ∷ [];
  name = b'A' ∷ [];
  spec = record {
    kind = percentage;
    basis_points = pos 1000;
    amount = pos 0;
    currency = [];
    buy_quantity = pos 0;
    free_units = pos 0;
  };
  target = record { skus = (b'T' ∷ []) ∷ []; sellers = []; categories = [] };
  priority = pos 1;
  exclusive = false;
  starts_at = 0;
  ends_at = 0;
  status = active;
  created_at = 1;
  updated_at = 1;
  version = 0;
  events = [];
}

abbrev pub stored : PricingData
stored = record {
  prices = λ _. ok (tea_price ∷ []);
  category_paths = λ _. ok (λ _. []);
  running_promotions = λ _. ok (tenth_off_tea ∷ []);
  find_promo_code = λ _. err (port_failed []);
  promo_code_usage = λ _ _. err (port_failed []);
}

abbrev two_teas : Checkout
two_teas = record { promo_code = []; items = record { sku = b'T' ∷ []; quantity = pos 2 } ∷ [] }

abbrev tea : OfferSummary
tea = record {
  title = b't' ∷ [];
  category_id = [];
  status = b'a' ∷ b'c' ∷ b't' ∷ b'i' ∷ b'v' ∷ b'e' ∷ [];
  product_published = true;
}

abbrev pub doors : Ports
doors = record { checkout = λ _. ok two_teas; offers = λ _. ok (λ _. some tea); order_id = 1 ∷ [] }

abbrev pub rates : Settings
rates = record { fee = pos 50; free_from = pos 1000 }

abbrev pub where_to : Address
where_to = record {
  recipient = b'r' ∷ [];
  phone = b'+' ∷ b'1' ∷ b'2' ∷ b'3' ∷ b'4' ∷ b'5' ∷ b'6' ∷ b'7' ∷ b'8' ∷ b'9' ∷ b'0' ∷ [];
  country = b'K' ∷ b'Z' ∷ [];
  city = b'c' ∷ [];
  line = b'l' ∷ [];
  postal_code = [];
}

abbrev teas : Item
teas = record {
  sku = b'T' ∷ [];
  product_id = b'p' ∷ [];
  category_id = [];
  seller_id = seller;
  title = b't' ∷ [];
  quantity = pos 2;
  unit_price = tenge 300;
  base = tenge 600;
  final = tenge 540;
}

abbrev drafted : Draft
drafted = record {
  spec = record {
    id = 1 ∷ [];
    buyer_id = 2 ∷ [];
    address = where_to;
    delivery_method = standard;
    promo_code = [];
    currency = kzt;
    items = teas ∷ [];
    shipping = record { seller_id = seller; cost = tenge 50 } ∷ [];
  };
  lines = record { sku = b'T' ∷ []; quantity = pos 2 } ∷ [];
  skus = (b'T' ∷ []) ∷ [];
  promo_basis = pos 540;
}

abbrev bare_order : Order
bare_order = record {
  id = 1 ∷ [];
  buyer_id = 2 ∷ [];
  status = created;
  address = where_to;
  delivery_method = standard;
  promo_code = [];
  items = teas ∷ [];
  parts =
      record {
        seller_id = seller;
        subtotal = tenge 600;
        discount = tenge 60;
        shipping = tenge 50;
        total = tenge 590;
      }
      ∷ [];
  subtotal = tenge 600;
  discount = tenge 60;
  shipping = tenge 50;
  total = tenge 590;
  payment_id = [];
  history =
      record {
        from = none;
        to = created;
        actor = record { kind = buyer; id = 2 ∷ [] };
        reason = [];
        at = 9;
      }
      ∷ [];
  created_at = 9;
  updated_at = 9;
  delivered_at = 0;
  version = 0;
  events = [];
}

abbrev pub placed : Order
placed = record bare_order { events = order_created (summary bare_order) 9 ∷ [] }

drafts :
    draft_order doors (handle (λ s. s) stored (pos 100) 8) (tariff_quote rates) (2 ∷ []) where_to []
    ≡ ok drafted
unfolding draft_order handle validate_lines distinct_skus new_sku trim_space text_eq matches_class
    read_lines cart_lines price_of category_ids new_quantity line_of read_rules running_rules
    is_running rule new_rule validate new_basis_points read_promo calculate zero_money new_money
    new_currency price_lines price_line mul_quantity applicable select_rules sort_rules insert_rule
    is_applicable matches apply_rules rule_discount apply_percent sub add kind_of apply_promo view
    unavailable price price_items price_item parse_id normalize_uuid normalize_from normal_byte
    add_total add_promo add64 tariff_quote add_costs shipping_costs nil_uuid
drafts = refl

places : place (λ s. s) drafted.spec 9 ≡ ok placed
unfolding place new_address within drop_formatting matches_phone rune_count trim_space text_eq
    validate_items validate_item check_prices build_parts collect_all collect add_item must_add ship
    ship_all add_parts add_part mul_quantity add sub compare equals new_quantity
places = refl

draft_order-place_example :
    (checkout : Checkout) × (v : QuoteView) × (doors.checkout (2 ∷ []) ≡ ok checkout)
    × (handle (λ s. s) stored (pos 100) 8 (quote_request (2 ∷ []) checkout) ≡ ok v)
    × IsCharged v placed
draft_order-place_example =
    draft_order-place (λ s. s) stored (pos 100) 8 rates doors (2 ∷ []) where_to [] 9 (omega arith)
      drafts places
