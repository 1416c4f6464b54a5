-- ===== src/Ordering/Tests.antt =====
-- An order and a checkout saga at concrete inputs.
use go_marketplace_backend.Base.{ℕ, ◌≡◌, refl, List, [], ◌∷◌, none, ok, arith}
use go_marketplace_backend.Base.Int.{pos}
use go_marketplace_backend.Base.Text.{text_eq, trim_space, rune_count}
use go_marketplace_backend.Kernel.Money.{Money, kzt, mul_quantity, add, sub, compare, equals}
use go_marketplace_backend.Kernel.Quantity.{new_quantity}
use go_marketplace_backend.Ordering.Status.{created, buyer}
use go_marketplace_backend.Ordering.Types.{Address, Item, Part, PlaceSpec, Order, order_created}
use go_marketplace_backend.Ordering.Address.{new_address, within, drop_formatting, matches_phone}
use go_marketplace_backend.Ordering.Place.{
  place, summary, validate_items, validate_item, check_prices, build_parts, collect_all, collect,
  add_item, must_add, ship, ship_all, add_parts, add_part,
}
use go_marketplace_backend.Ordering.Place.Sums.{IsPriced, place-IsPriced}
use go_marketplace_backend.Ordering.Order.Machine.{OrderCommand, awaits, pays, cancels}
use go_marketplace_backend.Ordering.Order.History.{run, IsRecorded, run_life}

abbrev tenge : ℕ → Money
tenge n = record { amount = n; currency = kzt }

abbrev item : ℕ → ℕ → ℕ → Item
item sku seller final = record {
  sku = sku ∷ [];
  product_id = [];
  category_id = [];
  seller_id = seller ∷ [];
  title = [];
  quantity = pos 2;
  unit_price = tenge 100;
  base = tenge 200;
  final = tenge final;
}

abbrev where_to : Address
where_to = record {
  recipient = b'r' ∷ [];
  phone = b'+' ∷ b'1' ∷ b'2' ∷ b'3' ∷ b'4' ∷ b'5' ∷ b'6' ∷ b'7' ∷ b'8' ∷ b'9' ∷ b'0' ∷ [];
  country = [];
  city = b'c' ∷ [];
  line = b'l' ∷ [];
  postal_code = [];
}

abbrev kept_address : Address
kept_address = record where_to { country = b'K' ∷ b'Z' ∷ [] }

abbrev basket : PlaceSpec
basket = record {
  id = 1 ∷ [];
  buyer_id = 2 ∷ [];
  address = where_to;
  delivery_method = [];
  promo_code = [];
  currency = kzt;
  items = item b'a' 3 180 ∷ item b'b' 4 200 ∷ [];
  shipping =
      record { seller_id = 3 ∷ []; cost = tenge 50 }
      ∷ record { seller_id = 4 ∷ []; cost = tenge 0 }
      ∷ [];
}

abbrev part : ℕ → ℕ → ℕ → ℕ → Part
part seller discount shipping total = record {
  seller_id = seller ∷ [];
  subtotal = tenge 200;
  discount = tenge discount;
  shipping = tenge shipping;
  total = tenge total;
}

abbrev bare_order : Order
bare_order = record {
  id = 1 ∷ [];
  buyer_id = 2 ∷ [];
  status = created;
  address = kept_address;
  delivery_method = [];
  promo_code = [];
  items = basket.items;
  parts = part 3 20 50 230 ∷ part 4 0 0 200 ∷ [];
  subtotal = tenge 400;
  discount = tenge 20;
  shipping = tenge 50;
  total = tenge 430;
  payment_id = [];
  history =
      record {
        from = none;
        to = created;
        actor = record { kind = buyer; id = 2 ∷ [] };
        reason = [];
        at = 9;
      }
      ∷ [];
  created_at = 9;
  updated_at = 9;
  delivered_at = 0;
  version = 0;
  events = [];
}

abbrev placed : Order
placed = record bare_order { events = order_created (summary bare_order) 9 ∷ [] }

-- The country of the address is in capitals already.
basket_places : place (λ s. s) basket 9 ≡ ok placed
unfolding place new_address within drop_formatting matches_phone rune_count trim_space text_eq
    validate_items validate_item check_prices build_parts collect_all collect add_item must_add ship
    ship_all add_parts add_part mul_quantity add sub compare equals new_quantity
basket_places = refl

place-IsPriced_example : IsPriced basket placed
place-IsPriced_example =
    place-IsPriced (λ s. s) basket 9 (omega arith, (omega arith, tt)) basket_places

abbrev life : List (ℕ × OrderCommand)
life =
    (10, awaits (5 ∷ []))
    ∷ (11, pays (tenge 430))
    ∷ (12, cancels (record { kind = buyer; id = 2 ∷ [] }) (b'x' ∷ []))
    ∷ []

run_life_example : IsRecorded (run life placed) × (summary (run life placed) ≡ summary placed)
run_life_example = run_life (λ s. s) basket 9 life basket_places
