-- ===== src/Ordering/Place.antt =====
-- `Place` (internal/ordering/domain/order.go): the checks of the items, the parts of the sellers, the
-- shipping costs and the totals of a new order.
pub mod Parts
pub mod Sums
use go_marketplace_backend.Base.{
  ℕ, suc, Bool, true, false, ◌&&◌, ◌||◌, not, List, [], ◌∷◌, ◌++◌, ltb, ◌==◌, if◌then◌else◌, Option,
  none, some, Result, ok, err, ◌>>=◌, ◌>>◌, fail_if, or_fail, length, any, find,
}
use go_marketplace_backend.Base.Int.{ℤ, pos, pos_part, leb_ℤ}
use go_marketplace_backend.Base.Text.{Text, is_blank, trim_space, text_eq, rune_count}
use go_marketplace_backend.Kernel.Error.{KernelError}
use go_marketplace_backend.Kernel.Identifier.{Ident, id_is_zero}
use go_marketplace_backend.Kernel.Money.{
  Money, Sign, add, sub, mul_quantity, compare, equals, zero_like, is_zero,
}
use go_marketplace_backend.Kernel.Quantity.{Quantity, new_quantity}
use go_marketplace_backend.Ordering.Status.{Status, created, Actor, buyer}
use go_marketplace_backend.Ordering.Types.{
  OrderError, invalid_id, empty_order, too_many_items, invalid_item, invalid_shipping,
  currency_mismatch, panics, Address, Item, ShippingCost, Part, PlaceSpec, Order, Summary,
  OrderEvent, order_created,
}
use go_marketplace_backend.Ordering.Address.{new_address}

abbrev pub max_items : ℕ
max_items = 100

-- `Item.Discount`: the error of `Sub` is dropped, with its zero `Money`.
abbrev pub item_discount : Item → Money
item_discount i = elim (sub i.base i.final) [
  | ok d ↦ d
  | err _ ↦ record { amount = 0; currency = [] }
]

-- `mustAdd`
unfoldable pub must_add : Money → Money → Result OrderError Money
must_add a b = or_fail (add a b) panics

abbrev pub must_quantity : ℤ → Result OrderError Quantity
must_quantity v = or_fail (new_quantity v) panics

-- The prices of one item. An amount of money is never negative.
unfoldable pub check_prices : Item → Result OrderError (Unit {0})
check_prices item = do
  q ← must_quantity item.quantity
  elim (mul_quantity item.unit_price q) [
    | err _ ↦ err invalid_item
    | ok expected ↦
        if not (equals expected item.base) || item.unit_price.amount == 0
        then err invalid_item
        else elim (compare item.final item.base) [ ok Sign.more ↦ err invalid_item | _ ↦ ok tt ]
  ]

-- One round of the loop of `validateItems`; `seen` lists the keys of the map.
unfoldable pub validate_item : List Text → Text → Item → Result OrderError (Unit {0})
unfolding check_prices
validate_item seen currency item = do
  fail_if
      (is_blank item.sku
        || any (text_eq item.sku) seen
        || id_is_zero item.seller_id
        || leb_ℤ item.quantity (pos 0)
        || ltb 500 (rune_count item.title))
      invalid_item
  fail_if
      (not (text_eq item.unit_price.currency currency)
        || not (text_eq item.base.currency currency)
        || not (text_eq item.final.currency currency))
      currency_mismatch
  check_prices item

unfoldable pub validate_items : List Text → Text → List Item → Result OrderError (Unit {0})
validate_items seen currency [] = ok tt
validate_items seen currency (item ∷ items) =
    validate_item seen currency item >> validate_items (item.sku ∷ seen) currency items

-- The three sums at `part := &parts[index]`.
unfoldable pub add_item : Item → Part → Result OrderError Part
unfolding must_add
add_item item part = do
  subtotal ← must_add part.subtotal item.base
  discount ← must_add part.discount (item_discount item)
  total ← must_add part.total item.final
  ok (record part { subtotal = subtotal; discount = discount; total = total })

abbrev pub empty_part : Item → Part
empty_part item = record {
  seller_id = item.seller_id;
  subtotal = zero_like item.base;
  discount = zero_like item.base;
  shipping = zero_like item.base;
  total = zero_like item.base;
}

-- The item goes to the part of its seller, which is appended when there is none.
unfoldable pub collect : Item → List Part → Result OrderError (List Part)
collect item [] = do part ← add_item item (empty_part item); ok (part ∷ [])
collect item (p ∷ parts) = elim (text_eq p.seller_id item.seller_id) [
  | true ↦ do part ← add_item item p; ok (part ∷ parts)
  | false ↦ do rest ← collect item parts; ok (p ∷ rest)
]

unfoldable pub collect_all : List Item → List Part → Result OrderError (List Part)
collect_all [] parts = ok parts
collect_all (item ∷ items) parts = do next ← collect item parts; collect_all items next

-- One shipping cost, at the part of its seller. The currency is tested after the part.
unfoldable pub ship : ShippingCost → Text → List Part → Result OrderError (List Part)
unfolding must_add
ship c currency [] = err invalid_shipping
ship c currency (p ∷ parts) = elim (text_eq p.seller_id c.seller_id) [
  | true ↦ do
    fail_if (not (is_zero p.shipping)) invalid_shipping
    fail_if (not (text_eq c.cost.currency currency)) currency_mismatch
    total ← must_add p.total c.cost
    ok (record p { shipping = c.cost; total = total } ∷ parts)
  | false ↦ do rest ← ship c currency parts; ok (p ∷ rest)
]

unfoldable pub ship_all : List ShippingCost → Text → List Part → Result OrderError (List Part)
ship_all [] currency parts = ok parts
ship_all (c ∷ costs) currency parts = do next ← ship c currency parts; ship_all costs currency next

unfoldable pub build_parts : List Item → List ShippingCost → Text → Result OrderError (List Part)
build_parts items shipping currency = do
  parts ← collect_all items []
  fail_if (not (length shipping == length parts)) invalid_shipping
  ship_all shipping currency parts

-- The four totals of the order over its parts.
pub record Totals : Type 0 where
  pub subtotal : Money
  pub discount : Money
  pub shipping : Money
  pub total : Money

unfoldable pub add_part : Totals → Part → Result OrderError Totals
unfolding must_add
add_part t p = do
  subtotal ← must_add t.subtotal p.subtotal
  discount ← must_add t.discount p.discount
  shipping ← must_add t.shipping p.shipping
  total ← must_add t.total p.total
  ok (record { subtotal = subtotal; discount = discount; shipping = shipping; total = total })

unfoldable pub add_parts : Totals → List Part → Result OrderError Totals
add_parts t [] = ok t
add_parts t (p ∷ parts) = do next ← add_part t p; add_parts next parts

abbrev pub summary : Order → Summary
summary o = record {
  order_id = o.id;
  buyer_id = o.buyer_id;
  currency = o.total.currency;
  subtotal = o.subtotal;
  discount = o.discount;
  shipping = o.shipping;
  total = o.total;
  promo_code = o.promo_code;
  items = o.items;
  parts = o.parts;
}

abbrev pub zero_totals : List Item → Totals
zero_totals [] =
    let z : Money = record { amount = 0; currency = [] } in
    record { subtotal = z; discount = z; shipping = z; total = z }
zero_totals (item ∷ _) =
    let z = zero_like item.base in record { subtotal = z; discount = z; shipping = z; total = z }

abbrev pub new_order : PlaceSpec → Address → List Part → Totals → ℕ → Order
new_order spec address parts t now = record {
  id = spec.id;
  buyer_id = spec.buyer_id;
  status = created;
  address = address;
  delivery_method = trim_space spec.delivery_method;
  promo_code = spec.promo_code;
  items = spec.items;
  parts = parts;
  subtotal = t.subtotal;
  discount = t.discount;
  shipping = t.shipping;
  total = t.total;
  payment_id = [];
  history =
      record {
        from = none;
        to = created;
        actor = record { kind = buyer; id = spec.buyer_id };
        reason = [];
        at = now;
      }
      ∷ [];
  created_at = now;
  updated_at = now;
  delivered_at = 0;
  version = 0;
  events = [];
}

unfoldable pub place : (Text → Text) → PlaceSpec → ℕ → Result OrderError Order
place to_upper spec now = do
  fail_if (id_is_zero spec.id || id_is_zero spec.buyer_id) invalid_id
  fail_if (length spec.items == 0) empty_order
  fail_if (ltb max_items (length spec.items)) too_many_items
  address ← new_address to_upper spec.address
  validate_items [] spec.currency spec.items
  parts ← build_parts spec.items spec.shipping spec.currency
  t ← add_parts (zero_totals spec.items) parts
  let o = new_order spec address parts t now
  ok (record o { events = order_created (summary o) now ∷ [] })
