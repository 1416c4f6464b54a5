-- ===== src/Ordering/Place/Sums.antt =====
-- The totals of a placed order are the exact sums over its items and its shipping costs.
use go_marketplace_backend.Base.{
  sum_of, ℕ, ◌+◌, ◌≡◌, List, [], ◌∷◌, ok, arith, >>=-eq-ok, All, length, fail_if, ok-injective,
  subst, ◌==◌, any, not, ◌||◌, ltb,
}
use go_marketplace_backend.Base.Int.{pos, leb_ℤ}
use go_marketplace_backend.Base.Text.{Text, text_eq, text_eq_iff, is_blank, rune_count}
use go_marketplace_backend.Kernel.Identifier.{id_is_zero}
use go_marketplace_backend.Kernel.Money.{sub}
use go_marketplace_backend.Kernel.Money.Laws.{IsMoney, compare_cases}
use go_marketplace_backend.Ordering.Types.{
  invalid_id, empty_order, too_many_items, invalid_shipping, invalid_item, currency_mismatch, Item,
  ShippingCost, Part, PlaceSpec, Order, Address, OrderEvent,
}
use go_marketplace_backend.Ordering.Address.{new_address}
use go_marketplace_backend.Ordering.Place.{
  max_items, Totals, must_add, must_quantity, check_prices, validate_item, validate_items,
  collect_all, build_parts, add_part, add_parts, zero_totals, new_order, place,
}
use go_marketplace_backend.Ordering.Place.Parts.{
  must_add-eq-ok, part_subtotal, part_discount, part_shipping, part_total, item_base, item_final,
  item_off, cost_amount, collect_all-CountedAll, ship_all-Shipped,
}

record IsTotals (t : Totals) : Type 0 where
  subtotal_fits : IsMoney t.subtotal
  discount_fits : IsMoney t.discount
  shipping_fits : IsMoney t.shipping
  total_fits : IsMoney t.total

record Added (t : Totals) (parts : List Part) (r : Totals) : Type 0 where
  subtotals : r.subtotal.amount ≡ t.subtotal.amount + sum_of part_subtotal parts
  discounts : r.discount.amount ≡ t.discount.amount + sum_of part_discount parts
  shippings : r.shipping.amount ≡ t.shipping.amount + sum_of part_shipping parts
  totals : r.total.amount ≡ t.total.amount + sum_of part_total parts

add_part-eq-ok :
    (t : Totals) (p : Part) {r : Totals}
    → IsTotals t
    → add_part t p ≡ ok r
    → Added t (p ∷ []) r × IsTotals r
unfolding add_part
add_part-eq-ok t p v e =
    let (s, es, e1) = >>=-eq-ok (must_add t.subtotal p.subtotal) _ e in
    let (d, ed, e2) = >>=-eq-ok (must_add t.discount p.discount) _ e1 in
    let (h, eh, e3) = >>=-eq-ok (must_add t.shipping p.shipping) _ e2 in
    let (u, eu, e4) = >>=-eq-ok (must_add t.total p.total) _ e3 in
    ground (
      arith,
      must_add-eq-ok t.subtotal p.subtotal es v.subtotal_fits,
      must_add-eq-ok t.discount p.discount ed v.discount_fits,
      must_add-eq-ok t.shipping p.shipping eh v.shipping_fits,
      must_add-eq-ok t.total p.total eu v.total_fits,
      e4,
    )

add_parts-Added :
    (t : Totals) (parts : List Part) {r : Totals}
    → IsTotals t
    → add_parts t parts ≡ ok r
    → Added t parts r
unfolding add_parts
add_parts-Added t [] v e = ground arith
add_parts-Added t (p ∷ parts) v e =
    let (mid, em, e') = >>=-eq-ok (add_part t p) _ e in
    let (first, fits) = add_part-eq-ok t p v em in
    let rest = add_parts-Added mid parts fits e' in omega (arith, first, rest)

-- An item that passed the checks is discounted by what its price exceeds its final price.
validate_item-discount :
    (seen : List Text) (currency : Text) (item : Item) {u : Unit {0}}
    → validate_item seen currency item ≡ ok u
    → item_off item + item_final item ≡ item_base item
unfolding validate_item check_prices sub
validate_item-discount seen currency item e =
    let (_, _, e1) =
      >>=-eq-ok
        (fail_if
          (is_blank item.sku
            || any (text_eq item.sku) seen
            || id_is_zero item.seller_id
            || leb_ℤ item.quantity (pos 0)
            || ltb 500 (rune_count item.title))
          invalid_item)
        _ e in
    let (_, same, e2) =
      >>=-eq-ok
        (fail_if
          (not (text_eq item.unit_price.currency currency)
            || not (text_eq item.base.currency currency)
            || not (text_eq item.final.currency currency))
          currency_mismatch)
        _ e1 in
    let (q, eq, e3) = >>=-eq-ok (must_quantity item.quantity) _ e2 in
    ground (
      arith,
      same,
      e3,
      compare_cases item.final item.base,
      text_eq_iff item.base.currency item.final.currency,
      text_eq_iff item.base.currency currency,
      text_eq_iff item.final.currency currency,
    )

validate_items-discounts :
    (seen : List Text) (currency : Text) (items : List Item) {u : Unit {0}}
    → validate_items seen currency items ≡ ok u
    → sum_of item_off items + sum_of item_final items ≡ sum_of item_base items
unfolding validate_items
validate_items-discounts seen currency [] e = omega arith
validate_items-discounts seen currency (item ∷ items) e =
    let (_, one, e') = >>=-eq-ok (validate_item seen currency item) _ e in
    omega (
      arith,
      validate_item-discount seen currency item one,
      validate_items-discounts (item.sku ∷ seen) currency items e',
    )

-- The totals of an order against its items and its shipping costs.
pub record IsPriced (spec : PlaceSpec) (o : Order) : Type 0 where
  pub subtotal_exact : o.subtotal.amount ≡ sum_of item_base spec.items
  pub discount_exact : o.discount.amount + sum_of item_final spec.items ≡ o.subtotal.amount
  pub shipping_exact : o.shipping.amount ≡ sum_of cost_amount spec.shipping
  pub total_exact : o.total.amount + o.discount.amount ≡ o.subtotal.amount + o.shipping.amount
  pub parts_exact : o.total.amount ≡ sum_of part_total o.parts

build_parts-sums :
    (items : List Item) (costs : List ShippingCost) (currency : Text) {parts : List Part}
    → All (λ c. IsMoney c.cost) costs
    → build_parts items costs currency ≡ ok parts
    → (sum_of part_subtotal parts ≡ sum_of item_base items)
      × (sum_of part_discount parts ≡ sum_of item_off items)
      × (sum_of part_shipping parts ≡ sum_of cost_amount costs)
      × (sum_of part_total parts ≡ sum_of item_final items + sum_of cost_amount costs)
unfolding build_parts
build_parts-sums items costs currency b e =
    let (mid, em, e1) = >>=-eq-ok (collect_all items []) _ e in
    let (_, _, e2) = >>=-eq-ok (fail_if (not (length costs == length mid)) invalid_shipping) _ e1 in
    let counted = collect_all-CountedAll items [] em tt in
    let shipped = ship_all-Shipped costs currency mid b e2 counted.parts_fit in
    omega (arith, counted, shipped)

zero_totals-IsTotals : (items : List Item) → IsTotals (zero_totals items)
zero_totals-IsTotals [] = omega arith
zero_totals-IsTotals (_ ∷ _) = omega arith

zero_totals-Added :
    (items : List Item) (parts : List Part) (r : Totals)
    → Added (zero_totals items) parts r
    → (r.subtotal.amount ≡ sum_of part_subtotal parts)
      × (r.discount.amount ≡ sum_of part_discount parts)
      × (r.shipping.amount ≡ sum_of part_shipping parts)
      × (r.total.amount ≡ sum_of part_total parts)
zero_totals-Added [] parts r a = omega arith
zero_totals-Added (_ ∷ _) parts r a = omega arith

priced :
    (spec : PlaceSpec) (address : Address) (parts : List Part) (t : Totals) (now : ℕ)
    (events : List OrderEvent)
    → sum_of item_off spec.items + sum_of item_final spec.items ≡ sum_of item_base spec.items
    → (sum_of part_subtotal parts ≡ sum_of item_base spec.items)
      × (sum_of part_discount parts ≡ sum_of item_off spec.items)
      × (sum_of part_shipping parts ≡ sum_of cost_amount spec.shipping)
      × (sum_of part_total parts ≡ sum_of item_final spec.items + sum_of cost_amount spec.shipping)
    → (t.subtotal.amount ≡ sum_of part_subtotal parts)
      × (t.discount.amount ≡ sum_of part_discount parts)
      × (t.shipping.amount ≡ sum_of part_shipping parts)
      × (t.total.amount ≡ sum_of part_total parts)
    → IsPriced spec (record (new_order spec address parts t now) { events = events })
priced spec address parts t now events d p s = record {
  subtotal_exact = omega arith;
  discount_exact = omega arith;
  shipping_exact = omega arith;
  total_exact = omega arith;
  parts_exact = omega arith;
}

-- What an order that is placed is made of.
pub place-eq-ok :
    (to_upper : Text → Text) (spec : PlaceSpec) (now : ℕ) {o : Order}
    → place to_upper spec now ≡ ok o
    → (address : Address) × (parts : List Part) × (t : Totals) × (events : List OrderEvent)
      × (validate_items [] spec.currency spec.items ≡ ok tt)
      × (build_parts spec.items spec.shipping spec.currency ≡ ok parts)
      × (add_parts (zero_totals spec.items) parts ≡ ok t)
      × (record (new_order spec address parts t now) { events = events } ≡ o)
unfolding place
place-eq-ok to_upper spec now e =
    let (_, _, e1) =
      >>=-eq-ok (fail_if (id_is_zero spec.id || id_is_zero spec.buyer_id) invalid_id) _ e in
    let (_, _, e2) = >>=-eq-ok (fail_if (length spec.items == 0) empty_order) _ e1 in
    let (_, _, e3) = >>=-eq-ok (fail_if (ltb max_items (length spec.items)) too_many_items) _ e2 in
    let (address, _, e4) = >>=-eq-ok (new_address to_upper spec.address) _ e3 in
    let (_, valid, e5) = >>=-eq-ok (validate_items [] spec.currency spec.items) _ e4 in
    let (parts, built, e6) = >>=-eq-ok (build_parts spec.items spec.shipping spec.currency) _ e5 in
    let (t, added, e7) = >>=-eq-ok (add_parts (zero_totals spec.items) parts) _ e6 in
    (address, parts, t, _, valid, built, added, ok-injective e7)

-- An order that is placed is priced exactly: its subtotal is the sum of the items' base prices, its
-- discount what those exceed the final prices by, its shipping the sum of the shipping costs, and its
-- total is the subtotal less the discount plus the shipping, which is also the sum over the parts of
-- the sellers. No sum overflows.
pub place-IsPriced :
    (to_upper : Text → Text) (spec : PlaceSpec) (now : ℕ) {o : Order}
    → All (λ c. IsMoney c.cost) spec.shipping
    → place to_upper spec now ≡ ok o
    → IsPriced spec o
place-IsPriced to_upper spec now b e =
    let (address, parts, t, events, valid, built, added, made) = place-eq-ok to_upper spec now e in
    subst (IsPriced spec) made (
      priced spec address parts t now events
        (validate_items-discounts [] spec.currency spec.items valid)
        (build_parts-sums spec.items spec.shipping spec.currency b built)
        (zero_totals-Added spec.items parts t
          (add_parts-Added (zero_totals spec.items) parts (zero_totals-IsTotals spec.items) added)))
