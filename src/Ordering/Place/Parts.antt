-- ===== src/Ordering/Place/Parts.antt =====
-- The parts of an order: each item, and each shipping cost, is counted once.
use go_marketplace_backend.Base.{
  sum_of, ℕ, ◌+◌, ◌≡◌, List, [], ◌∷◌, ok, arith, >>=-eq-ok, or_fail-eq-ok, Bool-cases, inl, inr,
  All, fail_if, not,
}
use go_marketplace_backend.Base.Text.{Text, text_eq}
use go_marketplace_backend.Kernel.Money.{Money, add, is_zero}
use go_marketplace_backend.Kernel.Money.Laws.{IsMoney, add-eq-ok}
use go_marketplace_backend.Ordering.Types.{
  invalid_shipping, currency_mismatch, panics, Item, ShippingCost, Part,
}
use go_marketplace_backend.Ordering.Place.{
  item_discount, must_add, add_item, empty_part, collect, collect_all, ship, ship_all,
}

pub must_add-eq-ok :
    (a b : Money) {r : Money}
    → must_add a b ≡ ok r
    → IsMoney a
    → (r.amount ≡ a.amount + b.amount) × IsMoney r
unfolding must_add
must_add-eq-ok a b e v =
    let (amount, currency, other, fits) = add-eq-ok a b (or_fail-eq-ok (add a b) panics e) v in
    (amount, fits)

pub record IsPart (p : Part) : Type 0 where
  pub subtotal_fits : IsMoney p.subtotal
  pub discount_fits : IsMoney p.discount
  pub shipping_fits : IsMoney p.shipping
  pub total_fits : IsMoney p.total

abbrev pub part_subtotal : Part → ℕ
part_subtotal p = p.subtotal.amount

abbrev pub part_discount : Part → ℕ
part_discount p = p.discount.amount

abbrev pub part_shipping : Part → ℕ
part_shipping p = p.shipping.amount

abbrev pub part_total : Part → ℕ
part_total p = p.total.amount

abbrev pub item_base : Item → ℕ
item_base i = i.base.amount

abbrev pub item_final : Item → ℕ
item_final i = i.final.amount

abbrev pub item_off : Item → ℕ
item_off i = (item_discount i).amount

abbrev pub cost_amount : ShippingCost → ℕ
cost_amount c = c.cost.amount

pub add_item-eq-ok :
    (item : Item) (part : Part) {r : Part}
    → add_item item part ≡ ok r
    → IsPart part
    → (part_subtotal r ≡ part_subtotal part + item_base item)
      × (part_discount r ≡ part_discount part + item_off item)
      × (part_total r ≡ part_total part + item_final item)
      × (r.shipping ≡ part.shipping)
      × IsPart r
unfolding add_item
add_item-eq-ok item part e v =
    let (s, es, e') = >>=-eq-ok (must_add part.subtotal item.base) _ e in
    let (d, ed, e'') = >>=-eq-ok (must_add part.discount (item_discount item)) _ e' in
    let (t, et, e''') = >>=-eq-ok (must_add part.total item.final) _ e'' in
    ground (
      arith,
      must_add-eq-ok part.subtotal item.base es v.subtotal_fits,
      must_add-eq-ok part.discount (item_discount item) ed v.discount_fits,
      must_add-eq-ok part.total item.final et v.total_fits,
      e''',
    )

-- The parts after an item is counted.
pub record Counted (item : Item) (parts next : List Part) : Type 0 where
  pub subtotals : sum_of part_subtotal next ≡ sum_of part_subtotal parts + item_base item
  pub discounts : sum_of part_discount next ≡ sum_of part_discount parts + item_off item
  pub totals : sum_of part_total next ≡ sum_of part_total parts + item_final item
  pub shippings : sum_of part_shipping next ≡ sum_of part_shipping parts
  pub parts_fit : All IsPart next

pub collect-Counted :
    (item : Item) (parts : List Part) {next : List Part}
    → collect item parts ≡ ok next
    → All IsPart parts
    → Counted item parts next
unfolding collect
collect-Counted item [] e v =
    let (r, er, e') = >>=-eq-ok (add_item item (empty_part item)) _ e in
    ground (arith, add_item-eq-ok item (empty_part item) er (omega arith), e')
collect-Counted item (p ∷ parts) e v = elim (Bool-cases (text_eq p.seller_id item.seller_id)) [
  | inl own ↦
      let (r, er, e') = >>=-eq-ok (add_item item p) _ (rw (own, collect) at e) in
      ground (arith, add_item-eq-ok item p er v.0, e')
  | inr other ↦
      let (rest, er, e') = >>=-eq-ok (collect item parts) _ (rw (other, collect) at e) in
      ground (arith, collect-Counted item parts er v.1, e')
]

-- The parts after all items are counted.
pub record CountedAll (items : List Item) (parts next : List Part) : Type 0 where
  pub subtotals : sum_of part_subtotal next ≡ sum_of part_subtotal parts + sum_of item_base items
  pub discounts : sum_of part_discount next ≡ sum_of part_discount parts + sum_of item_off items
  pub totals : sum_of part_total next ≡ sum_of part_total parts + sum_of item_final items
  pub shippings : sum_of part_shipping next ≡ sum_of part_shipping parts
  pub parts_fit : All IsPart next

pub collect_all-CountedAll :
    (items : List Item) (parts : List Part) {next : List Part}
    → collect_all items parts ≡ ok next
    → All IsPart parts
    → CountedAll items parts next
unfolding collect_all
collect_all-CountedAll [] parts e v = ground (arith, v)
collect_all-CountedAll (item ∷ items) parts e v =
    let (mid, em, e') = >>=-eq-ok (collect item parts) _ e in
    let first = collect-Counted item parts em v in
    let rest = collect_all-CountedAll items mid e' first.parts_fit in
    record {
      subtotals = omega (arith, first, rest);
      discounts = omega (arith, first, rest);
      totals = omega (arith, first, rest);
      shippings = omega (arith, first, rest);
      parts_fit = rest.parts_fit;
    }

-- The parts after the shipping costs are set.
pub record Shipped (costs : List ShippingCost) (parts next : List Part) : Type 0 where
  pub subtotals : sum_of part_subtotal next ≡ sum_of part_subtotal parts
  pub discounts : sum_of part_discount next ≡ sum_of part_discount parts
  pub totals : sum_of part_total next ≡ sum_of part_total parts + sum_of cost_amount costs
  pub shippings : sum_of part_shipping next ≡ sum_of part_shipping parts + sum_of cost_amount costs
  pub parts_fit : All IsPart next

ship-Shipped :
    (c : ShippingCost) (currency : Text) (parts : List Part) {next : List Part}
    → IsMoney c.cost
    → ship c currency parts ≡ ok next
    → All IsPart parts
    → Shipped (c ∷ []) parts next
unfolding ship
ship-Shipped c currency [] b e v = cc
ship-Shipped c currency (p ∷ parts) b e v = elim (Bool-cases (text_eq p.seller_id c.seller_id)) [
  | inl own ↦
      let (u, free, e') =
        >>=-eq-ok (fail_if (not (is_zero p.shipping)) invalid_shipping) _ (rw (own, ship) at e) in
      let (u', in_currency, e'') =
        >>=-eq-ok (fail_if (not (text_eq c.cost.currency currency)) currency_mismatch) _ e' in
      let (t, et, e''') = >>=-eq-ok (must_add p.total c.cost) _ e'' in
      ground (arith, free, must_add-eq-ok p.total c.cost et v.0.total_fits, e''')
  | inr other ↦
      let (rest, er, e') = >>=-eq-ok (ship c currency parts) _ (rw (other, ship) at e) in
      ground (arith, ship-Shipped c currency parts b er v.1, e')
]

pub ship_all-Shipped :
    (costs : List ShippingCost) (currency : Text) (parts : List Part) {next : List Part}
    → All (λ c. IsMoney c.cost) costs
    → ship_all costs currency parts ≡ ok next
    → All IsPart parts
    → Shipped costs parts next
unfolding ship_all
ship_all-Shipped [] currency parts b e v = ground (arith, v)
ship_all-Shipped (c ∷ costs) currency parts b e v =
    let (mid, em, e') = >>=-eq-ok (ship c currency parts) _ e in
    let first = ship-Shipped c currency parts b.0 em v in
    let rest = ship_all-Shipped costs currency mid b.1 e' first.parts_fit in
    record {
      subtotals = omega (arith, first, rest);
      discounts = omega (arith, first, rest);
      totals = omega (arith, first, rest);
      shippings = omega (arith, first, rest);
      parts_fit = rest.parts_fit;
    }
