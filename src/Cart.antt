-- ===== src/Cart.antt =====
-- The methods of a cart (internal/cart/domain/cart.go). A method gives the cart that it leaves behind, also
-- when it returns an error. `limits` and `to_upper` are arguments as in the source and in Cart.Owners.
pub mod Types
pub mod Owners
pub mod Items
pub mod Writes
pub mod Absorb
pub mod Currency
pub mod Life
mod Overflow
mod Tests
use go_marketplace_backend.Base.{
  ℕ, ◌+◌, Bool, true, false, ◌&&◌, ◌||◌, not, List, [], ◌∷◌, ◌++◌, leb, ltb, ◌==◌, if◌then◌else◌,
  Option, none, some, Result, ok, err, Outcome, then_do, length, any, find, update_first, fail_if,
  ◌>>=◌, ◌>>◌,
}
use go_marketplace_backend.Base.Int.{ℤ, pos, ltb_ℤ, leb_ℤ, add64, min_ℤ, max_ℤ}
use go_marketplace_backend.Base.Text.{Text, is_empty, text_eq}
use go_marketplace_backend.Kernel.Identifier.{Ident, id_is_zero}
use go_marketplace_backend.Cart.Types.{
  Owner, Limits, Item, Offer, Cart, CartError, invalid_id, invalid_quantity, invalid_price,
  item_not_found, too_many_items, exceeds_stock, offer_unavailable, currency_mismatch, same_owner,
}
use go_marketplace_backend.Cart.Owners.{
  is_anonymous, owner_is_zero, same_owner_as, normalize_sku, normalize_promo_code,
}

abbrev pub touch : Limits → ℕ → Cart → Cart
touch limits now c = record c {
  updated_at = now;
  expires_at = if is_anonymous c.owner then now + limits.anonymous_ttl else c.expires_at;
}

unfoldable pub new_cart : Ident → Owner → Limits → ℕ → Result CartError Cart
new_cart id owner limits now =
    if id_is_zero id || owner_is_zero owner
    then err invalid_id
    else ok (
        touch limits now (record {
          id = id;
          owner = owner;
          currency = [];
          items = [];
          promo_code = [];
          created_at = now;
          updated_at = 0;
          expires_at = 0;
          version = 0;
        }))

abbrev pub has_sku : Text → Item → Bool
has_sku sku i = text_eq i.sku sku

unfoldable pub accept : Offer → Cart → Result CartError (Unit {0})
accept offer c = do
  _ ← normalize_sku offer.sku
  fail_if (leb_ℤ offer.price (pos 0)) invalid_price
  fail_if
      (not (is_empty c.currency)
        && not (length c.items == 0)
        && not (text_eq offer.currency c.currency))
      currency_mismatch

unfoldable pub check_quantity : ℤ → ℤ → ℤ → Limits → Result CartError (Unit {0})
check_quantity requested total available limits = do
  fail_if (leb_ℤ requested (pos 0) || ltb_ℤ limits.max_quantity total) invalid_quantity
  fail_if (leb_ℤ available (pos 0)) offer_unavailable
  fail_if (ltb_ℤ available total) exceeds_stock

-- The writes through `&c.items[index]`.
abbrev pub requoted : Offer → ℤ → ℕ → Item → Item
requoted offer quantity now i = record i {
  quantity = quantity;
  price = offer.price;
  seller_id = offer.seller_id;
  updated_at = now;
}

abbrev pub fresh_item : Offer → ℤ → ℕ → Item
fresh_item offer quantity now = record {
  sku = offer.sku;
  seller_id = offer.seller_id;
  quantity = quantity;
  price = offer.price;
  added_at = now;
  updated_at = now;
}

unfoldable pub add : Offer → ℤ → ℤ → Limits → ℕ → Cart → Outcome Cart CartError
unfolding accept check_quantity
add offer quantity available limits now c = then_do c (accept offer c) (λ _.
    elim (find (has_sku offer.sku) c.items) [
      | some item ↦
          let total = add64 quantity item.quantity in
          then_do c (check_quantity quantity total available limits) (λ _. (
            touch limits now (record c {
              items = update_first (has_sku offer.sku) (requoted offer total now) c.items;
              currency = offer.currency;
            }),
            none,
          ))
      | none ↦
          if leb_ℤ limits.max_items (pos (length c.items))
          then (c, some too_many_items)
          else then_do c (check_quantity quantity quantity available limits) (λ _. (
            touch limits now (record c {
              items = c.items ++ fresh_item offer quantity now ∷ [];
              currency = offer.currency;
            }),
            none,
          ))
    ])

-- `slices.Delete` at the index of the first item that has the SKU.
unfoldable pub remove_first : Text → List Item → List Item
remove_first sku [] = []
remove_first sku (i ∷ is) = let rest = remove_first sku is in if has_sku sku i then is else i ∷ rest

unfoldable pub remove : Text → Limits → ℕ → Cart → Outcome Cart CartError
unfolding remove_first
remove sku limits now c = elim (find (has_sku sku) c.items) [
  | none ↦ (c, some item_not_found)
  | some _ ↦ (touch limits now (record c { items = remove_first sku c.items }), none)
]

abbrev is_zero_int : ℤ → Bool
is_zero_int v = leb_ℤ v (pos 0) && leb_ℤ (pos 0) v

unfoldable pub set_quantity : Offer → ℤ → ℤ → Limits → ℕ → Cart → Outcome Cart CartError
unfolding accept check_quantity remove
set_quantity offer quantity available limits now c = elim (find (has_sku offer.sku) c.items) [
  | none ↦ (c, some item_not_found)
  | some _ ↦
      if is_zero_int quantity
      then remove offer.sku limits now c
      else then_do c (accept offer c) (λ _.
        then_do c (check_quantity quantity quantity available limits) (λ _. (
          touch limits now (record c {
            items = update_first (has_sku offer.sku) (requoted offer quantity now) c.items;
          }),
          none,
        )))
]

-- `slices.DeleteFunc`
unfoldable pub remove_listed : List Text → List Item → List Item
remove_listed skus [] = []
remove_listed skus (i ∷ is) =
    let rest = remove_listed skus is in if any (text_eq i.sku) skus then rest else i ∷ rest

unfoldable pub remove_skus : List Text → Limits → ℕ → Cart → Cart × Bool
unfolding remove_listed
remove_skus skus limits now c =
    let kept = remove_listed skus c.items in
    if length kept == length c.items
    then (record c { items = kept }, false)
    else (touch limits now (record c { items = kept }), true)

unfoldable pub apply_promo_code : (Text → Text) → Text → Limits → ℕ → Cart → Outcome Cart CartError
apply_promo_code to_upper raw limits now c =
    then_do c (normalize_promo_code to_upper raw)
      (λ code. (touch limits now (record c { promo_code = code }), none))

unfoldable pub clear_promo_code : Limits → ℕ → Cart → Cart
clear_promo_code limits now c = touch limits now (record c { promo_code = [] })

-- What the quantity of an item becomes when the same SKU comes in.
abbrev pub merged_quantity : ℤ → ℤ → ℤ → Limits → ℤ
merged_quantity existing incoming available limits =
    max_ℤ existing (min_ℤ (min_ℤ (add64 existing incoming) available) limits.max_quantity)

unfoldable pub absorb_item : Item → ℤ → Limits → ℕ → Cart → Cart
absorb_item incoming available limits now c =
    let quantity = min_ℤ (min_ℤ incoming.quantity available) limits.max_quantity in
    elim (find (has_sku incoming.sku) c.items) [
      | some existing ↦ record c {
        items =
            update_first (has_sku incoming.sku)
              (λ i. record i {
                quantity = merged_quantity i.quantity incoming.quantity available limits;
                updated_at = now;
              })
              c.items;
      }
      | none ↦
          if leb_ℤ limits.max_items (pos (length c.items)) || leb_ℤ quantity (pos 0)
          then c
          else record c {
            items = c.items ++ record incoming { quantity = quantity; updated_at = now } ∷ [];
          }
    ]

-- The loop of `Absorb`; `available` reads the map, with 0 for a missing key.
unfoldable pub absorb_items : List Item → (Text → ℤ) → Limits → ℕ → Cart → Cart
unfolding absorb_item
absorb_items [] available limits now c = c
absorb_items (i ∷ is) available limits now c =
    absorb_items is available limits now (absorb_item i (available i.sku) limits now c)

-- The items and the currency.
unfoldable pub absorb_all : Cart → (Text → ℤ) → Limits → ℕ → Cart → Cart
unfolding absorb_items
absorb_all other available limits now c =
    let d = absorb_items other.items available limits now c in
    if length c.items == 0 || text_eq c.currency other.currency
    then record d { currency = if is_empty d.currency then other.currency else d.currency }
    else c

unfoldable pub absorb : Cart → (Text → ℤ) → Limits → ℕ → Cart → Outcome Cart CartError
unfolding absorb_all
absorb other available limits now c =
    let d = absorb_all other available limits now c in
    if text_eq other.id c.id || same_owner_as other.owner c.owner then (c, some same_owner) else (
      touch limits now (record d {
        promo_code = if is_empty d.promo_code then other.promo_code else d.promo_code;
      }),
      none,
    )
