-- ===== src/Pricing/Offer.antt =====
-- Offer prices (internal/pricing/domain/offer_price.go), method by method. A method gives the price that
-- it leaves behind, also when it returns an error.
pub mod Invariant
mod Tests
use go_marketplace_backend.Base.{
  ℕ, Bool, true, false, ◌&&◌, ◌||◌, not, List, [], ◌∷◌, ◌++◌, ◌==◌, if◌then◌else◌, Option, none,
  some, Result, ok, err, Outcome,
}
use go_marketplace_backend.Base.Text.{Text, is_empty}
use go_marketplace_backend.Kernel.Identifier.{Ident, id_is_zero}
use go_marketplace_backend.Kernel.Quantity.{Quantity}
use go_marketplace_backend.Kernel.Money.{Money, Sign, compare, equals, is_zero}
use go_marketplace_backend.Pricing.Types.{
  CartLine, PricingError, invalid_id, invalid_price, invalid_quantity, currency_mismatch,
  offer_price_inactive,
}

-- `PriceChanged`
pub record PriceEvent : Type 0 where
  pub sku : Text
  pub seller_id : Ident
  pub product_id : Ident
  pub price : Money
  pub active : Bool
  pub at : ℕ

pub record OfferPrice : Type 0 where
  pub sku : Text
  pub product_id : Ident
  pub seller_id : Ident
  pub price : Money
  pub compare_at : Money
  pub active : Bool
  pub updated_at : ℕ
  pub version : ℕ
  pub events : List PriceEvent

-- `kernel.Money{}`
abbrev pub no_money : Money
no_money = record { amount = 0; currency = [] }

-- `record`
abbrev pub log : ℕ → OfferPrice → OfferPrice
log now o = record o {
  events =
      o.events
      ++ record {
        sku = o.sku;
        seller_id = o.seller_id;
        product_id = o.product_id;
        price = o.price;
        active = o.active;
        at = now;
      }
        ∷ [];
}

unfoldable pub new_offer_price : Text → Ident → Ident → Money → ℕ → Result PricingError OfferPrice
new_offer_price sku product seller price now =
    if is_empty sku || id_is_zero product || id_is_zero seller
    then err invalid_id
    else if is_zero price
    then err invalid_price
    else ok (
        log now (record {
          sku = sku;
          product_id = product;
          seller_id = seller;
          price = price;
          compare_at = no_money;
          active = true;
          updated_at = now;
          version = 0;
          events = [];
        }))

-- The compare-at price under a new price: it stays where it is the greater one.
abbrev pub kept_compare_at : Money → Money → Money
kept_compare_at old price =
    if is_zero old then old else elim (compare old price) [ ok Sign.more ↦ old | _ ↦ no_money ]

unfoldable pub change_price : Money → ℕ → OfferPrice → Outcome OfferPrice PricingError
change_price price now o =
    if is_zero price then (o, some invalid_price) else if equals o.price price then (o, none) else (
      log now (record o {
        price = price;
        compare_at = kept_compare_at o.compare_at price;
        updated_at = now;
      }),
      none,
    )

unfoldable pub set_compare_at : Money → ℕ → OfferPrice → Outcome OfferPrice PricingError
set_compare_at compare_at now o =
    if is_zero compare_at
    then (record o { compare_at = no_money; updated_at = now }, none)
    else elim (compare compare_at o.price) [
      | err _ ↦ (o, some currency_mismatch)
      | ok Sign.more ↦ (log now (record o { compare_at = compare_at; updated_at = now }), none)
      | ok _ ↦ (o, some invalid_price)
    ]

abbrev same_flag : Bool → Bool → Bool
same_flag true b = b
same_flag false b = not b

unfoldable pub set_active : Bool → ℕ → OfferPrice → OfferPrice
set_active active now o =
    if same_flag o.active active
    then o
    else log now (record o { active = active; updated_at = now })

unfoldable pub line_of : Quantity → List Ident → OfferPrice → Result PricingError CartLine
line_of quantity categories o =
    if not o.active
    then err offer_price_inactive
    else if quantity.value == 0
    then err invalid_quantity
    else ok (record {
      sku = o.sku;
      seller_id = o.seller_id;
      product_id = o.product_id;
      category_path = categories;
      unit_price = o.price;
      quantity = quantity;
    })
