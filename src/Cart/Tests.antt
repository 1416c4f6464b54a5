-- ===== src/Cart/Tests.antt =====
-- A cart at concrete inputs: a visitor's cart that goes into a buyer's.
use go_marketplace_backend.Base.{
  ℕ, ◌≡◌, refl, false, ◌||◌, List, [], ◌∷◌, none, some, ok, arith, find,
}
use go_marketplace_backend.Base.Int.{pos, negsuc, ◌≤ℤ◌}
use go_marketplace_backend.Base.Text.{Text, text_eq, trim_space}
use go_marketplace_backend.Cart.Types.{user, device, Owner, Limits, Item, Offer, Cart}
use go_marketplace_backend.Cart.Owners.{normalize_sku, same_owner_as}
use go_marketplace_backend.Cart.{touch, new_cart, has_sku, fresh_item, accept, add, absorb}
use go_marketplace_backend.Cart.Writes.{IsCart}
use go_marketplace_backend.Cart.Absorb.{Covers, absorb-Covers}
use go_marketplace_backend.Cart.Currency.{first_price, absorb-stale_currency}
use go_marketplace_backend.Cart.Life.{
  CartCommand, adds, sets_quantity, removes, removes_skus, absorbs, run, run_cart,
}
use go_marketplace_backend.Cart.Overflow.{add_wraps}

abbrev bounds : Limits
bounds = record { max_items = pos 100; max_quantity = pos 999; anonymous_ttl = 1000 }

abbrev kzt : Text
kzt = b'K' ∷ b'Z' ∷ b'T' ∷ []

abbrev usd : Text
usd = b'U' ∷ b'S' ∷ b'D' ∷ []

abbrev tea_in : Text → Offer
tea_in currency = record {
  sku = b'T' ∷ [];
  seller_id = b's' ∷ [];
  price = pos 300;
  currency = currency;
}

abbrev buyer : Owner
buyer = record { kind = user; id = b'u' ∷ [] }

abbrev visitor : Owner
visitor = record { kind = device; id = b'd' ∷ [] }

abbrev empty_cart : Cart
empty_cart = touch bounds 5 (record {
  id = b'c' ∷ [];
  owner = buyer;
  currency = [];
  items = [];
  promo_code = [];
  created_at = 5;
  updated_at = 0;
  expires_at = 0;
  version = 0;
})

made : new_cart (b'c' ∷ []) buyer bounds 5 ≡ ok empty_cart
unfolding new_cart
made = refl

abbrev one_tea : Cart
one_tea = record empty_cart { items = fresh_item (tea_in kzt) (pos 1) 6 ∷ []; currency = kzt }

abbrev dollar_cart : Cart
dollar_cart = record one_tea { id = b'v' ∷ []; owner = visitor; currency = usd }

dollar_cart-IsCart : IsCart bounds dollar_cart
dollar_cart-IsCart = record {
  distinct = (refl, tt);
  few = omega arith;
  in_order =
      (record { some_units = omega arith; few_units = omega arith; priced = omega arith }, tt);
}

abbrev visits : List (ℕ × CartCommand)
visits =
    (6, adds (tea_in kzt) (pos 2) (pos 9))
    ∷ (7, sets_quantity (tea_in kzt) (pos 4) (pos 9))
    ∷ (8, removes (b'T' ∷ []))
    ∷ (9, absorbs dollar_cart (λ _. pos 3))
    ∷ (10, removes_skus ((b'X' ∷ []) ∷ []))
    ∷ []

run_cart_example : IsCart bounds (run bounds (λ s. s) visits empty_cart)
run_cart_example =
    run_cart bounds (λ s. s) (b'c' ∷ []) buyer 5 visits (omega arith) made
      (omega arith, (tt, (tt, (dollar_cart-IsCart, (tt, tt)))))

absorb-Covers_example :
    Covers one_tea.items
      (absorb (record dollar_cart { currency = kzt }) (λ _. pos 3) bounds 9 one_tea).0.items
absorb-Covers_example =
    absorb-Covers bounds (record dollar_cart { currency = kzt }) (λ _. pos 3) 9 one_tea

abbrev emptied : Cart
emptied = record one_tea { items = [] }

two_carts :
    (text_eq dollar_cart.id emptied.id || same_owner_as dollar_cart.owner emptied.owner) ≡ false
unfolding text_eq
two_carts = refl

absorb-stale_currency_example :
    ((absorb dollar_cart (λ _. pos 3) bounds 9 emptied).0.currency ≡ kzt)
    × (first_price (absorb dollar_cart (λ _. pos 3) bounds 9 emptied).0.items
        ≡ some (fresh_item (tea_in kzt) (pos 1) 6).price)
absorb-stale_currency_example =
    absorb-stale_currency bounds dollar_cart (fresh_item (tea_in kzt) (pos 1) 6) [] (λ _. pos 3) 9
      emptied refl refl two_carts refl (omega arith) (omega arith) (omega arith) (omega arith)

accepted : accept (tea_in kzt) one_tea ≡ ok tt
unfolding accept normalize_sku trim_space text_eq
accepted = refl

tea_found : find (has_sku (b'T' ∷ [])) one_tea.items ≡ some (fresh_item (tea_in kzt) (pos 1) 6)
unfolding text_eq
tea_found = refl

add_wraps_example :
    ((add (tea_in kzt) (pos 9223372036854775807) (pos 9) bounds 7 one_tea).1 ≡ none)
    × ((j : Item) × (find
            (has_sku (b'T' ∷ []))
            (add (tea_in kzt) (pos 9223372036854775807) (pos 9) bounds 7 one_tea).0.items
          ≡ some j)
        × (j.quantity ≤ℤ negsuc 0))
add_wraps_example =
    add_wraps bounds (tea_in kzt) 9223372036854775807 1 (pos 9) 7 one_tea accepted tea_found refl
      (omega arith) (omega arith) (omega arith) (omega arith) (omega arith)
