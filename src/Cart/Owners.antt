-- ===== src/Cart/Owners.antt =====
-- Owners of carts and the normal forms of SKUs and promo codes (internal/cart/domain/owner.go). `to_upper`
-- stands for `strings.ToUpper`. The patterns admit ASCII bytes only.
use go_marketplace_backend.Base.{
  ℕ, Bool, true, false, ◌&&◌, ◌||◌, not, ◌==◌, if◌then◌else◌, Result, ok, err,
}
use go_marketplace_backend.Base.Text.{
  matches_class, is_digit_byte, is_letter_byte, sku_byte, capital_byte, Text, trim_space, text_eq,
}
use go_marketplace_backend.Kernel.Identifier.{Ident, id_is_zero}
use go_marketplace_backend.Cart.Types.{
  OwnerKind, user, device, no_owner, Owner, CartError, invalid_id, invalid_device, invalid_sku,
  invalid_promo_code,
}

abbrev pub is_anonymous : Owner → Bool
is_anonymous o = elim o.kind [ device ↦ true | _ ↦ false ]

abbrev pub owner_is_zero : Owner → Bool
owner_is_zero o = elim o.kind [ no_owner ↦ true | _ ↦ false ]

abbrev same_kind : OwnerKind → OwnerKind → Bool
same_kind user user = true
same_kind device device = true
same_kind no_owner no_owner = true
same_kind _ _ = false

abbrev pub same_owner_as : Owner → Owner → Bool
same_owner_as o other = same_kind o.kind other.kind && text_eq o.id other.id

abbrev device_byte : ℕ → Bool
device_byte c = is_letter_byte c || is_digit_byte c || c == b'_' || c == b'-'

unfoldable pub user_owner : Ident → Result CartError Owner
user_owner id = if id_is_zero id then err invalid_id else ok (record { kind = user; id = id })

unfoldable pub device_owner : Text → Result CartError Owner
unfolding matches_class
device_owner raw =
    let value = trim_space raw in
    if not (matches_class device_byte 16 128 value)
    then err invalid_device
    else ok (record { kind = device; id = value })

unfoldable pub normalize_sku : Text → Result CartError Text
unfolding matches_class
normalize_sku raw =
    let value = trim_space raw in
    if not (matches_class sku_byte 1 64 value) then err invalid_sku else ok value

unfoldable pub normalize_promo_code : (Text → Text) → Text → Result CartError Text
unfolding matches_class
normalize_promo_code to_upper raw =
    let value = to_upper (trim_space raw) in
    if not (matches_class capital_byte 4 32 value) then err invalid_promo_code else ok value
