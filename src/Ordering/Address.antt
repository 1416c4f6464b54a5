-- ===== src/Ordering/Address.antt =====
-- internal/ordering/domain/address.go. `to_upper` stands for `strings.ToUpper`, whose Unicode tables
-- are an argument. `strings.Map` with `dropFormatting` is a filter of bytes: what it drops is ASCII,
-- and a phone with an ill-formed byte is refused either way.
use go_marketplace_backend.Base.{
  ℕ, Bool, true, false, ◌&&◌, ◌||◌, not, [], ◌∷◌, leb, ◌==◌, if◌then◌else◌, Result, ok, err, length,
}
use go_marketplace_backend.Base.Text.{Text, is_empty, trim_space, rune_count}
use go_marketplace_backend.Ordering.Types.{Address, OrderError, invalid_address}

unfoldable pub within : Text → ℕ → ℕ → Bool
within value min_runes max_runes =
    leb min_runes (rune_count value) && leb (rune_count value) max_runes

abbrev is_formatting : ℕ → Bool
is_formatting c = c == b' ' || c == b'-' || c == b'(' || c == b')'

unfoldable pub drop_formatting : Text → Text
drop_formatting [] = []
drop_formatting (c ∷ s) = let rest = drop_formatting s in if is_formatting c then rest else c ∷ rest

all_digits : Text → Bool
all_digits [] = true
all_digits (c ∷ s) = leb b'0' c && leb c b'9' && all_digits s

abbrev is_digits : Text → Bool
is_digits s = all_digits s && leb 10 (length s) && leb (length s) 15

-- `^\+?[0-9]{10,15}$`
unfoldable pub matches_phone : Text → Bool
unfolding all_digits
matches_phone [] = false
matches_phone (c ∷ s) = if c == b'+' then is_digits s else is_digits (c ∷ s)

abbrev kz : Text
kz = b'K' ∷ b'Z' ∷ []

unfoldable pub new_address : (Text → Text) → Address → Result OrderError Address
unfolding within drop_formatting matches_phone
new_address to_upper a =
    let upper = to_upper (trim_space a.country) in
    let out : Address = record {
      recipient = trim_space a.recipient;
      phone = drop_formatting (trim_space a.phone);
      country = if is_empty upper then kz else upper;
      city = trim_space a.city;
      line = trim_space a.line;
      postal_code = trim_space a.postal_code;
    } in
    if not (within out.recipient 1 200)
      || not (within out.city 1 100)
      || not (within out.line 1 300)
    then err invalid_address
    else if not (matches_phone out.phone)
    then err invalid_address
    else if not (rune_count out.country == 2)
    then err invalid_address
    else if not (within out.postal_code 0 20)
    then err invalid_address
    else ok out
