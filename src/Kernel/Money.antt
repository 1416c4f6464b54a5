-- ===== src/Kernel/Money.antt =====
-- internal/shared/kernel/money.go. An `int64` is a 64-bit pattern: sums and products are taken
-- modulo 2^64, and a pattern above `max_int64` would stand for a negative number. Every constructor
-- of `Money` gives an amount from 0 to `math.MaxInt64`, where pattern and value agree, so the order
-- of amounts is the order of patterns.
pub mod Laws
pub mod Percent
mod Tests
use go_marketplace_backend.Base.{
  ℕ, suc, ◌+◌, ◌-◌, ◌*◌, ◌/◌, ◌%◌, Bool, true, false, ◌&&◌, ◌||◌, not, List, [], ◌∷◌, ltb, ◌==◌,
  if◌then◌else◌, Result, ok, err, ◌>>=◌, length,
}
use go_marketplace_backend.Base.Int.{ℤ, pos, pos_part, ltb_ℤ}
use go_marketplace_backend.Base.Text.{Text, is_empty, text_eq}
use go_marketplace_backend.Kernel.Error.{
  KernelError, currency_required, invalid_currency, negative_amount, currency_mismatch,
  money_overflow, invalid_basis,
}
use go_marketplace_backend.Kernel.Quantity.{Quantity}

abbrev pub max_int64 : ℕ
max_int64 = 9223372036854775807

abbrev pub wrap64 : ℕ → ℕ
wrap64 n = n % 18446744073709551616

abbrev pub kzt : Text
kzt = b'K' ∷ b'Z' ∷ b'T' ∷ []

abbrev is_upper : Text → Bool
is_upper [] = true
is_upper (c ∷ s) = not (ltb c b'A' || ltb b'Z' c) && is_upper s

unfoldable pub new_currency : Text → Result KernelError Text
new_currency code =
    if is_empty code
    then err currency_required
    else if not (length code == 3)
    then err invalid_currency
    else if is_upper code
    then ok code
    else err invalid_currency

pub record Money : Type 0 where
  pub amount : ℕ
  pub currency : Text

unfoldable pub new_money : ℤ → Text → Result KernelError Money
unfolding new_currency
new_money amount c = do
  cur ← new_currency c
  if ltb_ℤ amount (pos 0)
      then err negative_amount
      else ok (record { amount = pos_part amount; currency = cur })

unfoldable pub zero_money : Text → Result KernelError Money
unfolding new_money
zero_money c = new_money (pos 0) c

abbrev pub zero_like : Money → Money
zero_like m = record { amount = 0; currency = m.currency }

abbrev pub is_zero : Money → Bool
is_zero m = m.amount == 0

unfoldable pub add : Money → Money → Result KernelError Money
add m other =
    if not (text_eq m.currency other.currency)
    then err currency_mismatch
    else if ltb (max_int64 - m.amount) other.amount
    then err money_overflow
    else ok (record { amount = wrap64 (m.amount + other.amount); currency = m.currency })

unfoldable pub sub : Money → Money → Result KernelError Money
sub m other =
    if not (text_eq m.currency other.currency)
    then err currency_mismatch
    else if ltb m.amount other.amount
    then err negative_amount
    else ok (record { amount = m.amount - other.amount; currency = m.currency })

unfoldable pub mul_quantity : Money → Quantity → Result KernelError Money
mul_quantity m q =
    if not (q.value == 0) && ltb (max_int64 / q.value) m.amount
    then err money_overflow
    else ok (record { amount = wrap64 (m.amount * q.value); currency = m.currency })

pub record BasisPoints : Type 0 where
  pub value : ℕ

abbrev pub max_basis_points : ℕ
max_basis_points = 10000

unfoldable pub new_basis_points : ℤ → Result KernelError BasisPoints
new_basis_points v =
    if ltb_ℤ v (pos 0) || ltb_ℤ (pos max_basis_points) v
    then err invalid_basis
    else ok (record { value = pos_part v })

unfoldable pub apply_percent : Money → BasisPoints → Money
apply_percent m bp =
    let whole = m.amount / 10000 in
    let rest = m.amount % 10000 in
    record {
      amount = wrap64 (wrap64 (whole * bp.value) + wrap64 (rest * bp.value) / 10000);
      currency = m.currency;
    }

-- The results -1, 0 and 1 of `Compare`.
pub data Sign : Type 0 where
  less same more : Sign

unfoldable pub compare : Money → Money → Result KernelError Sign
compare m other =
    if not (text_eq m.currency other.currency)
    then err currency_mismatch
    else if ltb m.amount other.amount
    then ok less
    else if ltb other.amount m.amount
    then ok more
    else ok same

unfoldable pub equals : Money → Money → Bool
equals m other = m.amount == other.amount && text_eq m.currency other.currency

sum_from : Money → List Money → Result KernelError Money
sum_from total [] = ok total
sum_from total (v ∷ values) = do next ← add total v; sum_from next values

unfoldable pub sum_money : Text → List Money → Result KernelError Money
unfolding sum_from zero_money
sum_money c values = do total ← zero_money c; sum_from total values
