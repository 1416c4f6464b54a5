-- ===== src/Kernel/Quantity.antt =====
-- internal/shared/kernel/quantity.go. The field `value` is an `int` that every constructor keeps in
-- 0 to `MaxQuantity`, so it is a natural number; the argument of `NewQuantity` is signed.
pub mod Laws
use go_marketplace_backend.Base.{ℕ, ◌+◌, ◌-◌, Bool, ltb, ◌==◌, if◌then◌else◌, Result, ok, err}
use go_marketplace_backend.Base.Int.{ℤ, pos, pos_part, ltb_ℤ}
use go_marketplace_backend.Kernel.Error.{KernelError, negative_quantity, quantity_overflow}

abbrev pub max_quantity : ℕ
max_quantity = 2147483647

pub record Quantity : Type 0 where
  pub value : ℕ

unfoldable pub new_quantity : ℤ → Result KernelError Quantity
new_quantity v =
    if ltb_ℤ v (pos 0)
    then err negative_quantity
    else if ltb_ℤ (pos max_quantity) v
    then err quantity_overflow
    else ok (record { value = pos_part v })

abbrev pub is_zero : Quantity → Bool
is_zero q = q.value == 0

-- The test is `other.value > MaxQuantity-q.value` over signed numbers.
unfoldable pub add : Quantity → Quantity → Result KernelError Quantity
add q other =
    if ltb max_quantity (q.value + other.value)
    then err quantity_overflow
    else ok (record { value = q.value + other.value })

unfoldable pub sub : Quantity → Quantity → Result KernelError Quantity
sub q other =
    if ltb q.value other.value
    then err negative_quantity
    else ok (record { value = q.value - other.value })
