-- ===== src/Kernel/Quantity/Laws.antt =====
-- The arithmetic of quantities (internal/shared/kernel/quantity.go).
use go_marketplace_backend.Base.{◌+◌, ◌≤◌, ◌≡◌, ok, arith}
use go_marketplace_backend.Base.Int.{ℤ, pos}
use go_marketplace_backend.Kernel.Quantity.{Quantity, max_quantity, new_quantity, add, sub}

abbrev pub IsQuantity : Quantity → Type 0
IsQuantity q = q.value ≤ max_quantity

pub new_quantity-IsQuantity :
    (v : ℤ) {q : Quantity} → new_quantity v ≡ ok q → IsQuantity q × (v ≡ pos q.value)
unfolding new_quantity
new_quantity-IsQuantity v h = ground arith

pub add-eq-ok :
    (p q : Quantity) {r : Quantity} → add p q ≡ ok r → (r.value ≡ p.value + q.value) × IsQuantity r
unfolding add
add-eq-ok p q h = ground arith

pub sub-eq-ok : (p q : Quantity) {r : Quantity} → sub p q ≡ ok r → r.value + q.value ≡ p.value
unfolding sub
sub-eq-ok p q h = ground arith

-- Adding a quantity and taking it away again gives the first one back.
pub sub-add : (p q : Quantity) {r : Quantity} → add p q ≡ ok r → sub r q ≡ ok p
unfolding add sub
sub-add p q h = ground arith
