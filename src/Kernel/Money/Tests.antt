-- ===== src/Kernel/Money/Tests.antt =====
-- Money at concrete inputs.
use go_marketplace_backend.Base.{ℕ, ◌*◌, ◌/◌, ◌≤◌, ◌≡◌, arith}
use go_marketplace_backend.Kernel.Money.{Money, max_int64, kzt, apply_percent}
use go_marketplace_backend.Kernel.Money.Percent.{apply_percent-exact}

abbrev tenge : ℕ → Money
tenge n = record { amount = n; currency = kzt }

apply_percent-exact_example :
    ((apply_percent (tenge max_int64) (record { value = 1250 })).amount ≡ max_int64 * 1250 / 10000)
    × ((apply_percent (tenge max_int64) (record { value = 1250 })).amount ≤ max_int64)
    × ((apply_percent (tenge max_int64) (record { value = 1250 })).currency ≡ kzt)
apply_percent-exact_example =
    apply_percent-exact (tenge max_int64) (record { value = 1250 }) (omega arith) (omega arith)
