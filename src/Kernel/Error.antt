-- ===== src/Kernel/Error.antt =====
-- The error values of the shared kernel (internal/shared/kernel/money.go, quantity.go, errors.go).
-- A detail that `WithDetail` adds is left out: `Error.Is` compares the kind and the code alone.
pub data KernelError : Type 0 where
  currency_required invalid_currency negative_amount currency_mismatch : KernelError
  money_overflow invalid_basis negative_quantity quantity_overflow : KernelError
  concurrent_modification invalid_id : KernelError
