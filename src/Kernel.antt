-- ===== src/Kernel.antt =====
-- The shared kernel (internal/shared/kernel): errors, money, basis points, quantities, identifiers.
pub mod Error
pub mod Quantity
pub mod Money
pub mod Identifier
