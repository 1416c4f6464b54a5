-- ===== src/Payment.antt =====
-- The payment context (internal/payment).
pub mod Types
pub mod Refunds
pub mod Actions
mod Tests
