-- ===== src/Ordering.antt =====
-- The ordering context (internal/ordering).
pub mod Status
pub mod Types
pub mod Address
pub mod Place
pub mod Draft
pub mod Order
pub mod Saga
pub mod Checkout
mod Tests
