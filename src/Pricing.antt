-- ===== src/Pricing.antt =====
-- The pricing context (internal/pricing).
pub mod Types
pub mod Promo
pub mod Rules
pub mod Calculator
pub mod Promotion
pub mod Offer
pub mod Quotes
mod Tests
