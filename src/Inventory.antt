-- ===== src/Inventory.antt =====
-- The inventory context (internal/inventory).
pub mod Types
pub mod Stock
mod Tests
