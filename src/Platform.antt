-- ===== src/Platform.antt =====
-- What the contexts share besides the kernel (internal/shared/platform).
pub mod Breaker
