-- ===== src/Validators.antt =====
-- The deterministic validators, app/services/validators.
pub mod Cbu
pub mod Amounts
pub mod Quotes
pub mod Prices
