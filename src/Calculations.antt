-- ===== src/Calculations.antt =====
-- The calculation core, src/bond_trading/domain/calculations.
pub mod Models
pub mod Engine
pub mod Cashflows
pub mod Purchase
pub mod Yields
mod Samples
