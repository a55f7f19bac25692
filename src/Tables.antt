-- ===== src/Tables.antt =====
-- The tables of the storefront: which rows they draw, and what their controls change.
pub mod Virtualizer
pub mod DataTable
pub mod Csv
pub mod VirtualTable
mod Tests
