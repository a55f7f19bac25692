-- ===== src/Pages.antt =====
-- The handlers of the pages, and what they make of the stores and the backend's answers.
pub mod Answers
pub mod Autosave
pub mod Catalog
pub mod CartPage
pub mod Lists
pub mod Columns
pub mod Checkout
pub mod Inventory
pub mod Dashboard
pub mod Login
pub mod Tenant
mod Tests
