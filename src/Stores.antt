-- ===== src/Stores.antt =====
-- frontend/src/stores/: the small persisted stores. Each operation returns the state that `set` leaves.
pub mod Search
pub mod Wishlist
pub mod Tenant
pub mod Theme
pub mod Notification
mod Tests
