-- ===== src/App.antt =====
-- Where the parts of the storefront meet: the session behind the guard and in the headers of a call, and
-- an order whose session runs out while it is placed.
pub mod Session
pub mod Order
mod Tests
