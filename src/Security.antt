-- ===== src/Security.antt =====
-- frontend/src/lib/security.ts: escaping of HTML, the checksum, and the storage that is signed by it.
pub mod Escape
pub mod Checksum
pub mod Storage
mod Tests
