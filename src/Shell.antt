-- ===== src/Shell.antt =====
-- What stands round the pages: the routes and their guard, the boundaries that catch errors, the
-- banner, the tour, the shortcuts and the command palette.
pub mod Routes
pub mod Boundaries
pub mod Overlays
pub mod Palette
pub mod FocusTrap
pub mod Layout
pub mod Showcase
pub mod Seo
mod Tests
