-- ===== src/Ui.antt =====
-- frontend/src/components/ui: the components that compute or keep a state.
pub mod Pagination
pub mod FileUpload
pub mod Accordion
pub mod SearchBox
pub mod Dropdown
pub mod Tabs
pub mod Toasts
pub mod Dialogs
pub mod Tooltip
mod Tests
