-- ===== src/Control.antt =====
-- crates/control: the HTTP control plane over its SQLite database.
-- A text is the list of its code points.
pub mod Errors
pub mod Auth
pub mod Ids
pub mod Texts
pub mod Store
pub mod Http
