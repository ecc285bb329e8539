-- ===== src/Sahl.antt =====
-- sahl/: the handler layer.
pub mod Host
pub mod Text
pub mod Request
pub mod Writer
pub mod Filter
pub mod Registry
pub mod Create
mod Tests
