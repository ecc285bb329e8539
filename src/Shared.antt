-- ===== src/Shared.antt =====
-- shared/: the constants of the SDK's public types.
pub mod Base
pub mod Attribute
pub mod Api
pub mod Network
pub mod AccessLog
pub mod Agreement
mod Tests
