-- ===== src/Impl.antt =====
-- abi_impl/internal.go: the Go side of the C interface for HTTP filters.
pub mod Buffers
pub mod GoMap
pub mod Manager
pub mod Metadata
pub mod SharedData
pub mod Scheduler
pub mod HeaderMap
pub mod BodyBuffer
pub mod Handle
pub mod Config
pub mod Module
pub mod Lifecycle
mod Tests
