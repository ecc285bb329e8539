-- ===== src/Abi.antt =====
-- abi/abi.h, the C interface between Envoy and the module: its enumerations, buffers, callbacks and event hooks.
pub mod Common
pub mod Attribute
pub mod Http
pub mod Network
pub mod AccessLog
pub mod Buffer
pub mod Headers
pub mod Body
pub mod Metadata
pub mod FilterState
pub mod Scheduler
pub mod Callouts
pub mod Metrics
pub mod Response
pub mod Hooks
pub mod Route
