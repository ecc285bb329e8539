-- ===== src/Impl/Tests.antt =====
-- Runs of the models of abi_impl/internal.go and the theorems on them at concrete inputs.
mod Hosts
mod Maps
mod Handles
