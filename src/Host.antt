-- ===== src/Host.antt =====
-- native/dwrt-host/dwrt_host.cpp. Signatures, Resolve and Install have the resolution of signatures and
-- the installation of hooks, Detours the functions that the hooks run, Lifecycle the exports.
pub mod Signatures
pub mod Install
pub mod Resolve
pub mod Detours
pub mod Lifecycle
mod Tests
