-- ===== src/Host/Lifecycle.antt =====
-- The start, the exports and the end of native/dwrt-host/dwrt_host.cpp. State has the globals, Runtime the
-- use of the runtime, Exports the exported functions.
pub mod State
pub mod Runtime
pub mod Exports
pub mod Outcomes
pub mod Sound
pub mod Runs
pub mod Restart
mod Tests
