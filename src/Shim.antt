-- ===== src/Shim.antt =====
-- native/dwrt-shim/dwrt_shadow_shim.cpp: the shim that loads the runtime DLL, binds its exports and
-- counts the routes that it answers. The children: Counters has the counters and how they grow,
-- Loader the life of the DLL and of the runtime, Routes the calls; Loading, Kept, Consistency, Opened, Runs
-- and Durations have the proofs.
pub mod Counters
pub mod Loader
pub mod Routes
pub mod Durations
pub mod Loading
pub mod Kept
pub mod Consistency
pub mod Opened
pub mod Runs
pub mod Tests
