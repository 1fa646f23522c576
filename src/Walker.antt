-- ===== src/Walker.antt =====
-- native/dwrt-host/dwrt_walker_patrol.cpp: every few damage callbacks on a walker it is moved along a
-- list of vectors. The children: Floats has what is taken of float arithmetic, Vectors the list,
-- Patrol the state and the callback; Schedule and Parsing have the proofs.
pub mod Floats
pub mod Vectors
pub mod Patrol
pub mod Parsing
pub mod Counters
pub mod Moves
pub mod Schedule
pub mod Tests
