-- ===== src/TargetProbe.antt =====
-- native/dwrt-host/dwrt_target_probe.cpp: the probe of the game's target filters. It counts what the
-- filters see, and can change teams, results and bits for the time of a filter. Counters and State
-- have the globals, Settings what the environment configures, Entities the reads and writes of game
-- objects, Neutralize, Filter, Gates, Classifier and Damage the functions behind the detours. Spoof,
-- Restore, Accounting, Open, Runs and Writes have the proofs.
pub mod Counters
pub mod State
pub mod Settings
pub mod Entities
pub mod Neutralize
pub mod Filter
pub mod Gates
pub mod Classifier
pub mod Damage
pub mod Spoof
pub mod Restore
pub mod Accounting
pub mod Open
pub mod Runs
pub mod Writes
pub mod Tests
