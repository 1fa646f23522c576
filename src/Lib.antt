-- ===== src/Lib.antt =====
-- Verification of the native side of DWRT: a host DLL inside a game server that finds functions by
-- signature, hooks them, and acts on what the hooks see, and the shim through which it calls the
-- runtime DLL.
--
-- The parts, in the order in which the host uses them:
--
-- Environment: the readers of environment variables that native/dwrt-host/dwrt_friendly_fire.cpp and
--   native/dwrt-host/dwrt_walker_patrol.cpp share. `GetVariable` stands for GetEnvironmentVariable.
-- Scanner: native/dwrt-host/dwrt_signature_scanner.cpp and .hpp. Scanner.Compile has
--   compile_pattern, Scanner.Find has find_pattern, Scanner.Module has PeModuleView and
--   find_pattern_rvas, Scanner.Text fnv1a64 and json_escape, Scanner.Image the readers of PE headers, over the memory and by the offsets that
--   the format documents; their children have the proofs.
-- Manifest: native/dwrt-host/dwrt_probe_manifest.cpp, the table of signatures.
-- Hooks: native/dwrt-host/dwrt_hook_backend.cpp, over the interface HookLibrary of an inline hook
--   library; Hooks.Backend has HookBackend.
-- Shim: native/dwrt-shim/dwrt_shadow_shim.cpp and .hpp, over the interface RuntimeApi of the operating
--   system and of the runtime DLL. Shim.Loader has load, unload, create_runtime and destroy_runtime,
--   Shim.Routes the calls, Shim.Counters the counters; Shim.Opened counts the DLLs that are open outside.
-- Host: native/dwrt-host/dwrt_host.cpp. Host.Signatures has resolve_mapped_signature and the loop of
--   resolve_server_signatures, a client of Scanner and of Manifest; Host.Resolve has the rest of that
--   function, over the interface ModuleApi of the loader; Host.Install has
--   install_probe_hooks, a client of Hooks and of the signatures.
-- Testpoints: native/dwrt-host/dwrt_host_testpoints.cpp, the counters around every callback.
-- FriendlyFire: native/dwrt-host/dwrt_friendly_fire.cpp, which writes another team into an entity for
--   the time of a damage callback.
-- Walker: native/dwrt-host/dwrt_walker_patrol.cpp, which moves walkers that take damage. Floating point
--   arithmetic is the interface FloatApi.
-- TargetProbe: native/dwrt-host/dwrt_target_probe.cpp, which watches the game's target filters and damage, and
--   can change teams, results and bits while a filter runs. TargetProbe.State has the globals, Settings the
--   configuration, Entities the reads and writes of game objects, over the record Process of what the
--   process lets it do; Neutralize, Filter, Gates, Classifier and Damage have the functions behind the hooks.
-- Host.Detours: the seven functions of native/dwrt-host/dwrt_host.cpp that the hooks run, a client of
--   Testpoints, TargetProbe, Walker, FriendlyFire and Shim. The functions of the game are arguments, and
--   Host.Detours.Nested has the trees of calls in which they run detours in turn.
-- Host.Lifecycle: the exports of native/dwrt-host/dwrt_host.cpp that initialise the host, shut it down and
--   steer it, a client of all the others. Host.Lifecycle.State has the globals, Runtime the use of the
--   runtime, Exports the exported functions.
-- Prelude: what all share: lists, Boolean tests, machine words, the memory, results.
--
-- How code is written as definitions. The globals and members of a component are a record that each
-- operation takes and gives back, and an operation has the name of its function. A part of a longer
-- function that follows an early return has a name of its own. Counters are numbers with their
-- wrap-around written out (`u32`, `u64`, `inc`). The memory of the process is a function from addresses
-- to bytes, the null pointer is 0, and text is a list of character codes. A Boolean result with an
-- error text is an Option of the text, or a Result.
--
-- The game runs detours inside its own functions. Host.Detours.Nested describes that by finite trees, so
-- that a run is recursion on the tree and needs no fuel; the theorems are about every tree.
--
-- Bounds and fuel. Loops go over lists, or over the numbers of a range, and need no fuel, but for two:
-- compile_from has one round for each byte of the text and one more, and parse_items one for each byte of
-- the text; each round takes a byte, and the theorems on these functions are about the functions
-- with this fuel, so that running out would refute them.
--
-- Atomics are plain fields: the components are seen from one thread, where Testpoints.Concurrent
-- alone lets other threads raise and reset the maximum between the steps of update_max_depth, where a round
-- of the loop is one element of a list, as one left alone is shown to be enough. `__try` is a test of the address
-- that is read (`can_read`).
--
-- Not modelled. The summary in JSON of dwrt_host.cpp, which is text for people, and what
-- std::filesystem throws; the copy functions that fill a snapshot from atomics; the smoke programs, which
-- are tests that start processes; native/vendor, which is third-party code; the Rust crates under crates,
-- which are behind the interface of the runtime DLL; scripts and research notes.
pub mod Prelude
pub mod Environment
pub mod Scanner
pub mod Manifest
pub mod FriendlyFire
pub mod Testpoints
pub mod Hooks
pub mod Shim
pub mod Walker
pub mod TargetProbe
pub mod Host
