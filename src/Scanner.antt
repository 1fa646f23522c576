-- ===== src/Scanner.antt =====
-- native/dwrt-host/dwrt_signature_scanner.cpp: signature patterns, the search for them in bytes and
-- in the code sections of a loaded module.
pub mod Compile
pub mod Find
pub mod Module
pub mod Image
pub mod Text
mod Tests
