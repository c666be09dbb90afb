-- ===== src/Jit.antt =====
-- The compiler of HolyC bytecode to AArch64: src/a64_emit.h and src/hc_ir.h.
pub mod Result
pub mod Encode
pub mod Ops
pub mod Compile
pub mod Stack
pub mod Memory
pub mod Calls
pub mod Step
pub mod Pack
pub mod Bounds
pub mod Words
pub mod Machine
pub mod Ir
mod Tests
