-- ===== src/AsmGen.antt =====
-- sbc/asm_gen.ts: register code becomes x86-64 assembly.
pub mod Asm
pub mod Layout
pub mod Slots
pub mod Registers
pub mod Selection
pub mod Separation
pub mod Instructions
pub mod Functions
