-- ===== src/LirGen.antt =====
-- sbc/lir_gen.ts: from the blocks of the MIR to the lines of the LIR. The object of the class `FnGen` is
-- a record that the operations return anew. A lookup with `!` that finds nothing gives `undefined` in
-- the source; here it is an error.
pub mod Strings
pub mod Interning
pub mod FnGen
pub mod Statements
pub mod Simulation
pub mod Lowering
pub mod Sequences
pub mod Programs
