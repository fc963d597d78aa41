-- ===== src/MirGen.antt =====
-- sbc/mir_gen.ts: the syntax tree of a function becomes a control-flow graph over a stack machine.
pub mod FnMirGen
pub mod Expressions
pub mod Meaning
pub mod Code
pub mod Correct
pub mod Closed
pub mod ClosedStatements
pub mod Complete
pub mod Statements
