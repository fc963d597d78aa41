-- ===== src/Lib.antt =====
-- sbc, the compiler of the repository's small language, written in TypeScript under sbc/. A program
-- passes through these parts, each of which reads what the one before it made:
--
--   ast.ts, ty.ts        the syntax tree and the types               Ast, Ty
--   front.ts             what names and types resolve to             Front
--   mir_gen.ts, mir.ts   a control-flow graph over a stack machine   MirGen, Mir
--   mir_optimize.ts      drops and joins blocks of the graph         MirOptimize
--   lir_gen.ts, lir.ts   lines of code over virtual registers        LirGen, Lir
--   lir_optimize.ts      four peephole passes over the lines         LirOptimize
--   attr.ts              the attributes of a function                Attr
--   asm_gen.ts           x86-64 assembly                             AsmGen
--
-- Files and definitions have the names of the source in snake case: `FnMirGen.lowerExpr` is
-- `lower_expr` of MirGen/Expressions.antt, `eliminatePushPop` is `eliminate_push_pop` of
-- LirOptimize/Windows.antt. A class is the record of its fields, and a method takes the record and
-- gives the new one. What throws gives a `Result`, whose `err` has the message; a `!` on a value that is
-- not there is such an error where it is read, while the source goes on with `undefined`. A reference to
-- a block, a function or a local is its id, and a change of a block is a change of the one of that id.
-- A JavaScript `Map` is an association list in the order of insertion (Prelude/Maps.antt).
--
-- Machine holds what the theorems compare with and has no counterpart in the source: a target of
-- words and calls (Machine/Target.antt), the stack machine of MIR (Machine/Stack.antt), runs of a
-- graph (Machine/Graph.antt), the machine of LIR with registers and frame slots
-- (Machine/Registers.antt), and renamings of registers (Machine/Simulation.antt,
-- Machine/Region.antt). What a call, each operation and a constant do is a parameter; `operation` is
-- the one of an operator of MIR and LIR, and `eval_op` of MirGen/Meaning.antt that of an operator of
-- the source. MirGen/Meaning.antt says what expressions of the source mean, by recursion on the
-- syntax tree and with no blocks; MirGen/Correct.antt compares the code with it, and
-- MirGen/Complete.antt follows the references to blocks through the lowering of statements.
-- LirGen/Sequences.antt compares the lines with the statements that they are generated from,
-- MirOptimize/Unreachable.antt and LirOptimize compare code before and after a pass.
--
-- Fuel: a run of a machine has fuel for its jumps, and every theorem about runs is for any fuel. The
-- loops of `optimizeMirFn` and `optimizeLir` repeat until a size was seen before; they are on fuel, and
-- for `optimizeLir` one more round than the program has lines is enough. A recorded word is a number of
-- the target, so the machines have no overflow of their own.
--
-- In front.ts, Front/Parser reads tokens (Front/Parser/Exprs.antt, Front/Parser/Stmts.antt),
-- Front/Resolver.antt finds what names and `break` refer to by the scopes of Front/Syms.antt, and
-- Front/Checking.antt answers questions about types with the comparison of Front/Types.antt; `lowerExpr`
-- and the rest ask it through the records `Resols` and `Checker` of Front.antt. The rules of the parser
-- and the questions of the checker are open recursions, which are closed on fuel: one unit more than
-- there are tokens is enough for the parser, while the checker may run forever. Front/Parser/Printing.antt
-- turns expressions into tokens, and Front/Parser/RoundTrip.antt reads them again. LirGen/Programs.antt is
-- `LirGen.generate`, with the strings and functions of a whole program.
--
-- Not modelled: `lex`, whose tokens the parser takes as its argument, the driver main.ts, the printing of
-- MIR, LIR and types, the block size that `optimizeMirFn` starts with, and in asm_gen.ts the text of a
-- line and the data section.
--
-- slige/ is the compiler of an earlier language. Of it, Slige/Lexer.antt and its children model
-- slige/compiler/parse/lexer.ts: Slige/Lexer/Next.antt has `next`, Slige/Lexer/Positions.antt what it
-- does to the place in the text, and Slige/Lexer/Filter.antt the tokens that the parser sees.
-- Slige/Syms.antt has the scopes of slige/compiler/resolve/cx.ts. The rest of slige, the backend and the
-- mobile app are not modelled.
pub mod Prelude
pub mod Ast
pub mod Ty
pub mod Front
pub mod Attr
pub mod Mir
pub mod MirGen
pub mod MirOptimize
pub mod Lir
pub mod LirGen
pub mod LirOptimize
pub mod AsmGen
pub mod Slige
pub mod Machine
pub mod Tests
