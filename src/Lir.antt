-- ===== src/Lir.antt =====
-- sbc/lir.ts: lines of register code. A reference to a function is the function's id; the record of a
-- function keeps its MIR.
use h4_projekt_gruppe_0_sm.Prelude.{ℕ, String, List, NumMap}
use h4_projekt_gruppe_0_sm.Mir.{BinaryOp}
use h4_projekt_gruppe_0_sm.Mir as Mir

abbrev pub Reg : Type 0
Reg = ℕ

abbrev pub Label : Type 0
Label = ℕ

pub data Ins : Type 0 where
  error nop ret : Ins
  alloc_param alloc_local : Reg → ℕ → Ins
  mov_int mov_string mov_fn : Reg → ℕ → Ins
  push pop : Reg → Ins
  load : Reg → Reg → Ins
  store_reg : Reg → Reg → Ins
  store_imm : Reg → ℕ → Ins
  call_reg : Reg → ℕ → Ins
  call_imm : ℕ → ℕ → Ins
  jmp : Label → Ins
  jnz_reg : Reg → Label → Ins
  binary : BinaryOp → Reg → Reg → Ins
  kill : Reg → Ins

pub record Line : Type 0 where
  pub labels : List Label
  pub ins : Ins

pub record Fn : Type 0 where
  pub id : ℕ
  pub label : String
  pub mir : Mir.Fn
  pub lines : List Line
  pub local_regs : NumMap Reg

pub record Program : Type 0 where
  pub strings : NumMap String
  pub fns : List Fn
