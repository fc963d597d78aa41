-- ===== src/AsmGen/Asm.antt =====
-- The lines that sbc/asm_gen.ts writes, by their syntax. `set` writes the low byte of its register, and
-- `align_stack` is `and rsp, 0xFFFFFFFFFFFFFFF0`.
use h4_projekt_gruppe_0_sm.Prelude.{ℕ, suc, ◌+◌, ◌-◌, String, if◌then◌else◌, leb}

-- Integers, for offsets from `rbp`.
pub data ℤ : Type 0 where
  pos negsuc : ℕ → ℤ

infixl 20 ◌+ℤ◌ ◌-ℤ◌
abbrev pub ◌+ℤ◌ : ℤ → ℕ → ℤ
pos n +ℤ m = pos (n + m)
negsuc n +ℤ m = if leb (suc n) m then pos (m - suc n) else negsuc (n - m)

abbrev pub ◌-ℤ◌ : ℤ → ℕ → ℤ
pos n -ℤ m = if leb m n then pos (n - m) else negsuc (m - suc n)
negsuc n -ℤ m = negsuc (n + m)

pub data Reg64 : Type 0 where
  rax rdi rsi rdx rcx r8 r9 r10 r11 rbp rsp : Reg64

pub data Symbol : Type 0 where
  string fn local : ℕ → Symbol
  name : String → Symbol
  exit div mod_ : Symbol

pub data Operand : Type 0 where
  reg : Reg64 → Operand
  imm : ℕ → Operand
  symbol : Symbol → Operand
  frame : ℤ → Operand
  stack : ℕ → Operand

pub data Cond : Type 0 where
  lt gt le ge eq ne : Cond

pub data Asm : Type 0 where
  label : Symbol → Asm
  extern global : String → Asm
  nop ret cqo align_stack : Asm
  push pop idiv : Reg64 → Asm
  mov add sub imul cmp : Operand → Operand → Asm
  call : Operand → Asm
  jmp jne : Symbol → Asm
  set : Cond → Reg64 → Asm
