-- ===== src/AsmGen/Registers.antt =====
-- The choice of machine registers in sbc/asm_gen.ts.
use h4_projekt_gruppe_0_sm.Prelude.{
  List, [], ◌∷◌, ◌++◌, not, if◌then◌else◌, ◌==◌, NumMap, map_get, map_set, contains, length,
  get_elem?, select, Result, ok, ◌>>=◌, expect,
}
use h4_projekt_gruppe_0_sm.Lir.{Reg}
use h4_projekt_gruppe_0_sm.AsmGen.Asm.{Asm, Reg64, rax, rdi, rsi, rdx, rcx, r8, r9, r10, r11}

-- The fields of `AsmGen`, with the lines written; the layout is an argument where it is used.
pub record AsmGen : Type 0 where
  pub live_regs : List Reg
  pub reg_select : NumMap Reg64
  pub lines : List Asm

unfoldable pub write : Asm → AsmGen → AsmGen
write line gen = record gen { lines = gen.lines ++ (line ∷ []) }

unfoldable pub write_all : List Asm → AsmGen → AsmGen
write_all lines gen = record gen { lines = gen.lines ++ lines }

abbrev pub selectable : List Reg64
selectable = rax ∷ rdi ∷ rsi ∷ rdx ∷ rcx ∷ r8 ∷ r9 ∷ r10 ∷ r11 ∷ []

unfoldable pub alloc_reg : Reg → AsmGen → Result AsmGen
alloc_reg reg gen =
    if contains gen.live_regs reg
    then ok gen
    else expect "ran out of registers" (get_elem? selectable (length gen.live_regs)) >>= λ reg_sel.
        ok (record gen {
          live_regs = gen.live_regs ++ (reg ∷ []);
          reg_select = map_set gen.reg_select reg reg_sel;
        })

-- `reg(reg)`; `reg8(reg)` is the low byte of the same register
unfoldable pub reg : Reg → AsmGen → Result (AsmGen × Reg64)
unfolding alloc_reg
reg r gen = alloc_reg r gen >>= λ gen₁.
    expect "" (map_get gen₁.reg_select r) >>= λ machine. ok (gen₁, machine)

unfoldable pub kill : Reg → AsmGen → AsmGen
kill reg gen = record gen {
  live_regs = select (λ r. not (r == reg)) gen.live_regs;
  reg_select = select (λ entry. not (entry.0 == reg)) gen.reg_select;
}
