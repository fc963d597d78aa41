-- ===== src/LirOptimize/Replace.antt =====
-- sbc/lir_optimize.ts: `replaceReg` and `pollutesStack`.
use h4_projekt_gruppe_0_sm.Prelude.{Bool, true, false, List, map, ◌==◌, if◌then◌else◌}
use h4_projekt_gruppe_0_sm.Lir.{
  Reg, Ins, error, nop, ret, alloc_param, alloc_local, mov_int, mov_string, mov_fn, push, pop, load,
  store_reg, store_imm, call_reg, call_imm, jmp, jnz_reg, binary, kill, Line,
}

-- the `r` of `replaceReg`
abbrev pub renamed : Reg → Reg → Reg → Reg
renamed cand replacement reg = if reg == cand then replacement else reg

-- The operands of an instruction under a renaming.
unfoldable pub rename : (Reg → Reg) → Ins → Ins
rename r error = error
rename r nop = nop
rename r ret = ret
rename r (alloc_param reg size) = alloc_param (r reg) size
rename r (alloc_local reg size) = alloc_local (r reg) size
rename r (mov_int reg val) = mov_int (r reg) val
rename r (mov_string reg id) = mov_string (r reg) id
rename r (mov_fn reg fn) = mov_fn (r reg) fn
rename r (push reg) = push (r reg)
rename r (pop reg) = pop (r reg)
rename r (load reg s_reg) = load (r reg) (r s_reg)
rename r (store_reg s_reg reg) = store_reg (r s_reg) (r reg)
rename r (store_imm s_reg val) = store_imm (r s_reg) val
rename r (call_reg reg args) = call_reg (r reg) args
rename r (call_imm fn args) = call_imm fn args
rename r (jmp target) = jmp target
rename r (jnz_reg reg target) = jnz_reg (r reg) target
rename r (binary op dst src) = binary op (r dst) (r src)
rename r (kill reg) = kill (r reg)

unfoldable pub replace_reg_ins : Reg → Reg → Ins → Ins
replace_reg_ins cand replacement = rename (renamed cand replacement)

abbrev pub replace_reg_line : Reg → Reg → Line → Line
replace_reg_line cand replacement line = record line {
  ins = replace_reg_ins cand replacement line.ins;
}

-- `replaceReg(fn, cand, replacement)` on the lines of `fn`
unfoldable pub replace_reg : Reg → Reg → List Line → List Line
replace_reg cand replacement = map (replace_reg_line cand replacement)

unfoldable pub pollutes_stack : Ins → Bool
pollutes_stack (push reg) = true
pollutes_stack (pop reg) = true
pollutes_stack (call_reg reg args) = true
pollutes_stack (call_imm fn args) = true
pollutes_stack (binary op dst src) = true
pollutes_stack _ = false
