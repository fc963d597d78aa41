-- ===== src/AsmGen/Instructions.antt =====
-- `generateIns` of sbc/asm_gen.ts.
use h4_projekt_gruppe_0_sm.Prelude.{[], ◌∷◌, List, Result, ok, err, ◌>>=◌}
use h4_projekt_gruppe_0_sm.Mir.{BinaryOp}
use h4_projekt_gruppe_0_sm.Lir.{Reg, Ins}
use h4_projekt_gruppe_0_sm.AsmGen.Asm.{
  Reg64, rax, Operand, imm, symbol, frame, string, fn, local, exit, div, mod_, Asm, lt, gt, le, ge,
  eq, ne, nop, push, pop, mov, add, sub, imul, cmp, call, jmp, jne, set,
}
use h4_projekt_gruppe_0_sm.AsmGen.Layout.{StackLayout, offset}
use h4_projekt_gruppe_0_sm.AsmGen.Registers.{AsmGen, write_all, reg, kill}

-- Lines with one register.
unfoldable pub with_reg : Reg → (Reg64 → List Asm) → AsmGen → Result AsmGen
unfolding reg write_all
with_reg r lines gen = reg r gen >>= λ (gen₁, machine). ok (write_all (lines machine) gen₁)

-- Lines with two registers, the first of which is chosen first.
unfoldable pub with_regs : Reg → Reg → (Reg64 → Reg64 → List Asm) → AsmGen → Result AsmGen
unfolding reg write_all
with_regs first second lines gen =
    reg first gen >>= λ (gen₁, a). reg second gen₁ >>= λ (gen₂, b). ok (write_all (lines a b) gen₂)

-- The lines of an operation from `dst` and `src` into `dst`.
abbrev pub binary_lines : BinaryOp → Reg64 → Reg64 → List Asm
binary_lines BinaryOp.lt dst src = cmp (Operand.reg dst) (Operand.reg src) ∷ set lt dst ∷ []
binary_lines BinaryOp.gt dst src = cmp (Operand.reg dst) (Operand.reg src) ∷ set gt dst ∷ []
binary_lines BinaryOp.le dst src = cmp (Operand.reg dst) (Operand.reg src) ∷ set le dst ∷ []
binary_lines BinaryOp.ge dst src = cmp (Operand.reg dst) (Operand.reg src) ∷ set ge dst ∷ []
binary_lines BinaryOp.eq dst src = cmp (Operand.reg dst) (Operand.reg src) ∷ set eq dst ∷ []
binary_lines BinaryOp.ne dst src = cmp (Operand.reg dst) (Operand.reg src) ∷ set ne dst ∷ []
binary_lines BinaryOp.add dst src = add (Operand.reg dst) (Operand.reg src) ∷ []
binary_lines BinaryOp.sub dst src = sub (Operand.reg dst) (Operand.reg src) ∷ []
binary_lines BinaryOp.mul dst src = imul (Operand.reg dst) (Operand.reg src) ∷ []
binary_lines BinaryOp.div dst src =
    push dst ∷ push src ∷ call (symbol div) ∷ mov (Operand.reg dst) (Operand.reg rax) ∷ []
binary_lines BinaryOp.mod_ dst src =
    push dst ∷ push src ∷ call (symbol mod_) ∷ mov (Operand.reg dst) (Operand.reg rax) ∷ []

unfoldable pub generate_ins : StackLayout → Ins → AsmGen → Result AsmGen
unfolding with_reg with_regs offset write_all kill
generate_ins layout Ins.error gen = err ""
generate_ins layout Ins.nop gen = ok (write_all (nop ∷ []) gen)
generate_ins layout Ins.ret gen = ok (write_all (jmp exit ∷ []) gen)
generate_ins layout (Ins.alloc_param r size) gen = ok gen
generate_ins layout (Ins.alloc_local r size) gen = ok gen
generate_ins layout (Ins.mov_int r val) gen =
    with_reg r (λ m. mov (Operand.reg m) (imm val) ∷ []) gen
generate_ins layout (Ins.mov_string r id) gen =
    with_reg r (λ m. mov (Operand.reg m) (symbol (string id)) ∷ []) gen
generate_ins layout (Ins.mov_fn r id) gen =
    with_reg r (λ m. mov (Operand.reg m) (symbol (fn id)) ∷ []) gen
generate_ins layout (Ins.push r) gen = with_reg r (λ m. push m ∷ []) gen
generate_ins layout (Ins.pop r) gen = with_reg r (λ m. pop m ∷ []) gen
generate_ins layout (Ins.load r slot) gen =
    offset layout slot >>= λ o. with_reg r (λ m. mov (Operand.reg m) (frame o) ∷ []) gen
generate_ins layout (Ins.store_reg slot r) gen =
    offset layout slot >>= λ o. with_reg r (λ m. mov (frame o) (Operand.reg m) ∷ []) gen
generate_ins layout (Ins.store_imm slot val) gen =
    offset layout slot >>= λ o. ok (write_all (mov (frame o) (imm val) ∷ []) gen)
generate_ins layout (Ins.call_reg r args) gen =
    with_reg r (λ m. call (Operand.reg m) ∷ push rax ∷ []) gen
generate_ins layout (Ins.call_imm id args) gen =
    ok (write_all (call (symbol (fn id)) ∷ push rax ∷ []) gen)
generate_ins layout (Ins.jmp target) gen = ok (write_all (jmp (local target) ∷ []) gen)
generate_ins layout (Ins.jnz_reg r target) gen =
    with_reg r (λ m. cmp (Operand.reg m) (imm 0) ∷ jne (local target) ∷ []) gen
generate_ins layout (Ins.binary op dst src) gen = with_regs dst src (binary_lines op) gen
generate_ins layout (Ins.kill r) gen = ok (kill r gen)
