-- ===== src/AsmGen/Functions.antt =====
-- The bodies of functions in sbc/asm_gen.ts, and `generate` from the text section on; the data section,
-- which holds the strings, is not modelled.
use h4_projekt_gruppe_0_sm.Prelude.{
  ℕ, zero, suc, ◌+◌, ◌*◌, String, List, [], ◌∷◌, ◌++◌, Option, none, some, if◌then◌else◌, ◌==◌, map,
  drop, take, length, map_get, Result, ok, err, ◌>>=◌, expect,
}
use h4_projekt_gruppe_0_sm.Ast.{Attr, Stmt}
use h4_projekt_gruppe_0_sm.Attr.{from_stmt, has, get, args, first_str}
use h4_projekt_gruppe_0_sm.Lir.{Ins, Line, Fn}
use h4_projekt_gruppe_0_sm.AsmGen.Asm.{
  Asm, Symbol, Reg64, rax, rdi, rsi, rdx, rcx, r8, r9, rbp, rsp, reg, imm, symbol, frame, stack, fn,
  local, exit, div, mod_, label, extern, global, ret, cqo, align_stack, push, pop, idiv, mov, sub,
  call, jmp, pos,
}
use h4_projekt_gruppe_0_sm.AsmGen.Layout.{
  StackAllocator, alloc_param, alloc_local, StackLayout, finalize, offset,
}
use h4_projekt_gruppe_0_sm.AsmGen.Registers.{AsmGen, write_all}
use h4_projekt_gruppe_0_sm.AsmGen.Instructions.{generate_ins}

-- `strVal(0)` after the guard `attr.args !== 1 || !attr.isStr(0)`
unfoldable pub checked_label : Attr → Result String
unfolding args
checked_label attr =
    if args attr == 1
    then expect "incorrect args for attribute" (first_str attr.args)
    else err "incorrect args for attribute"

-- `queryCFunction` and `queryCExport`: the label in the attribute of the given name, where there is one.
unfoldable pub query : String → Stmt → Result (Option String)
unfolding has get checked_label
query ident stmt = from_stmt stmt >>= λ attrs.
    if has attrs ident
    then (get attrs ident >>= λ found. checked_label found >>= λ text. ok (some text))
    else ok none

abbrev pub arg_regs : List Reg64
arg_regs = rdi ∷ rsi ∷ rdx ∷ rcx ∷ r8 ∷ r9 ∷ []

-- The loop over the arguments, from the argument `i` on, for `count` of them.
unfoldable pub push_args : ℕ → ℕ → List Asm
push_args zero i = []
push_args (suc count) i =
    mov (reg rax) (frame (pos ((i + 2) * 8))) ∷ push rax ∷ push_args count (suc i)

unfoldable pub generate_c_function_body : Fn → String → ℕ → List Asm
unfolding push_args
generate_c_function_body f name args =
    extern name
    ∷ label (fn f.id)
    ∷ push rbp
    ∷ mov (reg rbp) (reg rsp)
    ∷ sub (reg rsp) (imm 8)
    ∷ align_stack
    ∷ (push_args args 0
        ++ (map (λ r. pop r) (take args arg_regs)
            ++ (call (symbol (Symbol.name name)) ∷ mov (reg rsp) (reg rbp) ∷ pop rbp ∷ ret ∷ [])))

unfoldable pub generate_c_exporter : Fn → String → List Asm
generate_c_exporter f name =
    global name
    ∷ label (Symbol.name name)
    ∷ push rbp
    ∷ mov (reg rbp) (reg rsp)
    ∷ (map (λ r. push r) (take (length f.mir.param_locals) arg_regs)
        ++ (call (symbol (fn f.id)) ∷ mov (reg rsp) (reg rbp) ∷ pop rbp ∷ ret ∷ []))

-- The first loop of `generateFnBody`: the lines before the body, and where the body starts.
unfoldable pub allocate : List Line → ℕ → StackAllocator → StackAllocator × ℕ
unfolding alloc_param alloc_local
allocate [] i allocator = (allocator, 0)
allocate (line ∷ lines) i allocator = elim line.ins [
  | Ins.alloc_param r size ↦ allocate lines (suc i) (alloc_param r size allocator)
  | Ins.alloc_local r size ↦ allocate lines (suc i) (alloc_local r size allocator)
  | _ ↦ (allocator, i)
]

-- The second loop of `generateFnBody`.
unfoldable pub generate_lines : StackLayout → List Line → AsmGen → Result AsmGen
unfolding write_all generate_ins
generate_lines layout [] gen = ok gen
generate_lines layout (line ∷ lines) gen =
    generate_ins layout line.ins (write_all (map (λ l. label (local l)) line.labels) gen)
    >>= λ gen₁. generate_lines layout lines gen₁

unfoldable pub generate_fn_body : Fn → AsmGen → Result AsmGen
unfolding allocate finalize generate_lines offset write_all
generate_fn_body f gen =
    let (allocator, body_idx) = allocate f.lines 0 (record { param_regs = []; local_regs = [] }) in
    let layout = finalize allocator in
    expect "" (map_get f.local_regs f.mir.return_local.id) >>= λ return_reg.
    offset layout return_reg >>= λ return_local_offset.
    generate_lines layout (drop body_idx f.lines) (
      write_all
        (label (fn f.id)
          ∷ push rbp
          ∷ mov (reg rbp) (reg rsp)
          ∷ sub (reg rsp) (imm layout.frame_size)
          ∷ jmp (local f.mir.entry)
          ∷ [])
        gen)
    >>= λ gen₁. ok (
        write_all
          (label exit
            ∷ mov (reg rax) (frame return_local_offset)
            ∷ mov (reg rsp) (reg rbp)
            ∷ pop rbp
            ∷ ret
            ∷ [])
          gen₁)

unfoldable pub generate_fn : Fn → AsmGen → Result AsmGen
unfolding query generate_c_function_body generate_fn_body generate_c_exporter write_all
generate_fn f gen = query "c_function" f.mir.stmt >>= λ c_function. elim c_function [
  | some c_label ↦
      ok (write_all (generate_c_function_body f c_label (length f.mir.param_locals)) gen)
  | none ↦ generate_fn_body f gen >>= λ gen₁. query "c_export" f.mir.stmt >>= λ c_export.
      elim c_export [
        | some c_label ↦ ok (write_all (generate_c_exporter f c_label) gen₁)
        | none ↦ ok gen₁
      ]
]

unfoldable pub generate_fns : List Fn → AsmGen → Result AsmGen
unfolding generate_fn
generate_fns [] gen = ok gen
generate_fns (f ∷ fns) gen = generate_fn f gen >>= λ gen₁. generate_fns fns gen₁

-- The two routines after the functions.
abbrev pub division : List Asm
division =
    label div
    ∷ mov (reg rax) (stack 16)
    ∷ mov (reg rdi) (stack 8)
    ∷ cqo
    ∷ idiv rdi
    ∷ ret
    ∷ label mod_
    ∷ mov (reg rax) (stack 16)
    ∷ mov (reg rdi) (stack 8)
    ∷ cqo
    ∷ idiv rdi
    ∷ mov (reg rax) (reg rdx)
    ∷ ret
    ∷ []

-- `generate` from `section .text` on.
unfoldable pub generate_text : List Fn → Result (List Asm)
unfolding generate_fns write_all
generate_text fns =
    generate_fns fns (record { live_regs = []; reg_select = []; lines = [] }) >>= λ gen.
    ok (write_all division gen).lines
