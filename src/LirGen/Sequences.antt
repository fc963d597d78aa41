-- ===== src/LirGen/Sequences.antt =====
-- The statements of a block, one after the other, through `lowerStmt` of sbc/lir_gen.ts.
use h4_projekt_gruppe_0_sm.Prelude.{
  suc, String, List, [], ◌∷◌, ◌++◌, some, ◌≡◌, refl, sym, ap, ◌∙◌, NumMap, map_get, ok, >>=-eq-ok,
  append_assoc, append-nil, map-append, eq_of_some, eq_of_ok, expect-eq-ok,
}
use h4_projekt_gruppe_0_sm.Ast.{stmt_id}
use h4_projekt_gruppe_0_sm.Mir as Mir
use h4_projekt_gruppe_0_sm.Mir.{StmtKind, Local}
use h4_projekt_gruppe_0_sm.Lir.{Line, push, pop, call_reg, kill}
use h4_projekt_gruppe_0_sm.LirGen.Strings.{intern}
use h4_projekt_gruppe_0_sm.LirGen.Interning.{IsNumbered, intern_lem}
use h4_projekt_gruppe_0_sm.LirGen.FnGen.{FnGen, lower_stmt, lower_stmts, pop_args}
use h4_projekt_gruppe_0_sm.LirGen.Statements.{
  Runs, done, Runs-append, emits-strings, instructions, instructions-emitted, emitted,
}
use h4_projekt_gruppe_0_sm.LirGen.Simulation.{IsInjective, IsRelated}
use h4_projekt_gruppe_0_sm.Machine.Target.{Target}
use h4_projekt_gruppe_0_sm.Machine.Registers.{State}
use h4_projekt_gruppe_0_sm.Machine.Stack.{Meaning, Frame, step, steps, >>=-eq-some}
use h4_projekt_gruppe_0_sm.LirGen.Lowering.{Extends, Links, lower_stmt-IsLowered}

-- The table of strings stays numbered, and grows.
record IsGrown (gen gen' : FnGen) : Type 0 where
  numbered : IsNumbered gen'.strings
  extends : Extends gen.strings.strings gen'.strings.strings

IsGrown-same :
    (gen gen' : FnGen) → IsNumbered gen.strings → gen'.strings ≡ gen.strings → IsGrown gen gen'
IsGrown-same gen gen' n e = record { numbered = rw e n; extends = λ id v h. rw e h }

lower_stmt-IsGrown :
    (stmt : StmtKind) (gen gen' : FnGen)
    → lower_stmt stmt gen ≡ ok gen'
    → IsNumbered gen.strings
    → IsGrown gen gen'
unfolding lower_stmt
lower_stmt-IsGrown StmtKind.error gen gen' e n =
    IsGrown-same gen gen' n (ap (λ g. g.strings) (sym (eq_of_ok e)))
lower_stmt-IsGrown (StmtKind.push (Mir.Val.str val) ty) gen gen' e n =
    let (numbered, _, extends, _) = intern_lem val gen.strings n in
    let same : gen'.strings ≡ (intern val gen.strings).0 = ap (λ g. g.strings) (sym (eq_of_ok e)) in
    record { numbered = rw same numbered; extends = λ id v h. rw same (extends id v h) }
lower_stmt-IsGrown (StmtKind.push (Mir.Val.fn stmt) ty) gen gen' e n =
    let (fn, at, e') = expect-eq-ok "" (map_get gen.stmt_fns (stmt_id stmt)) _ e in
    IsGrown-same gen gen' n (ap (λ g. g.strings) (sym (eq_of_ok e')))
lower_stmt-IsGrown (StmtKind.load local) gen gen' e n =
    let (slot, at, e') = expect-eq-ok "" (map_get gen.local_regs local.id) _ e in
    IsGrown-same gen gen' n (ap (λ g. g.strings) (sym (eq_of_ok e')))
lower_stmt-IsGrown (StmtKind.store local) gen gen' e n =
    let (slot, at, e') = expect-eq-ok "" (map_get gen.local_regs local.id) _ e in
    IsGrown-same gen gen' n (ap (λ g. g.strings) (sym (eq_of_ok e')))
lower_stmt-IsGrown (StmtKind.call args) gen gen' e n = IsGrown-same gen gen' n (
    ap (λ g. g.strings) (sym (eq_of_ok e))
    ∙ emits-strings (suc (suc args))
        (pop gen.reg_ids
          ∷ call_reg gen.reg_ids args
          ∷ kill gen.reg_ids
          ∷ pop (suc gen.reg_ids)
          ∷ (pop_args args (suc (suc gen.reg_ids))
              ++ (push (suc gen.reg_ids) ∷ kill (suc gen.reg_ids) ∷ [])))
        gen)
lower_stmt-IsGrown _ gen gen' e n = IsGrown-same gen gen' n (ap (λ g. g.strings) (sym (eq_of_ok e)))

lower_stmts-IsGrown :
    (stmts : List StmtKind) (gen gen' : FnGen)
    → lower_stmts stmts gen ≡ ok gen'
    → IsNumbered gen.strings
    → IsGrown gen gen'
unfolding lower_stmts
lower_stmts-IsGrown [] gen gen' e n =
    IsGrown-same gen gen' n (ap (λ g. g.strings) (sym (eq_of_ok e)))
lower_stmts-IsGrown (stmt ∷ stmts) gen gen' e n =
    let (gen₁, e₁, e₂) = >>=-eq-ok (lower_stmt stmt gen) _ e in
    let first = lower_stmt-IsGrown stmt gen gen₁ e₁ n in
    let rest = lower_stmts-IsGrown stmts gen₁ gen' e₂ first.numbered in
    record {
      numbered = rest.numbered;
      extends = λ id v h. rest.extends id v (first.extends id v h);
    }

module _ {target : Target} (meaning : Meaning target) where
  -- The lines that the statements add, and where they lead.
  abbrev pub IsLoweredTo : FnGen → FnGen → State target → Frame target → Type 0
  IsLoweredTo gen gen' s m' =
      (lines : List Line) × (t : State target) × (gen'.lines ≡ gen.lines ++ lines)
      × Runs (instructions lines) s t
      × IsRelated gen.local_regs t m'

  run_stmts :
      (table : NumMap String) (stmts : List StmtKind) (gen gen' : FnGen) (s : State target)
      (m m' : Frame target)
      → lower_stmts stmts gen ≡ ok gen'
      → IsNumbered gen.strings
      → Extends gen'.strings.strings table
      → Links meaning table gen.stmt_fns
      → IsInjective gen.local_regs
      → IsRelated gen.local_regs s m
      → steps meaning stmts m ≡ some m'
      → IsLoweredTo gen gen' s m'
  unfolding lower_stmts steps
  run_stmts table [] gen gen' s m m' e n x links apart related h = (
    [],
    s,
    ap (λ g. g.lines) (sym (eq_of_ok e)) ∙ sym (append-nil gen.lines),
    done,
    rw (← eq_of_some h) related,
  )
  run_stmts table (stmt ∷ stmts) gen gen' s m m' e n x links apart related h =
      let (gen₁, e₁, e₂) = >>=-eq-ok (lower_stmt stmt gen) _ e in
      let (m₁, h₁, h₂) = >>=-eq-some (step meaning stmt m) _ h in
      let grown =
        lower_stmts-IsGrown stmts gen₁ gen' e₂ (lower_stmt-IsGrown stmt gen gen₁ e₁ n).numbered in
      let first =
        lower_stmt-IsLowered meaning table gen.stmt_fns links gen.local_regs apart stmt gen gen₁ e₁
          n (λ id v k. x id v (grown.extends id v k)) refl refl in
      let (t, r, related₁) = first.simulates s m m₁ related h₁ in
      let (lines, u, lines-eq, r', related₂) =
        run_stmts table stmts gen₁ gen' t m₁ m' e₂ first.numbered x
          (rw first.emitted.same_fns links) (rw first.emitted.same_slots apart)
          (rw first.emitted.same_slots related₁) h₂ in
      (
        emitted gen.current_labels first.code ++ lines,
        u,
        lines-eq ∙ (ap (λ ls. ls ++ lines) first.emitted.grown ∙ append_assoc gen.lines _ lines),
        rw
            (
              map-append (λ line. line.ins) (emitted gen.current_labels first.code) lines,
              instructions-emitted gen.current_labels first.code,
            )
            (Runs-append r r'),
        rw first.emitted.same_slots at related₂,
      )

  -- Where the table of strings is numbered from 0 without repetition, the words of the strings and functions
  -- are those of their content and no two locals share a slot, and from a state that is related to the stack machine's: if the statements run on the stack
  -- machine without a fault, the lines that they are lowered to run straight through and lead to a
  -- state that is related to the stack machine's result.
  pub lower_stmts-simulates :
      (stmts : List StmtKind) (gen gen' : FnGen) (s : State target) (m m' : Frame target)
      → lower_stmts stmts gen ≡ ok gen'
      → IsNumbered gen.strings
      → Links meaning gen'.strings.strings gen.stmt_fns
      → IsInjective gen.local_regs
      → IsRelated gen.local_regs s m
      → steps meaning stmts m ≡ some m'
      → IsLoweredTo gen gen' s m'
  lower_stmts-simulates stmts gen gen' s m m' e n =
      run_stmts gen'.strings.strings stmts gen gen' s m m' e n (λ id v h. h)
