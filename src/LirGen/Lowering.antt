-- ===== src/LirGen/Lowering.antt =====
-- `lowerStmt` of sbc/lir_gen.ts: the lines that it pushes, beside the MIR statement.
use h4_projekt_gruppe_0_sm.Prelude.{
  ℕ, suc, String, List, [], ◌∷◌, ◌++◌, some, ◌≡◌, refl, sym, ap, ◌∙◌, NumMap, map_get, ok, arith,
  eq_of_some, eq_of_ok, expect-eq-ok, take,
}
use h4_projekt_gruppe_0_sm.Ast.{Stmt, stmt_id}
use h4_projekt_gruppe_0_sm.Mir as Mir
use h4_projekt_gruppe_0_sm.Mir.{StmtKind, Local}
use h4_projekt_gruppe_0_sm.Lir.{
  Reg, Ins, mov_int, mov_string, mov_fn, push, pop, load, store_reg, call_reg, binary, kill,
}
use h4_projekt_gruppe_0_sm.Ty.{Ty}
use h4_projekt_gruppe_0_sm.LirGen.Strings.{StringIntern, intern}
use h4_projekt_gruppe_0_sm.LirGen.Interning.{IsNumbered, intern_lem}
use h4_projekt_gruppe_0_sm.LirGen.FnGen.{FnGen, lower_stmt, pop_args, push_all, take_regs}
use h4_projekt_gruppe_0_sm.LirGen.Statements.{Emits, emits, emits-strings}
use h4_projekt_gruppe_0_sm.LirGen.Simulation.{
  IsInjective, IsRelated, Simulates, value_runs, pop_runs, store_runs, binary_runs, call_runs,
  load_runs,
}
use h4_projekt_gruppe_0_sm.Machine.Target.{Target, operation}
use h4_projekt_gruppe_0_sm.Machine.Registers.{State, effect, next, write}
use h4_projekt_gruppe_0_sm.Machine.Stack.{
  Meaning, Frame, word, step, steps, pop_word, pop_words, >>=-eq-some, pop_word-eq-some,
}

abbrev pub Extends : NumMap String → NumMap String → Type 0
Extends t t' = (id : ℕ) (v : String) → map_get t id ≡ some v → map_get t' id ≡ some v

module _ {target : Target} (meaning : Meaning target) (table : NumMap String)
    (stmt_fns : NumMap ℕ) where
  -- The target's words for the numbers of strings and functions are those of their content; `table` is
  -- the table of the finished program.
  pub record Links : Type 0 where
    pub texts :
        (id : ℕ) (v : String) → map_get table id ≡ some v → target.string id ≡ meaning.text v
    pub codes :
        (stmt : Stmt) (id : ℕ)
        → map_get stmt_fns (stmt_id stmt) ≡ some id
        → target.fn id ≡ meaning.code stmt

  -- From related states the code does what the statements do, wherever they do not fault.
  abbrev pub IsCodeOf : NumMap Reg → List StmtKind → List Ins → Type 0
  IsCodeOf regs stmts code =
      (s : State target) (m m' : Frame target)
      → IsRelated regs s m
      → steps meaning stmts m ≡ some m'
      → Simulates regs code s m'

  module _ (links : Links) (regs : NumMap Reg) (apart : IsInjective regs) where
    abbrev pub IsStep : StmtKind → List Ins → Type 0
    IsStep stmt code =
        (s : State target) (m m' : Frame target)
        → IsRelated regs s m
        → step meaning stmt m ≡ some m'
        → Simulates regs code s m'

    error-IsStep : IsStep StmtKind.error (Ins.error ∷ [])
    unfolding step
    error-IsStep s m m' related h = cc

    push-IsStep :
        (ins : Ins) (reg : Reg) (val : Mir.Val) (ty : Ty)
        → ((s : State target)
            → effect ins s ≡ next (record s { regs = write s.regs reg (some (word meaning val)) }))
        → IsStep (StmtKind.push val ty) (ins ∷ push reg ∷ kill reg ∷ [])
    unfolding step
    push-IsStep ins reg val ty e s m m' related h =
        rw (← eq_of_some h) (value_runs regs ins reg s m (word meaning val) (e s) related)

    pop-IsStep : (reg : Reg) → IsStep StmtKind.pop (pop reg ∷ kill reg ∷ [])
    unfolding step
    pop-IsStep reg s m m' related h =
        let (p, e, h') = >>=-eq-some (pop_word m.stack) _ h in
        rw (← eq_of_some h') (pop_runs regs reg s m p.0 p.1 (pop_word-eq-some m.stack p e) related)

    load-IsStep :
        (reg slot : Reg) (local : Local)
        → map_get regs local.id ≡ some slot
        → IsStep (StmtKind.load local) (load reg slot ∷ push reg ∷ kill reg ∷ [])
    unfolding step
    load-IsStep reg slot local at s m m' related h =
        let (w, e, h') = >>=-eq-some (m.locals local.id) _ h in
        rw (← eq_of_some h') (load_runs regs reg slot local.id s m w at e related)

    store-IsStep :
        (reg slot : Reg) (local : Local)
        → map_get regs local.id ≡ some slot
        → IsStep (StmtKind.store local) (pop reg ∷ store_reg slot reg ∷ kill reg ∷ [])
    unfolding step
    store-IsStep reg slot local at s m m' related h =
        let (p, e, h₁) = >>=-eq-some (pop_word m.stack) _ h in
        let (old, e₂, h₂) = >>=-eq-some (m.locals local.id) _ h₁ in
        rw (← eq_of_some h₂) (
          store_runs regs reg slot local.id s m p.0 old p.1 apart at (pop_word-eq-some m.stack p e)
            e₂ related)

    call-IsStep :
        (reg args : ℕ)
        → IsStep (StmtKind.call args) (
            pop reg
            ∷ call_reg reg args
            ∷ kill reg
            ∷ pop (suc reg)
            ∷ (pop_args args (suc (suc reg)) ++ (push (suc reg) ∷ kill (suc reg) ∷ [])))
    unfolding step
    call-IsStep reg args s m m' related h =
        let (p, e, h₁) = >>=-eq-some (pop_word m.stack) _ h in
        let (q, e₂, h₂) = >>=-eq-some (target.call p.0 (take args p.1) m.world) _ h₁ in
        let (ws, e₃, h₃) = >>=-eq-some (pop_words args p.1) _ h₂ in
        rw (← eq_of_some h₃) (
          call_runs regs reg args s m p.0 q.0 q.1 p.1 ws (pop_word-eq-some m.stack p e) e₂ e₃
            related)

    binary-IsStep :
        (src : Reg) (op : Mir.BinaryOp)
        → IsStep (StmtKind.binary op) (
            pop src
            ∷ pop (suc src)
            ∷ binary op (suc src) src
            ∷ push (suc src)
            ∷ kill src
            ∷ kill (suc src)
            ∷ [])
    unfolding step
    binary-IsStep src op s m m' related h =
        let (p, e, h₁) = >>=-eq-some (pop_word m.stack) _ h in
        let (q, e₂, h₂) = >>=-eq-some (pop_word p.1) _ h₁ in
        let (w, e₃, h₃) = >>=-eq-some (operation target op q.0 p.0) _ h₂ in
        rw (← eq_of_some h₃) (
          binary_runs regs src (suc src) op s m p.0 q.0 w q.1 (omega arith)
            (pop_word-eq-some m.stack p e ∙ ap (λ ws. p.0 ∷ ws) (pop_word-eq-some p.1 q e₂)) e₃
            related)

    string_next :
        (reg : Reg) (id : ℕ) (val : String) (s : State target)
        → target.string id ≡ meaning.text val
        → effect (mov_string reg id) s
          ≡ next (record s { regs = write s.regs reg (some (word meaning (Mir.Val.str val))) })
    unfolding effect word
    string_next reg id val s e = rw e

    fn_next :
        (reg : Reg) (id : ℕ) (stmt : Stmt) (s : State target)
        → target.fn id ≡ meaning.code stmt
        → effect (mov_fn reg id) s
          ≡ next (record s { regs = write s.regs reg (some (word meaning (Mir.Val.fn stmt))) })
    unfolding effect word
    fn_next reg id stmt s e = rw e

    -- What the lowering of one statement leaves.
    pub record IsLowered (stmt : StmtKind) (gen gen' : FnGen) : Type 0 where
      pub code : List Ins
      pub emitted : Emits gen gen' code
      pub simulates : IsStep stmt code
      pub numbered : IsNumbered gen'.strings
      pub extends : Extends gen.strings.strings gen'.strings.strings

    -- Code pushed behind `count` new registers, with the table `t` of strings.
    lowered :
        (stmt : StmtKind) (gen : FnGen) (t : StringIntern) (count : ℕ) (ins : Ins) (code : List Ins)
        → IsNumbered t
        → Extends gen.strings.strings t.strings
        → IsStep stmt (ins ∷ code)
        → IsLowered stmt gen (push_all (ins ∷ code) (take_regs count (record gen { strings = t })))
    lowered stmt gen t count ins code numbered extends simulates =
        let same = emits-strings count (ins ∷ code) (record gen { strings = t }) in
        let e = emits count ins code (record gen { strings = t }) in
        record {
          code = ins ∷ code;
          emitted = record {
            grown = e.grown;
            labels_done = e.labels_done;
            same_slots = e.same_slots;
            same_labels = e.same_labels;
            same_fns = e.same_fns;
          };
          simulates = simulates;
          numbered = rw same numbered;
          extends = λ id v h. rw same (extends id v h);
        }

    Extends-self : (t : NumMap String) → Extends t t
    Extends-self t id v h = h

    pub lower_stmt-IsLowered :
        (stmt : StmtKind) (gen gen' : FnGen)
        → lower_stmt stmt gen ≡ ok gen'
        → IsNumbered gen.strings
        → Extends gen'.strings.strings table
        → gen.stmt_fns ≡ stmt_fns
        → gen.local_regs ≡ regs
        → IsLowered stmt gen gen'
    unfolding lower_stmt
    lower_stmt-IsLowered StmtKind.error gen gen' e n x f l =
        rw (← eq_of_ok e) (lowered _ gen gen.strings 0 Ins.error [] n (Extends-self _) error-IsStep)
    lower_stmt-IsLowered (StmtKind.push (Mir.Val.int val) ty) gen gen' e n x f l =
        let reg = gen.reg_ids in
        rw (← eq_of_ok e) (
          lowered _ gen gen.strings 1 (mov_int reg val) _ n (Extends-self _) (
            push-IsStep (mov_int reg val) reg (Mir.Val.int val) ty
              (λ s. unfold effect word in refl)))
    lower_stmt-IsLowered (StmtKind.push (Mir.Val.str val) ty) gen gen' e n x f l =
        let reg = gen.reg_ids in
        let string_id = (intern val gen.strings).1 in
        let (numbered, there, grown, _) = intern_lem val gen.strings n in
        let same : gen'.strings ≡ (intern val gen.strings).0 =
          ap (λ g. g.strings) (sym (eq_of_ok e))
          ∙ emits-strings 1 (mov_string reg string_id ∷ push reg ∷ kill reg ∷ [])
              (record gen { strings = (intern val gen.strings).0 }) in
        let text : target.string string_id ≡ meaning.text val =
          links.texts string_id val (x string_id val (rw same there)) in
        rw (← eq_of_ok e) (
          lowered _ gen (intern val gen.strings).0 1 (mov_string reg string_id) _ numbered grown (
            push-IsStep (mov_string reg string_id) reg (Mir.Val.str val) ty
              (λ s. string_next reg string_id val s text)))
    lower_stmt-IsLowered (StmtKind.push (Mir.Val.fn stmt) ty) gen gen' e n x f l =
        let reg = gen.reg_ids in
        let (fn, at, e') = expect-eq-ok "" (map_get gen.stmt_fns (stmt_id stmt)) _ e in
        let code : target.fn fn ≡ meaning.code stmt = links.codes stmt fn (rw f at at) in
        rw (← eq_of_ok e') (
          lowered _ gen gen.strings 1 (mov_fn reg fn) _ n (Extends-self _) (
            push-IsStep (mov_fn reg fn) reg (Mir.Val.fn stmt) ty (λ s. fn_next reg fn stmt s code)))
    lower_stmt-IsLowered StmtKind.pop gen gen' e n x f l = rw (← eq_of_ok e) (
        lowered _ gen gen.strings 1 (pop gen.reg_ids) _ n (Extends-self _) (pop-IsStep gen.reg_ids))
    lower_stmt-IsLowered (StmtKind.load local) gen gen' e n x f l =
        let (slot, at, e') = expect-eq-ok "" (map_get gen.local_regs local.id) _ e in
        rw (← eq_of_ok e') (
          lowered _ gen gen.strings 1 _ _ n (Extends-self _)
            (load-IsStep gen.reg_ids slot local (rw l at at)))
    lower_stmt-IsLowered (StmtKind.store local) gen gen' e n x f l =
        let (slot, at, e') = expect-eq-ok "" (map_get gen.local_regs local.id) _ e in
        rw (← eq_of_ok e') (
          lowered _ gen gen.strings 1 _ _ n (Extends-self _)
            (store-IsStep gen.reg_ids slot local (rw l at at)))
    lower_stmt-IsLowered (StmtKind.call args) gen gen' e n x f l = rw (← eq_of_ok e) (
        lowered _ gen gen.strings (suc (suc args)) _ _ n (Extends-self _)
          (call-IsStep gen.reg_ids args))
    lower_stmt-IsLowered (StmtKind.binary op) gen gen' e n x f l =
        rw (← eq_of_ok e)
          (lowered _ gen gen.strings 2 _ _ n (Extends-self _) (binary-IsStep gen.reg_ids op))
