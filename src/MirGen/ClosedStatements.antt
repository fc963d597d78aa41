-- ===== src/MirGen/ClosedStatements.antt =====
-- References to blocks through `lowerStmt` and `lowerBlock` of sbc/mir_gen.ts.
use h4_projekt_gruppe_0_sm.Prelude.{
  ℕ, suc, ◌<◌, ◌≤◌, List, [], ◌∷◌, Option, none, some, ◌≡◌, refl, sym, subst, arith, map_get,
  map_set, ok, ◌>>=◌, >>=-eq-ok, expect-eq-ok, eq_of_ok, true,
}
use h4_projekt_gruppe_0_sm.Ast.{
  Stmt, mk_stmt, StmtKind, Block, mk_block, Stmts, nil, cons, stmt_id, Expr,
}
use h4_projekt_gruppe_0_sm.Mir as Mir
use h4_projekt_gruppe_0_sm.Mir.{Local, Fn, goto, if_, return, store, pop}
use h4_projekt_gruppe_0_sm.Front as Front
use h4_projekt_gruppe_0_sm.Front.{Resols, Checker}
use h4_projekt_gruppe_0_sm.Machine.Target.{Target}
use h4_projekt_gruppe_0_sm.Machine.Stack.{Meaning}
use h4_projekt_gruppe_0_sm.MirOptimize.{cfg_successors}
use h4_projekt_gruppe_0_sm.MirGen.FnMirGen.{FnMirGen, local, block, push_stmt, set_ter, enter}
use h4_projekt_gruppe_0_sm.MirGen.Expressions.{lower_expr}
use h4_projekt_gruppe_0_sm.MirGen.Statements.{
  resolved_stmt, assigned, leave_to, store_expr, lower_stmt, lower_stmt_kind, lower_block,
  lower_stmts,
}
use h4_projekt_gruppe_0_sm.MirGen.Code.{extended}
use h4_projekt_gruppe_0_sm.MirGen.Correct.{expr_code}
use h4_projekt_gruppe_0_sm.MirGen.Closed.{
  IsClosed, extended-IsClosed, set_ter-IsClosed, block-IsClosed, enter-IsClosed, exit-IsClosed,
  exit_below,
}

-- `gen'` is closed and has the blocks of `gen`.
abbrev pub Closes : FnMirGen → FnMirGen → Type 0
Closes gen gen' = IsClosed gen' × (gen.block_ids ≤ gen'.block_ids)

-- some target, since code does not depend on it
abbrev units : Target
units = record {
  Word = Unit {0};
  World = Unit {0};
  int = λ val. tt;
  string = λ id. tt;
  fn = λ id. tt;
  is_zero = λ w. true;
  less = λ a b. none;
  greater = λ a b. none;
  at_most = λ a b. none;
  at_least = λ a b. none;
  equal = λ a b. none;
  unequal = λ a b. none;
  sum = λ a b. none;
  difference = λ a b. none;
  product = λ a b. none;
  quotient = λ a b. none;
  remainder = λ a b. none;
  call = λ f args world. none;
}

abbrev unit_meaning : Meaning units
unit_meaning = record { text = λ text. tt; code = λ stmt. tt }

Closes-extended :
    (code : List Mir.StmtKind) (gen gen' : FnMirGen)
    → gen' ≡ extended code gen
    → IsClosed gen
    → Closes gen gen'
Closes-extended code gen gen' e h =
    subst (Closes gen) (sym e) (extended-IsClosed code gen h, omega arith)

push_stmt-Closes :
    (kind : Mir.StmtKind) (gen : FnMirGen) → IsClosed gen → Closes gen (push_stmt kind gen)
unfolding push_stmt
push_stmt-Closes kind gen h = Closes-extended (kind ∷ []) gen _ refl h

leave_to-Closes :
    (target : ℕ) (gen : FnMirGen)
    → target < gen.block_ids
    → IsClosed gen
    → Closes gen (leave_to target gen)
unfolding leave_to set_ter block enter cfg_successors
leave_to-Closes target gen below h =
    let left = set_ter-IsClosed gen.current_block (goto target) gen (below, tt) h in
    (
      enter-IsClosed gen.block_ids (block (set_ter gen.current_block (goto target) gen)).0
          (omega arith) (block-IsClosed (set_ter gen.current_block (goto target) gen) left),
      omega arith,
    )

-- The state in which the body of a loop is lowered.
abbrev body_start : ℕ → ℕ → ℕ → FnMirGen → FnMirGen
body_start key loop exit gen =
    enter loop (record gen { loop_exit_blocks = map_set gen.loop_exit_blocks key exit })

body_start-IsClosed :
    (key loop exit : ℕ) (gen : FnMirGen)
    → loop < gen.block_ids
    → exit < gen.block_ids
    → IsClosed gen
    → IsClosed (body_start key loop exit gen)
body_start-IsClosed key loop exit gen hl he c =
    enter-IsClosed loop (record gen { loop_exit_blocks = map_set gen.loop_exit_blocks key exit }) hl
      (exit-IsClosed key exit gen he c)

-- The end of a loop: back to `target`, and on at `exit`.
close-Closes :
    (target exit : ℕ) (gen gen' : FnMirGen)
    → target < gen'.block_ids
    → exit < gen'.block_ids
    → gen.block_ids ≤ gen'.block_ids
    → IsClosed gen'
    → Closes gen (enter exit (set_ter gen'.current_block (goto target) gen'))
unfolding enter set_ter cfg_successors
close-Closes target exit gen gen' ht he more c = (
  enter-IsClosed exit (set_ter gen'.current_block (goto target) gen') he
      (set_ter-IsClosed gen'.current_block (goto target) gen' (ht, tt) c),
  more,
)

module _ (re : Resols) (ch : Checker) (return_local : Local) where
  lower_expr-Closes :
      (e : Expr) (gen gen' : FnMirGen)
      → lower_expr re ch e gen ≡ ok gen'
      → IsClosed gen
      → Closes gen gen'
  lower_expr-Closes e gen gen' h c =
      let (code, grown, _) =
        expr_code unit_meaning re ch gen.param_locals gen.let_locals e gen gen' refl refl h in
      Closes-extended code gen gen' grown c

  -- An expression and one more statement.
  lower_then-Closes :
      (e : Expr) (kind : Mir.StmtKind) (gen gen' : FnMirGen)
      → (lower_expr re ch e gen >>= λ gen₁. ok (push_stmt kind gen₁)) ≡ ok gen'
      → IsClosed gen
      → Closes gen gen'
  lower_then-Closes e kind gen gen' h c =
      let (gen₁, h₁, r) = >>=-eq-ok (lower_expr re ch e gen) _ h in
      let first = lower_expr-Closes e gen gen₁ h₁ c in
      let second = push_stmt-Closes kind gen₁ first.0 in
      rw (← eq_of_ok r) (second.0, omega (arith, first.1, second.1))

  store_expr-Closes :
      (target : Local) (e : Option Expr) (gen gen' : FnMirGen)
      → store_expr re ch return_local target e gen ≡ ok gen'
      → IsClosed gen
      → Closes gen gen'
  unfolding store_expr
  store_expr-Closes target none gen gen' h c = rw (← eq_of_ok h) (c, omega arith)
  store_expr-Closes target (some e) gen gen' h c = lower_then-Closes e (store target) gen gen' h c

  mutual
    unfolding lower_stmt lower_stmt_kind lower_block lower_stmts block set_ter enter local
        cfg_successors

    stmt-Closes :
        (s : Stmt) (gen gen' : FnMirGen)
        → lower_stmt re ch return_local s gen ≡ ok gen'
        → IsClosed gen
        → Closes gen gen'
    stmt-Closes (mk_stmt id line kind) gen gen' h c =
        kind-Closes kind (mk_stmt id line kind) gen gen' h c

    kind-Closes :
        (k : StmtKind) (s : Stmt) (gen gen' : FnMirGen)
        → lower_stmt_kind re ch return_local k s gen ≡ ok gen'
        → IsClosed gen
        → Closes gen gen'
    kind-Closes StmtKind.error s gen gen' h c = cc
    kind-Closes (StmtKind.fn ident attrs params ty body) s gen gen' h c = cc
    kind-Closes (StmtKind.let_ let_stmt) s gen gen' h c =
        let (ty, _, r) = >>=-eq-ok (ch.let_stmt_ty s) _ h in
        store_expr-Closes _ let_stmt.expr _ gen' r c
    kind-Closes (StmtKind.loop body) s gen gen' h c =
        let loop : ℕ = gen.block_ids in
        let exit : ℕ = suc gen.block_ids in
        let gen₁ : FnMirGen = (block gen).0 in
        let gen₂ : FnMirGen = (block gen₁).0 in
        let c₂ : IsClosed gen₂ = block-IsClosed gen₁ (block-IsClosed gen c) in
        let gen₃ : FnMirGen = set_ter gen.current_block (goto loop) gen₂ in
        let c₃ : IsClosed gen₃ =
          set_ter-IsClosed gen.current_block (goto loop) gen₂ (omega arith, tt) c₂ in
        let gen₄ : FnMirGen = body_start (stmt_id s) loop exit gen₃ in
        let c₄ = body_start-IsClosed (stmt_id s) loop exit gen₃ (omega arith) (omega arith) c₃ in
        let (gen₅, h₅, r) = >>=-eq-ok (lower_block re ch return_local body gen₄) _ h in
        let (c₅, more) = block-Closes body gen₄ gen₅ h₅ c₄ in
        rw (← eq_of_ok r) (
          close-Closes loop exit gen gen₅ (omega (arith, more)) (omega (arith, more))
            (omega (arith, more)) c₅)
    kind-Closes (StmtKind.while expr body) s gen gen' h c =
        let cond : ℕ = gen.block_ids in
        let gen₁ : FnMirGen = enter cond (block gen).0 in
        let c₁ : IsClosed gen₁ =
          enter-IsClosed cond (block gen).0 (omega arith) (block-IsClosed gen c) in
        let (gen₂, h₂, r) = >>=-eq-ok (lower_expr re ch expr gen₁) _ h in
        let (c₂, more₂) = lower_expr-Closes expr gen₁ gen₂ h₂ c₁ in
        let gen₃ : FnMirGen = set_ter gen.current_block (goto cond) gen₂ in
        let c₃ : IsClosed gen₃ =
          set_ter-IsClosed gen.current_block (goto cond) gen₂ (omega (arith, more₂), tt) c₂ in
        let loop : ℕ = gen₂.block_ids in
        let exit : ℕ = suc gen₂.block_ids in
        let gen₄ : FnMirGen = (block (block gen₃).0).0 in
        let c₄ : IsClosed gen₄ = block-IsClosed (block gen₃).0 (block-IsClosed gen₃ c₃) in
        let gen₅ : FnMirGen = set_ter gen₂.current_block (if_ loop exit) gen₄ in
        let c₅ : IsClosed gen₅ =
          set_ter-IsClosed gen₂.current_block (if_ loop exit) gen₄ (omega arith, (omega arith, tt))
            c₄ in
        let gen₆ : FnMirGen = body_start (stmt_id s) loop exit gen₅ in
        let c₆ = body_start-IsClosed (stmt_id s) loop exit gen₅ (omega arith) (omega arith) c₅ in
        let (gen₇, h₇, r₇) = >>=-eq-ok (lower_block re ch return_local body gen₆) _ r in
        let (c₇, more) = block-Closes body gen₆ gen₇ h₇ c₆ in
        rw (← eq_of_ok r₇) (
          close-Closes cond exit gen gen₇ (omega (arith, more, more₂)) (omega (arith, more))
            (omega (arith, more, more₂)) c₇)
    kind-Closes (StmtKind.if_ expr truthy) s gen gen' h c =
        let (gen₁, h₁, r) = >>=-eq-ok (lower_expr re ch expr gen) _ h in
        let (c₁, more₁) = lower_expr-Closes expr gen gen₁ h₁ c in
        let truthy_id : ℕ = gen₁.block_ids in
        let gen₂ : FnMirGen = enter truthy_id (block gen₁).0 in
        let c₂ : IsClosed gen₂ =
          enter-IsClosed truthy_id (block gen₁).0 (omega arith) (block-IsClosed gen₁ c₁) in
        let (gen₃, h₃, r₃) = >>=-eq-ok (lower_block re ch return_local truthy gen₂) _ r in
        let (c₃, more₃) = block-Closes truthy gen₂ gen₃ h₃ c₂ in
        let exit : ℕ = gen₃.block_ids in
        let gen₄ : FnMirGen = (block gen₃).0 in
        let gen₅ : FnMirGen = set_ter gen₃.current_block (goto exit) gen₄ in
        let c₅ : IsClosed gen₅ =
          set_ter-IsClosed gen₃.current_block (goto exit) gen₄ (omega arith, tt)
            (block-IsClosed gen₃ c₃) in
        let gen₆ : FnMirGen = set_ter gen₁.current_block (if_ truthy_id exit) gen₅ in
        let c₆ : IsClosed gen₆ =
          set_ter-IsClosed gen₁.current_block (if_ truthy_id exit) gen₅
            (omega (arith, more₃), (omega arith, tt)) c₅ in
        rw (← eq_of_ok r₃) (enter-IsClosed exit gen₆ (omega arith) c₆, omega (arith, more₁, more₃))
    kind-Closes (StmtKind.if_else expr truthy falsy) s gen gen' h c =
        let (gen₁, h₁, r) = >>=-eq-ok (lower_expr re ch expr gen) _ h in
        let (c₁, more₁) = lower_expr-Closes expr gen gen₁ h₁ c in
        let truthy_id : ℕ = gen₁.block_ids in
        let gen₂ : FnMirGen = enter truthy_id (block gen₁).0 in
        let c₂ : IsClosed gen₂ =
          enter-IsClosed truthy_id (block gen₁).0 (omega arith) (block-IsClosed gen₁ c₁) in
        let (gen₃, h₃, r₃) = >>=-eq-ok (lower_block re ch return_local truthy gen₂) _ r in
        let (c₃, more₃) = block-Closes truthy gen₂ gen₃ h₃ c₂ in
        let falsy_id : ℕ = gen₃.block_ids in
        let gen₄ : FnMirGen = enter falsy_id (block gen₃).0 in
        let c₄ : IsClosed gen₄ =
          enter-IsClosed falsy_id (block gen₃).0 (omega arith) (block-IsClosed gen₃ c₃) in
        let (gen₅, h₅, r₅) = >>=-eq-ok (lower_block re ch return_local falsy gen₄) _ r₃ in
        let (c₅, more₅) = block-Closes falsy gen₄ gen₅ h₅ c₄ in
        let exit : ℕ = gen₅.block_ids in
        let gen₆ : FnMirGen = set_ter gen₃.current_block (goto exit) (block gen₅).0 in
        let c₆ : IsClosed gen₆ =
          set_ter-IsClosed gen₃.current_block (goto exit) (block gen₅).0 (omega arith, tt)
            (block-IsClosed gen₅ c₅) in
        let gen₇ : FnMirGen = set_ter gen₅.current_block (goto exit) gen₆ in
        let c₇ : IsClosed gen₇ =
          set_ter-IsClosed gen₅.current_block (goto exit) gen₆ (omega arith, tt) c₆ in
        let gen₈ : FnMirGen = set_ter gen₁.current_block (if_ truthy_id falsy_id) gen₇ in
        let c₈ : IsClosed gen₈ =
          set_ter-IsClosed gen₁.current_block (if_ truthy_id falsy_id) gen₇
            (omega (arith, more₃, more₅), (omega (arith, more₅), tt)) c₇ in
        rw (← eq_of_ok r₅)
          (enter-IsClosed exit gen₈ (omega arith) c₈, omega (arith, more₁, more₃, more₅))
    kind-Closes (StmtKind.return expr) s gen gen' h c =
        let (gen₁, h₁, r) = >>=-eq-ok (store_expr re ch return_local return_local expr gen) _ h in
        let first = store_expr-Closes return_local expr gen gen₁ h₁ c in
        let second = leave_to-Closes gen₁.return_block gen₁ first.0.returns first.0 in
        rw (← eq_of_ok r) (second.0, omega (arith, first.1, second.1))
    kind-Closes StmtKind.break s gen gen' h c =
        let (res, _, r) = expect-eq-ok "" (Front.stmt re s) _ h in
        let (target, e, r₁) =
          expect-eq-ok "" (map_get gen.loop_exit_blocks (stmt_id (resolved_stmt res))) _ r in
        rw (← eq_of_ok r₁) (leave_to-Closes target gen (exit_below _ target gen c e) c)
    kind-Closes (StmtKind.assign subject expr) s gen gen' h c =
        let (res, _, r) = expect-eq-ok "" (Front.expr re subject) _ h in
        let (target, _, r₁) = >>=-eq-ok (assigned res gen) _ r in
        lower_then-Closes expr (store target) gen gen' r₁ c
    kind-Closes (StmtKind.expr expr) s gen gen' h c = lower_then-Closes expr pop gen gen' h c

    pub block-Closes :
        (b : Block) (gen gen' : FnMirGen)
        → lower_block re ch return_local b gen ≡ ok gen'
        → IsClosed gen
        → Closes gen gen'
    block-Closes (mk_block id begin end stmts) gen gen' h c = stmts-Closes stmts gen gen' h c

    stmts-Closes :
        (ss : Stmts) (gen gen' : FnMirGen)
        → lower_stmts re ch return_local ss gen ≡ ok gen'
        → IsClosed gen
        → Closes gen gen'
    stmts-Closes nil gen gen' h c = rw (← eq_of_ok h) (c, omega arith)
    stmts-Closes (cons s ss) gen gen' h c =
        let (gen₁, h₁, r) = >>=-eq-ok (lower_stmt re ch return_local s gen) _ h in
        let first = stmt-Closes s gen gen₁ h₁ c in
        let second = stmts-Closes ss gen₁ gen' r first.0 in
        (second.0, omega (arith, first.1, second.1))
