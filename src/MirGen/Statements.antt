-- ===== src/MirGen/Statements.antt =====
-- `lowerStmt`, `lowerBlock` and `generate` of sbc/mir_gen.ts.
use h4_projekt_gruppe_0_sm.Prelude.{
  ℕ, suc, List, [], ◌∷◌, Option, none, some, Result, ok, err, ◌>>=◌, expect, map_get, map_set,
}
use h4_projekt_gruppe_0_sm.Ast.{
  Stmt, mk_stmt, StmtKind, Block, mk_block, Stmts, nil, cons, Param, stmt_id, Expr,
}
use h4_projekt_gruppe_0_sm.Ty as Ty
use h4_projekt_gruppe_0_sm.Mir.{Local, Fn, goto, if_, return, store, pop}
use h4_projekt_gruppe_0_sm.Front as Front
use h4_projekt_gruppe_0_sm.Front.{Resolve, Resols, Checker}
use h4_projekt_gruppe_0_sm.MirGen.FnMirGen.{FnMirGen, local, block, push_stmt, set_ter, enter}
use h4_projekt_gruppe_0_sm.MirGen.Expressions.{lower_expr}

abbrev pub resolved_stmt : Resolve → Stmt
resolved_stmt (Resolve.fn stmt) = stmt
resolved_stmt (Resolve.param stmt param i) = stmt
resolved_stmt (Resolve.let_ stmt) = stmt
resolved_stmt (Resolve.loop stmt) = stmt

-- The `switch (re.tag)` of an assignment.
unfoldable pub assigned : Resolve → FnMirGen → Result Local
assigned (Resolve.fn stmt) gen = err "cannot assign to expression"
assigned (Resolve.let_ stmt) gen = expect "" (map_get gen.let_locals (stmt_id stmt))
assigned (Resolve.loop stmt) gen = err "cannot assign to expression"
assigned (Resolve.param stmt param i) gen = expect "" (map_get gen.param_locals i)

-- A jump out of the middle of a block, after which the statements go to a block of their own.
unfoldable pub leave_to : ℕ → FnMirGen → FnMirGen
unfolding set_ter block enter
leave_to target gen =
    let (gen₁, next) = block (set_ter gen.current_block (goto target) gen) in enter next gen₁

module _ (re : Resols) (ch : Checker) (return_local : Local) where
  -- `if (expr) { lowerExpr(expr); pushStmt({ tag: "store", local }) }`
  unfoldable pub store_expr : Local → Option Expr → FnMirGen → Result FnMirGen
  unfolding lower_expr push_stmt
  store_expr target none gen = ok gen
  store_expr target (some expr) gen =
      lower_expr re ch expr gen >>= λ gen₁. ok (push_stmt (store target) gen₁)

  unfoldable mutual
    pub lower_stmt : Stmt → FnMirGen → Result FnMirGen
    lower_stmt (mk_stmt id line kind) gen = lower_stmt_kind kind (mk_stmt id line kind) gen

    -- The statement itself is the argument after its kind.
    pub lower_stmt_kind : StmtKind → Stmt → FnMirGen → Result FnMirGen
    lower_stmt_kind StmtKind.error stmt gen = err ""
    lower_stmt_kind (StmtKind.fn ident attrs params ty body) stmt gen = err "cannot lower"
    lower_stmt_kind (StmtKind.let_ let_stmt) stmt gen = ch.let_stmt_ty stmt >>= λ ty.
        let (gen₁, new) = local ty none gen in
        store_expr new let_stmt.expr
          (record gen₁ { let_locals = map_set gen₁.let_locals (stmt_id stmt) new })
    lower_stmt_kind (StmtKind.loop body) stmt gen =
        let entry = gen.current_block in
        let (gen₁, loop) = block gen in
        let (gen₂, exit) = block gen₁ in
        let gen₃ = set_ter entry (goto loop) gen₂ in
        let gen₄ = record gen₃ {
          loop_exit_blocks = map_set gen₃.loop_exit_blocks (stmt_id stmt) exit;
        } in
        lower_block body (enter loop gen₄) >>= λ gen₅.
        ok (enter exit (set_ter gen₅.current_block (goto loop) gen₅))
    lower_stmt_kind (StmtKind.while expr body) stmt gen =
        let entry = gen.current_block in
        let (gen₁, cond) = block gen in
        lower_expr re ch expr (enter cond gen₁) >>= λ gen₂.
        let cond_exit = gen₂.current_block in
        let (gen₃, loop) = block (set_ter entry (goto cond) gen₂) in
        let (gen₄, exit) = block gen₃ in
        let gen₅ = set_ter cond_exit (if_ loop exit) gen₄ in
        let gen₆ = record gen₅ {
          loop_exit_blocks = map_set gen₅.loop_exit_blocks (stmt_id stmt) exit;
        } in
        lower_block body (enter loop gen₆) >>= λ gen₇.
        ok (enter exit (set_ter gen₇.current_block (goto cond) gen₇))
    lower_stmt_kind (StmtKind.if_ expr truthy_body) stmt gen = lower_expr re ch expr gen >>= λ gen₁.
        let entry = gen₁.current_block in
        let (gen₂, truthy) = block gen₁ in
        lower_block truthy_body (enter truthy gen₂) >>= λ gen₃.
        let (gen₄, exit) = block gen₃ in
        ok (
          enter exit
            (set_ter entry (if_ truthy exit) (set_ter gen₃.current_block (goto exit) gen₄)))
    lower_stmt_kind (StmtKind.if_else expr truthy_body falsy_body) stmt gen =
        lower_expr re ch expr gen >>= λ gen₁.
        let entry = gen₁.current_block in
        let (gen₂, truthy) = block gen₁ in
        lower_block truthy_body (enter truthy gen₂) >>= λ gen₃.
        let truthy_exit = gen₃.current_block in
        let (gen₄, falsy) = block gen₃ in
        lower_block falsy_body (enter falsy gen₄) >>= λ gen₅.
        let falsy_exit = gen₅.current_block in
        let (gen₆, exit) = block gen₅ in
        let gen₇ = set_ter falsy_exit (goto exit) (set_ter truthy_exit (goto exit) gen₆) in
        ok (enter exit (set_ter entry (if_ truthy falsy) gen₇))
    lower_stmt_kind (StmtKind.return expr) stmt gen =
        store_expr return_local expr gen >>= λ gen₁. ok (leave_to gen₁.return_block gen₁)
    lower_stmt_kind StmtKind.break stmt gen = expect "" (Front.stmt re stmt) >>= λ res.
        expect "" (map_get gen.loop_exit_blocks (stmt_id (resolved_stmt res))) >>= λ target.
        ok (leave_to target gen)
    lower_stmt_kind (StmtKind.assign subject expr) stmt gen =
        expect "" (Front.expr re subject) >>= λ res. assigned res gen >>= λ target.
        lower_expr re ch expr gen >>= λ gen₁. ok (push_stmt (store target) gen₁)
    lower_stmt_kind (StmtKind.expr expr) stmt gen =
        lower_expr re ch expr gen >>= λ gen₁. ok (push_stmt pop gen₁)

    pub lower_block : Block → FnMirGen → Result FnMirGen
    lower_block (mk_block id begin end stmts) gen = lower_stmts stmts gen

    pub lower_stmts : Stmts → FnMirGen → Result FnMirGen
    lower_stmts nil gen = ok gen
    lower_stmts (cons stmt stmts) gen = lower_stmt stmt gen >>= λ gen₁. lower_stmts stmts gen₁

-- The loop over the parameters in `generate`, from the parameter `i` on.
unfoldable pub add_params : Checker → Stmt → ℕ → List Param → FnMirGen → Result FnMirGen
unfolding local
add_params ch stmt i [] gen = ok gen
add_params ch stmt i (param ∷ params) gen = ch.param_ty stmt i >>= λ ty.
    let (gen₁, new) = local ty (some param.ident) gen in
    add_params ch stmt (suc i) params
      (record gen₁ { param_locals = map_set gen₁.param_locals i new })

-- `fnTy.returnTy`, where the type is one of a function
abbrev pub return_ty : Ty.Ty → Result Ty.Ty
return_ty (Ty.Ty.fn stmt params ty) = ok ty
return_ty _ = err ""

unfoldable pub new_gen : FnMirGen
new_gen = record {
  local_ids = 0;
  locals = [];
  param_locals = [];
  let_locals = [];
  block_ids = 0;
  blocks = [];
  return_block = 0;
  current_block = 0;
  loop_exit_blocks = [];
}

-- `generate()` for a function of the given parameters and body.
unfoldable pub generate : Resols → Checker → Stmt → List Param → Block → Result Fn
unfolding new_gen local add_params block enter lower_block set_ter
generate re ch stmt params body = ch.fn_stmt_ty stmt >>= λ fn_ty. return_ty fn_ty >>= λ ty.
    let (gen₁, return_local) = local ty none new_gen in
    add_params ch stmt 0 params gen₁ >>= λ gen₂.
    let (gen₃, entry) = block gen₂ in
    let (gen₄, exit) = block gen₃ in
    lower_block re ch return_local body (enter entry (record gen₄ { return_block = exit }))
    >>= λ gen₅.
        let gen₆ = set_ter exit return (set_ter gen₅.current_block (goto exit) gen₅) in
        ok (record {
          stmt = stmt;
          locals = gen₆.locals;
          param_locals = gen₆.param_locals;
          return_local = return_local;
          blocks = gen₆.blocks;
          entry = entry;
          exit = gen₆.return_block;
        })
