-- ===== src/Front/Resolver.antt =====
-- `Resolver` of sbc/front.ts: names and `break` to what they refer to. The functions that a block declares
-- are resolved after the block's own statements. The source keeps them in a stack of lists till then; here
-- the statements of the block are gone through once more.
pub mod Bodies
pub mod Breaks
pub mod Names
use h4_projekt_gruppe_0_sm.Prelude.{
  ℕ, suc, String, List, [], ◌∷◌, Option, none, some, NumMap, map_set, drop, Result, ok, err, ◌>>=◌,
  expect,
}
use h4_projekt_gruppe_0_sm.Ast as Ast
use h4_projekt_gruppe_0_sm.Ast.{
  Expr, mk_expr, ExprKind, Exprs, Stmt, mk_stmt, StmtKind, Block, mk_block, Stmts, Param,
}
use h4_projekt_gruppe_0_sm.Front.{Resolve, Resols}
use h4_projekt_gruppe_0_sm.Front.Syms as Syms
use h4_projekt_gruppe_0_sm.Front.Syms.{Syms, val, define_val}

pub record Resolver : Type 0 where
  pub syms : Syms
  pub stmt_resols : NumMap Resolve
  pub expr_resols : NumMap Resolve
  pub loop_stack : List Stmt

-- `this.syms.defineVal(ident, re)`
unfoldable pub define : String → Resolve → Resolver → Resolver
unfolding define_val
define ident re r = record r { syms = define_val ident re r.syms }

-- `this.loopStack.push(stmt)` and `this.loopStack.pop()`; the top of the stack is first
unfoldable pub push_loop : Stmt → Resolver → Resolver
push_loop loop r = record r { loop_stack = loop ∷ r.loop_stack }

unfoldable pub pop_loop : Resolver → Resolver
pop_loop r = record r { loop_stack = drop 1 r.loop_stack }

unfoldable mutual
  pub resolve_expr : Expr → Resolver → Result Resolver
  resolve_expr (mk_expr id line kind) r = resolve_expr_kind kind id r

  pub resolve_expr_kind : ExprKind → ℕ → Resolver → Result Resolver
  resolve_expr_kind ExprKind.error id r = ok r
  resolve_expr_kind (ExprKind.ident ident) id r =
      expect "Resolver: ident not defined" (val r.syms ident) >>= λ re.
      ok (record r { expr_resols = map_set r.expr_resols id re })
  resolve_expr_kind (ExprKind.int value) id r = ok r
  resolve_expr_kind (ExprKind.str value) id r = ok r
  resolve_expr_kind (ExprKind.call callee args) id r =
      resolve_expr callee r >>= λ r₁. resolve_args args r₁
  resolve_expr_kind (ExprKind.not_ operand) id r = err "todo"
  resolve_expr_kind (ExprKind.negate operand) id r = err "todo"
  resolve_expr_kind (ExprKind.binary op left right) id r =
      resolve_expr left r >>= λ r₁. resolve_expr right r₁

  pub resolve_args : Exprs → Resolver → Result Resolver
  resolve_args Exprs.nil r = ok r
  resolve_args (Exprs.cons arg args) r = resolve_expr arg r >>= λ r₁. resolve_args args r₁

-- `expr && this.resolveExpr(expr)`
abbrev pub resolve_optional : Option Expr → Resolver → Result Resolver
resolve_optional none r = ok r
resolve_optional (some expr) r = resolve_expr expr r

-- The `break` of the innermost loop.
unfoldable pub resolve_break : ℕ → Resolver → Result Resolver
resolve_break id r = elim r.loop_stack [
  | [] ↦ err "Resolver: break outside loop"
  | loop ∷ _ ↦ ok (record r { stmt_resols = map_set r.stmt_resols id (Resolve.loop loop) })
]

-- The loop over the parameters of a function, from the parameter `i` on.
unfoldable pub define_params : Stmt → ℕ → List Param → Syms → Syms
unfolding define_val
define_params stmt i [] syms = syms
define_params stmt i (param ∷ params) syms =
    define_params stmt (suc i) params (define_val param.ident (Resolve.param stmt param i) syms)

unfoldable mutual
  pub resolve_stmt : Stmt → Resolver → Result Resolver
  resolve_stmt (mk_stmt id line kind) r = resolve_stmt_kind kind (mk_stmt id line kind) r

  -- The statement itself is the argument after its kind.
  pub resolve_stmt_kind : StmtKind → Stmt → Resolver → Result Resolver
  resolve_stmt_kind StmtKind.error stmt r = ok r
  resolve_stmt_kind (StmtKind.fn ident attrs params ty body) stmt r =
      ok (define ident (Resolve.fn stmt) r)
  resolve_stmt_kind (StmtKind.let_ let_stmt) stmt r =
      resolve_optional let_stmt.expr (define let_stmt.ident (Resolve.let_ stmt) r)
  resolve_stmt_kind (StmtKind.loop body) stmt r =
      resolve_block body (push_loop stmt r) >>= λ r₁. ok (pop_loop r₁)
  resolve_stmt_kind (StmtKind.while expr body) stmt r = resolve_expr expr r >>= λ r₁.
      resolve_block body (push_loop stmt r₁) >>= λ r₂. ok (pop_loop r₂)
  resolve_stmt_kind (StmtKind.if_ expr truthy) stmt r =
      resolve_expr expr r >>= λ r₁. resolve_block truthy r₁
  resolve_stmt_kind (StmtKind.if_else expr truthy falsy) stmt r =
      resolve_expr expr r >>= λ r₁. resolve_block truthy r₁ >>= λ r₂. resolve_block falsy r₂
  resolve_stmt_kind (StmtKind.return expr) stmt r = resolve_optional expr r
  resolve_stmt_kind StmtKind.break stmt r = resolve_break (Ast.stmt_id stmt) r
  resolve_stmt_kind (StmtKind.assign subject expr) stmt r =
      resolve_expr subject r >>= λ r₁. resolve_expr expr r₁
  resolve_stmt_kind (StmtKind.expr expr) stmt r = resolve_expr expr r

  -- `resolveBlock`, with `resolveStmts` of its statements
  pub resolve_block : Block → Resolver → Result Resolver
  resolve_block (mk_block id line_entry line_exit stmts) r =
      resolve_each stmts (record r { syms = Syms.normal [] r.syms }) >>= λ r₁.
      resolve_fns stmts r₁ >>= λ r₂. ok (record r₂ { syms = r.syms })

  -- The first loop of `resolveStmts`.
  pub resolve_each : Stmts → Resolver → Result Resolver
  resolve_each Stmts.nil r = ok r
  resolve_each (Stmts.cons stmt stmts) r = resolve_stmt stmt r >>= λ r₁. resolve_each stmts r₁

  -- The second loop of `resolveStmts`.
  pub resolve_fns : Stmts → Resolver → Result Resolver
  resolve_fns Stmts.nil r = ok r
  resolve_fns (Stmts.cons stmt stmts) r = resolve_fn stmt r >>= λ r₁. resolve_fns stmts r₁

  pub resolve_fn : Stmt → Resolver → Result Resolver
  resolve_fn (mk_stmt id line kind) r = resolve_fn_kind kind (mk_stmt id line kind) r

  -- The body of the second loop, at the functions of the block only.
  pub resolve_fn_kind : StmtKind → Stmt → Resolver → Result Resolver
  resolve_fn_kind (StmtKind.fn ident attrs params ty body) stmt r =
      resolve_block body
        (record r { loop_stack = []; syms = define_params stmt 0 params (Syms.fn [] r.syms) })
      >>= λ r₁. ok (record r₁ { syms = r.syms; loop_stack = r.loop_stack })
  resolve_fn_kind _ stmt r = ok r

-- `resolveStmts`
unfoldable pub resolve_stmts : Stmts → Resolver → Result Resolver
unfolding resolve_each
resolve_stmts stmts r = resolve_each stmts r >>= λ r₁. resolve_fns stmts r₁

unfoldable pub new_resolver : Resolver
new_resolver = record { syms = Syms.root []; stmt_resols = []; expr_resols = []; loop_stack = [] }

-- `resolve()`
unfoldable pub resolve : Stmts → Result Resols
unfolding resolve_stmts new_resolver
resolve ast = resolve_stmts ast new_resolver >>= λ r.
    ok (record { stmt_resols = r.stmt_resols; expr_resols = r.expr_resols })
