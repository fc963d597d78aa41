-- ===== src/Front.antt =====
-- sbc/front.ts, the part that the lowering asks: what identifiers, `break` and types resolve to. Its
-- children model the scopes of names and the comparison of types.
pub mod Syms
pub mod Types
pub mod Resolver
pub mod Checking
pub mod Parser
use h4_projekt_gruppe_0_sm.Prelude.{ℕ, Option, NumMap, map_get, Result}
use h4_projekt_gruppe_0_sm.Ast.{Stmt, Expr, Param, stmt_id, expr_id}
use h4_projekt_gruppe_0_sm.Ty.{Ty}

pub data Resolve : Type 0 where
  fn : Stmt → Resolve
  param : Stmt → Param → ℕ → Resolve
  let_ : Stmt → Resolve
  loop : Stmt → Resolve

pub record Resols : Type 0 where
  pub stmt_resols : NumMap Resolve
  pub expr_resols : NumMap Resolve

unfoldable pub stmt : Resols → Stmt → Option Resolve
stmt re s = map_get re.stmt_resols (stmt_id s)

unfoldable pub expr : Resols → Expr → Option Resolve
expr re e = map_get re.expr_resols (expr_id e)

-- What the checker answers: a type, or the error that it throws. Each answer is remembered by the source,
-- so that a question that is asked again has the same answer.
pub record Checker : Type 0 where
  pub fn_stmt_ty : Stmt → Result Ty
  pub param_ty : Stmt → ℕ → Result Ty
  pub let_stmt_ty : Stmt → Result Ty
  pub expr_ty : Expr → Result Ty
