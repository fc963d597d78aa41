-- ===== src/Front/Checking/Memory/Questions.antt =====
-- Each question to `Checker` of sbc/front.ts, and what it adds to what is remembered.
use h4_projekt_gruppe_0_sm.Prelude.{
  ℕ, zero, suc, ◌&&◌, List, [], ◌∷◌, Option, none, some, ◌==◌, map_get, str_eq,
}
use h4_projekt_gruppe_0_sm.Prelude.Fueled.{thrown, done, present}
use h4_projekt_gruppe_0_sm.Ast as Ast
use h4_projekt_gruppe_0_sm.Ast.{
  mk_ty, TyKind, Expr, mk_expr, ExprKind, Exprs, exprs_length, Stmt, mk_stmt, StmtKind, Param,
  LetStmt, BinaryOp,
}
use h4_projekt_gruppe_0_sm.Ty.{Ty, int, fn}
use h4_projekt_gruppe_0_sm.Front.{Resolve, Resols}
use h4_projekt_gruppe_0_sm.Front.Types.{assignable}
use h4_projekt_gruppe_0_sm.Front.Checking.{
  Memo, Asked, ty_ty, ty_ty_kind, param_tys, fn_stmt_ty, param_of, param_ty, tys_length, check_args,
  is_typed, let_ty, inferred, ask_optional, arg_tys, call_ty, new_let_ty, resolved_ty, expr_kind_ty,
  expr_ty, let_stmt_ty,
}
use h4_projekt_gruppe_0_sm.Front.Checking.Memory.{
  Grows, Grows-bind, Grows-if, Grows-pure, Grows-remember_expr, Grows-remember_stmt,
  Grows-remember_ty, Grows-remembered, Keeps-refl,
}

mutual
  unfolding ty_ty

  ty_ty-Grows : (ty : Ast.Ty) (memo : Memo) → Grows memo (ty_ty ty memo)
  ty_ty-Grows (mk_ty id line kind) memo =
      Grows-remembered memo (map_get memo.ty_tys id) _
        (λ new. Grows-remember_ty memo id (ty_ty_kind kind memo) new (ty_ty_kind-Grows kind memo))

  ty_ty_kind-Grows : (kind : TyKind) (memo : Memo) → Grows memo (ty_ty_kind kind memo)
  ty_ty_kind-Grows TyKind.error memo = Keeps-refl memo
  ty_ty_kind-Grows TyKind.void memo = Keeps-refl memo
  ty_ty_kind-Grows (TyKind.ident ident) memo =
      Grows-if memo (str_eq ident "int") _ _ (Keeps-refl memo)
        (Grows-if memo (str_eq ident "str") _ _ (Keeps-refl memo) tt)
  ty_ty_kind-Grows (TyKind.ptr ty) memo =
      Grows-bind memo (ty_ty ty memo) _ (ty_ty-Grows ty memo) (λ inner memo'. Keeps-refl memo')

param_tys-Grows : (params : List Param) (memo : Memo) → Grows memo (param_tys params memo)
unfolding param_tys
param_tys-Grows [] memo = Keeps-refl memo
param_tys-Grows (param ∷ params) memo =
    Grows-bind memo (ty_ty param.ty memo) _ (ty_ty-Grows param.ty memo) (λ ty memo₁.
      Grows-bind memo₁ (param_tys params memo₁) _ (param_tys-Grows params memo₁)
        (λ tys memo₂. Keeps-refl memo₂))

pub fn_stmt_ty-Grows : (stmt : Stmt) (memo : Memo) → Grows memo (fn_stmt_ty stmt memo)
unfolding fn_stmt_ty
fn_stmt_ty-Grows (mk_stmt id line (StmtKind.fn ident attrs params ty body)) memo =
    Grows-remembered memo (map_get memo.stmt_tys id) _ (λ new. Grows-remember_stmt memo id _ new (
      Grows-bind memo (param_tys params memo) _ (param_tys-Grows params memo) (λ tys memo₁.
        Grows-bind memo₁ (ty_ty ty memo₁) _ (ty_ty-Grows ty memo₁)
          (λ return_ty memo₂. Keeps-refl memo₂))))
fn_stmt_ty-Grows (mk_stmt id line _) memo = tt

pub param_ty-Grows : (stmt : Stmt) (i : ℕ) (memo : Memo) → Grows memo (param_ty stmt i memo)
unfolding param_ty
param_ty-Grows stmt i memo =
    Grows-bind memo (fn_stmt_ty stmt memo) _ (fn_stmt_ty-Grows stmt memo)
      (λ ty memo₁. Grows-pure memo₁ (param_of ty i) _ (λ found. Keeps-refl memo₁))

ask_optional-Grows :
    {A : Type 0} (ask : A → Asked Ty) (o : Option A) (memo : Memo)
    → ((a : A) (memo' : Memo) → Grows memo' (ask a memo'))
    → Grows memo (ask_optional ask o memo)
ask_optional-Grows ask none memo h = Keeps-refl memo
ask_optional-Grows ask (some a) memo h =
    Grows-bind memo (ask a memo) _ (h a memo) (λ ty memo'. Keeps-refl memo')

module _ (ask_expr : Expr → Asked Ty)
    (ask_expr-Grows : (e : Expr) (memo : Memo) → Grows memo (ask_expr e memo)) where
  arg_tys-Grows : (args : Exprs) (memo : Memo) → Grows memo (arg_tys ask_expr args memo)
  unfolding arg_tys
  arg_tys-Grows Exprs.nil memo = Keeps-refl memo
  arg_tys-Grows (Exprs.cons arg args) memo =
      Grows-bind memo (ask_expr arg memo) _ (ask_expr-Grows arg memo) (λ ty memo₁.
        Grows-bind memo₁ (arg_tys ask_expr args memo₁) _ (arg_tys-Grows args memo₁)
          (λ tys memo₂. Keeps-refl memo₂))

  call_ty-Grows :
      (ty : Ty) (args : Exprs) (memo : Memo) → Grows memo (call_ty ask_expr ty args memo)
  unfolding call_ty
  call_ty-Grows (fn s params return_ty) args memo =
      Grows-if memo (tys_length params == exprs_length args) _ _
        (Grows-bind memo (arg_tys ask_expr args memo) _ (arg_tys-Grows args memo)
          (λ tys memo₁. Grows-pure memo₁ (check_args tys params) _ (λ _. Keeps-refl memo₁)))
        tt
  call_ty-Grows _ args memo = tt

  new_let_ty-Grows :
      (let_stmt : LetStmt) (memo : Memo) → Grows memo (new_let_ty ask_expr let_stmt memo)
  unfolding new_let_ty
  new_let_ty-Grows let_stmt memo =
      Grows-bind memo (ask_optional ty_ty let_stmt.ty memo) _
        (ask_optional-Grows ty_ty let_stmt.ty memo ty_ty-Grows)
        (λ decl memo₁.
          Grows-bind memo₁ (ask_optional ask_expr let_stmt.expr memo₁) _
            (ask_optional-Grows ask_expr let_stmt.expr memo₁ ask_expr-Grows)
            (λ value memo₂.
              Grows-pure memo₂ (present _ (let_ty decl value)) _
                (λ ty. Grows-pure memo₂ (inferred ty) _ (λ known. Keeps-refl memo₂))))

  module _ (ask_let : Stmt → Asked Ty)
      (ask_let-Grows : (s : Stmt) (memo : Memo) → Grows memo (ask_let s memo)) where
    resolved_ty-Grows :
        (r : Resolve) (memo : Memo) → Grows memo (resolved_ty ask_expr ask_let r memo)
    unfolding resolved_ty
    resolved_ty-Grows (Resolve.fn stmt) memo = fn_stmt_ty-Grows stmt memo
    resolved_ty-Grows (Resolve.param stmt param i) memo = param_ty-Grows stmt i memo
    resolved_ty-Grows (Resolve.let_ stmt) memo = ask_let-Grows stmt memo
    resolved_ty-Grows (Resolve.loop stmt) memo = tt

    expr_kind_ty-Grows :
        (kind : ExprKind) (res : Option Resolve) (memo : Memo)
        → Grows memo (expr_kind_ty ask_expr ask_let kind res memo)
    unfolding expr_kind_ty
    expr_kind_ty-Grows ExprKind.error res memo = Keeps-refl memo
    expr_kind_ty-Grows (ExprKind.ident ident) res memo =
        Grows-pure memo (present "" res) _ (λ r. resolved_ty-Grows r memo)
    expr_kind_ty-Grows (ExprKind.int value) res memo = Keeps-refl memo
    expr_kind_ty-Grows (ExprKind.str value) res memo = Keeps-refl memo
    expr_kind_ty-Grows (ExprKind.call callee args) res memo =
        Grows-bind memo (ask_expr callee memo) _ (ask_expr-Grows callee memo)
          (λ ty memo₁. call_ty-Grows ty args memo₁)
    expr_kind_ty-Grows (ExprKind.not_ operand) res memo = tt
    expr_kind_ty-Grows (ExprKind.negate operand) res memo = tt
    expr_kind_ty-Grows (ExprKind.binary op left right) res memo =
        Grows-bind memo (ask_expr left memo) _ (ask_expr-Grows left memo) (λ l memo₁.
          Grows-bind memo₁ (ask_expr right memo₁) _ (ask_expr-Grows right memo₁) (λ r memo₂.
            Grows-if memo₂ (is_typed op && (assignable l int && assignable r int))
              (done (int, memo₂)) (thrown _) (Keeps-refl memo₂) tt))

module _ (re : Resols) where
  mutual
    unfolding expr_ty

    pub expr_ty-Grows : (fuel : ℕ) (e : Expr) (memo : Memo) → Grows memo (expr_ty re fuel e memo)
    expr_ty-Grows zero e memo = tt
    expr_ty-Grows (suc fuel) (mk_expr id line kind) memo =
        Grows-remembered memo (map_get memo.expr_tys id) _ (λ new.
          Grows-remember_expr memo id _ new (
            expr_kind_ty-Grows (expr_ty re fuel) (expr_ty-Grows fuel) (let_stmt_ty re fuel)
              (let_stmt_ty-Grows fuel) kind _ memo))

    pub let_stmt_ty-Grows :
        (fuel : ℕ) (s : Stmt) (memo : Memo) → Grows memo (let_stmt_ty re fuel s memo)
    let_stmt_ty-Grows zero s memo = tt
    let_stmt_ty-Grows (suc fuel) (mk_stmt id line (StmtKind.let_ let_stmt)) memo =
        Grows-remembered memo (map_get memo.stmt_tys id) _ (λ new.
          Grows-remember_stmt memo id _ new
            (new_let_ty-Grows (expr_ty re fuel) (expr_ty-Grows fuel) let_stmt memo))
    let_stmt_ty-Grows (suc fuel) (mk_stmt id line _) memo = tt
