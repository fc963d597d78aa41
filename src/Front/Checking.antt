-- ===== src/Front/Checking.antt =====
-- `Checker` of sbc/front.ts: the types of expressions and statements, each remembered by its number. A question
-- about an expression may ask for the `let` that an identifier refers to, and that for an expression again, so
-- the questions are on fuel. `report` throws, so what would follow it is left out, and messages are shortened.
-- A parameter that a function does not have throws here, where the source gives `undefined`.
pub mod Memory
pub mod Answers
pub mod Endless
use h4_projekt_gruppe_0_sm.Prelude.{
  ℕ, zero, suc, Bool, true, false, ◌&&◌, List, [], ◌∷◌, Option, none, some, if◌then◌else◌, ◌==◌,
  NumMap, map_get, map_set, str_eq,
}
use h4_projekt_gruppe_0_sm.Prelude.Fueled.{Fueled, out_of_fuel, thrown, done, ◌>>=◌, present}
use h4_projekt_gruppe_0_sm.Ast as Ast
use h4_projekt_gruppe_0_sm.Ast.{
  mk_ty, TyKind, Expr, mk_expr, ExprKind, Exprs, exprs_length, Stmt, mk_stmt, StmtKind, Param,
  LetStmt, BinaryOp,
}
use h4_projekt_gruppe_0_sm.Ty.{Ty, Tys, error, unknown, void, int, str, ptr, fn, nil, cons}
use h4_projekt_gruppe_0_sm.Front as Front
use h4_projekt_gruppe_0_sm.Front.{Resolve, Resols}
use h4_projekt_gruppe_0_sm.Front.Types.{assignable, resolve_tys}

-- The fields of the class that change.
pub record Memo : Type 0 where
  pub stmt_tys : NumMap Ty
  pub expr_tys : NumMap Ty
  pub ty_tys : NumMap Ty

unfoldable pub new_memo : Memo
new_memo = record { stmt_tys = []; expr_tys = []; ty_tys = [] }

-- A question and what it makes of the memory.
abbrev pub Asked : Type 0 → Type 0
Asked A = Memo → Fueled (A × Memo)

unfoldable pub remember_ty : ℕ → Ty × Memo → Fueled (Ty × Memo)
remember_ty id (ty, memo) = done (ty, record memo { ty_tys = map_set memo.ty_tys id ty })

unfoldable pub remember_stmt : ℕ → Ty × Memo → Fueled (Ty × Memo)
remember_stmt id (ty, memo) = done (ty, record memo { stmt_tys = map_set memo.stmt_tys id ty })

unfoldable pub remember_expr : ℕ → Ty × Memo → Fueled (Ty × Memo)
remember_expr id (ty, memo) = done (ty, record memo { expr_tys = map_set memo.expr_tys id ty })

-- `if (tys.has(id)) return tys.get(id)!`, and what follows
abbrev pub remembered : Option Ty → Asked Ty → Asked Ty
remembered (some ty) ask memo = done (ty, memo)
remembered none ask memo = ask memo

unfoldable mutual
  pub ty_ty : Ast.Ty → Asked Ty
  ty_ty (mk_ty id line kind) memo =
      remembered (map_get memo.ty_tys id) (λ memo'. ty_ty_kind kind memo' >>= remember_ty id) memo

  pub ty_ty_kind : TyKind → Asked Ty
  ty_ty_kind TyKind.error memo = done (error, memo)
  ty_ty_kind TyKind.void memo = done (void, memo)
  ty_ty_kind (TyKind.ident ident) memo =
      if str_eq ident "int"
      then done (int, memo)
      else if str_eq ident "str"
      then done (str, memo)
      else thrown "Checker: unknown type"
  ty_ty_kind (TyKind.ptr ty) memo = ty_ty ty memo >>= λ (inner, memo₁). done (ptr inner, memo₁)

-- `k.params.map((param) => this.tyTy(param.ty))`
unfoldable pub param_tys : List Param → Asked Tys
unfolding ty_ty
param_tys [] memo = done (nil, memo)
param_tys (param ∷ params) memo = ty_ty param.ty memo >>= λ (ty, memo₁).
    param_tys params memo₁ >>= λ (tys, memo₂). done (cons ty tys, memo₂)

unfoldable pub fn_stmt_ty : Stmt → Asked Ty
unfolding param_tys remember_stmt
fn_stmt_ty (mk_stmt id line (StmtKind.fn ident attrs params ty body)) memo =
    remembered (map_get memo.stmt_tys id)
      (λ memo'.
        (param_tys params memo' >>= λ (tys, memo₁). ty_ty ty memo₁ >>= λ (return_ty, memo₂).
        done (fn (mk_stmt id line (StmtKind.fn ident attrs params ty body)) tys return_ty, memo₂))
        >>= remember_stmt id)
      memo
fn_stmt_ty (mk_stmt id line _) memo = thrown ""

abbrev pub nth_ty : Tys → ℕ → Option Ty
nth_ty nil i = none
nth_ty (cons ty tys) zero = some ty
nth_ty (cons ty tys) (suc i) = nth_ty tys i

abbrev pub param_of : Ty → ℕ → Fueled Ty
param_of (fn s tys return_ty) i = present "" (nth_ty tys i)
param_of _ i = thrown ""

unfoldable pub param_ty : Stmt → ℕ → Asked Ty
unfolding fn_stmt_ty
param_ty stmt i memo =
    fn_stmt_ty stmt memo >>= λ (ty, memo₁). param_of ty i >>= λ found. done (found, memo₁)

abbrev pub tys_length : Tys → ℕ
tys_length nil = 0
tys_length (cons ty tys) = suc (tys_length tys)

-- Each argument against its parameter.
unfoldable pub check_args : Tys → Tys → Fueled (Unit {0})
unfolding resolve_tys
check_args arg_tys nil = done tt
check_args nil (cons param params) = thrown ""
check_args (cons arg args) (cons param params) =
    present "Checker: argument mismatch" (resolve_tys arg param) >>= λ _. check_args args params

-- the operators of the four calls of `cfg`
abbrev pub is_typed : BinaryOp → Bool
is_typed BinaryOp.or = false
is_typed BinaryOp.xor = false
is_typed BinaryOp.and = false
is_typed _ = true

-- The type of a `let` from its declared type and that of its value.
abbrev pub let_ty : Option Ty → Option Ty → Option Ty
let_ty (some decl) (some value) = resolve_tys decl value
let_ty (some decl) none = some decl
let_ty none (some value) = some value
let_ty none none = some unknown

abbrev pub inferred : Ty → Fueled Ty
inferred unknown = thrown "Checker: could not infer type"
inferred ty = done ty

-- `x && ask(x)`
abbrev pub ask_optional : {A : Type 0} → (A → Asked Ty) → Option A → Asked (Option Ty)
ask_optional ask none memo = done (none, memo)
ask_optional ask (some x) memo = ask x memo >>= λ (ty, memo₁). done (some ty, memo₁)

module _ (ask_expr : Expr → Asked Ty) where
  -- `k.args.map((arg) => this.exprTy(arg))`
  unfoldable pub arg_tys : Exprs → Asked Tys
  arg_tys Exprs.nil memo = done (nil, memo)
  arg_tys (Exprs.cons arg args) memo = ask_expr arg memo >>= λ (ty, memo₁).
      arg_tys args memo₁ >>= λ (tys, memo₂). done (cons ty tys, memo₂)

  unfoldable pub call_ty : Ty → Exprs → Asked Ty
  unfolding arg_tys check_args
  call_ty (fn s params return_ty) args memo =
      if tys_length params == exprs_length args
      then (arg_tys args memo >>= λ (tys, memo₁).
          check_args tys params >>= λ _. done (return_ty, memo₁))
      else thrown "Checker: argument mismatch"
  call_ty _ args memo = thrown "Checker: call to non-function"

  -- `letStmtTy` of a statement that is not remembered
  unfoldable pub new_let_ty : LetStmt → Asked Ty
  unfolding ty_ty resolve_tys
  new_let_ty let_stmt memo = ask_optional ty_ty let_stmt.ty memo >>= λ (decl, memo₁).
      ask_optional ask_expr let_stmt.expr memo₁ >>= λ (value, memo₂).
      present "Checker: type is not assignable" (let_ty decl value) >>= λ ty.
      inferred ty >>= λ known. done (known, memo₂)

  module _ (ask_let : Stmt → Asked Ty) where
    -- The inner `switch (re.tag)` of an identifier.
    unfoldable pub resolved_ty : Resolve → Asked Ty
    unfolding fn_stmt_ty param_ty
    resolved_ty (Resolve.fn stmt) memo = fn_stmt_ty stmt memo
    resolved_ty (Resolve.param stmt param i) memo = param_ty stmt i memo
    resolved_ty (Resolve.let_ stmt) memo = ask_let stmt memo
    resolved_ty (Resolve.loop stmt) memo = thrown ""

    unfoldable pub expr_kind_ty : ExprKind → Option Resolve → Asked Ty
    unfolding resolved_ty call_ty assignable
    expr_kind_ty ExprKind.error res memo = done (error, memo)
    expr_kind_ty (ExprKind.ident ident) res memo = present "" res >>= λ re. resolved_ty re memo
    expr_kind_ty (ExprKind.int value) res memo = done (int, memo)
    expr_kind_ty (ExprKind.str value) res memo = done (ptr str, memo)
    expr_kind_ty (ExprKind.call callee args) res memo =
        ask_expr callee memo >>= λ (ty, memo₁). call_ty ty args memo₁
    expr_kind_ty (ExprKind.not_ operand) res memo = thrown "todo"
    expr_kind_ty (ExprKind.negate operand) res memo = thrown "todo"
    expr_kind_ty (ExprKind.binary op left right) res memo = ask_expr left memo >>= λ (l, memo₁).
        ask_expr right memo₁ >>= λ (r, memo₂).
        if is_typed op && (assignable l int && assignable r int)
        then done (int, memo₂)
        else thrown "Checker: cannot apply the operator"

module _ (re : Resols) where
  unfoldable mutual
    pub expr_ty : ℕ → Expr → Asked Ty
    expr_ty zero expr memo = out_of_fuel
    expr_ty (suc fuel) (mk_expr id line kind) memo =
        remembered (map_get memo.expr_tys id)
          (λ memo'.
            expr_kind_ty (expr_ty fuel) (let_stmt_ty fuel) kind
              (Front.expr re (mk_expr id line kind)) memo'
            >>= remember_expr id)
          memo

    pub let_stmt_ty : ℕ → Stmt → Asked Ty
    let_stmt_ty zero stmt memo = out_of_fuel
    let_stmt_ty (suc fuel) (mk_stmt id line kind) memo = elim kind [
      | StmtKind.let_ let_stmt ↦
          remembered (map_get memo.stmt_tys id)
            (λ memo'. new_let_ty (expr_ty fuel) let_stmt memo' >>= remember_stmt id) memo
      | _ ↦ thrown ""
    ]
