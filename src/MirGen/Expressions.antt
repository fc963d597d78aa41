-- ===== src/MirGen/Expressions.antt =====
-- `lowerExpr` of sbc/mir_gen.ts.
use h4_projekt_gruppe_0_sm.Prelude.{Option, Result, ok, err, ◌>>=◌, expect, map_get}
use h4_projekt_gruppe_0_sm.Ast as Ast
use h4_projekt_gruppe_0_sm.Ast.{Expr, mk_expr, ExprKind, Exprs, nil, cons, exprs_length}
use h4_projekt_gruppe_0_sm.Ty.{Ty}
use h4_projekt_gruppe_0_sm.Mir.{
  BinaryOp, lt, gt, le, ge, eq, ne, add, sub, mul, div, mod_, push, load, call, binary, int, str,
  fn,
}
use h4_projekt_gruppe_0_sm.Front as Front
use h4_projekt_gruppe_0_sm.Front.{Resolve, Resols, Checker}
use h4_projekt_gruppe_0_sm.MirGen.FnMirGen.{FnMirGen, push_stmt}

-- The inner `switch (k.op)`; `or`, `xor` and `and` are not supported.
abbrev pub lower_op : Ast.BinaryOp → Result BinaryOp
lower_op Ast.BinaryOp.or = err "todo"
lower_op Ast.BinaryOp.xor = err "todo"
lower_op Ast.BinaryOp.and = err "todo"
lower_op Ast.BinaryOp.lt = ok lt
lower_op Ast.BinaryOp.gt = ok gt
lower_op Ast.BinaryOp.le = ok le
lower_op Ast.BinaryOp.ge = ok ge
lower_op Ast.BinaryOp.eq = ok eq
lower_op Ast.BinaryOp.ne = ok ne
lower_op Ast.BinaryOp.add = ok add
lower_op Ast.BinaryOp.sub = ok sub
lower_op Ast.BinaryOp.mul = ok mul
lower_op Ast.BinaryOp.div = ok div
lower_op Ast.BinaryOp.mod_ = ok mod_

-- The inner `switch (re.tag)` of an identifier.
unfoldable pub lower_ident : Resolve → Ty → FnMirGen → Result FnMirGen
unfolding push_stmt
lower_ident (Resolve.fn stmt) ty gen = ok (push_stmt (push (fn stmt) ty) gen)
lower_ident (Resolve.param stmt param i) ty gen =
    expect "" (map_get gen.param_locals i) >>= λ local. ok (push_stmt (load local) gen)
lower_ident (Resolve.let_ stmt) ty gen =
    expect "" (map_get gen.let_locals (Ast.stmt_id stmt)) >>= λ local.
    ok (push_stmt (load local) gen)
lower_ident (Resolve.loop stmt) ty gen = err ""

module _ (re : Resols) (ch : Checker) where
  unfoldable mutual
    pub lower_expr : Expr → FnMirGen → Result FnMirGen
    lower_expr (mk_expr id line kind) gen = ch.expr_ty (mk_expr id line kind) >>= λ ty.
        lower_expr_kind kind ty (Front.expr re (mk_expr id line kind)) gen

    pub lower_expr_kind : ExprKind → Ty → Option Resolve → FnMirGen → Result FnMirGen
    lower_expr_kind ExprKind.error ty res gen = err ""
    lower_expr_kind (ExprKind.ident ident) ty res gen =
        expect "" res >>= λ found. lower_ident found ty gen
    lower_expr_kind (ExprKind.int val) ty res gen = ok (push_stmt (push (int val) ty) gen)
    lower_expr_kind (ExprKind.str val) ty res gen = ok (push_stmt (push (str val) ty) gen)
    lower_expr_kind (ExprKind.call callee args) ty res gen = lower_args args gen >>= λ gen₁.
        lower_expr callee gen₁ >>= λ gen₂. ok (push_stmt (call (exprs_length args)) gen₂)
    lower_expr_kind (ExprKind.not_ operand) ty res gen = err "todo"
    lower_expr_kind (ExprKind.negate operand) ty res gen = err "todo"
    lower_expr_kind (ExprKind.binary op left right) ty res gen = lower_expr left gen >>= λ gen₁.
        lower_expr right gen₁ >>= λ gen₂. lower_op op >>= λ op'. ok (push_stmt (binary op') gen₂)

    pub lower_args : Exprs → FnMirGen → Result FnMirGen
    lower_args nil gen = ok gen
    lower_args (cons arg args) gen = lower_expr arg gen >>= λ gen₁. lower_args args gen₁
