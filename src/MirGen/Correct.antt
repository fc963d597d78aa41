-- ===== src/MirGen/Correct.antt =====
-- The code that `lowerExpr` of sbc/mir_gen.ts adds, and the meaning of the expression.
use h4_projekt_gruppe_0_sm.Prelude.{
  List, [], ◌∷◌, Option, some, ◌≡◌, refl, ap, sym, ◌∙◌, map_get, NumMap, ok, >>=-eq-ok,
  expect-eq-ok, eq_of_ok,
}
use h4_projekt_gruppe_0_sm.Ast as Ast
use h4_projekt_gruppe_0_sm.Ast.{Expr, mk_expr, ExprKind, Exprs, nil, cons, exprs_length}
use h4_projekt_gruppe_0_sm.Ty.{Ty}
use h4_projekt_gruppe_0_sm.Mir.{BinaryOp, Local, StmtKind, int, str, fn}
use h4_projekt_gruppe_0_sm.Front as Front
use h4_projekt_gruppe_0_sm.Front.{Resolve, Resols, Checker}
use h4_projekt_gruppe_0_sm.Machine.Target.{Target, operation}
use h4_projekt_gruppe_0_sm.Machine.Stack.{Meaning, Frame, word, steps, ◌>>=◌}
use h4_projekt_gruppe_0_sm.MirGen.FnMirGen.{FnMirGen}
use h4_projekt_gruppe_0_sm.MirGen.Expressions.{
  lower_op, lower_ident, lower_expr, lower_expr_kind, lower_args,
}
use h4_projekt_gruppe_0_sm.MirGen.Meaning.{eval_op, eval_ident, eval, eval_kind, eval_args}
use h4_projekt_gruppe_0_sm.MirGen.Code.{
  extended, Pushes, Computes, ComputesAll, push_code, load_code, call_code, binary_code, arg_code,
  no_args_code,
}

-- An operator does the same before and after it is lowered.
lower_op-operation :
    (target : Target) (op : Ast.BinaryOp) (op' : BinaryOp) (a b : target.Word)
    → lower_op op ≡ ok op'
    → eval_op target op a b ≡ operation target op' a b
unfolding eval_op operation
lower_op-operation target Ast.BinaryOp.or op' a b h = cc
lower_op-operation target Ast.BinaryOp.xor op' a b h = cc
lower_op-operation target Ast.BinaryOp.and op' a b h = cc
lower_op-operation target Ast.BinaryOp.lt op' a b h = rw (← eq_of_ok h) refl
lower_op-operation target Ast.BinaryOp.gt op' a b h = rw (← eq_of_ok h) refl
lower_op-operation target Ast.BinaryOp.le op' a b h = rw (← eq_of_ok h) refl
lower_op-operation target Ast.BinaryOp.ge op' a b h = rw (← eq_of_ok h) refl
lower_op-operation target Ast.BinaryOp.eq op' a b h = rw (← eq_of_ok h) refl
lower_op-operation target Ast.BinaryOp.ne op' a b h = rw (← eq_of_ok h) refl
lower_op-operation target Ast.BinaryOp.add op' a b h = rw (← eq_of_ok h) refl
lower_op-operation target Ast.BinaryOp.sub op' a b h = rw (← eq_of_ok h) refl
lower_op-operation target Ast.BinaryOp.mul op' a b h = rw (← eq_of_ok h) refl
lower_op-operation target Ast.BinaryOp.div op' a b h = rw (← eq_of_ok h) refl
lower_op-operation target Ast.BinaryOp.mod_ op' a b h = rw (← eq_of_ok h) refl

module _ {target : Target} (meaning : Meaning target) where
  module _ (re : Resols) (ch : Checker) (params lets : NumMap Local) where
    ident_code :
        (found : Resolve) (ty : Ty) (gen gen' : FnMirGen)
        → gen.param_locals ≡ params
        → gen.let_locals ≡ lets
        → lower_ident found ty gen ≡ ok gen'
        → Computes meaning gen gen' (λ memory world.
          eval_ident meaning re params lets memory found >>= λ w. some (w, world))
    unfolding lower_ident eval_ident word
    ident_code (Resolve.fn stmt) ty gen gen' hp hl h =
        rw (← eq_of_ok h) (push_code meaning (fn stmt) ty gen)
    ident_code (Resolve.param stmt param i) ty gen gen' hp hl h =
        let (local, e, h') = expect-eq-ok "" (map_get gen.param_locals i) _ h in
        rw (← eq_of_ok h', ap (λ ls. map_get ls i) (sym hp) ∙ e) (load_code meaning local gen)
    ident_code (Resolve.let_ stmt) ty gen gen' hp hl h =
        let (local, e, h') = expect-eq-ok "" (map_get gen.let_locals (Ast.stmt_id stmt)) _ h in
        rw (← eq_of_ok h', ap (λ ls. map_get ls (Ast.stmt_id stmt)) (sym hl) ∙ e)
          (load_code meaning local gen)
    ident_code (Resolve.loop stmt) ty gen gen' hp hl h = cc

    mutual
      unfolding lower_expr lower_expr_kind lower_args eval eval_kind eval_args word steps

      pub expr_code :
          (e : Expr) (gen gen' : FnMirGen)
          → gen.param_locals ≡ params
          → gen.let_locals ≡ lets
          → lower_expr re ch e gen ≡ ok gen'
          → Computes meaning gen gen' (λ memory. eval meaning re params lets memory e)
      expr_code (mk_expr id line kind) gen gen' hp hl h =
          let (ty, _, h') = >>=-eq-ok (ch.expr_ty (mk_expr id line kind)) _ h in
          kind_code kind ty (Front.expr re (mk_expr id line kind)) gen gen' hp hl h'

      kind_code :
          (kind : ExprKind) (ty : Ty) (res : Option Resolve) (gen gen' : FnMirGen)
          → gen.param_locals ≡ params
          → gen.let_locals ≡ lets
          → lower_expr_kind re ch kind ty res gen ≡ ok gen'
          → Computes meaning gen gen' (λ memory. eval_kind meaning re params lets memory kind res)
      kind_code ExprKind.error ty res gen gen' hp hl h = cc
      kind_code (ExprKind.ident name) ty res gen gen' hp hl h =
          let (found, e, h') = expect-eq-ok "" res _ h in
          rw e (ident_code found ty gen gen' hp hl h')
      kind_code (ExprKind.int val) ty res gen gen' hp hl h =
          rw (← eq_of_ok h) (push_code meaning (int val) ty gen)
      kind_code (ExprKind.str val) ty res gen gen' hp hl h =
          rw (← eq_of_ok h) (push_code meaning (str val) ty gen)
      kind_code (ExprKind.call callee args) ty res gen gen' hp hl h =
          let (gen₁, h₁, r₁) = >>=-eq-ok (lower_args re ch args gen) _ h in
          let (gen₂, h₂, r₂) = >>=-eq-ok (lower_expr re ch callee gen₁) _ r₁ in
          let first = args_code args gen gen₁ hp hl h₁ in
          let second =
            expr_code callee gen₁ gen₂ (ap (λ g. g.param_locals) first.1 ∙ hp)
              (ap (λ g. g.let_locals) first.1 ∙ hl) h₂ in
          rw (← eq_of_ok r₂) (call_code meaning gen gen₁ gen₂ (exprs_length args) _ _ first second)
      kind_code (ExprKind.not_ operand) ty res gen gen' hp hl h = cc
      kind_code (ExprKind.negate operand) ty res gen gen' hp hl h = cc
      kind_code (ExprKind.binary op left right) ty res gen gen' hp hl h =
          let (gen₁, h₁, r₁) = >>=-eq-ok (lower_expr re ch left gen) _ h in
          let (gen₂, h₂, r₂) = >>=-eq-ok (lower_expr re ch right gen₁) _ r₁ in
          let (op', h₃, r₃) = >>=-eq-ok (lower_op op) _ r₂ in
          let first = expr_code left gen gen₁ hp hl h₁ in
          let second =
            expr_code right gen₁ gen₂ (ap (λ g. g.param_locals) first.1 ∙ hp)
              (ap (λ g. g.let_locals) first.1 ∙ hl) h₂ in
          rw (← eq_of_ok r₃) (
            binary_code meaning gen gen₁ gen₂ op' (eval_op target op) _ _
              (λ a b. lower_op-operation target op op' a b h₃) first second)

      args_code :
          (es : Exprs) (gen gen' : FnMirGen)
          → gen.param_locals ≡ params
          → gen.let_locals ≡ lets
          → lower_args re ch es gen ≡ ok gen'
          → ComputesAll meaning gen gen'
              (exprs_length es)
              (λ memory. eval_args meaning re params lets memory es)
      args_code nil gen gen' hp hl h = rw (← eq_of_ok h) (no_args_code meaning gen)
      args_code (cons e es) gen gen' hp hl h =
          let (gen₁, h₁, r₁) = >>=-eq-ok (lower_expr re ch e gen) _ h in
          let first = expr_code e gen gen₁ hp hl h₁ in
          let second =
            args_code es gen₁ gen' (ap (λ g. g.param_locals) first.1 ∙ hp)
              (ap (λ g. g.let_locals) first.1 ∙ hl) r₁ in
          arg_code meaning gen gen₁ gen' (exprs_length es) _ _ first second

-- If an expression is lowered, and if by its meaning it is the word `w` and leaves the world `world`, where the
-- locals hold what the stack machine's do, then the lowering did nothing but add code at the end of the
-- current block, and that code runs without a fault, pushes just `w` and leaves `world`.
pub lower_expr-Pushes :
    {target : Target} (meaning : Meaning target) (re : Resols) (ch : Checker) (e : Expr)
    (gen gen' : FnMirGen) (m : Frame target) (w : target.Word) (world : target.World)
    → lower_expr re ch e gen ≡ ok gen'
    → eval meaning re gen.param_locals gen.let_locals m.locals e m.world ≡ some (w, world)
    → (code : List StmtKind) × (gen' ≡ extended code gen) × Pushes meaning code m (w ∷ []) world
lower_expr-Pushes meaning re ch e gen gen' m w world h v =
    let (code, grown, runs) =
      expr_code meaning re ch gen.param_locals gen.let_locals e gen gen' refl refl h in
    (code, grown, runs m w world v)
