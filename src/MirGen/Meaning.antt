-- ===== src/MirGen/Meaning.antt =====
-- What the expressions of the source mean, from the left to the right, without blocks.
use h4_projekt_gruppe_0_sm.Prelude.{ℕ, List, [], ◌∷◌, Option, none, some, reverse, map_get, NumMap}
use h4_projekt_gruppe_0_sm.Ast as Ast
use h4_projekt_gruppe_0_sm.Ast.{Expr, mk_expr, ExprKind, Exprs, nil, cons}
use h4_projekt_gruppe_0_sm.Mir.{Local}
use h4_projekt_gruppe_0_sm.Front as Front
use h4_projekt_gruppe_0_sm.Front.{Resolve, Resols}
use h4_projekt_gruppe_0_sm.Machine.Target.{Target}
use h4_projekt_gruppe_0_sm.Machine.Stack.{Meaning, ◌>>=◌}

-- What an operator of the source does; those of Booleans are not supported.
unfoldable pub eval_op :
    (target : Target) → Ast.BinaryOp → target.Word → target.Word → Option target.Word
eval_op target Ast.BinaryOp.or a b = none
eval_op target Ast.BinaryOp.xor a b = none
eval_op target Ast.BinaryOp.and a b = none
eval_op target Ast.BinaryOp.lt a b = target.less a b
eval_op target Ast.BinaryOp.gt a b = target.greater a b
eval_op target Ast.BinaryOp.le a b = target.at_most a b
eval_op target Ast.BinaryOp.ge a b = target.at_least a b
eval_op target Ast.BinaryOp.eq a b = target.equal a b
eval_op target Ast.BinaryOp.ne a b = target.unequal a b
eval_op target Ast.BinaryOp.add a b = target.sum a b
eval_op target Ast.BinaryOp.sub a b = target.difference a b
eval_op target Ast.BinaryOp.mul a b = target.product a b
eval_op target Ast.BinaryOp.div a b = target.quotient a b
eval_op target Ast.BinaryOp.mod_ a b = target.remainder a b

module _ {target : Target} (meaning : Meaning target) (re : Resols) (params lets : NumMap Local)
    (memory : ℕ → Option target.Word) where
  -- The word of an identifier, where the locals hold `memory`.
  unfoldable pub eval_ident : Resolve → Option target.Word
  eval_ident (Resolve.fn stmt) = some (meaning.code stmt)
  eval_ident (Resolve.param stmt param i) = map_get params i >>= λ local. memory local.id
  eval_ident (Resolve.let_ stmt) = map_get lets (Ast.stmt_id stmt) >>= λ local. memory local.id
  eval_ident (Resolve.loop stmt) = none

  unfoldable mutual
    pub eval : Expr → target.World → Option (target.Word × target.World)
    eval (mk_expr id line kind) world = eval_kind kind (Front.expr re (mk_expr id line kind)) world

    pub eval_kind : ExprKind → Option Resolve → target.World → Option (target.Word × target.World)
    eval_kind ExprKind.error res world = none
    eval_kind (ExprKind.ident ident) res world = res >>= λ r. eval_ident r >>= λ w. some (w, world)
    eval_kind (ExprKind.int val) res world = some (target.int val, world)
    eval_kind (ExprKind.str val) res world = some (meaning.text val, world)
    eval_kind (ExprKind.call callee args) res world =
        eval_args args world >>= λ p. eval callee p.1 >>= λ q. target.call q.0 (reverse p.0) q.1
    eval_kind (ExprKind.not_ operand) res world = none
    eval_kind (ExprKind.negate operand) res world = none
    eval_kind (ExprKind.binary op left right) res world = eval left world >>= λ p.
        eval right p.1 >>= λ q. eval_op target op p.0 q.0 >>= λ w. some (w, q.1)

    -- The words of the arguments, the first one first.
    pub eval_args : Exprs → target.World → Option (List target.Word × target.World)
    eval_args nil world = some ([], world)
    eval_args (cons arg args) world =
        eval arg world >>= λ p. eval_args args p.1 >>= λ q. some (p.0 ∷ q.0, q.1)
