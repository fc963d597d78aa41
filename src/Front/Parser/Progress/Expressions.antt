-- ===== src/Front/Parser/Progress/Expressions.antt =====
-- The rules for expressions of sbc/front.ts: each ends, on fuel for more tokens than there are.
use h4_projekt_gruppe_0_sm.Prelude.{
  ℕ, zero, suc, ◌<◌, ◌≤◌, String, List, [], ◌∷◌, none, some, Option-cases, inl, inr, ◌≡◌, arith,
}
use h4_projekt_gruppe_0_sm.Prelude.Fueled.{Fueled, done, ◌>>=◌}
use h4_projekt_gruppe_0_sm.Ast.{Expr, ExprKind, BinaryOp}
use h4_projekt_gruppe_0_sm.Front.Parser.{Parser, Rule, eaten_tok, new_expr, items}
use h4_projekt_gruppe_0_sm.Front.Parser.Exprs.{
  ops, eat_op, line_of, to_exprs, parse_operand, postfix_loop, parse_postfix, parse_prefix,
  binary_loop, parse_binary, parse_expr,
}
use h4_projekt_gruppe_0_sm.Front.Parser.Progress.{
  left, Ends, Ends-bind, Ends-present, Ends-weaken, Ends-done, Ends-thrown, Ends-eat, Ends-required,
  eat-lt, Advances, items-Ends,
}

eat_op-lt :
    (table : List (String × BinaryOp × ℕ)) (prec : ℕ) (p p₁ : Parser) (op : BinaryOp)
    → eat_op table prec p ≡ some (op, p₁)
    → left p₁ < left p
unfolding eat_op
eat_op-lt [] prec p p₁ op h = cc
eat_op-lt ((type, o, q) ∷ table) prec p p₁ op h =
    ground (arith, h, eat-lt type p p₁, eat_op-lt table prec p p₁ op)

Ends-eat_op :
    (k prec : ℕ) (p : Parser) (eaten : BinaryOp × Parser → Fueled (Expr × Parser))
    (other : Fueled (Expr × Parser))
    → ((op : BinaryOp) (p₁ : Parser) → left p₁ < left p → Ends k (eaten (op, p₁)))
    → Ends k other
    → Ends k (elim (eat_op ops prec p) [ some found ↦ eaten found | none ↦ other ])
Ends-eat_op k prec p eaten other h g = elim (Option-cases (eat_op ops prec p)) [
  | inl missing ↦ rw missing g
  | inr ((op, p₁), found) ↦ rw found (h op p₁ (eat_op-lt ops prec p p₁ op found))
]

parse_operand-Ends : (p : Parser) → Ends (left p) (parse_operand p)
unfolding parse_operand new_expr
parse_operand-Ends p =
    Ends-eat _ "ident" p _ _
      (λ p₁ l₁.
        Ends-present _ _ p₁.eaten _
          (λ tok. Ends-present _ _ tok.ident_val _ (λ ident. Ends-done _ _ _ l₁)))
      (Ends-eat _ "int" p _ _
        (λ p₁ l₁.
          Ends-present _ _ p₁.eaten _
            (λ tok. Ends-present _ _ tok.int_val _ (λ value. Ends-done _ _ _ l₁)))
        (Ends-eat _ "str" p _ _
          (λ p₁ l₁.
            Ends-present _ _ p₁.eaten _
              (λ tok. Ends-present _ _ tok.string_val _ (λ value. Ends-done _ _ _ l₁)))
          (Ends-thrown _ _ _)))

module _ (expr : Rule Expr) (bound : ℕ) (expr-Advances : Advances bound expr) where
  -- `expr` is asked after a token at least.
  postfix_loop-Ends :
      (fuel : ℕ) (e : Expr) (p : Parser)
      → left p < fuel
      → left p ≤ bound
      → Ends (suc (left p)) (postfix_loop expr fuel e p)
  unfolding postfix_loop new_expr
  postfix_loop-Ends zero e p h b = ground arith
  postfix_loop-Ends (suc fuel) e p h b =
      Ends-eat _ "(" p _ _
        (λ p₁ l₁.
          Ends-bind (suc (left p₁)) _ (items expr fuel p₁) _
            (items-Ends expr bound expr-Advances fuel p₁ (omega arith) (omega arith))
            (λ args p₂ l₂. Ends-required _ ")" p₂ _ (λ p₃ l₃.
              let (call, p₄) = new_expr (ExprKind.call e (to_exprs args)) (line_of e) p₃ in
              Ends-weaken (suc (left p₄)) _ (postfix_loop expr fuel call p₄) (omega arith)
                (postfix_loop-Ends fuel call p₄ (omega arith) (omega arith)))))
        (Ends-done _ _ p (omega arith))

  parse_postfix-Ends :
      (fuel : ℕ) (p : Parser)
      → left p < fuel
      → left p ≤ bound
      → Ends (left p) (parse_postfix expr fuel p)
  unfolding parse_postfix
  parse_postfix-Ends fuel p h b =
      Ends-bind (left p) _ (parse_operand p) _ (parse_operand-Ends p) (λ e p₁ l₁.
        Ends-weaken (suc (left p₁)) _ (postfix_loop expr fuel e p₁) (omega arith)
          (postfix_loop-Ends fuel e p₁ (omega arith) (omega arith)))

  -- The operator before an operand.
  prefixed-Ends :
      (n k : ℕ) (m : Fueled (Expr × Parser)) (kind : Expr → ExprKind)
      → n ≤ k
      → Ends n m
      → Ends k (m >>= λ (e, p₂). eaten_tok p₂ >>= λ tok. done (new_expr (kind e) tok.line p₂))
  unfolding new_expr
  prefixed-Ends n k m kind l h =
      Ends-bind n _ m _ h
        (λ e p₂ l₂. Ends-present _ _ p₂.eaten _ (λ tok. Ends-done _ _ _ (omega arith)))

  parse_prefix-Ends :
      (fuel : ℕ) (p : Parser)
      → left p < fuel
      → left p ≤ bound
      → Ends (left p) (parse_prefix expr fuel p)
  unfolding parse_prefix
  parse_prefix-Ends zero p h b = ground arith
  parse_prefix-Ends (suc fuel) p h b =
      Ends-eat _ "not" p _ _
        (λ p₁ l₁.
          prefixed-Ends (left p₁) _ (parse_prefix expr fuel p₁) ExprKind.not_ (omega arith)
            (parse_prefix-Ends fuel p₁ (omega arith) (omega arith)))
        (Ends-eat _ "-" p _ _
          (λ p₁ l₁.
            prefixed-Ends (left p₁) _ (parse_prefix expr fuel p₁) ExprKind.negate (omega arith)
              (parse_prefix-Ends fuel p₁ (omega arith) (omega arith)))
          (parse_postfix-Ends (suc fuel) p h b))

  binary_loop-Ends :
      (operand : Rule Expr) (prec fuel : ℕ) (e : Expr) (p : Parser)
      → ((p' : Parser) → left p' < fuel → left p' ≤ bound → Ends (left p') (operand p'))
      → left p < fuel
      → left p ≤ bound
      → Ends (suc (left p)) (binary_loop operand prec fuel e p)
  unfolding binary_loop new_expr
  binary_loop-Ends operand prec zero e p o h b = ground arith
  binary_loop-Ends operand prec (suc fuel) e p o h b =
      Ends-eat_op _ prec p _ _
        (λ op p₁ l₁.
          Ends-bind (left p₁) _ (operand p₁) _ (o p₁ (omega arith) (omega arith)) (λ right p₂ l₂.
            let (e', p₃) = new_expr (ExprKind.binary op e right) (line_of e) p₂ in
            Ends-weaken (suc (left p₃)) _ (binary_loop operand prec fuel e' p₃) (omega arith) (
              binary_loop-Ends operand prec fuel e' p₃ (λ p' l' b'. o p' (omega arith) b')
                (omega arith) (omega arith))))
        (Ends-done _ _ p (omega arith))

  parse_binary-Ends :
      (prec fuel : ℕ) (p : Parser)
      → left p < fuel
      → left p ≤ bound
      → Ends (left p) (parse_binary expr fuel prec p)
  unfolding parse_binary
  parse_binary-Ends zero fuel p h b = parse_prefix-Ends fuel p h b
  parse_binary-Ends (suc prec) fuel p h b =
      Ends-bind (left p) _ (parse_binary expr fuel prec p) _ (parse_binary-Ends prec fuel p h b)
        (λ e p₁ l₁.
          Ends-weaken (suc (left p₁)) _
            (binary_loop (parse_binary expr fuel prec) (suc prec) fuel e p₁) (omega arith)
            (binary_loop-Ends (parse_binary expr fuel prec) (suc prec) fuel e p₁
              (parse_binary-Ends prec fuel) (omega arith) (omega arith)))

pub parse_expr-Advances : (fuel : ℕ) → Advances fuel (parse_expr fuel)
unfolding parse_expr
parse_expr-Advances zero p h = ground arith
parse_expr-Advances (suc fuel) p h =
    parse_binary-Ends (parse_expr fuel) fuel (parse_expr-Advances fuel) 7 (suc fuel) p h
      (omega arith)
