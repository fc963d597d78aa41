-- ===== src/Front/Parser/Exprs.antt =====
-- Expressions under `Parser` of sbc/front.ts. A rule that comes back to `parseExpr` has that as its argument,
-- and `parse_expr` closes the circle on fuel, as do the loops.
use h4_projekt_gruppe_0_sm.Prelude.{
  ℕ, zero, suc, String, List, [], ◌∷◌, Option, none, some, if◌then◌else◌, leb,
}
use h4_projekt_gruppe_0_sm.Prelude.Fueled.{out_of_fuel, thrown, done, ◌>>=◌, present}
use h4_projekt_gruppe_0_sm.Ast.{Expr, mk_expr, ExprKind, Exprs, nil, cons, BinaryOp}
use h4_projekt_gruppe_0_sm.Front.Parser.{Parser, Rule, eat, required, eaten_tok, new_expr, items}

abbrev pub line_of : Expr → ℕ
line_of (mk_expr id line kind) = line

abbrev pub to_exprs : List Expr → Exprs
to_exprs [] = nil
to_exprs (e ∷ es) = cons e (to_exprs es)

-- The table of `parseBinaryExpr`.
abbrev pub ops : List (String × BinaryOp × ℕ)
ops =
    ("or", BinaryOp.or, 7)
    ∷ ("xor", BinaryOp.xor, 6)
    ∷ ("and", BinaryOp.and, 5)
    ∷ ("<", BinaryOp.lt, 4)
    ∷ (">", BinaryOp.gt, 4)
    ∷ ("<=", BinaryOp.le, 4)
    ∷ (">=", BinaryOp.ge, 4)
    ∷ ("==", BinaryOp.eq, 3)
    ∷ ("!=", BinaryOp.ne, 3)
    ∷ ("+", BinaryOp.add, 2)
    ∷ ("-", BinaryOp.sub, 2)
    ∷ ("*", BinaryOp.mul, 1)
    ∷ ("/", BinaryOp.div, 1)
    ∷ ("%", BinaryOp.mod_, 1)
    ∷ []

-- `for (const [op, p] of ops) { if (prec >= p && this.eat(op)) …`
unfoldable pub eat_op : List (String × BinaryOp × ℕ) → ℕ → Parser → Option (BinaryOp × Parser)
eat_op [] prec p = none
eat_op ((type, op, q) ∷ table) prec p =
    let later = eat_op table prec p in
    elim (if leb q prec then eat type p else none) [ some p₁ ↦ some (op, p₁) | none ↦ later ]

unfoldable pub parse_operand : Rule Expr
unfolding eat new_expr
parse_operand p = elim (eat "ident" p) [
  | some p₁ ↦ eaten_tok p₁ >>= λ tok.
      present "" tok.ident_val >>= λ ident. done (new_expr (ExprKind.ident ident) tok.line p₁)
  | none ↦ elim (eat "int" p) [
    | some p₁ ↦ eaten_tok p₁ >>= λ tok.
        present "" tok.int_val >>= λ value. done (new_expr (ExprKind.int value) tok.line p₁)
    | none ↦ elim (eat "str" p) [
      | some p₁ ↦ eaten_tok p₁ >>= λ tok.
          present "" tok.string_val >>= λ value. done (new_expr (ExprKind.str value) tok.line p₁)
      | none ↦ thrown "expected expression"
    ]
  ]
]

module _ (expr : Rule Expr) where
  -- The loop of `parsePostfixExpr`.
  unfoldable pub postfix_loop : ℕ → Expr → Rule Expr
  unfolding eat required items new_expr
  postfix_loop zero e p = out_of_fuel
  postfix_loop (suc fuel) e p = elim (eat "(" p) [
    | none ↦ done (e, p)
    | some p₁ ↦ items expr fuel p₁ >>= λ (args, p₂). required ")" p₂ >>= λ p₃.
        let (call, p₄) = new_expr (ExprKind.call e (to_exprs args)) (line_of e) p₃ in
        postfix_loop fuel call p₄
  ]

  unfoldable pub parse_postfix : ℕ → Rule Expr
  unfolding parse_operand postfix_loop
  parse_postfix fuel p = parse_operand p >>= λ (e, p₁). postfix_loop fuel e p₁

  unfoldable pub parse_prefix : ℕ → Rule Expr
  unfolding eat new_expr parse_postfix
  parse_prefix zero p = out_of_fuel
  parse_prefix (suc fuel) p = elim (eat "not" p) [
    | some p₁ ↦ parse_prefix fuel p₁ >>= λ (e, p₂).
        eaten_tok p₂ >>= λ tok. done (new_expr (ExprKind.not_ e) tok.line p₂)
    | none ↦ elim (eat "-" p) [
      | some p₁ ↦ parse_prefix fuel p₁ >>= λ (e, p₂).
          eaten_tok p₂ >>= λ tok. done (new_expr (ExprKind.negate e) tok.line p₂)
      | none ↦ parse_postfix (suc fuel) p
    ]
  ]

-- The loop of `parseBinaryExpr`.
unfoldable pub binary_loop : Rule Expr → ℕ → ℕ → Expr → Rule Expr
unfolding eat_op new_expr
binary_loop operand prec zero left p = out_of_fuel
binary_loop operand prec (suc fuel) left p = elim (eat_op ops prec p) [
  | none ↦ done (left, p)
  | some (op, p₁) ↦ operand p₁ >>= λ (right, p₂).
      let (e, p₃) = new_expr (ExprKind.binary op left right) (line_of left) p₂ in
      binary_loop operand prec fuel e p₃
]

-- `parseBinaryExpr(prec)`
unfoldable pub parse_binary : Rule Expr → ℕ → ℕ → Rule Expr
unfolding parse_prefix binary_loop
parse_binary expr fuel zero p = parse_prefix expr fuel p
parse_binary expr fuel (suc prec) p = parse_binary expr fuel prec p >>= λ (left, p₁).
    binary_loop (parse_binary expr fuel prec) (suc prec) fuel left p₁

-- `parseExpr()`
unfoldable pub parse_expr : ℕ → Rule Expr
unfolding parse_binary
parse_expr zero p = out_of_fuel
parse_expr (suc fuel) p = parse_binary (parse_expr fuel) (suc fuel) 7 p
