-- ===== src/Front/Parser/Progress/Statements.antt =====
-- The rules for types, attributes and statements without blocks of sbc/front.ts: each ends, on fuel for more
-- tokens than there are.
use h4_projekt_gruppe_0_sm.Prelude.{ℕ, zero, suc, ◌<◌, ◌≤◌, List, [], ◌∷◌, ◌≡◌, refl, arith}
use h4_projekt_gruppe_0_sm.Prelude.Fueled.{Fueled, done, ◌>>=◌}
use h4_projekt_gruppe_0_sm.Ast.{Expr}
use h4_projekt_gruppe_0_sm.Front.Parser.{Tok, Parser, curr, step, required, new_stmt, new_ty, items}
use h4_projekt_gruppe_0_sm.Front.Parser.Exprs.{parse_expr}
use h4_projekt_gruppe_0_sm.Front.Parser.Stmts.{
  step_line, parse_ident, parse_ty, parse_param, parse_attr_args, parse_attrs, parse_let_stmt,
  parse_return_stmt, parse_break_stmt, parse_expr_stmt,
}
use h4_projekt_gruppe_0_sm.Front.Parser.Progress.{
  left, Ends, Ends-bind, Ends-present, Ends-done, Ends-thrown, Ends-eat, Ends-required, Advances,
  items-Ends,
}
use h4_projekt_gruppe_0_sm.Front.Parser.Progress.Expressions.{parse_expr-Advances}

-- There is a token to step over, or the rule throws.
pub step_line-Ends : (p : Parser) → Ends (left p) (step_line p)
unfolding step_line step
step_line-Ends p = by_toks p.toks refl
  where
    by_toks : (toks : List Tok) → p.toks ≡ toks → Ends (left p) (step_line p)
    by_toks [] e = rw (e, step_line) (Ends-thrown _ _ _)
    by_toks (tok ∷ toks) e = rw (e, step_line) (Ends-done _ _ _ (omega arith))

pub parse_ident-Ends : (p : Parser) → Ends (left p) (parse_ident p)
unfolding parse_ident
parse_ident-Ends p = Ends-required _ "ident" p _ (λ p₁ l₁.
    Ends-present _ _ p₁.eaten _
      (λ tok. Ends-present _ _ tok.ident_val _ (λ ident. Ends-done _ _ p₁ l₁)))

pub parse_ty-Advances : (fuel : ℕ) → Advances fuel (parse_ty fuel)
unfolding parse_ty new_ty
parse_ty-Advances zero p h = ground arith
parse_ty-Advances (suc fuel) p h =
    Ends-eat _ "(" p _ _
      (λ p₁ l₁.
        Ends-required _ ")" p₁ _
          (λ p₂ l₂. Ends-present _ _ p₂.eaten _ (λ tok. Ends-done _ _ _ (omega arith))))
      (Ends-eat _ "ident" p _ _
        (λ p₁ l₁.
          Ends-present _ _ p₁.eaten _
            (λ tok. Ends-present _ _ tok.ident_val _ (λ ident. Ends-done _ _ _ (omega arith))))
        (Ends-eat _ "*" p _ _
          (λ p₁ l₁.
            Ends-bind (left p₁) _ (parse_ty fuel p₁) _ (parse_ty-Advances fuel p₁ (omega arith))
              (λ ty p₂ l₂. Ends-present _ _ p₂.eaten _ (λ tok. Ends-done _ _ _ (omega arith))))
          (Ends-thrown _ _ _)))

pub parse_param-Advances : (fuel : ℕ) → Advances fuel (parse_param fuel)
unfolding parse_param
parse_param-Advances fuel p h = Ends-present _ _ (curr p) _ (λ tok.
    Ends-bind (left p) _ (parse_ident p) _ (parse_ident-Ends p) (λ ident p₁ l₁.
      Ends-required _ ":" p₁ _ (λ p₂ l₂.
        Ends-bind (left p₂) _ (parse_ty fuel p₂) _ (parse_ty-Advances fuel p₂ (omega arith))
          (λ ty p₃ l₃. Ends-done _ _ p₃ (omega arith)))))

parse_attr_args-Ends :
    (fuel : ℕ) (p : Parser) → left p < fuel → Ends (suc (left p)) (parse_attr_args fuel p)
unfolding parse_attr_args
parse_attr_args-Ends fuel p h =
    Ends-eat _ "(" p _ _
      (λ p₁ l₁.
        Ends-bind (suc (left p₁)) _ (items (parse_expr fuel) fuel p₁) _
          (items-Ends (parse_expr fuel) fuel (parse_expr-Advances fuel) fuel p₁ (omega arith)
            (omega arith))
          (λ args p₂ l₂. Ends-required _ ")" p₂ _ (λ p₃ l₃. Ends-done _ _ p₃ (omega arith))))
      (Ends-done _ _ p (omega arith))

pub parse_attrs-Ends :
    (fuel : ℕ) (p : Parser) → left p < fuel → Ends (suc (left p)) (parse_attrs fuel p)
unfolding parse_attrs
parse_attrs-Ends zero p h = ground arith
parse_attrs-Ends (suc fuel) p h =
    Ends-eat _ "#" p _ _
      (λ p₁ l₁. Ends-required _ "[" p₁ _ (λ p₂ l₂.
        Ends-bind (left p₂) _ (parse_ident p₂) _ (parse_ident-Ends p₂) (λ ident p₃ l₃.
          Ends-bind (suc (left p₃)) _ (parse_attr_args fuel p₃) _
            (parse_attr_args-Ends fuel p₃ (omega arith))
            (λ args p₄ l₄. Ends-required _ "]" p₄ _ (λ p₅ l₅.
              Ends-bind (suc (left p₅)) _ (parse_attrs fuel p₅) _
                (parse_attrs-Ends fuel p₅ (omega arith))
                (λ attrs p₆ l₆. Ends-done _ _ p₆ (omega arith)))))))
      (Ends-done _ _ p (omega arith))

-- What statements have in common: a `;` after which they are there.
then_semicolon :
    {A : Type 0} (k : ℕ) (p : Parser) (f : Parser → A × Parser)
    → left p ≤ k
    → ((q : Parser) → left (f q).1 ≡ left q)
    → Ends k (required ";" p >>= λ q. done (f q))
then_semicolon k p f l same =
    Ends-required k ";" p _ (λ q l'. Ends-done k (f q).0 (f q).1 (omega (arith, same q)))

-- An expression inside a statement, and what is after it.
pub after_expr :
    {A : Type 0} (fuel k : ℕ) (p : Parser) (f : Expr × Parser → Fueled (A × Parser))
    → left p < fuel
    → ((e : Expr) (q : Parser) → left q < left p → Ends k (f (e, q)))
    → Ends k (parse_expr fuel p >>= f)
after_expr fuel k p f l h =
    Ends-bind (left p) k (parse_expr fuel p) f (parse_expr-Advances fuel p l) h

pub parse_let_stmt-Advances : (fuel : ℕ) → Advances fuel (parse_let_stmt fuel)
unfolding parse_let_stmt new_stmt
parse_let_stmt-Advances fuel p h =
    Ends-bind (left p) _ (step_line p) _ (step_line-Ends p) (λ line p₁ l₁.
      Ends-bind (left p₁) _ (parse_ident p₁) _ (parse_ident-Ends p₁) (λ ident p₂ l₂.
        Ends-eat _ "=" p₂ _ _
          (λ p₃ l₃.
            after_expr fuel _ p₃ _ (omega arith)
              (λ e p₄ l₄. then_semicolon _ p₄ _ (omega arith) (λ q. refl)))
          (then_semicolon _ p₂ _ (omega arith) (λ q. refl))))

pub parse_return_stmt-Advances : (fuel : ℕ) → Advances fuel (parse_return_stmt fuel)
unfolding parse_return_stmt new_stmt
parse_return_stmt-Advances fuel p h =
    Ends-bind (left p) _ (step_line p) _ (step_line-Ends p) (λ line p₁ l₁.
      Ends-eat _ ";" p₁ _ _ (λ p₂ l₂. Ends-done _ _ _ (omega arith))
        (after_expr fuel _ p₁ _ (omega arith)
          (λ e p₂ l₂. then_semicolon _ p₂ _ (omega arith) (λ q. refl))))

pub parse_break_stmt-Ends : (p : Parser) → Ends (left p) (parse_break_stmt p)
unfolding parse_break_stmt new_stmt
parse_break_stmt-Ends p =
    Ends-bind (left p) _ (step_line p) _ (step_line-Ends p)
      (λ line p₁ l₁. then_semicolon _ p₁ _ (omega arith) (λ q. refl))

pub parse_expr_stmt-Advances : (fuel : ℕ) → Advances fuel (parse_expr_stmt fuel)
unfolding parse_expr_stmt new_stmt
parse_expr_stmt-Advances fuel p h = after_expr fuel _ p _ h (λ subject p₁ l₁.
    Ends-eat _ "=" p₁ _ _
      (λ p₂ l₂. after_expr fuel _ p₂ _ (omega arith) (λ e p₃ l₃.
        Ends-required _ ";" (record p₃ { stmt_ids = suc p₃.stmt_ids }) _
          (λ q l. Ends-done _ _ q (omega arith))))
      (Ends-required _ ";" (record p₁ { stmt_ids = suc p₁.stmt_ids }) _
        (λ q l. Ends-done _ _ q (omega arith))))
