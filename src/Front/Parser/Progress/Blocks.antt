-- ===== src/Front/Parser/Progress/Blocks.antt =====
-- Blocks, the statements with blocks and whole programs of sbc/front.ts: each rule ends, on fuel for more
-- tokens than there are.
use h4_projekt_gruppe_0_sm.Prelude.{ℕ, zero, suc, ◌<◌, ◌≤◌, List, length, ◌≢◌, arith}
use h4_projekt_gruppe_0_sm.Prelude.Fueled.{Fueled, out_of_fuel, thrown, done, ◌>>=◌}
use h4_projekt_gruppe_0_sm.Ast.{Attr, Stmt, Block, Stmts}
use h4_projekt_gruppe_0_sm.Front.Parser.{Tok, Parser, Rule, new_stmt, items, new_parser}
use h4_projekt_gruppe_0_sm.Front.Parser.Stmts.{
  step_line, parse_ident, parse_ty, parse_param, parse_attrs, block_stmts, parse_block, braced,
  parse_fn_stmt, parse_loop_stmt, parse_while_stmt, parse_if_stmt, parse_stmt_kind, parse_stmt,
  parse_stmts, parse,
}
use h4_projekt_gruppe_0_sm.Front.Parser.Progress.{
  left, Ends, Ends-bind, Ends-present, Ends-weaken, Ends-done, Ends-thrown, Ends-if, Ends-eat,
  Ends-required, Advances, items-Ends,
}
use h4_projekt_gruppe_0_sm.Front.Parser.Progress.Statements.{
  step_line-Ends, parse_ident-Ends, parse_ty-Advances, parse_param-Advances, parse_attrs-Ends,
  after_expr, parse_let_stmt-Advances, parse_return_stmt-Advances, parse_break_stmt-Ends,
  parse_expr_stmt-Advances,
}

module _ (stmt : Rule Stmt) (bound : ℕ) (stmt-Advances : Advances bound stmt) where
  block_stmts-Ends :
      (fuel : ℕ) (p : Parser)
      → left p < fuel
      → left p < bound
      → Ends (suc (left p)) (block_stmts stmt fuel p)
  unfolding block_stmts
  block_stmts-Ends zero p h b = ground arith
  block_stmts-Ends (suc fuel) p h b = Ends-if _ _ _ _ (Ends-done _ _ p (omega arith)) (
      Ends-bind (left p) _ (stmt p) _ (stmt-Advances p b) (λ s p₁ l₁.
        Ends-bind (suc (left p₁)) _ (block_stmts stmt fuel p₁) _
          (block_stmts-Ends fuel p₁ (omega arith) (omega arith))
          (λ ss p₂ l₂. Ends-done _ _ p₂ (omega arith))))

  -- `stmt` is asked after a token at least.
  parse_block-Ends :
      (fuel : ℕ) (p : Parser)
      → left p ≤ fuel
      → left p ≤ bound
      → Ends (left p) (parse_block stmt fuel p)
  unfolding parse_block
  parse_block-Ends fuel p h b =
      Ends-bind (left p) _ (step_line p) _ (step_line-Ends p) (λ line_entry p₁ l₁.
        Ends-bind (suc (left p₁)) _ (block_stmts stmt fuel p₁) _
          (block_stmts-Ends fuel p₁ (omega arith) (omega arith))
          (λ stmts p₂ l₂.
            Ends-required _ "}" (record p₂ { block_ids = suc p₂.block_ids }) _
              (λ p₃ l₃. Ends-present _ _ p₃.eaten _ (λ tok. Ends-done _ _ p₃ (omega arith)))))

  -- A block inside a statement, and what is after it.
  after_block :
      {A : Type 0} (fuel k : ℕ) (p : Parser) (f : Block × Parser → Fueled (A × Parser))
      → left p ≤ fuel
      → left p ≤ bound
      → ((b : Block) (q : Parser) → left q < left p → Ends k (f (b, q)))
      → Ends k (braced stmt fuel p >>= f)
  unfolding braced
  after_block fuel k p f l m h =
      Ends-bind (left p) k (braced stmt fuel p) f
        (Ends-if _ _ _ _ (parse_block-Ends fuel p l m) (Ends-thrown _ _ _)) h

  module _ (fuel : ℕ) (p : Parser) (h : left p < fuel) (b : left p ≤ bound) where
    parse_fn_stmt-Ends : (attrs : List Attr) → Ends (left p) (parse_fn_stmt stmt fuel attrs p)
    unfolding parse_fn_stmt new_stmt
    parse_fn_stmt-Ends attrs =
        Ends-bind (left p) _ (step_line p) _ (step_line-Ends p) (λ line p₁ l₁.
          Ends-bind (left p₁) _ (parse_ident p₁) _ (parse_ident-Ends p₁) (λ ident p₂ l₂.
            Ends-required _ "(" p₂ _ (λ p₃ l₃.
              Ends-bind (suc (left p₃)) _ (items (parse_param fuel) fuel p₃) _
                (items-Ends (parse_param fuel) fuel (parse_param-Advances fuel) fuel p₃
                  (omega arith) (omega arith))
                (λ params p₄ l₄. Ends-required _ ")" p₄ _ (λ p₅ l₅.
                  Ends-required _ "->" p₅ _ (λ p₆ l₆.
                    Ends-bind (left p₆) _ (parse_ty fuel p₆) _
                      (parse_ty-Advances fuel p₆ (omega arith))
                      (λ ty p₇ l₇.
                        after_block fuel _ p₇ _ (omega arith) (omega arith)
                          (λ body p₈ l₈. Ends-done _ _ _ (omega arith)))))))))

    parse_loop_stmt-Ends : Ends (left p) (parse_loop_stmt stmt fuel p)
    unfolding parse_loop_stmt new_stmt
    parse_loop_stmt-Ends = Ends-bind (left p) _ (step_line p) _ (step_line-Ends p) (λ line p₁ l₁.
        after_block fuel _ p₁ _ (omega arith) (omega arith)
          (λ body p₂ l₂. Ends-done _ _ _ (omega arith)))

    parse_while_stmt-Ends : Ends (left p) (parse_while_stmt stmt fuel p)
    unfolding parse_while_stmt new_stmt
    parse_while_stmt-Ends = Ends-bind (left p) _ (step_line p) _ (step_line-Ends p) (λ line p₁ l₁.
        after_expr fuel _ p₁ _ (omega arith) (λ e p₂ l₂.
          after_block fuel _ p₂ _ (omega arith) (omega arith)
            (λ body p₃ l₃. Ends-done _ _ _ (omega arith))))

    parse_if_stmt-Ends : Ends (left p) (parse_if_stmt stmt fuel p)
    unfolding parse_if_stmt new_stmt
    parse_if_stmt-Ends = Ends-bind (left p) _ (step_line p) _ (step_line-Ends p) (λ line p₁ l₁.
        after_expr fuel _ p₁ _ (omega arith) (λ e p₂ l₂.
          after_block fuel _ p₂ _ (omega arith) (omega arith) (λ truthy p₃ l₃.
            Ends-eat _ "else" p₃ _ _
              (λ p₄ l₄.
                after_block fuel _ p₄ _ (omega arith) (omega arith)
                  (λ falsy p₅ l₅. Ends-done _ _ _ (omega arith)))
              (Ends-done _ _ _ (omega arith)))))

    parse_stmt_kind-Ends : (attrs : List Attr) → Ends (left p) (parse_stmt_kind stmt fuel attrs p)
    unfolding parse_stmt_kind
    parse_stmt_kind-Ends attrs = Ends-if _ _ _ _ (parse_fn_stmt-Ends attrs) (
        Ends-if _ _ _ _ (parse_let_stmt-Advances fuel p h) (
          Ends-if _ _ _ _ parse_loop_stmt-Ends (
            Ends-if _ _ _ _ parse_while_stmt-Ends (
              Ends-if _ _ _ _ parse_if_stmt-Ends (
                Ends-if _ _ _ _ (parse_return_stmt-Advances fuel p h) (
                  Ends-if _ _ _ _ (parse_break_stmt-Ends p)
                    (parse_expr_stmt-Advances fuel p h)))))))

parse_stmt-Advances : (fuel : ℕ) → Advances fuel (parse_stmt fuel)
unfolding parse_stmt
parse_stmt-Advances zero p h = ground arith
parse_stmt-Advances (suc fuel) p h =
    Ends-bind (suc (left p)) _ (parse_attrs (suc fuel) p) _ (parse_attrs-Ends (suc fuel) p h)
      (λ attrs p₁ l₁.
        Ends-weaken (left p₁) _ (parse_stmt_kind (parse_stmt fuel) (suc fuel) attrs p₁)
          (omega arith)
          (parse_stmt_kind-Ends (parse_stmt fuel) fuel (parse_stmt-Advances fuel) (suc fuel) p₁
            (omega arith) (omega arith) attrs))

parse_stmts-Ends :
    (fuel : ℕ) (p : Parser) → left p < fuel → Ends (suc (left p)) (parse_stmts fuel p)
unfolding parse_stmts
parse_stmts-Ends zero p h = ground arith
parse_stmts-Ends (suc fuel) p h = Ends-if _ _ _ _ (Ends-done _ _ p (omega arith)) (
    Ends-bind (left p) _ (parse_stmt (suc fuel) p) _ (parse_stmt-Advances (suc fuel) p h)
      (λ s p₁ l₁.
        Ends-bind (suc (left p₁)) _ (parse_stmts fuel p₁) _ (parse_stmts-Ends fuel p₁ (omega arith))
          (λ ss p₂ l₂. Ends-done _ _ p₂ (omega arith))))

-- The parser ends on any list of tokens: it has the fuel that it needs, and returns a program or throws.
pub parse_ends : (toks : List Tok) → parse toks ≢ out_of_fuel
unfolding parse new_parser Ends
parse_ends toks =
    not_out_of_fuel (parse_stmts (suc (length toks)) (new_parser toks))
      (parse_stmts-Ends (suc (length toks)) (new_parser toks) (omega arith))
  where
    not_out_of_fuel :
        (r : Fueled (Stmts × Parser))
        → Ends (suc (length toks)) r
        → (r >>= λ (stmts, p). done stmts) ≢ out_of_fuel
    not_out_of_fuel out_of_fuel h = elim h [ ]
    not_out_of_fuel (thrown message) h = λ e. cc
    not_out_of_fuel (done (stmts, p)) h = λ e. cc
