-- ===== src/Front/Parser/Stmts.antt =====
-- Types, attributes, statements and blocks under `Parser` of sbc/front.ts. A rule that comes back to
-- `parseStmt` has that as its argument, and `parse_stmt` closes the circle on fuel, as do the loops.
use h4_projekt_gruppe_0_sm.Prelude.{
  ℕ, zero, suc, String, ◌||◌, length, List, [], ◌∷◌, none, some, if◌then◌else◌,
}
use h4_projekt_gruppe_0_sm.Prelude.Fueled.{Fueled, out_of_fuel, thrown, done, ◌>>=◌, present}
use h4_projekt_gruppe_0_sm.Ast.{
  Exprs, Ty, TyKind, Attr, Param, Stmt, StmtKind, Block, mk_block, Stmts,
}
use h4_projekt_gruppe_0_sm.Front.Parser.{
  Tok, Rule, is_done, curr, test, step, eat, required, eaten_tok, new_stmt, new_ty, items,
  new_parser,
}
use h4_projekt_gruppe_0_sm.Front.Parser.Exprs.{line_of, to_exprs, parse_expr}

-- `const line = this.curr().line; this.step();`
unfoldable pub step_line : Rule ℕ
unfolding step
step_line p = present "" (curr p) >>= λ tok. done (tok.line, step p)

-- `if (!this.eat("ident")) …; const ident = this.eaten!.identVal!;`
unfoldable pub parse_ident : Rule String
unfolding required
parse_ident p = required "ident" p >>= λ p₁.
    eaten_tok p₁ >>= λ tok. present "" tok.ident_val >>= λ ident. done (ident, p₁)

unfoldable pub parse_ty : ℕ → Rule Ty
unfolding eat required new_ty
parse_ty zero p = out_of_fuel
parse_ty (suc fuel) p = elim (eat "(" p) [
  | some p₁ ↦
      required ")" p₁ >>= λ p₂. eaten_tok p₂ >>= λ tok. done (new_ty TyKind.void tok.line p₂)
  | none ↦ elim (eat "ident" p) [
    | some p₁ ↦ eaten_tok p₁ >>= λ tok.
        present "" tok.ident_val >>= λ ident. done (new_ty (TyKind.ident ident) tok.line p₁)
    | none ↦ elim (eat "*" p) [
      | some p₁ ↦ parse_ty fuel p₁ >>= λ (ty, p₂).
          eaten_tok p₂ >>= λ tok. done (new_ty (TyKind.ptr ty) tok.line p₂)
      | none ↦ thrown "expected type"
    ]
  ]
]

unfoldable pub parse_param : ℕ → Rule Param
unfolding parse_ident parse_ty required
parse_param fuel p = present "" (curr p) >>= λ tok. parse_ident p >>= λ (ident, p₁).
    required ":" p₁ >>= λ p₂.
    parse_ty fuel p₂ >>= λ (ty, p₃). done (record { ident = ident; line = tok.line; ty = ty }, p₃)

-- The arguments of an attribute, which it may have none of.
unfoldable pub parse_attr_args : ℕ → Rule Exprs
unfolding eat required items parse_expr
parse_attr_args fuel p = elim (eat "(" p) [
  | none ↦ done (Exprs.nil, p)
  | some p₁ ↦ items (parse_expr fuel) fuel p₁ >>= λ (args, p₂).
      required ")" p₂ >>= λ p₃. done (to_exprs args, p₃)
]

unfoldable pub parse_attrs : ℕ → Rule (List Attr)
unfolding eat required parse_ident parse_attr_args
parse_attrs zero p = out_of_fuel
parse_attrs (suc fuel) p = elim (eat "#" p) [
  | none ↦ done ([], p)
  | some p₁ ↦ required "[" p₁ >>= λ p₂. parse_ident p₂ >>= λ (ident, p₃).
      parse_attr_args fuel p₃ >>= λ (args, p₄). required "]" p₄ >>= λ p₅.
      parse_attrs fuel p₅ >>= λ (attrs, p₆).
      done (record { ident = ident; args = args } ∷ attrs, p₆)
]

unfoldable pub parse_let_stmt : ℕ → Rule Stmt
unfolding step_line parse_ident eat required parse_expr new_stmt
parse_let_stmt fuel p = step_line p >>= λ (line, p₁). parse_ident p₁ >>= λ (ident, p₂).
    elim (eat "=" p₂) [
      | none ↦ required ";" p₂ >>= λ p₃.
          done (new_stmt (StmtKind.let_ (record { ident = ident; ty = none; expr = none })) line p₃)
      | some p₃ ↦ parse_expr fuel p₃ >>= λ (e, p₄). required ";" p₄ >>= λ p₅.
          done
            (new_stmt (StmtKind.let_ (record { ident = ident; ty = none; expr = some e })) line p₅)
    ]

unfoldable pub parse_return_stmt : ℕ → Rule Stmt
unfolding step_line eat required parse_expr new_stmt
parse_return_stmt fuel p = step_line p >>= λ (line, p₁). elim (eat ";" p₁) [
  | some p₂ ↦ done (new_stmt (StmtKind.return none) line p₂)
  | none ↦ parse_expr fuel p₁ >>= λ (e, p₂).
      required ";" p₂ >>= λ p₃. done (new_stmt (StmtKind.return (some e)) line p₃)
]

unfoldable pub parse_break_stmt : Rule Stmt
unfolding step_line required new_stmt
parse_break_stmt p =
    step_line p >>= λ (line, p₁). required ";" p₁ >>= λ p₂. done (new_stmt StmtKind.break line p₂)

-- The last branch of `parseStmt`: an assignment, or an expression alone.
unfoldable pub parse_expr_stmt : ℕ → Rule Stmt
unfolding eat required parse_expr new_stmt
parse_expr_stmt fuel p = parse_expr fuel p >>= λ (subject, p₁). elim (eat "=" p₁) [
  | some p₂ ↦ parse_expr fuel p₂ >>= λ (e, p₃).
      let (stmt, p₄) = new_stmt (StmtKind.assign subject e) (line_of subject) p₃ in
      required ";" p₄ >>= λ p₅. done (stmt, p₅)
  | none ↦
      let (stmt, p₂) = new_stmt (StmtKind.expr subject) (line_of subject) p₁ in
      required ";" p₂ >>= λ p₃. done (stmt, p₃)
]

module _ (stmt : Rule Stmt) where
  -- The loop of `parseBlock`.
  unfoldable pub block_stmts : ℕ → Rule Stmts
  block_stmts zero p = out_of_fuel
  block_stmts (suc fuel) p =
      if is_done p || test "}" p
      then done (Stmts.nil, p)
      else (stmt p >>= λ (s, p₁). block_stmts fuel p₁ >>= λ (ss, p₂). done (Stmts.cons s ss, p₂))

  unfoldable pub parse_block : ℕ → Rule Block
  unfolding step_line block_stmts required
  parse_block fuel p = step_line p >>= λ (line_entry, p₁). block_stmts fuel p₁ >>= λ (stmts, p₂).
      let id = p₂.block_ids in
      required "}" (record p₂ { block_ids = suc id }) >>= λ p₃.
      eaten_tok p₃ >>= λ tok. done (mk_block id line_entry tok.line stmts, p₃)

  -- `if (!this.test("{")) { this.report(…) }`, and the block
  unfoldable pub braced : ℕ → Rule Block
  unfolding parse_block
  braced fuel p = if test "{" p then parse_block fuel p else thrown "expected block"

  unfoldable pub parse_fn_stmt : ℕ → List Attr → Rule Stmt
  unfolding step_line parse_ident required items parse_param parse_ty braced new_stmt
  parse_fn_stmt fuel attrs p = step_line p >>= λ (line, p₁). parse_ident p₁ >>= λ (ident, p₂).
      required "(" p₂ >>= λ p₃. items (parse_param fuel) fuel p₃ >>= λ (params, p₄).
      required ")" p₄ >>= λ p₅. required "->" p₅ >>= λ p₆. parse_ty fuel p₆ >>= λ (ty, p₇).
      braced fuel p₇ >>= λ (body, p₈).
      done (new_stmt (StmtKind.fn ident attrs params ty body) line p₈)

  unfoldable pub parse_loop_stmt : ℕ → Rule Stmt
  unfolding step_line braced new_stmt
  parse_loop_stmt fuel p = step_line p >>= λ (line, p₁).
      braced fuel p₁ >>= λ (body, p₂). done (new_stmt (StmtKind.loop body) line p₂)

  unfoldable pub parse_while_stmt : ℕ → Rule Stmt
  unfolding step_line parse_expr braced new_stmt
  parse_while_stmt fuel p = step_line p >>= λ (line, p₁). parse_expr fuel p₁ >>= λ (e, p₂).
      braced fuel p₂ >>= λ (body, p₃). done (new_stmt (StmtKind.while e body) line p₃)

  unfoldable pub parse_if_stmt : ℕ → Rule Stmt
  unfolding step_line parse_expr braced eat new_stmt
  parse_if_stmt fuel p = step_line p >>= λ (line, p₁). parse_expr fuel p₁ >>= λ (e, p₂).
      braced fuel p₂ >>= λ (truthy, p₃). elim (eat "else" p₃) [
        | none ↦ done (new_stmt (StmtKind.if_ e truthy) line p₃)
        | some p₄ ↦ braced fuel p₄ >>= λ (falsy, p₅).
            done (new_stmt (StmtKind.if_else e truthy falsy) line p₅)
      ]

  -- `parseStmt`, after the attributes
  unfoldable pub parse_stmt_kind : ℕ → List Attr → Rule Stmt
  unfolding parse_fn_stmt parse_let_stmt parse_loop_stmt parse_while_stmt parse_if_stmt
      parse_return_stmt parse_break_stmt parse_expr_stmt
  parse_stmt_kind fuel attrs p =
      if test "fn" p
      then parse_fn_stmt fuel attrs p
      else if test "let" p
      then parse_let_stmt fuel p
      else if test "loop" p
      then parse_loop_stmt fuel p
      else if test "while" p
      then parse_while_stmt fuel p
      else if test "if" p
      then parse_if_stmt fuel p
      else if test "return" p
      then parse_return_stmt fuel p
      else if test "break" p
      then parse_break_stmt p
      else parse_expr_stmt fuel p

-- `parseStmt()`
unfoldable pub parse_stmt : ℕ → Rule Stmt
unfolding parse_attrs parse_stmt_kind
parse_stmt zero p = out_of_fuel
parse_stmt (suc fuel) p = parse_attrs (suc fuel) p >>= λ (attrs, p₁).
    parse_stmt_kind (parse_stmt fuel) (suc fuel) attrs p₁

-- `parseStmts()`
unfoldable pub parse_stmts : ℕ → Rule Stmts
unfolding parse_stmt
parse_stmts zero p = out_of_fuel
parse_stmts (suc fuel) p =
    if is_done p
    then done (Stmts.nil, p)
    else (parse_stmt (suc fuel) p >>= λ (s, p₁).
        parse_stmts fuel p₁ >>= λ (ss, p₂). done (Stmts.cons s ss, p₂))

-- `parse()` of the tokens, with the fuel that is enough for them.
unfoldable pub parse : List Tok → Fueled Stmts
unfolding parse_stmts new_parser
parse toks = parse_stmts (suc (length toks)) (new_parser toks) >>= λ (stmts, p). done stmts
