-- ===== src/Front/Parser/RoundTrip.antt =====
-- The expression parser of sbc/front.ts on the tokens of an expression: what each of its rules reads.
pub mod Levels
pub mod Operands
pub mod Calls
pub mod Operators
pub mod Expressions
use h4_projekt_gruppe_0_sm.Prelude.{
  ℕ, zero, suc, ◌≤◌, ◌<◌, String, Bool, true, false, ◌||◌, length, List, [], ◌∷◌, Option, none,
  some, if◌then◌else◌, str_eq, ◌≡◌, refl, Bool-cases, ◌⊎◌, inl, inr, leb, leb→le, ap, ap₂, sym,
  subst, ◌∙◌, arith,
}
use h4_projekt_gruppe_0_sm.Prelude.Fueled.{Fueled, done, ◌>>=◌}
use h4_projekt_gruppe_0_sm.Ast.{Expr, mk_expr, ExprKind, Exprs, BinaryOp}
use h4_projekt_gruppe_0_sm.Front.Parser.{
  Tok, Parser, Rule, starts, step, eat, curr, required, items, more_items, new_expr, is_done, test,
  head, tail,
}
use h4_projekt_gruppe_0_sm.Front.Parser.Exprs.{
  line_of, to_exprs, parse_operand, postfix_loop, parse_postfix, parse_prefix, binary_loop,
  parse_binary, parse_expr, ops, eat_op,
}
use h4_projekt_gruppe_0_sm.Front.Parser.Printing.{
  op_text, below, rank, IsPostfix, IsPrintable, ArePrintable, sign, expr_toks, kind_toks, args_toks,
  more_toks, erase, erase_kind, erase_args, length-expr_toks, length-args_toks, length-more_toks,
  Stops, Stops-sooner, eat_op-none, op-Stops, next, eat-next, eat-none, eat_op-next, is_op,
}
use h4_projekt_gruppe_0_sm.Front.Parser.Progress.{left}

-- The result is `e` but for numbers and lines, and `rest` is left.
pub record Parsed (e : Expr) (rest : List Tok) (r : Fueled (Expr × Parser)) : Type 0 where
  pub result : Expr
  pub after : Parser
  pub returns : r ≡ done (result, after)
  pub same : erase result ≡ erase e
  pub toks : after.toks ≡ rest
  pub tok : Tok
  pub eaten : after.eaten ≡ some tok

-- The same, and a loop goes on from there.
pub record Continues (e : Expr) (rest : List Tok) (loop : ℕ → Expr → Rule Expr)
    (r : Fueled (Expr × Parser)) : Type 0 where
  pub result : Expr
  pub after : Parser
  pub fuel : ℕ
  pub returns : r ≡ loop fuel result after
  pub same : erase result ≡ erase e
  pub toks : after.toks ≡ rest
  pub tok : Tok
  pub eaten : after.eaten ≡ some tok
  pub enough : length rest < fuel

pub record ParsedArgs (es : Exprs) (rest : List Tok) (r : Fueled (List Expr × Parser))
    : Type 0 where
  pub result : List Expr
  pub after : Parser
  pub returns : r ≡ done (result, after)
  pub same : erase_args (to_exprs result) ≡ erase_args es
  pub toks : after.toks ≡ rest

-- What each rule does on the tokens of `e`.
abbrev pub Postfix : Expr → Type 0
Postfix e =
    (n k : ℕ) (rest : List Tok) (p : Parser)
    → p.toks ≡ expr_toks e rest
    → left p ≤ n
    → left p < k
    → Continues e rest (postfix_loop (parse_expr n)) (parse_postfix (parse_expr n) k p)

abbrev pub Prefix : Expr → Type 0
Prefix e =
    (n k : ℕ) (rest : List Tok) (p : Parser)
    → p.toks ≡ expr_toks e rest
    → left p ≤ n
    → left p < k
    → starts rest "(" ≡ false
    → Parsed e rest (parse_prefix (parse_expr n) k p)

abbrev pub Binary : ℕ → Expr → Type 0
Binary m e =
    (n k : ℕ) (rest : List Tok) (p : Parser)
    → p.toks ≡ expr_toks e rest
    → left p ≤ n
    → left p < k
    → Stops m rest
    → Parsed e rest (parse_binary (parse_expr n) k m p)

abbrev pub BinaryLoop : ℕ → Expr → Type 0
BinaryLoop m e =
    (n k : ℕ) (rest : List Tok) (p : Parser)
    → p.toks ≡ expr_toks e rest
    → left p ≤ n
    → left p < k
    → Stops m rest
    → Continues e rest (binary_loop (parse_binary (parse_expr n) k m) (suc m))
        (parse_binary (parse_expr n) k (suc m) p)

-- `parseExpr`, after which the expression does not go on.
abbrev pub Whole : Expr → Type 0
Whole e =
    (n : ℕ) (rest : List Tok) (p : Parser)
    → p.toks ≡ expr_toks e rest
    → left p < n
    → Stops 7 rest
    → Parsed e rest (parse_expr n p)

-- What is left after the first of some tokens.
pub next-toks :
    (p : Parser) (tok : Tok) (rest : List Tok) → p.toks ≡ tok ∷ rest → (next p).toks ≡ rest
unfolding step
next-toks p tok rest t = ap tail t

pub next-eaten :
    (p : Parser) (tok : Tok) (rest : List Tok) → p.toks ≡ tok ∷ rest → (next p).eaten ≡ some tok
unfolding step
next-eaten p tok rest t = ap head t

-- The arguments of a call, with the parenthesis after them left.
abbrev pub Args : Exprs → Type 0
Args es =
    (n k line : ℕ) (rest : List Tok) (p : Parser)
    → p.toks ≡ args_toks es line (sign ")" line ∷ rest)
    → left p < n
    → left p < k
    → ParsedArgs es (sign ")" line ∷ rest) (items (parse_expr n) k p)

abbrev pub More : Exprs → Type 0
More es =
    (n k line : ℕ) (rest : List Tok) (p : Parser)
    → p.toks ≡ more_toks es line (sign ")" line ∷ rest)
    → left p < n
    → left p < k
    → ParsedArgs es (sign ")" line ∷ rest) (more_items (parse_expr n) k p)
