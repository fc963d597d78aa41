-- ===== src/Front/Parser/Printing.antt =====
-- Expressions as tokens, beside the expression parser of sbc/front.ts: which trees have tokens that are read
-- back, for the language has no parentheses around expressions.
use h4_projekt_gruppe_0_sm.Prelude.{
  ℕ, suc, ◌≤◌, String, Bool, true, false, ◌&&◌, ◌||◌, leb, length, List, [], ◌∷◌, none, some,
  str_eq, ◌≡◌, refl, ap, ◌∙◌, arith,
}
use h4_projekt_gruppe_0_sm.Ast.{Expr, mk_expr, ExprKind, Exprs, BinaryOp}
use h4_projekt_gruppe_0_sm.Front.Parser.{Tok, Parser, starts, step, eat, curr}
use h4_projekt_gruppe_0_sm.Front.Parser.Exprs.{ops, eat_op}

abbrev pub op_text : BinaryOp → String
op_text BinaryOp.or = "or"
op_text BinaryOp.xor = "xor"
op_text BinaryOp.and = "and"
op_text BinaryOp.lt = "<"
op_text BinaryOp.gt = ">"
op_text BinaryOp.le = "<="
op_text BinaryOp.ge = ">="
op_text BinaryOp.eq = "=="
op_text BinaryOp.ne = "!="
op_text BinaryOp.add = "+"
op_text BinaryOp.sub = "-"
op_text BinaryOp.mul = "*"
op_text BinaryOp.div = "/"
op_text BinaryOp.mod_ = "%"

-- The level of an operator, less one: how loose an operand on its right may be.
abbrev pub below : BinaryOp → ℕ
below BinaryOp.or = 6
below BinaryOp.xor = 5
below BinaryOp.and = 4
below BinaryOp.lt = 3
below BinaryOp.gt = 3
below BinaryOp.le = 3
below BinaryOp.ge = 3
below BinaryOp.eq = 2
below BinaryOp.ne = 2
below BinaryOp.add = 1
below BinaryOp.sub = 1
below BinaryOp.mul = 0
below BinaryOp.div = 0
below BinaryOp.mod_ = 0

abbrev pub rank : Expr → ℕ
rank (mk_expr id line (ExprKind.binary op left right)) = suc (below op)
rank (mk_expr id line _) = 0

abbrev pub IsPostfix : Expr → Type 0
IsPostfix (mk_expr id line (ExprKind.binary op left right)) = ⊥
IsPostfix (mk_expr id line (ExprKind.not_ e)) = ⊥
IsPostfix (mk_expr id line (ExprKind.negate e)) = ⊥
IsPostfix (mk_expr id line _) = Unit

-- The operands are as tight as their places ask.
unfoldable mutual
  pub IsPrintable : Expr → Type 0
  IsPrintable (mk_expr id line kind) = IsPrintableKind kind

  pub IsPrintableKind : ExprKind → Type 0
  IsPrintableKind ExprKind.error = ⊥
  IsPrintableKind (ExprKind.ident ident) = Unit
  IsPrintableKind (ExprKind.int value) = Unit
  IsPrintableKind (ExprKind.str value) = Unit
  IsPrintableKind (ExprKind.call callee args) =
      IsPostfix callee × IsPrintable callee × ArePrintable args
  IsPrintableKind (ExprKind.not_ e) = (rank e ≤ 0) × IsPrintable e
  IsPrintableKind (ExprKind.negate e) = (rank e ≤ 0) × IsPrintable e
  IsPrintableKind (ExprKind.binary op left right) =
      (rank left ≤ suc (below op)) × (rank right ≤ below op) × IsPrintable left × IsPrintable right

  pub ArePrintable : Exprs → Type 0
  ArePrintable Exprs.nil = Unit
  ArePrintable (Exprs.cons e es) = IsPrintable e × ArePrintable es

abbrev pub sign : String → ℕ → Tok
sign type line = record {
  type = type;
  line = line;
  int_val = none;
  string_val = none;
  ident_val = none;
}

-- The tokens of an expression, before those of `rest`.
unfoldable mutual
  pub expr_toks : Expr → List Tok → List Tok
  expr_toks (mk_expr id line kind) rest = kind_toks kind line rest

  pub kind_toks : ExprKind → ℕ → List Tok → List Tok
  kind_toks ExprKind.error line rest = rest
  kind_toks (ExprKind.ident ident) line rest =
      record (sign "ident" line) { ident_val = some ident } ∷ rest
  kind_toks (ExprKind.int value) line rest =
      record (sign "int" line) { int_val = some value } ∷ rest
  kind_toks (ExprKind.str value) line rest =
      record (sign "str" line) { string_val = some value } ∷ rest
  kind_toks (ExprKind.call callee args) line rest =
      expr_toks callee (sign "(" line ∷ args_toks args line (sign ")" line ∷ rest))
  kind_toks (ExprKind.not_ e) line rest = sign "not" line ∷ expr_toks e rest
  kind_toks (ExprKind.negate e) line rest = sign "-" line ∷ expr_toks e rest
  kind_toks (ExprKind.binary op left right) line rest =
      expr_toks left (sign (op_text op) line ∷ expr_toks right rest)

  pub args_toks : Exprs → ℕ → List Tok → List Tok
  args_toks Exprs.nil line rest = rest
  args_toks (Exprs.cons e es) line rest = expr_toks e (more_toks es line rest)

  pub more_toks : Exprs → ℕ → List Tok → List Tok
  more_toks Exprs.nil line rest = rest
  more_toks (Exprs.cons e es) line rest = sign "," line ∷ expr_toks e (more_toks es line rest)

-- An expression without its numbers and lines.
unfoldable mutual
  pub erase : Expr → Expr
  erase (mk_expr id line kind) = mk_expr 0 0 (erase_kind kind)

  pub erase_kind : ExprKind → ExprKind
  erase_kind (ExprKind.call callee args) = ExprKind.call (erase callee) (erase_args args)
  erase_kind (ExprKind.not_ e) = ExprKind.not_ (erase e)
  erase_kind (ExprKind.negate e) = ExprKind.negate (erase e)
  erase_kind (ExprKind.binary op left right) = ExprKind.binary op (erase left) (erase right)
  erase_kind kind = kind

  pub erase_args : Exprs → Exprs
  erase_args Exprs.nil = Exprs.nil
  erase_args (Exprs.cons e es) = Exprs.cons (erase e) (erase_args es)

mutual
  unfolding expr_toks

  pub length-expr_toks : (e : Expr) (rest : List Tok) → length rest ≤ length (expr_toks e rest)
  length-expr_toks (mk_expr id line kind) rest = length-kind_toks kind line rest

  length-kind_toks :
      (k : ExprKind) (line : ℕ) (rest : List Tok) → length rest ≤ length (kind_toks k line rest)
  length-kind_toks ExprKind.error line rest = omega arith
  length-kind_toks (ExprKind.ident ident) line rest = omega arith
  length-kind_toks (ExprKind.int value) line rest = omega arith
  length-kind_toks (ExprKind.str value) line rest = omega arith
  length-kind_toks (ExprKind.call callee args) line rest = omega (
    arith,
    length-expr_toks callee (sign "(" line ∷ args_toks args line (sign ")" line ∷ rest)),
    length-args_toks args line (sign ")" line ∷ rest),
  )
  length-kind_toks (ExprKind.not_ e) line rest = omega (arith, length-expr_toks e rest)
  length-kind_toks (ExprKind.negate e) line rest = omega (arith, length-expr_toks e rest)
  length-kind_toks (ExprKind.binary op left right) line rest = omega (
    arith,
    length-expr_toks left (sign (op_text op) line ∷ expr_toks right rest),
    length-expr_toks right rest,
  )

  pub length-args_toks :
      (es : Exprs) (line : ℕ) (rest : List Tok) → length rest ≤ length (args_toks es line rest)
  length-args_toks Exprs.nil line rest = omega arith
  length-args_toks (Exprs.cons e es) line rest =
      omega (arith, length-expr_toks e (more_toks es line rest), length-more_toks es line rest)

  pub length-more_toks :
      (es : Exprs) (line : ℕ) (rest : List Tok) → length rest ≤ length (more_toks es line rest)
  length-more_toks Exprs.nil line rest = omega arith
  length-more_toks (Exprs.cons e es) line rest =
      omega (arith, length-expr_toks e (more_toks es line rest), length-more_toks es line rest)

-- Whether the tokens begin with an operator of the level `m` at most.
abbrev pub is_op : List (String × BinaryOp × ℕ) → ℕ → List Tok → Bool
is_op [] m toks = false
is_op ((type, op, q) ∷ table) m toks = (starts toks type && leb q m) || is_op table m toks

-- Tokens after which an expression of the level `m` does not go on.
pub record Stops (m : ℕ) (rest : List Tok) : Type 0 where
  pub no_call : starts rest "(" ≡ false
  pub no_op : is_op ops m rest ≡ false

pub Stops-sooner : (m : ℕ) (rest : List Tok) → Stops (suc m) rest → Stops m rest
Stops-sooner m rest s = record { no_call = s.no_call; no_op = sooner ops s.no_op }
  where
    sooner :
        (table : List (String × BinaryOp × ℕ))
        → is_op table (suc m) rest ≡ false
        → is_op table m rest ≡ false
    sooner [] h = refl
    sooner ((type, op, q) ∷ table) h = ground (arith, sooner table)

pub eat_op-none :
    (table : List (String × BinaryOp × ℕ)) (m : ℕ) (p : Parser)
    → is_op table m p.toks ≡ false
    → eat_op table m p ≡ none
unfolding eat_op eat
eat_op-none [] m p h = refl
eat_op-none ((type, op, q) ∷ table) m p h = ground (arith, eat_op-none table m p)

-- An operator ends an operand of its level less one.
pub op-Stops :
    (op : BinaryOp) (line : ℕ) (rest : List Tok) → Stops (below op) (sign (op_text op) line ∷ rest)
op-Stops BinaryOp.or line rest = record { no_call = refl; no_op = refl }
op-Stops op line rest = record { no_call = refl; no_op = refl }

-- After the token before it is eaten.
abbrev pub next : Parser → Parser
next p = step (record p { eaten = curr p })

pub eat-next :
    (type : String) (p : Parser) (tok : Tok) (rest : List Tok)
    → p.toks ≡ tok ∷ rest
    → str_eq tok.type type ≡ true
    → eat type p ≡ some (next p)
unfolding eat
eat-next type p tok rest h same = rw (ap (λ toks. starts toks type) h ∙ same) refl

pub eat-none : (type : String) (p : Parser) → starts p.toks type ≡ false → eat type p ≡ none
unfolding eat
eat-none type p h = rw h refl

pub eat_op-next :
    (op : BinaryOp) (p : Parser) (line : ℕ) (rest : List Tok)
    → p.toks ≡ sign (op_text op) line ∷ rest
    → eat_op ops (suc (below op)) p ≡ some (op, next p)
unfolding eat_op eat
eat_op-next BinaryOp.or p line rest h = rw h refl
eat_op-next op p line rest h = rw h refl
