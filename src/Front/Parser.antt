-- ===== src/Front/Parser.antt =====
-- `Parser` of sbc/front.ts: its state and the steps on tokens. Its children are the parts of the grammar. The
-- position `i` is the list of the tokens that are left. `report` throws, so what would follow it is left out,
-- and messages are without the line. A `!` of a value that is not there throws as well.
pub mod Exprs
pub mod Stmts
pub mod Progress
pub mod Printing
pub mod RoundTrip
use h4_projekt_gruppe_0_sm.Prelude.{
  ℕ, zero, suc, String, Bool, true, false, ◌||◌, List, [], ◌∷◌, Option, none, some, if◌then◌else◌,
  str_eq,
}
use h4_projekt_gruppe_0_sm.Prelude.Fueled.{Fueled, out_of_fuel, thrown, done, ◌>>=◌, present}
use h4_projekt_gruppe_0_sm.Ast.{Expr, mk_expr, ExprKind, Stmt, mk_stmt, StmtKind, Ty, mk_ty, TyKind}

pub record Tok : Type 0 where
  pub type : String
  pub line : ℕ
  pub int_val : Option ℕ
  pub string_val : Option String
  pub ident_val : Option String

pub record Parser : Type 0 where
  pub toks : List Tok
  pub block_ids : ℕ
  pub stmt_ids : ℕ
  pub expr_ids : ℕ
  pub ty_ids : ℕ
  pub last : Option Tok
  pub eaten : Option Tok

abbrev pub head : List Tok → Option Tok
head [] = none
head (tok ∷ toks) = some tok

unfoldable pub new_parser : List Tok → Parser
new_parser toks = record {
  toks = toks;
  block_ids = 0;
  stmt_ids = 0;
  expr_ids = 0;
  ty_ids = 0;
  last = head toks;
  eaten = none;
}

-- What a rule of the grammar makes of the state.
abbrev pub Rule : Type 0 → Type 0
Rule A = Parser → Fueled (A × Parser)

-- `done()`
abbrev pub is_done : Parser → Bool
is_done p = elim p.toks [ [] ↦ true | tok ∷ toks ↦ false ]

-- `curr()`
abbrev pub curr : Parser → Option Tok
curr p = head p.toks

-- `test(type)`
abbrev pub starts : List Tok → String → Bool
starts [] type = false
starts (tok ∷ toks) type = str_eq tok.type type

abbrev pub test : String → Parser → Bool
test type p = starts p.toks type

-- `step()`
abbrev pub last_after : List Tok → Option Tok → Option Tok
last_after [] last = last
last_after (tok ∷ toks) last = some tok

abbrev pub tail : List Tok → List Tok
tail [] = []
tail (tok ∷ toks) = toks

unfoldable pub step : Parser → Parser
step p = record p { toks = tail p.toks; last = last_after (tail p.toks) p.last }

-- `eat(type)`, and the state after it if it is true
unfoldable pub eat : String → Parser → Option Parser
unfolding step
eat type p = if test type p then some (step (record p { eaten = curr p })) else none

-- `if (!this.eat(type)) { this.report(…) }`
unfoldable pub required : String → Parser → Fueled Parser
unfolding eat
required type p = present type (eat type p)

-- `this.eaten!`
abbrev pub eaten_tok : Parser → Fueled Tok
eaten_tok p = present "" p.eaten

-- `expr(kind, line)`, `stmt(kind, line)` and `ty(kind, line)`
unfoldable pub new_expr : ExprKind → ℕ → Parser → Expr × Parser
new_expr kind line p = (mk_expr p.expr_ids line kind, record p { expr_ids = suc p.expr_ids })

unfoldable pub new_stmt : StmtKind → ℕ → Parser → Stmt × Parser
new_stmt kind line p = (mk_stmt p.stmt_ids line kind, record p { stmt_ids = suc p.stmt_ids })

unfoldable pub new_ty : TyKind → ℕ → Parser → Ty × Parser
new_ty kind line p = (mk_ty p.ty_ids line kind, record p { ty_ids = suc p.ty_ids })

-- What stands between parentheses, as in the arguments of calls and of attributes and in parameters: up to
-- the closing one, which is left. The loop is on fuel.
module _ {A : Type 0} (item : Rule A) where
  unfoldable pub more_items : ℕ → Rule (List A)
  unfolding required
  more_items zero p = out_of_fuel
  more_items (suc fuel) p =
      if is_done p || test ")" p
      then done ([], p)
      else (required "," p >>= λ p₁.
          if test ")" p₁
          then done ([], p₁)
          else (item p₁ >>= λ (a, p₂). more_items fuel p₂ >>= λ (rest, p₃). done (a ∷ rest, p₃)))

  unfoldable pub items : ℕ → Rule (List A)
  unfolding more_items
  items fuel p =
      if is_done p || test ")" p
      then done ([], p)
      else (item p >>= λ (a, p₁). more_items fuel p₁ >>= λ (rest, p₂). done (a ∷ rest, p₂))
