-- ===== src/Slige/Lexer.antt =====
-- `Lexer` of slige/compiler/parse/lexer.ts, with `internIdent` and `report` of slige/compiler/common/ctx.ts. A
-- text is the list of its characters, and the fields `text` and `idx` are a position and the text from there
-- on, for texts without characters of two code units. A number is exact, where `parseInt` rounds from 2^53 on, and the
-- report of an illegal character is without it.
-- The loops follow the text that is left, which is the argument before the others.
pub mod Literals
pub mod Next
pub mod Steps
pub mod Positions
pub mod Filter
use h4_projekt_gruppe_0_sm.Prelude.{
  ℕ, zero, suc, ◌+◌, ◌-◌, ◌*◌, Bool, true, false, not, ◌&&◌, ◌||◌, List, [], ◌∷◌, ◌++◌, Option,
  none, some, if◌then◌else◌, leb, ◌==◌, String, str_eq,
}
use Prim.Native.Char.{Char, code, nul}
use Prim.Native.String.{◌++◌ as text_append}
use Prim.Native.String as Text

pub record Pos : Type 0 where
  pub idx : ℕ
  pub line : ℕ
  pub col : ℕ

pub record Span : Type 0 where
  pub begin : Pos
  pub end : Pos

pub record Token : Type 0 where
  pub type : String
  pub span : Span
  pub length : ℕ
  pub ident_id : Option ℕ
  pub ident_text : Option String
  pub int_value : Option ℕ
  pub string_value : Option String

-- What the lexer changes of `Ctx`: the identifiers by their text, and the reports.
pub record Ctx : Type 0 where
  pub ident_ids : ℕ
  pub ident_string_to_id : List (String × ℕ)
  pub reports : List (String × Pos)

-- The place in the text.
pub record Cursor : Type 0 where
  pub rest : List Char
  pub at : Pos

pub record Lexer : Type 0 where
  pub cursor : Cursor
  pub ctx : Ctx

abbrev pub chars : String → List Char
chars Text.[] = []
chars (Text.◌∷◌ c s) = c ∷ chars s

abbrev pub of_char : Char → String
of_char c = Text.◌∷◌ c Text.[]

abbrev pub new_lexer : String → Ctx → Lexer
new_lexer text ctx = record {
  cursor = record { rest = chars text; at = record { idx = 0; line = 1; col = 1 } };
  ctx = ctx;
}

abbrev pub ident_id_of : List (String × ℕ) → String → Option ℕ
ident_id_of [] ident = none
ident_id_of ((text, id) ∷ entries) ident =
    if str_eq text ident then some id else ident_id_of entries ident

-- `internIdent`
unfoldable pub intern_ident : String → Ctx → ℕ × Ctx
intern_ident ident ctx = elim (ident_id_of ctx.ident_string_to_id ident) [
  | some id ↦ (id, ctx)
  | none ↦ (
    ctx.ident_ids,
    record ctx {
      ident_ids = suc ctx.ident_ids;
      ident_string_to_id = ctx.ident_string_to_id ++ ((ident, ctx.ident_ids) ∷ []);
    },
  )
]

unfoldable pub report : String → Pos → Ctx → Ctx
report msg pos ctx = record ctx { reports = ctx.reports ++ ((msg, pos) ∷ []) }

-- `c === "…"`
abbrev pub is : Char → Char → Bool
is expected c = code c == code expected

abbrev pub moved : Char → Pos → Pos
moved c at =
    if is "\n" c
    then record { idx = suc at.idx; line = suc at.line; col = 1 }
    else record { idx = suc at.idx; line = at.line; col = suc at.col }

-- `step()`
unfoldable pub step_on : List Char → Cursor → Cursor
step_on [] l = l
step_on (c ∷ s) l = record { rest = s; at = moved c l.at }

unfoldable pub step : Cursor → Cursor
unfolding step_on
step l = step_on l.rest l

-- `test` of a single character
abbrev pub holds : (Char → Bool) → List Char → Bool
holds pattern [] = false
holds pattern (c ∷ s) = pattern c

abbrev pub test : (Char → Bool) → Cursor → Bool
test pattern l = holds pattern l.rest

abbrev pub is_done : Cursor → Bool
is_done l = not (holds (λ c. true) l.rest)

abbrev pub between : ℕ → ℕ → Char → Bool
between first last c = leb first (code c) && leb (code c) last

-- `/[ \t\r\n]/`, `/[a-zA-Z_]/`, `/[a-zA-Z0-9_]/`, `/[1-9]/` and `/[0-9]/`
abbrev pub is_space : Char → Bool
is_space c = is " " c || (is "\t" c || (is "\r" c || is "\n" c))

abbrev pub is_letter : Char → Bool
is_letter c = between b'a' b'z' c || (between b'A' b'Z' c || is "_" c)

abbrev pub is_digit : Char → Bool
is_digit c = between b'0' b'9' c

abbrev pub is_word : Char → Bool
is_word c = is_letter c || is_digit c

abbrev pub is_nonzero : Char → Bool
is_nonzero c = between b'1' b'9' c

-- `token(type, span)`
unfoldable pub token : String → Span → Token
token type span = record {
  type = type;
  span = span;
  length = span.end.idx - span.begin.idx + 1;
  ident_id = none;
  ident_text = none;
  int_value = none;
  string_value = none;
}

-- The loop of `lexWithTail`: the last position, the text and the place after it.
unfoldable pub tail_loop : List Char → (Char → Bool) → Pos → String → Cursor → Pos × String × Cursor
unfolding step
tail_loop [] pattern end val l = (end, val, l)
tail_loop (c ∷ s) pattern end val l =
    let more = tail_loop s pattern l.at (text_append val (of_char c)) (step l) in
    if pattern c then more else (end, val, l)

-- `lexWithTail` at a first character `c` that fits: the span, the text and the place after it.
unfoldable pub lex_with_tail : Char → List Char → (Char → Bool) → Cursor → Span × String × Cursor
unfolding step tail_loop
lex_with_tail c s pattern l =
    let (end, val, l') = tail_loop s pattern l.at (of_char c) (step l) in
    (record { begin = l.at; end = end }, val, l')

-- `parseInt`
abbrev pub parse_int : ℕ → List Char → ℕ
parse_int n [] = n
parse_int n (c ∷ s) = parse_int (n * 10 + (code c - b'0')) s

-- `{ n: "\\n", t: "\\t", "0": "\\0" }[c] ?? c`
abbrev pub escape : Char → Char
escape c = if is "n" c then "\n" else if is "t" c then "\t" else if is "0" c then nul else c
