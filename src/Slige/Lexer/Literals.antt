-- ===== src/Slige/Lexer/Literals.antt =====
-- The branches of `next` of slige/compiler/parse/lexer.ts that follow the first character of a number, a
-- character, a text, a comment or a sign. Each gives a token and a report, if there is one, and the place.
use h4_projekt_gruppe_0_sm.Prelude.{
  ℕ, zero, suc, Bool, true, false, ◌&&◌, List, [], ◌∷◌, Option, none, some, if◌then◌else◌, ◌==◌,
  String,
}
use Prim.Native.Char.{Char, code}
use Prim.Native.String.{◌++◌ as text_append}
use h4_projekt_gruppe_0_sm.Slige.Lexer.{
  Pos, Span, Token, Cursor, is, step, test, is_done, is_digit, token, escape, chars, of_char,
}

-- A token, what is reported before it, and the place after it.
abbrev pub Lexed : Type 0
Lexed = Token × Option String × Cursor

abbrev pub int_token : Span → ℕ → Token
int_token span value = record (token "int" span) { int_value = some value }

-- `if (this.test("0"))`
unfoldable pub lex_zero : Cursor → Lexed
unfolding step token
lex_zero l =
    let span : Span = record { begin = l.at; end = l.at } in
    let l₁ = step l in
    if test is_digit l₁
    then (token "error" span, some "invalid number", l₁)
    else (int_token span 0, none, l₁)

-- The end of a character literal, whose value is `value`.
unfoldable pub close_char : Span → Option Char → Cursor → Lexed
unfolding step token
close_char span none l = (token "error" span, some "malformed character literal", l)
close_char span (some value) l =
    if test (is "'") l
    then (int_token span (code value), none, step l)
    else (token "error" span, some "malformed character literal", l)

abbrev pub first : List Char → Option Char
first [] = none
first (c ∷ s) = some c

abbrev pub escaped : Option Char → Option Char
escaped none = none
escaped (some c) = some (escape c)

-- `if (this.test("'"))`
unfoldable pub lex_char : Cursor → Lexed
unfolding close_char
lex_char l =
    let span : Span = record { begin = l.at; end = l.at } in
    let l₁ = step l in
    if test (is "\\") l₁
    then (let l₂ = step l₁ in
        if is_done l₂
        then (token "error" span, some "malformed character literal", l₂)
        else close_char span (escaped (first l₂.rest)) (step l₂))
    else close_char span (first l₁.rest) (step l₁)

-- The loop of a text, with the text read so far.
unfoldable pub text_loop : List Char → String → Cursor → String × Cursor
unfolding step
text_loop [] value l = (value, l)
text_loop (c ∷ []) value l =
    if is "\"" c
    then (value, l)
    else if is "\\" c
    then (value, step l)
    else (text_append value (of_char c), step l)
text_loop (c ∷ d ∷ s) value l =
    let after_escape = text_loop s (text_append value (of_char (escape d))) (step (step l)) in
    let after = text_loop (d ∷ s) (text_append value (of_char c)) (step l) in
    if is "\"" c then (value, l) else if is "\\" c then after_escape else after

-- `if (this.test('"'))`
unfoldable pub lex_text : Cursor → Lexed
unfolding text_loop token
lex_text l =
    let span : Span = record { begin = l.at; end = l.at } in
    let l₁ = step l in
    let (value, l₂) = text_loop l₁.rest "" l₁ in
    if test (is "\"") l₂
    then (record (token "str" span) { string_value = some value }, none, step l₂)
    else (token "error" span, some "unclosed/malformed string", l₂)

-- The loop of a comment to the end of the line, with the last position.
unfoldable pub line_loop : List Char → Pos → Cursor → Pos × Cursor
unfolding step
line_loop [] end l = (end, l)
line_loop (c ∷ s) end l =
    let more = line_loop s l.at (step l) in if is "\n" c then (end, l) else more

-- The loop of a comment between `/*` and `*/`, which may be nested: the depth, the last character, if it may
-- be half of a delimiter, and the last position.
unfoldable pub block_loop : List Char → ℕ → Option Char → Pos → Cursor → ℕ × Pos × Cursor
unfolding step
block_loop s zero last end l = (zero, end, l)
block_loop [] (suc depth) last end l = (suc depth, end, l)
block_loop (c ∷ s) (suc depth) last end l =
    let closed = block_loop s depth none l.at (step l) in
    let opened = block_loop s (suc (suc depth)) none l.at (step l) in
    let inside = block_loop s (suc depth) (some c) l.at (step l) in
    elim last [
      | none ↦ inside
      | some b ↦
          if is "*" b && is "/" c then closed else if is "/" b && is "*" c then opened else inside
    ]

-- `if (this.test("/"))`
unfoldable pub lex_slash : Cursor → Lexed
unfolding line_loop block_loop token
lex_slash l =
    let begin = l.at in
    let l₁ = step l in
    if test (is "/") l₁
    then (let (end, l₂) = line_loop l₁.rest begin l₁ in
        (token "comment" (record { begin = begin; end = end }), none, l₂))
    else if test (is "*") l₁
    then (let l₂ = step l₁ in
        let (depth, end, l₃) = block_loop l₂.rest 1 none l₁.at l₂ in
        let span : Span = record { begin = begin; end = end } in
        if depth == 0
        then (token "/" span, none, l₃)
        else (token "comment" span, some "unclosed/malformed multiline comment", l₃))
    else (token "/" (record { begin = begin; end = begin }), none, l₁)

-- `staticTokenRes`, the longest first: what the regular expressions match, for an escaped `0` is the character
-- of the number 0
abbrev pub static_tokens : List String
static_tokens =
    "::<" ∷ "==" ∷ "=>" ∷ "<=" ∷ ">=" ∷ "->" ∷ "!=" ∷ "+=" ∷ "-=" ∷ "::" ∷ "=" ∷ "<" ∷ ">" ∷ "-"
    ∷ "!" ∷ "+" ∷ ":" ∷ "(" ∷ ")" ∷ "{" ∷ "}" ∷ "[" ∷ "]" ∷ "<" ∷ ">" ∷ "." ∷ "," ∷ ":" ∷ ";" ∷ "#"
    ∷ "&" ∷ "\0" ∷ []

abbrev pub starts_with : List Char → List Char → Bool
starts_with text [] = true
starts_with [] (d ∷ t) = false
starts_with (c ∷ s) (d ∷ t) = (code c == code d) && starts_with s t

-- the match of the regular expression at the beginning of the text
unfoldable pub match_static : List String → List Char → Option String
match_static [] text = none
match_static (t ∷ ts) text = if starts_with text (chars t) then some t else match_static ts text

-- `for (const _ of range(match[1].length)) { end = this.pos(); this.step(); }`
unfoldable pub static_loop : List Char → Pos → Cursor → Pos × Cursor
unfolding step
static_loop [] end l = (end, l)
static_loop (d ∷ t) end l = static_loop t l.at (step l)

unfoldable pub lex_static : String → Cursor → Lexed
unfolding static_loop token
lex_static text l =
    let (end, l₁) = static_loop (chars text) l.at l in
    (token text (record { begin = l.at; end = end }), none, l₁)
