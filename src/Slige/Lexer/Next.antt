-- ===== src/Slige/Lexer/Next.antt =====
-- `next()` of slige/compiler/parse/lexer.ts.
use h4_projekt_gruppe_0_sm.Prelude.{
  Bool, true, false, List, [], ◌∷◌, Option, none, some, if◌then◌else◌, String, str_eq,
}
use Prim.Native.Char.{Char}
use h4_projekt_gruppe_0_sm.Slige.Lexer.{
  Pos, Span, Token, Ctx, Lexer, intern_ident, report, is, step, is_space, is_letter, is_word,
  is_nonzero, is_digit, token, lex_with_tail, parse_int, chars,
}
use h4_projekt_gruppe_0_sm.Slige.Lexer.Literals.{
  Lexed, int_token, lex_zero, lex_char, lex_text, lex_slash, static_tokens, match_static,
  lex_static,
}

abbrev pub keywords : List String
keywords =
    "false" ∷ "true" ∷ "null" ∷ "int" ∷ "bool" ∷ "str" ∷ "return" ∷ "break" ∷ "continue" ∷ "let"
    ∷ "mut" ∷ "fn" ∷ "loop" ∷ "if" ∷ "else" ∷ "struct" ∷ "enum" ∷ "or" ∷ "and" ∷ "not" ∷ "while"
    ∷ "for" ∷ "in" ∷ "match" ∷ "mod" ∷ "pub" ∷ "use" ∷ "type_alias" ∷ []

abbrev pub contains_text : List String → String → Bool
contains_text [] text = false
contains_text (t ∷ ts) text = if str_eq t text then true else contains_text ts text

-- A word, which is a keyword or an identifier.
unfoldable pub word_token : Span → String → Ctx → Token × Ctx
unfolding token intern_ident
word_token span val ctx =
    if contains_text keywords val
    then (token val span, ctx)
    else (let (id, ctx₁) = intern_ident val ctx in
        (record (token "ident" span) { ident_id = some id; ident_text = some val }, ctx₁))

-- `this.report(msg, pos)` before a token, if there is anything to report
abbrev pub reported : Option String → Pos → Ctx → Ctx
reported none pos ctx = ctx
reported (some msg) pos ctx = report msg pos ctx

unfoldable pub finish : Lexed → Lexer → Option Token × Lexer
finish (tok, msg, cursor) l =
    (some tok, record { cursor = cursor; ctx = reported msg l.cursor.at l.ctx })

-- The text that is left is the first argument, for an illegal character is passed over.
unfoldable pub next_on : List Char → Lexer → Option Token × Lexer
unfolding step lex_with_tail word_token lex_zero lex_char lex_text lex_slash lex_static finish
    report token
next_on [] l = (none, l)
next_on (c ∷ s) l =
    let later =
      next_on s
        (record { cursor = step l.cursor; ctx = report "illegal character" l.cursor.at l.ctx }) in
    if is_space c
    then (let (span, val, cursor) = lex_with_tail c s is_space l.cursor in
        (some (token "whitespace" span), record l { cursor = cursor }))
    else if is_letter c
    then (let (span, val, cursor) = lex_with_tail c s is_word l.cursor in
        let (tok, ctx) = word_token span val l.ctx in
        (some tok, record { cursor = cursor; ctx = ctx }))
    else if is_nonzero c
    then (let (span, val, cursor) = lex_with_tail c s is_digit l.cursor in
        (some (int_token span (parse_int 0 (chars val))), record l { cursor = cursor }))
    else if is "0" c
    then finish (lex_zero l.cursor) l
    else if is "'" c
    then finish (lex_char l.cursor) l
    else if is "\"" c
    then finish (lex_text l.cursor) l
    else if is "/" c
    then finish (lex_slash l.cursor) l
    else elim (match_static static_tokens (c ∷ s)) [
      | some text ↦ finish (lex_static text l.cursor) l
      | none ↦ later
    ]

unfoldable pub next : Lexer → Option Token × Lexer
unfolding next_on
next l = next_on l.cursor.rest l
