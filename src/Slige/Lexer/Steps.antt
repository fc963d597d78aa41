-- ===== src/Slige/Lexer/Steps.antt =====
-- The steps that `next` of slige/compiler/parse/lexer.ts takes through the text, and the positions it counts.
use h4_projekt_gruppe_0_sm.Prelude.{
  ℕ, zero, suc, Bool, true, false, ◌&&◌, List, [], ◌∷◌, Option, none, some, if◌then◌else◌, ◌==◌,
  String,
}
use Prim.Native.Char.{Char, code}
use Prim.Native.String.{◌++◌ as text_append}
use h4_projekt_gruppe_0_sm.Slige.Lexer.{
  Pos, Span, Cursor, is, step, tail_loop, is_digit, test, is_done, token, of_char, escape,
}
use h4_projekt_gruppe_0_sm.Slige.Lexer.Literals.{
  Lexed, int_token, lex_zero, close_char, lex_char, first, escaped, text_loop, lex_text, line_loop,
  block_loop, lex_slash, static_loop,
}

-- Some steps.
pub data Reaches : Cursor → Cursor → Type 0 where
  stay : {l : Cursor} → Reaches l l
  go : {l l' : Cursor} → Reaches (step l) l' → Reaches l l'

Reaches-trans : (a b c : Cursor) → Reaches a b → Reaches b c → Reaches a c
Reaches-trans a b c stay k = k
Reaches-trans a b c (go h) k = go (Reaches-trans (step a) b c h k)

-- The place that a branch or a loop gives after its other results.
unfoldable pub EndsAt : {A : Type 0} → Cursor → A × Cursor → Type 0
EndsAt l r = Reaches l r.1

unfoldable pub StopsAt : {A B : Type 0} → Cursor → A × B × Cursor → Type 0
StopsAt l r = Reaches l r.2

module _ {A : Type 0} where
  EndsAt-if :
      (l : Cursor) (b : Bool) (x y : A × Cursor)
      → EndsAt l x
      → EndsAt l y
      → EndsAt l (if b then x else y)
  EndsAt-if l true x y h k = h
  EndsAt-if l false x y h k = k

  EndsAt-go : (l : Cursor) (x : A × Cursor) → EndsAt (step l) x → EndsAt l x
  unfolding EndsAt
  EndsAt-go l x h = go h

  pub EndsAt-in : (l l' : Cursor) (a : A) → Reaches l l' → EndsAt l (a, l')
  unfolding EndsAt
  EndsAt-in l l' a h = h

  pub EndsAt-out : (l : Cursor) (x : A × Cursor) → EndsAt l x → Reaches l x.1
  unfolding EndsAt
  EndsAt-out l x h = h

module _ {A B : Type 0} where
  StopsAt-if :
      (l : Cursor) (b : Bool) (x y : A × B × Cursor)
      → StopsAt l x
      → StopsAt l y
      → StopsAt l (if b then x else y)
  StopsAt-if l true x y h k = h
  StopsAt-if l false x y h k = k

  StopsAt-go : (l : Cursor) (x : A × B × Cursor) → StopsAt (step l) x → StopsAt l x
  unfolding StopsAt
  StopsAt-go l x h = go h

  pub StopsAt-in : (l l' : Cursor) (a : A) (b : B) → Reaches l l' → StopsAt l (a, b, l')
  unfolding StopsAt
  StopsAt-in l l' a b h = h

  pub StopsAt-out : (l : Cursor) (x : A × B × Cursor) → StopsAt l x → Reaches l x.2
  unfolding StopsAt
  StopsAt-out l x h = h

pub tail_loop-StopsAt :
    (s : List Char) (pattern : Char → Bool) (end : Pos) (val : String) (l : Cursor)
    → StopsAt l (tail_loop s pattern end val l)
unfolding tail_loop
tail_loop-StopsAt [] pattern end val l = StopsAt-in _ _ _ _ stay
tail_loop-StopsAt (c ∷ s) pattern end val l =
    StopsAt-if _ (pattern c) _ _ (StopsAt-go _ _ (tail_loop-StopsAt s pattern _ _ (step l)))
      (StopsAt-in _ _ _ _ stay)

text_loop-EndsAt : (s : List Char) (value : String) (l : Cursor) → EndsAt l (text_loop s value l)
unfolding text_loop
text_loop-EndsAt [] value l = EndsAt-in _ _ _ stay
text_loop-EndsAt (c ∷ []) value l =
    let other = text_append value (of_char c) in
    EndsAt-if l (is "\"" c) (value, l) (if is "\\" c then (value, step l) else (other, step l))
      (EndsAt-in l l value stay)
      (EndsAt-if l (is "\\" c) (value, step l) (other, step l)
        (EndsAt-in l (step l) value (go stay)) (EndsAt-in l (step l) other (go stay)))
text_loop-EndsAt (c ∷ d ∷ s) value l =
    let after_escape = text_loop s (text_append value (of_char (escape d))) (step (step l)) in
    let after = text_loop (d ∷ s) (text_append value (of_char c)) (step l) in
    EndsAt-if l (is "\"" c) (value, l) (if is "\\" c then after_escape else after)
      (EndsAt-in l l value stay)
      (EndsAt-if l (is "\\" c) after_escape after
        (EndsAt-go l after_escape
          (EndsAt-go (step l) after_escape (text_loop-EndsAt s _ (step (step l)))))
        (EndsAt-go l after (text_loop-EndsAt (d ∷ s) _ (step l))))

line_loop-EndsAt : (s : List Char) (end : Pos) (l : Cursor) → EndsAt l (line_loop s end l)
unfolding line_loop
line_loop-EndsAt [] end l = EndsAt-in _ _ _ stay
line_loop-EndsAt (c ∷ s) end l =
    EndsAt-if l (is "\n" c) (end, l) (line_loop s l.at (step l)) (EndsAt-in l l end stay)
      (EndsAt-go l _ (line_loop-EndsAt s l.at (step l)))

block_loop-StopsAt :
    (s : List Char) (depth : ℕ) (last : Option Char) (end : Pos) (l : Cursor)
    → StopsAt l (block_loop s depth last end l)
unfolding block_loop
block_loop-StopsAt [] zero last end l = StopsAt-in _ _ _ _ stay
block_loop-StopsAt (c ∷ s) zero last end l = StopsAt-in _ _ _ _ stay
block_loop-StopsAt [] (suc depth) last end l = StopsAt-in _ _ _ _ stay
block_loop-StopsAt (c ∷ s) (suc depth) none end l =
    StopsAt-go _ _ (block_loop-StopsAt s (suc depth) (some c) _ (step l))
block_loop-StopsAt (c ∷ s) (suc depth) (some b) end l =
    let closed = block_loop s depth none l.at (step l) in
    let opened = block_loop s (suc (suc depth)) none l.at (step l) in
    let inside = block_loop s (suc depth) (some c) l.at (step l) in
    StopsAt-if l (is "*" b && is "/" c) closed (if is "/" b && is "*" c then opened else inside)
      (StopsAt-go l closed (block_loop-StopsAt s depth none l.at (step l)))
      (StopsAt-if l (is "/" b && is "*" c) opened inside
        (StopsAt-go l opened (block_loop-StopsAt s (suc (suc depth)) none l.at (step l)))
        (StopsAt-go l inside (block_loop-StopsAt s (suc depth) (some c) l.at (step l))))

pub static_loop-EndsAt : (t : List Char) (end : Pos) (l : Cursor) → EndsAt l (static_loop t end l)
unfolding static_loop
static_loop-EndsAt [] end l = EndsAt-in _ _ _ stay
static_loop-EndsAt (d ∷ t) end l = EndsAt-go _ _ (static_loop-EndsAt t _ (step l))

-- After its first step, each branch takes some more.
pub lex_zero-StopsAt : (l : Cursor) → StopsAt (step l) (lex_zero l)
unfolding lex_zero
lex_zero-StopsAt l =
    let span : Span = record { begin = l.at; end = l.at } in
    StopsAt-if (step l) (test is_digit (step l)) (token "error" span, some "invalid number", step l)
      (int_token span 0, none, step l) (StopsAt-in _ _ _ _ stay) (StopsAt-in _ _ _ _ stay)

close_char-StopsAt :
    (span : Span) (value : Option Char) (l : Cursor) → StopsAt l (close_char span value l)
unfolding close_char
close_char-StopsAt span none l = StopsAt-in _ _ _ _ stay
close_char-StopsAt span (some value) l =
    StopsAt-if l (test (is "'") l) (int_token span (code value), none, step l)
      (token "error" span, some "malformed character literal", l) (StopsAt-in _ _ _ _ (go stay))
      (StopsAt-in _ _ _ _ stay)

pub lex_char-StopsAt : (l : Cursor) → StopsAt (step l) (lex_char l)
unfolding lex_char
lex_char-StopsAt l =
    let span : Span = record { begin = l.at; end = l.at } in
    let l₁ = step l in
    let l₂ = step l₁ in
    let malformed : Lexed = (token "error" span, some "malformed character literal", l₂) in
    let escape_closed = close_char span (escaped (first l₂.rest)) (step l₂) in
    let closed = close_char span (first l₁.rest) (step l₁) in
    StopsAt-if l₁ (test (is "\\") l₁) (if is_done l₂ then malformed else escape_closed) closed
      (StopsAt-if l₁ (is_done l₂) malformed escape_closed (StopsAt-in _ _ _ _ (go stay)) (
        StopsAt-go l₁ escape_closed (
          StopsAt-go l₂ escape_closed
            (close_char-StopsAt span (escaped (first l₂.rest)) (step l₂)))))
      (StopsAt-go l₁ closed (close_char-StopsAt span (first l₁.rest) (step l₁)))

pub lex_text-StopsAt : (l : Cursor) → StopsAt (step l) (lex_text l)
unfolding lex_text
lex_text-StopsAt l =
    let span : Span = record { begin = l.at; end = l.at } in
    let (value, l₂) = text_loop (step l).rest "" (step l) in
    let reach : Reaches (step l) l₂ =
      EndsAt-out (step l) (value, l₂) (text_loop-EndsAt (step l).rest "" (step l)) in
    StopsAt-if (step l) (test (is "\"") l₂)
      (record (token "str" span) { string_value = some value }, none, step l₂)
      (token "error" span, some "unclosed/malformed string", l₂)
      (StopsAt-in _ _ _ _ (Reaches-trans (step l) l₂ (step l₂) reach (go stay)))
      (StopsAt-in _ _ _ _ reach)

pub lex_slash-StopsAt : (l : Cursor) → StopsAt (step l) (lex_slash l)
unfolding lex_slash
lex_slash-StopsAt l =
    let l₁ = step l in
    let l₂ = step l₁ in
    let (line_end, after_line) = line_loop l₁.rest l.at l₁ in
    let (depth, block_end, after_block) = block_loop l₂.rest 1 none l₁.at l₂ in
    let line : Lexed =
      (token "comment" (record { begin = l.at; end = line_end }), none, after_line) in
    let span : Span = record { begin = l.at; end = block_end } in
    let closed : Lexed = (token "/" span, none, after_block) in
    let unclosed : Lexed =
      (token "comment" span, some "unclosed/malformed multiline comment", after_block) in
    let plain : Lexed = (token "/" (record { begin = l.at; end = l.at }), none, l₁) in
    let block : Reaches l₁ after_block = go (
      StopsAt-out l₂ (depth, block_end, after_block)
        (block_loop-StopsAt l₂.rest 1 none l₁.at l₂)) in
    StopsAt-if l₁ (test (is "/") l₁) line
      (if test (is "*") l₁ then if depth == 0 then closed else unclosed else plain)
      (StopsAt-in _ _ _ _ (EndsAt-out l₁ (line_end, after_line) (line_loop-EndsAt l₁.rest l.at l₁)))
      (StopsAt-if l₁ (test (is "*") l₁) (if depth == 0 then closed else unclosed) plain
        (StopsAt-if l₁ (depth == 0) closed unclosed (StopsAt-in _ _ _ _ block)
          (StopsAt-in _ _ _ _ block))
        (StopsAt-in _ _ _ _ stay))
