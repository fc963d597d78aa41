-- ===== src/Slige/Lexer/Positions.antt =====
-- What `next` of slige/compiler/parse/lexer.ts leaves of the text, and the positions that it counts.
use h4_projekt_gruppe_0_sm.Prelude.{
  ℕ, suc, ◌+◌, ◌<◌, ◌≤◌, Bool, true, false, ◌&&◌, List, [], ◌∷◌, ◌++◌, length, length-append,
  append_assoc, Option, none, some, if◌then◌else◌, Bool-cases, Option-cases, inl, inr, ◌⊎◌, ◌==◌,
  String, ◌≡◌, refl, ap, sym, ◌∙◌, arith,
}
use Prim.Native.Char.{Char}
use h4_projekt_gruppe_0_sm.Slige.Lexer.{
  Pos, Token, Cursor, Lexer, is, moved, step, step_on, lex_with_tail, is_space, is_letter, is_word,
  is_nonzero, is_digit, chars, report, of_char,
}
use h4_projekt_gruppe_0_sm.Slige.Lexer.Literals.{
  Lexed, lex_zero, lex_char, lex_text, lex_slash, static_tokens, match_static, static_loop,
  lex_static,
}
use h4_projekt_gruppe_0_sm.Slige.Lexer.Next.{finish, next_on, next}
use h4_projekt_gruppe_0_sm.Slige.Lexer.Steps.{
  Reaches, stay, go, EndsAt-out, StopsAt, StopsAt-in, StopsAt-out, tail_loop-StopsAt,
  static_loop-EndsAt, lex_zero-StopsAt, lex_char-StopsAt, lex_text-StopsAt, lex_slash-StopsAt,
}

abbrev pub newlines : List Char → ℕ
newlines [] = 0
newlines (c ∷ s) = if is "\n" c then suc (newlines s) else newlines s

-- What follows the last line break.
abbrev pub last_line : List Char → List Char
last_line [] = []
last_line (c ∷ s) = if newlines s == 0 then if is "\n" c then s else c ∷ s else last_line s

-- The position after some text.
abbrev pub place : List Char → Pos
place text = record {
  idx = length text;
  line = suc (newlines text);
  col = suc (length (last_line text));
}

-- The cursor is in `text`, and counts its position rightly.
pub record IsAt (text : List Char) (l : Cursor) : Type 0 where
  pub before : List Char
  pub splits : text ≡ before ++ l.rest
  pub counts : l.at ≡ place before

newlines-append : (s t : List Char) → newlines (s ++ t) ≡ newlines s + newlines t
newlines-append [] t = omega arith
newlines-append (c ∷ s) t = ground (arith, newlines-append s t)

last_line-append :
    (s : List Char) (c : Char)
    → last_line (s ++ c ∷ []) ≡ (if is "\n" c then [] else last_line s ++ c ∷ [])
last_line-append [] c = refl
last_line-append (d ∷ s) c = ground (arith, last_line-append s c, newlines-append s (c ∷ []))

moved-place : (s : List Char) (c : Char) → moved c (place s) ≡ place (s ++ c ∷ [])
moved-place s c = elim (Bool-cases (is "\n" c)) [
  | inl newline ↦
      ground
        (arith, newline, length-append s (c ∷ []), newlines-append s (c ∷ []), last_line-append s c)
  | inr other ↦ ground (
    arith,
    other,
    length-append s (c ∷ []),
    newlines-append s (c ∷ []),
    last_line-append s c,
    length-append (last_line s) (c ∷ []),
  )
]

step-IsAt : (text : List Char) (l : Cursor) → IsAt text l → IsAt text (step l)
unfolding step
step-IsAt text l at = by_rest l.rest refl
  where
    by_rest : (s : List Char) → l.rest ≡ s → IsAt text (step_on s l)
    by_rest [] e = at
    by_rest (c ∷ s) e = record {
      before = at.before ++ c ∷ [];
      splits = at.splits ∙ ap (λ r. at.before ++ r) e ∙ sym (append_assoc at.before (c ∷ []) s);
      counts = ap (moved c) at.counts ∙ moved-place at.before c;
    }

Reaches-IsAt : (text : List Char) (l l' : Cursor) → Reaches l l' → IsAt text l → IsAt text l'
Reaches-IsAt text l l' stay at = at
Reaches-IsAt text l l' (go h) at = Reaches-IsAt text (step l) l' h (step-IsAt text l at)

step-length : (l : Cursor) → length (step l).rest ≤ length l.rest
unfolding step
step-length l = by_rest l.rest refl
  where
    by_rest : (s : List Char) → l.rest ≡ s → length (step_on s l).rest ≤ length l.rest
    by_rest [] e = omega arith
    by_rest (c ∷ s) e = omega (arith, ap length e)

Reaches-length : (l l' : Cursor) → Reaches l l' → length l'.rest ≤ length l.rest
Reaches-length l l' stay = omega arith
Reaches-length l l' (go h) = omega (arith, Reaches-length (step l) l' h, step-length l)

-- A token takes a step at least, and there is none only where no text is left.
unfoldable Nexts : Cursor → Option Token × Lexer → Type 0
Nexts l (none, l') = Reaches l l'.cursor × (l'.cursor.rest ≡ [])
Nexts l (some tok, l') = Reaches (step l) l'.cursor

Nexts-none :
    (l : Cursor) (l' : Lexer) → Reaches l l'.cursor → l'.cursor.rest ≡ [] → Nexts l (none, l')
unfolding Nexts
Nexts-none l l' h e = (h, e)

Nexts-some :
    (l : Cursor) (tok : Token) (l' : Lexer) → Reaches (step l) l'.cursor → Nexts l (some tok, l')
unfolding Nexts
Nexts-some l tok l' h = h

Nexts-if :
    (l : Cursor) (b : Bool) (x y : Option Token × Lexer)
    → Nexts l x
    → Nexts l y
    → Nexts l (if b then x else y)
Nexts-if l true x y h k = h
Nexts-if l false x y h k = k

Nexts-step : (l : Cursor) (r : Option Token × Lexer) → Nexts (step l) r → Nexts l r
unfolding Nexts
Nexts-step l (none, l') h = (go h.0, h.1)
Nexts-step l (some tok, l') h = go h

finish-Nexts : (l : Lexer) (r : Lexed) → StopsAt (step l.cursor) r → Nexts l.cursor (finish r l)
unfolding finish
finish-Nexts l (tok, msg, cursor) h =
    Nexts-some l.cursor tok _ (StopsAt-out (step l.cursor) (tok, msg, cursor) h)

-- A sign has a first character, which is stepped over.
abbrev is_nonempty : List Char → Bool
is_nonempty [] = false
is_nonempty (c ∷ s) = true

abbrev all_nonempty : List String → Bool
all_nonempty [] = true
all_nonempty (t ∷ ts) = is_nonempty (chars t) && all_nonempty ts

match_static-is_nonempty :
    (ts : List String) (s : List Char) (t : String)
    → all_nonempty ts ≡ true
    → match_static ts s ≡ some t
    → is_nonempty (chars t) ≡ true
unfolding match_static
match_static-is_nonempty [] s t h e = cc
match_static-is_nonempty (x ∷ ts) s t h e = ground (arith, h, e, match_static-is_nonempty ts s t)

static_loop-Reaches :
    (cs : List Char) (end : Pos) (l : Cursor)
    → is_nonempty cs ≡ true
    → Reaches (step l) (static_loop cs end l).1
unfolding static_loop
static_loop-Reaches [] end l h = cc
static_loop-Reaches (d ∷ cs) end l h = EndsAt-out (step l) _ (static_loop-EndsAt cs l.at (step l))

lex_static-StopsAt :
    (t : String) (l : Cursor) → is_nonempty (chars t) ≡ true → StopsAt (step l) (lex_static t l)
unfolding lex_static
lex_static-StopsAt t l h = StopsAt-in _ _ _ _ (static_loop-Reaches (chars t) l.at l h)

lex_with_tail-Reaches :
    (c : Char) (s : List Char) (pattern : Char → Bool) (l : Cursor)
    → Reaches (step l) (lex_with_tail c s pattern l).2
unfolding lex_with_tail
lex_with_tail-Reaches c s pattern l =
    StopsAt-out (step l) _ (tail_loop-StopsAt s pattern l.at (of_char c) (step l))

Nexts-static :
    (s : List Char) (l : Lexer) (later : Option Token × Lexer)
    → Nexts l.cursor later
    → Nexts l.cursor (elim (match_static static_tokens s) [
      | some text ↦ finish (lex_static text l.cursor) l
      | none ↦ later
    ])
Nexts-static s l later h = elim (Option-cases (match_static static_tokens s)) [
  | inl missing ↦ rw missing h
  | inr (t, found) ↦ rw found (
      finish-Nexts l (lex_static t l.cursor)
        (lex_static-StopsAt t l.cursor (match_static-is_nonempty static_tokens s t refl found)))
]

step-rest : (l : Cursor) (c : Char) (s : List Char) → l.rest ≡ c ∷ s → (step l).rest ≡ s
unfolding step
step-rest l c s e = rw (e, step) refl

next_on-Nexts : (s : List Char) (l : Lexer) → l.cursor.rest ≡ s → Nexts l.cursor (next_on s l)
unfolding next_on
next_on-Nexts [] l e = Nexts-none l.cursor l stay e
next_on-Nexts (c ∷ s) l e =
    let later =
      next_on s
        (record { cursor = step l.cursor; ctx = report "illegal character" l.cursor.at l.ctx }) in
    let n = l.cursor in
    Nexts-if n (is_space c) _ _ (Nexts-some n _ _ (lex_with_tail-Reaches c s is_space n)) (
      Nexts-if n (is_letter c) _ _ (Nexts-some n _ _ (lex_with_tail-Reaches c s is_word n)) (
        Nexts-if n (is_nonzero c) _ _ (Nexts-some n _ _ (lex_with_tail-Reaches c s is_digit n)) (
          Nexts-if n (is "0" c) _ _ (finish-Nexts l (lex_zero n) (lex_zero-StopsAt n)) (
            Nexts-if n (is "'" c) _ _ (finish-Nexts l (lex_char n) (lex_char-StopsAt n)) (
              Nexts-if n (is "\"" c) _ _ (finish-Nexts l (lex_text n) (lex_text-StopsAt n)) (
                Nexts-if n (is "/" c) _ _ (finish-Nexts l (lex_slash n) (lex_slash-StopsAt n)) (
                  Nexts-static (c ∷ s) l later (
                    Nexts-step n later (
                      next_on-Nexts s
                        (record { cursor = step n; ctx = report "illegal character" n.at l.ctx })
                        (step-rest n c s e))))))))))

Nexts-Reaches : (l : Cursor) (r : Option Token × Lexer) → Nexts l r → Reaches l r.1.cursor
unfolding Nexts
Nexts-Reaches l (none, l') h = h.0
Nexts-Reaches l (some tok, l') h = go h

-- `next` counts rightly: where the index, line and column are those of the text before, so they are after it.
pub next-IsAt : (text : List Char) (l : Lexer) → IsAt text l.cursor → IsAt text (next l).1.cursor
unfolding next
next-IsAt text l at =
    Reaches-IsAt text l.cursor (next l).1.cursor
      (Nexts-Reaches l.cursor (next l) (next_on-Nexts l.cursor.rest l refl)) at

-- What a call of `next` on some text amounts to.
abbrev pub Progress : Lexer → Option Token × Lexer → Type 0
Progress l r =
    ((r.0 ≡ none) × (r.1.cursor.rest ≡ []))
    ⊎ ((tok : Token) × (r.0 ≡ some tok) × (length r.1.cursor.rest < length l.cursor.rest))

Nexts-Progress :
    (l : Lexer) (r : Option Token × Lexer) (c : Char) (s : List Char)
    → l.cursor.rest ≡ c ∷ s
    → Nexts l.cursor r
    → Progress l r
unfolding Nexts
Nexts-Progress l (none, l') c s e h = inl (refl, h.1)
Nexts-Progress l (some tok, l') c s e h = inr (
  tok,
  refl,
  omega (
    arith,
    Reaches-length (step l.cursor) l'.cursor h,
    ap length (step-rest l.cursor c s e),
    ap length e,
  ),
)

-- `next` ends on any text: it gives a token and leaves less of the text, or null and leaves nothing.
pub next-Progress : (l : Lexer) → Progress l (next l)
unfolding next next_on
next-Progress l = by_rest l.cursor.rest refl
  where
    by_rest : (s : List Char) → l.cursor.rest ≡ s → Progress l (next_on s l)
    by_rest [] e = inl (refl, e)
    by_rest (c ∷ s) e = Nexts-Progress l (next_on (c ∷ s) l) c s e (next_on-Nexts (c ∷ s) l e)
