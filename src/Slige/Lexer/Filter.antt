-- ===== src/Slige/Lexer/Filter.antt =====
-- `SigFilter` of slige/compiler/parse/token.ts, over the lexer: the tokens that are no white space or comment.
-- Its recursion is on fuel, and `none` means that the fuel ran out.
use h4_projekt_gruppe_0_sm.Prelude.{
  ℕ, zero, suc, ◌<◌, ◌||◌, Bool, true, false, Bool-cases, inl, inr, ◌⊎◌, [], length, Option, none,
  some, if◌then◌else◌, str_eq, ◌≡◌, refl, arith,
}
use h4_projekt_gruppe_0_sm.Slige.Lexer.{Token, Lexer}
use h4_projekt_gruppe_0_sm.Slige.Lexer.Next.{next}
use h4_projekt_gruppe_0_sm.Slige.Lexer.Positions.{next-Progress}

abbrev pub is_skipped : Token → Bool
is_skipped tok = str_eq tok.type "whitespace" || str_eq tok.type "comment"

-- `next()` by the token of the iterator below, the lexer after it and what a further call gives.
abbrev pub filtered :
    Option Token → Lexer → Option (Option Token × Lexer) → Option (Option Token × Lexer)
filtered none l later = some (none, l)
filtered (some tok) l later = if is_skipped tok then later else some (some tok, l)

unfoldable pub sig_next : ℕ → Lexer → Option (Option Token × Lexer)
unfolding next
sig_next zero l = none
sig_next (suc fuel) l = filtered (next l).0 (next l).1 (sig_next fuel (next l).1)

-- A significant token with less text left, or the end.
abbrev pub SigProgress : Lexer → Option Token × Lexer → Type 0
SigProgress l r =
    ((r.0 ≡ none) × (r.1.cursor.rest ≡ []))
    ⊎ ((tok : Token) × (r.0 ≡ some tok)
        × (str_eq tok.type "whitespace" ≡ false)
        × (str_eq tok.type "comment" ≡ false)
        × (length r.1.cursor.rest < length l.cursor.rest))

SigProgress-later :
    (l l' : Lexer) (r : Option Token × Lexer)
    → length l'.cursor.rest < length l.cursor.rest
    → SigProgress l' r
    → SigProgress l r
SigProgress-later l l' r lt (inl end) = inl end
SigProgress-later l l' r lt (inr (tok, is, no_space, no_comment, less)) =
    inr (tok, is, no_space, no_comment, omega arith)

significant_types :
    (tok : Token)
    → is_skipped tok ≡ false
    → (str_eq tok.type "whitespace" ≡ false) × (str_eq tok.type "comment" ≡ false)
significant_types tok h = or_false (str_eq tok.type "whitespace") (str_eq tok.type "comment") h
  where
    or_false : (a b : Bool) → (a || b) ≡ false → (a ≡ false) × (b ≡ false)
    or_false true b e = cc
    or_false false b e = (refl, e)

-- On fuel for more characters than are left, the filter ends: it gives a token that is no white space or comment
-- and leaves less of the text, or null and leaves nothing.
pub sig_next-SigProgress :
    (fuel : ℕ) (l : Lexer)
    → length l.cursor.rest < fuel
    → (r : Option Token × Lexer) × (sig_next fuel l ≡ some r) × SigProgress l r
unfolding sig_next
sig_next-SigProgress zero l h = ground arith
sig_next-SigProgress (suc fuel) l h = elim (next-Progress l) [
  | inl (is_null, empty) ↦ ((none, (next l).1), rw is_null refl, inl (refl, empty))
  | inr (tok, is, less) ↦ elim (Bool-cases (is_skipped tok)) [
    | inl skipped ↦
        let (r, later, progress) = sig_next-SigProgress fuel (next l).1 (omega arith) in
        (r, rw (is) (rw skipped later), SigProgress-later l (next l).1 r less progress)
    | inr significant ↦
        let (no_space, no_comment) = significant_types tok significant in
        (
          (some tok, (next l).1),
          rw (is) (rw significant refl),
          inr (tok, refl, no_space, no_comment, less),
        )
  ]
]
