-- ===== src/Tests/Lexing.antt =====
-- Small texts under the lexer of slige/compiler/parse/lexer.ts.
use h4_projekt_gruppe_0_sm.Prelude.{String, [], Option, some, none, ◌≡◌, refl, arith}
use h4_projekt_gruppe_0_sm.Slige.Lexer.{Ctx, Lexer, Token, new_lexer, chars}
use h4_projekt_gruppe_0_sm.Slige.Lexer.Next.{next}
use h4_projekt_gruppe_0_sm.Slige.Lexer.Positions.{IsAt, Progress, next-IsAt, next-Progress}
use h4_projekt_gruppe_0_sm.Slige.Lexer.Filter.{sig_next, SigProgress, sig_next-SigProgress}

abbrev no_idents : Ctx
no_idents = record { ident_ids = 0; ident_string_to_id = []; reports = [] }

-- an unclosed text on the second line
abbrev two_lines : Lexer
two_lines = new_lexer "\n\"a" no_idents

two_lines-IsAt : IsAt (chars "\n\"a") two_lines.cursor
two_lines-IsAt = record { before = []; splits = refl; counts = refl }

next-IsAt_example : IsAt (chars "\n\"a") (next two_lines).1.cursor
next-IsAt_example = next-IsAt (chars "\n\"a") two_lines two_lines-IsAt

next-Progress_example : Progress two_lines (next two_lines)
next-Progress_example = next-Progress two_lines

sig_next-SigProgress_example :
    (r : Option Token × Lexer) × (sig_next 4 two_lines ≡ some r) × SigProgress two_lines r
sig_next-SigProgress_example = sig_next-SigProgress 4 two_lines (omega arith)

abbrev type_of : Option Token → String
type_of none = ""
type_of (some tok) = tok.type

-- A comment that is closed gives the token of a division.
block_comment : type_of (next (new_lexer "/* x */" no_idents)).0 ≡ "/"
unfolding next
block_comment = refl
