-- ===== src/LirOptimize/Termination.antt =====
-- The number of lines of functions and of the program in the passes and the loop of sbc/lir_optimize.ts.
use native.Mathlib.Nat.{le_refl}
use h4_projekt_gruppe_0_sm.Prelude.{
  ℕ, zero, suc, ◌+◌, ◌-◌, ◌≤◌, ◌<◌, Bool, true, false, List, [], ◌∷◌, ◌++◌, some, ◌≡◌, ◌≢◌, refl,
  ap, arith, length, take, drop, splice, length-append, leb, contains, Result, ok, err, ◌>>=◌,
  >>=-eq-ok, Bool-cases, inl, inr, if◌then◌else◌, ==-self, String,
}
use h4_projekt_gruppe_0_sm.Lir.{Reg, Label, Ins, Line, Fn}
use h4_projekt_gruppe_0_sm.LirOptimize.Replace.{replace_reg}
use h4_projekt_gruppe_0_sm.LirOptimize.Windows.{
  rewrite_reversed, push_labels, set_ins, rewrite_push_pop, rewrite_mov_fn_call,
  rewrite_mov_int_store, eliminate_push_pop, eliminate_mov_fn_call, eliminate_mov_int_store_reg,
  tags_at, push_kill_pop, labels_at, mov_fn_call_kill, mov_int_store_kill, candidates,
  fits_push_pop, fits_mov_fn_call, fits_mov_int_store,
}
use h4_projekt_gruppe_0_sm.LirOptimize.Shadowed.{
  remove_kill, rewrite_shadowed, eliminate_push_pop_shadowed, reg_at, push_reg, pop_reg,
  shadowed_candidates,
}
use h4_projekt_gruppe_0_sm.LirOptimize.{
  optimize_lines, optimize_fns, program_size, optimize_loop, optimize_lir,
}

-- What a pass may make of some lines.
abbrev NoLonger : List Line → Result (List Line) → Type 0
NoLonger lines (ok lines') = length lines' ≤ length lines
NoLonger lines (err message) = Unit

NoLonger-bind :
    (lines : List Line) (r : Result (List Line)) (f : List Line → Result (List Line))
    → NoLonger lines r
    → ((lines' : List Line) → NoLonger lines' (f lines'))
    → NoLonger lines (r >>= f)
NoLonger-bind lines (err message) f h k = tt
NoLonger-bind lines (ok lines') f h k = go (f lines') (k lines')
  where
    go : (r : Result (List Line)) → NoLonger lines' r → NoLonger lines r
    go (err message) g = tt
    go (ok lines'') g = omega arith

NoLonger-any {ℓ} :
    {A : Type ℓ} (lines : List Line) (r : Result A) (f : A → Result (List Line))
    → ((a : A) → NoLonger lines (f a))
    → NoLonger lines (r >>= f)
NoLonger-any lines (err message) f k = tt
NoLonger-any lines (ok a) f k = k a

NoLonger-if :
    (lines : List Line) (b : Bool) (r r' : Result (List Line))
    → NoLonger lines r
    → NoLonger lines r'
    → NoLonger lines (if b then r else r')
NoLonger-if lines true r r' h h' = h
NoLonger-if lines false r r' h h' = h'

rewrite_reversed-NoLonger {ℓ} :
    {C : Type ℓ} (step : List Line → C → Result (List Line))
    → ((lines : List Line) (c : C) → NoLonger lines (step lines c))
    → (cs : List C) (lines : List Line) → NoLonger lines (rewrite_reversed step cs lines)
unfolding rewrite_reversed
rewrite_reversed-NoLonger step h [] lines = omega arith
rewrite_reversed-NoLonger step h (c ∷ cs) lines =
    NoLonger-bind lines _ _ (rewrite_reversed-NoLonger step h cs lines) (λ lines'. h lines' c)

length-take-drop {ℓ} :
    {A : Type ℓ} (n : ℕ) (xs : List A) → length (take n xs) + length (drop n xs) ≡ length xs
length-take-drop zero xs = omega arith
length-take-drop (suc n) [] = omega arith
length-take-drop (suc n) (x ∷ xs) = omega (arith, length-take-drop n xs)

length-splice {ℓ} :
    {A : Type ℓ} (xs : List A) (at count : ℕ) → length (splice xs at count) ≤ length xs
length-splice xs at count = omega (
  arith,
  length-append (take at xs) (drop count (drop at xs)),
  length-take-drop at xs,
  length-take-drop count (drop at xs),
)

length-replace_reg : (q r : Reg) (lines : List Line) → length (replace_reg q r lines) ≡ length lines
unfolding replace_reg
length-replace_reg q r [] = refl
length-replace_reg q r (line ∷ lines) = ap suc (length-replace_reg q r lines)

length-set_ins :
    (lines : List Line) (i : ℕ) (ins : Ins) → length (set_ins lines i ins) ≡ length lines
unfolding set_ins
length-set_ins [] i ins = refl
length-set_ins (line ∷ lines) zero ins = refl
length-set_ins (line ∷ lines) (suc i) ins = ap suc (length-set_ins lines i ins)

push_labels-NoLonger :
    (lines : List Line) (i : ℕ) (labels : List Label) → NoLonger lines (push_labels lines i labels)
unfolding push_labels
push_labels-NoLonger [] i labels = tt
push_labels-NoLonger (line ∷ lines) zero labels = omega arith
push_labels-NoLonger (line ∷ lines) (suc i) labels =
    go (push_labels lines i labels) (push_labels-NoLonger lines i labels)
  where
    go :
        (r : Result (List Line))
        → NoLonger lines r
        → NoLonger (line ∷ lines) (r >>= λ rest. ok (line ∷ rest))
    go (err message) h = tt
    go (ok rest) h = omega arith

length-remove_kill :
    (count : ℕ) (reg : Reg) (lines : List Line)
    → length (remove_kill count reg lines) ≤ length lines
unfolding remove_kill
length-remove_kill zero reg lines = omega arith
length-remove_kill (suc count) reg [] = omega arith
length-remove_kill (suc count) reg (line ∷ lines) =
    ground (arith, length-remove_kill count reg lines)

length-rewritten :
    (lines : List Line) (q r : Reg) (i : ℕ)
    → length (replace_reg q r (splice lines i 3)) ≤ length lines
length-rewritten lines q r i =
    omega (arith, length-replace_reg q r (splice lines i 3), length-splice lines i 3)

rewrite_push_pop-NoLonger : (lines : List Line) (i : ℕ) → NoLonger lines (rewrite_push_pop lines i)
unfolding rewrite_push_pop
rewrite_push_pop-NoLonger lines i =
    NoLonger-bind lines _ _
      (NoLonger-if lines (leb (length lines) (i + 3)) _ (ok lines)
        (push_labels-NoLonger lines (i + 3) (labels_at lines i)) (le_refl (length lines)))
      λ lines'.
        NoLonger-any lines' (tags_at push_kill_pop lines' i) _
          λ (r, k, q). length-rewritten lines' q r i

length-set_splice :
    (lines : List Line) (i : ℕ) (ins : Ins)
    → length (set_ins (splice lines (i + 1) 2) i ins) ≤ length lines
length-set_splice lines i ins =
    omega (arith, length-set_ins (splice lines (i + 1) 2) i ins, length-splice lines (i + 1) 2)

rewrite_mov_fn_call-NoLonger :
    (lines : List Line) (i : ℕ) → NoLonger lines (rewrite_mov_fn_call lines i)
unfolding rewrite_mov_fn_call
rewrite_mov_fn_call-NoLonger lines i =
    NoLonger-any lines (tags_at mov_fn_call_kill lines i) _ λ t. length-set_splice lines i _

rewrite_mov_int_store-NoLonger :
    (lines : List Line) (i : ℕ) → NoLonger lines (rewrite_mov_int_store lines i)
unfolding rewrite_mov_int_store
rewrite_mov_int_store-NoLonger lines i =
    NoLonger-any lines (tags_at mov_int_store_kill lines i) _ λ t. length-set_splice lines i _

length-joined :
    (lines : List Line) (q r : Reg) (push_idx pop_idx : ℕ)
    → length (
        replace_reg q r (
          splice
            (take (push_idx + 1) (splice lines pop_idx 1)
              ++ remove_kill
                  (pop_idx - (push_idx + 1))
                  r
                  (drop (push_idx + 1) (splice lines pop_idx 1)))
            push_idx
            1))
      ≤ length lines
length-joined lines q r push_idx pop_idx =
    let popped = splice lines pop_idx 1 in
    let between = drop (push_idx + 1) popped in
    let rest = remove_kill (pop_idx - (push_idx + 1)) r between in
    let killed = take (push_idx + 1) popped ++ rest in
    omega (
      arith,
      length-replace_reg q r (splice killed push_idx 1),
      length-splice killed push_idx 1,
      length-append (take (push_idx + 1) popped) rest,
      length-take-drop (push_idx + 1) popped,
      length-remove_kill (pop_idx - (push_idx + 1)) r between,
      length-splice lines pop_idx 1,
    )

rewrite_shadowed-NoLonger :
    (lines : List Line) (c : ℕ × ℕ) → NoLonger lines (rewrite_shadowed lines c)
unfolding rewrite_shadowed
rewrite_shadowed-NoLonger lines (push_idx, pop_idx) =
    NoLonger-any lines (reg_at push_reg lines push_idx) _ λ r.
      NoLonger-any lines (reg_at pop_reg lines pop_idx) _
        λ q. length-joined lines q r push_idx pop_idx

abbrev Shrinks : (List Line → Result (List Line)) → Type 0
Shrinks pass = (lines : List Line) → NoLonger lines (pass lines)

Shrinks-then :
    (f g : List Line → Result (List Line))
    → Shrinks f
    → Shrinks g
    → Shrinks (λ lines. f lines >>= g)
Shrinks-then f g hf hg lines = NoLonger-bind lines (f lines) g (hf lines) hg

eliminate_push_pop-Shrinks : Shrinks eliminate_push_pop
unfolding eliminate_push_pop
eliminate_push_pop-Shrinks lines =
    rewrite_reversed-NoLonger rewrite_push_pop rewrite_push_pop-NoLonger
      (candidates fits_push_pop 0 lines) lines

eliminate_mov_fn_call-Shrinks : Shrinks eliminate_mov_fn_call
unfolding eliminate_mov_fn_call
eliminate_mov_fn_call-Shrinks lines =
    rewrite_reversed-NoLonger rewrite_mov_fn_call rewrite_mov_fn_call-NoLonger
      (candidates fits_mov_fn_call 0 lines) lines

eliminate_mov_int_store_reg-Shrinks : Shrinks eliminate_mov_int_store_reg
unfolding eliminate_mov_int_store_reg
eliminate_mov_int_store_reg-Shrinks lines =
    rewrite_reversed-NoLonger rewrite_mov_int_store rewrite_mov_int_store-NoLonger
      (candidates fits_mov_int_store 0 lines) lines

eliminate_push_pop_shadowed-Shrinks : Shrinks eliminate_push_pop_shadowed
unfolding eliminate_push_pop_shadowed
eliminate_push_pop_shadowed-Shrinks lines =
    rewrite_reversed-NoLonger rewrite_shadowed rewrite_shadowed-NoLonger
      (shadowed_candidates 0 lines) lines

optimize_lines-Shrinks : Shrinks optimize_lines
unfolding optimize_lines
optimize_lines-Shrinks =
    Shrinks-then _ eliminate_push_pop_shadowed
      (Shrinks-then _ eliminate_mov_int_store_reg
        (Shrinks-then eliminate_push_pop eliminate_mov_fn_call eliminate_push_pop-Shrinks
          eliminate_mov_fn_call-Shrinks)
        eliminate_mov_int_store_reg-Shrinks)
      eliminate_push_pop_shadowed-Shrinks

optimize_lines-shorter :
    (lines lines' : List Line) → optimize_lines lines ≡ ok lines' → length lines' ≤ length lines
optimize_lines-shorter lines lines' e = rw e at (optimize_lines-Shrinks lines)

program_size-optimize_fns :
    (fns fns' : List Fn) → optimize_fns fns ≡ ok fns' → program_size fns' ≤ program_size fns
unfolding optimize_fns program_size
program_size-optimize_fns [] fns' e = ground arith
program_size-optimize_fns (fn ∷ fns) fns' e =
    let (lines, el, e') = >>=-eq-ok (optimize_lines fn.lines) _ e in
    let (rest, er, e'') = >>=-eq-ok (optimize_fns fns) _ e' in
    ground
      (arith, program_size-optimize_fns fns rest er, optimize_lines-shorter fn.lines lines el, e'')

module _ (fuel : ℕ) (size_history : List ℕ) (fns : List Fn) where
  abbrev Returns : Type 0
  Returns = (r : Result (List Fn)) × (optimize_loop (suc fuel) size_history fns ≡ some r)

  -- One round, by how it ends.
  round_throws : (message : String) → optimize_fns fns ≡ err message → Returns
  unfolding optimize_loop
  round_throws message e = (err message, rw (e, optimize_loop))

  round_stops :
      (fns' : List Fn)
      → optimize_fns fns ≡ ok fns'
      → contains size_history (program_size fns') ≡ true
      → Returns
  unfolding optimize_loop
  round_stops fns' e old = (ok fns', rw (e, optimize_loop) (rw old))

  round_again :
      (fns' : List Fn)
      → optimize_fns fns ≡ ok fns'
      → contains size_history (program_size fns') ≡ false
      → (r : Result (List Fn)) × (optimize_loop fuel (program_size fns' ∷ size_history) fns'
          ≡ some r)
      → Returns
  unfolding optimize_loop
  round_again fns' e new (r, later) = (r, rw (e, optimize_loop) (rw new later))

  -- A program of the same size would stop the loop, so the next one is smaller.
  round_smaller :
      (fns' : List Fn)
      → optimize_fns fns ≡ ok fns'
      → contains size_history (program_size fns) ≡ true
      → contains size_history (program_size fns') ≡ false
      → program_size fns' < program_size fns
  round_smaller fns' e seen new =
      let differ : program_size fns' ≢ program_size fns = λ p. cc in
      omega (arith, program_size-optimize_fns fns fns' e)

optimize_loop-returns :
    (fuel : ℕ) (size_history : List ℕ) (fns : List Fn)
    → program_size fns < fuel
    → contains size_history (program_size fns) ≡ true
    → (r : Result (List Fn)) × (optimize_loop fuel size_history fns ≡ some r)
optimize_loop-returns zero size_history fns h seen = elim h [ ]
optimize_loop-returns (suc fuel) size_history fns h seen =
    go (optimize_fns fns) refl
      (λ fns'. optimize_loop-returns fuel (program_size fns' ∷ size_history) fns')
  where
    go :
        (r : Result (List Fn))
        → optimize_fns fns ≡ r
        → ((fns' : List Fn)
            → program_size fns' < fuel
            → contains (program_size fns' ∷ size_history) (program_size fns') ≡ true
            → (r : Result (List Fn)) × (optimize_loop fuel (program_size fns' ∷ size_history) fns'
                ≡ some r))
        → Returns fuel size_history fns
    go (err message) e again = round_throws fuel size_history fns message e
    go (ok fns') e again = elim (Bool-cases (contains size_history (program_size fns'))) [
      | inl old ↦ round_stops fuel size_history fns fns' e old
      | inr new ↦ round_again fuel size_history fns fns' e new (
          again fns' (omega (arith, round_smaller fuel size_history fns fns' e seen new))
            (ground (arith, ==-self (program_size fns'))))
    ]

-- On any fuel above the number of lines of the program, the loop of `optimizeLir` ends with a result or
-- with an error of a pass.
pub optimize_lir-returns :
    (fuel : ℕ) (fns : List Fn)
    → program_size fns < fuel
    → (r : Result (List Fn)) × (optimize_lir fuel fns ≡ some r)
unfolding optimize_lir
optimize_lir-returns fuel fns h =
    optimize_loop-returns fuel (program_size fns ∷ []) fns h (ground arith)
