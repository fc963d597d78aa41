-- ===== src/LirOptimize/Windows/Fusion.antt =====
-- The loops of `eliminateMovFnCall` and `eliminateMovIntStoreReg` as one pass from the first line to
-- the last, in which a window of three lines that fits becomes one line.
use native.Mathlib.Numerals.{add-one}
use h4_projekt_gruppe_0_sm.Prelude.{
  ℕ, suc, ◌+◌, ap, splice, Bool, true, false, List, [], ◌∷◌, ◌++◌, if◌then◌else◌, ◌≡◌, refl, length,
  length-append, Result, ok, Bool-cases, inl, inr, arith, append_assoc,
}
use h4_projekt_gruppe_0_sm.Lir.{Ins, Line}
use h4_projekt_gruppe_0_sm.LirOptimize.Windows.{candidates, rewrite_reversed, window_fits, set_ins}

-- Two lines spliced out behind a line whose instruction is set.
set-splice-suc :
    (before : List Line) (a b c : Line) (rest : List Line) (ins : Ins)
    → set_ins (splice (before ++ (a ∷ b ∷ c ∷ rest)) (suc (length before)) 2) (length before) ins
      ≡ before ++ (record a { ins = ins } ∷ rest)
unfolding set_ins
set-splice-suc [] a b c rest ins = refl
set-splice-suc (line ∷ before) a b c rest ins =
    ap (λ tail. line ∷ tail) (set-splice-suc before a b c rest ins)

pub set-splice :
    (before : List Line) (a b c : Line) (rest : List Line) (ins : Ins)
    → set_ins (splice (before ++ (a ∷ b ∷ c ∷ rest)) (length before + 1) 2) (length before) ins
      ≡ before ++ (record a { ins = ins } ∷ rest)
set-splice before a b c rest ins = rw add-one (set-splice-suc before a b c rest ins)

module _ (fits : Line → Line → Line → Bool) (merged : Line → Line → Line → Ins) where
  -- the pass that the two loops amount to
  unfoldable pub fuse : List Line → List Line
  fuse (a ∷ b ∷ c ∷ rest) =
      let fused = fuse rest in
      let plain = fuse (b ∷ c ∷ rest) in
      if fits a b c then record a { ins = merged a b c } ∷ fused else a ∷ plain
  fuse lines = lines

  pub fuse-two : (a b : Line) → fuse (a ∷ b ∷ []) ≡ a ∷ fuse (b ∷ [])
  unfolding fuse
  fuse-two a b = refl

  pub fuse-fit :
      (a b c : Line) (rest : List Line)
      → fits a b c ≡ true
      → fuse (a ∷ b ∷ c ∷ rest) ≡ record a { ins = merged a b c } ∷ fuse rest
  unfolding fuse
  fuse-fit a b c rest h = rw h

  pub fuse-skip :
      (a b c : Line) (rest : List Line)
      → fits a b c ≡ false
      → fuse (a ∷ b ∷ c ∷ rest) ≡ a ∷ fuse (b ∷ c ∷ rest)
  unfolding fuse
  fuse-skip a b c rest h = rw h

module _ (fits : Line → Line → Line → Bool) (merged : Line → Line → Line → Ins)
    (step : List Line → ℕ → Result (List Line))
    (steps : (before : List Line) (a b c : Line) (rest : List Line)
      → fits a b c ≡ true
      → step (before ++ (a ∷ b ∷ c ∷ rest)) (length before)
        ≡ ok (before ++ (record a { ins = merged a b c } ∷ rest)))
    (second : (a b c d e : Line) → fits a b c ≡ true → fits b d e ≡ false)
    (third : (a b c d e : Line) → fits a b c ≡ true → fits c d e ≡ false) where
  -- After a window that fits, the next two lines begin none.
  skip_second :
      (a b c : Line) (rest : List Line)
      → fits a b c ≡ true
      → window_fits fits (b ∷ c ∷ rest) ≡ false
  skip_second a b c [] h = refl
  skip_second a b c (d ∷ rest) h = second a b c c d h

  skip_third :
      (a b c : Line) (rest : List Line) → fits a b c ≡ true → window_fits fits (c ∷ rest) ≡ false
  skip_third a b c [] h = refl
  skip_third a b c (d ∷ []) h = refl
  skip_third a b c (d ∷ e ∷ rest) h = third a b c d e h

  candidates-fit :
      (i : ℕ) (a b c : Line) (rest : List Line)
      → fits a b c ≡ true
      → candidates fits i (a ∷ b ∷ c ∷ rest) ≡ i ∷ candidates fits (suc (suc (suc i))) rest
  unfolding candidates
  candidates-fit i a b c rest h = rw (h, skip_second a b c rest h, skip_third a b c rest h)

  candidates-skip :
      (i : ℕ) (a b c : Line) (rest : List Line)
      → fits a b c ≡ false
      → candidates fits i (a ∷ b ∷ c ∷ rest) ≡ candidates fits (suc i) (b ∷ c ∷ rest)
  unfolding candidates
  candidates-skip i a b c rest h = rw h

  -- The first candidate is rewritten after the later ones.
  rewrite-first :
      (i : ℕ) (cs : List ℕ) (lines lines' lines'' : List Line)
      → rewrite_reversed step cs lines ≡ ok lines'
      → step lines' i ≡ ok lines''
      → rewrite_reversed step (i ∷ cs) lines ≡ ok lines''
  unfolding rewrite_reversed
  rewrite-first i cs lines lines' lines'' later first = rw later first

  -- The loop over the candidates of the lines from index `i` on leaves what stands before.
  pub rewrite-fuse :
      (i : ℕ) (before rest : List Line)
      → i ≡ length before
      → rewrite_reversed step (candidates fits i rest) (before ++ rest)
        ≡ ok (before ++ fuse fits merged rest)
  rewrite-fuse i before [] e = unfold rewrite_reversed fuse candidates in refl
  rewrite-fuse i before (a ∷ []) e = unfold rewrite_reversed fuse candidates in refl
  rewrite-fuse i before (a ∷ b ∷ []) e = unfold rewrite_reversed fuse candidates in refl
  rewrite-fuse i before (a ∷ b ∷ c ∷ rest) e = elim (Bool-cases (fits a b c)) [
    | inl h ↦
        let ih =
          rewrite-fuse (suc (suc (suc i))) (before ++ (a ∷ b ∷ c ∷ [])) rest
            (omega (arith, length-append before (a ∷ b ∷ c ∷ []))) in
        rw (candidates-fit i a b c rest h, fuse-fit fits merged a b c rest h)
          (rewrite-first i _ _ (before ++ (a ∷ b ∷ c ∷ fuse fits merged rest)) _
            (rw
              (
                append_assoc before (a ∷ b ∷ c ∷ []) rest,
                append_assoc before (a ∷ b ∷ c ∷ []) (fuse fits merged rest),
              )
              at ih)
            (rw e (steps before a b c _ h)))
    | inr h ↦
        let ih =
          rewrite-fuse (suc i) (before ++ (a ∷ [])) (b ∷ c ∷ rest)
            (omega (arith, length-append before (a ∷ []))) in
        rw (candidates-skip i a b c rest h, fuse-skip fits merged a b c rest h)
          (rw
            (
              append_assoc before (a ∷ []) (b ∷ c ∷ rest),
              append_assoc before (a ∷ []) (fuse fits merged (b ∷ c ∷ rest)),
            )
            at ih)
  ]
