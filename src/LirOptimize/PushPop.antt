-- ===== src/LirOptimize/PushPop.antt =====
-- One rewriting step of `eliminatePushPop` of sbc/lir_optimize.ts: `push r; kill r; pop q` is taken out
-- and `q` becomes `r` in the whole function.
use native.Mathlib.Nat.{le_refl}
use h4_projekt_gruppe_0_sm.Prelude.{
  ℕ, zero, suc, ◌+◌, ◌<◌, false, List, [], ◌∷◌, ◌++◌, Option, none, some, ◌≡◌, ◌≢◌, ◌⊎◌, inl, inr,
  refl, sym, ap, map, All, arith, length, leb, lt→leb-false, le→leb, err, drop-append,
  length-append, ok, ◌∙◌, take-append, map-append, append-nil,
}
use h4_projekt_gruppe_0_sm.Lir.{Reg, Label, Ins, push, pop, kill, Line}
use h4_projekt_gruppe_0_sm.LirOptimize.Replace.{renamed, replace_reg_line, replace_reg}
use h4_projekt_gruppe_0_sm.LirOptimize.Windows.{rewrite_push_pop, push_labels, labels_at}
use h4_projekt_gruppe_0_sm.LirOptimize.Windows.FusionRun.{seek-bare}
use h4_projekt_gruppe_0_sm.Machine.Target.{Target}
use h4_projekt_gruppe_0_sm.Machine.Registers.{
  State, Outcome, effect, seek, resume, walk, exec, jumped, dropped, reading, next, write,
}
use h4_projekt_gruppe_0_sm.Machine.Simulation.{Agrees, with_regs, Refines, JumpSim}
use h4_projekt_gruppe_0_sm.Machine.Region.{IsClear, RegionSim, walk-region, seek-region}

abbrev pub bare_line : Ins → Line
bare_line ins = record { labels = []; ins = ins }

-- the three lines
abbrev pub shuffle : Reg → Reg → List Line
shuffle r q = bare_line (push r) ∷ bare_line (kill r) ∷ bare_line (pop q) ∷ []

module _ (r q : Reg) (apart : r ≢ q) where
  -- After the three lines `q` holds what `r` held, and `r` is dead.
  Agrees-shuffled {ℓ} :
      {A : Type ℓ} (f g : Reg → Option A) (w : A)
      → f r ≡ some w
      → Agrees (renamed q r) f g
      → Agrees (renamed q r) (write (write f r none) q (some w)) g
  Agrees-shuffled f g w e agree x v h = ground (arith, agree x v, agree r w)

  walk-shuffle :
      {target : Target} (j j' : Label → State target → Outcome target) (tail tail' : List Line)
      → RegionSim {target = target} q r r (inr refl) (walk j tail) (walk j' tail')
      → RegionSim {target = target} q r q (inl refl) (walk j (shuffle r q ++ tail)) (walk j' tail')
  unfolding walk effect
  walk-shuffle {target} j j' tail tail' further s g none_q agree = go (s.regs r) refl
    where
      go :
          (o : Option target.Word)
          → s.regs r ≡ o
          → Refines
              (resume
                (λ s₁.
                  resume (λ s₂. resume (walk j tail) j (effect (pop q) s₂)) j (effect (kill r) s₁))
                j
                (reading o λ w. next (record s { stack = w ∷ s.stack })))
              (walk j' tail' (with_regs s g))
      go none e = tt
      go (some w) e =
          further (record s { regs = write (write s.regs r none) q (some w) }) g (ground arith)
            (Agrees-shuffled s.regs g w e agree)

module _ (r q : Reg) (apart : r ≢ q) (before after : List Line)
    (clear_before : All (IsClear q q) before) (clear_after : All (IsClear q r) after) where
  -- the lines before the step, and after it
  abbrev original : List Line
  original = before ++ (shuffle r q ++ after)

  abbrev shortened : List Line
  shortened = replace_reg q r (before ++ after)

  abbrev renamed_after : List Line
  renamed_after = map (replace_reg_line q r) after

  abbrev renamed_lines : List Line → List Line
  renamed_lines = map (replace_reg_line q r)

  shortened-eq : shortened ≡ renamed_lines before ++ renamed_after
  unfolding replace_reg
  shortened-eq = map-append (replace_reg_line q r) before after

  -- The places of the two functions that correspond.
  abbrev Position : List Line → List Line → Type 0
  Position lines lines' =
      ((b : List Line) × All (IsClear q q) b
        × (lines ≡ b ++ (shuffle r q ++ after))
        × (lines' ≡ renamed_lines b ++ renamed_after))
      ⊎ ((a : List Line) × All (IsClear q r) a
          × (lines ≡ a ++ [])
          × (lines' ≡ renamed_lines a ++ []))
      ⊎ ((lines ≡ []) × (lines' ≡ []))

  module _ {target : Target} where
    from_after :
        (j j' : Label → State target → Outcome target)
        → JumpSim j j'
        → (a : List Line) → All (IsClear q r) a
        → RegionSim {target = target} q r r
            (inr refl)
            (walk j (a ++ []))
            (walk j' (renamed_lines a ++ []))
    from_after j j' hj a clear =
        walk-region q r r (inr refl) j j' hj a [] [] clear (λ s g e agree. unfold walk in tt)

    from_before :
        (j j' : Label → State target → Outcome target)
        → JumpSim j j'
        → (b : List Line) → All (IsClear q q) b
        → RegionSim {target = target} q r q
            (inl refl)
            (walk j (b ++ (shuffle r q ++ after)))
            (walk j' (renamed_lines b ++ renamed_after))
    from_before j j' hj b clear = walk-region q r q (inl refl) j j' hj b _ _ clear (
        walk-shuffle r q apart j j' after renamed_after
          (rw (append-nil, append-nil) at (from_after j j' hj after clear_after)))

    walk-Position :
        (j j' : Label → State target → Outcome target)
        → JumpSim j j'
        → (lines lines' : List Line) → Position lines lines'
        → (s : State target) (g : Reg → Option target.Word) → s.regs q ≡ none
        → s.regs r ≡ none
        → Agrees (renamed q r) s.regs g
        → Refines (walk j lines s) (walk j' lines' (with_regs s g))
    walk-Position j j' hj lines lines' (inl (b, clear, e, e')) s g none_q none_r agree =
        rw (e, e') (from_before j j' hj b clear s g none_q agree)
    walk-Position j j' hj lines lines' (inr (inl (a, clear, e, e'))) s g none_q none_r agree =
        rw (e, e') (from_after j j' hj a clear s g none_r agree)
    walk-Position j j' hj lines lines' (inr (inr (e, e'))) s g none_q none_r agree =
        rw (e, e') (unfold walk in tt)

  seek-shuffle : (label : Label) → seek label (shuffle r q ++ after) ≡ seek label after
  seek-shuffle label =
      seek-bare label _ _ refl ∙ (seek-bare label _ _ refl ∙ seek-bare label _ _ refl)

  nowhere : (label : Label) → seek label [] ≡ []
  unfolding seek
  nowhere label = refl

  seek-Position : (label : Label) → Position (seek label original) (seek label shortened)
  seek-Position label =
      rw shortened-eq
        (elim (seek-region q r q label before (shuffle r q ++ after) renamed_after clear_before) [
          | inl found ↦ inl found
          | inr (e, e') ↦ elim (seek-region q r r label after [] [] clear_after) [
            | inl (a, clear, f, f') ↦ inr (
                inl (
                  a,
                  clear,
                  e ∙ (seek-shuffle label ∙ (ap (seek label) (sym (append-nil after)) ∙ f)),
                  e' ∙ (ap (seek label) (sym (append-nil renamed_after)) ∙ f'),
                ))
            | inr (f, f') ↦ inr (
                inr (
                  e
                      ∙ (seek-shuffle label
                          ∙ (ap (seek label) (sym (append-nil after)) ∙ (f ∙ nowhere label))),
                  e' ∙ (ap (seek label) (sym (append-nil renamed_after)) ∙ (f') ∙ nowhere label),
                ))
          ]
        ])

  module _ {target : Target} where
    exec-Position :
        (fuel : ℕ) (lines lines' : List Line)
        → Position lines lines'
        → (s : State target) (g : Reg → Option target.Word) → s.regs q ≡ none
        → s.regs r ≡ none
        → Agrees (renamed q r) s.regs g
        → Refines (exec original fuel lines s) (exec shortened fuel lines' (with_regs s g))
    unfolding exec
    exec-Position zero lines lines' position s g none_q none_r agree =
        walk-Position _ _ (λ label s' g'. refl) lines lines' position s g none_q none_r agree
    exec-Position (suc fuel) lines lines' position s g none_q none_r agree =
        walk-Position _ _
          (λ label s' g'.
            exec-Position fuel (seek label original) (seek label shortened) (seek-Position label)
              (jumped s') dropped refl refl (λ x w h. cc))
          lines lines' position s g none_q none_r agree

  -- The guard of the step, where a line follows the three.
  guard : 0 < length after → leb (length original) (length before + 3) ≡ false
  guard h = lt→leb-false _ _ (
      omega (arith, length-append before (shuffle r q ++ after), length-append (shuffle r q) after))

  rewrite_push_pop-eq : 0 < length after → rewrite_push_pop original (length before) ≡ ok shortened
  unfolding rewrite_push_pop
  rewrite_push_pop-eq h =
      rw (guard h) (
        simp (drop-append before (shuffle r q ++ after), take-append before (shuffle r q ++ after)))

-- Where `push r; kill r; pop q` stands without labels between lines that do not name `q` before it, do
-- not name `r` after it and do not use `q` as a slot, and where some line follows, the step of
-- `eliminatePushPop` at that place succeeds, and on any fuel, from a state with no live registers, a run
-- of the shortened function ends as the run of the original one, unless that one faults.
pub rewrite_push_pop-Refines :
    {target : Target} (r q : Reg) (before after : List Line) (fuel : ℕ) (s : State target)
    → r ≢ q
    → All (IsClear q q) before
    → All (IsClear q r) after
    → 0 < length after
    → (lines' : List Line) × (rewrite_push_pop (before ++ (shuffle r q ++ after)) (length before)
        ≡ ok lines')
      × Refines
          (exec
            (before ++ (shuffle r q ++ after))
            fuel
            (before ++ (shuffle r q ++ after))
            (jumped s))
          (exec lines' fuel lines' (jumped s))
rewrite_push_pop-Refines r q before after fuel s apart clear_before clear_after h = (
  shortened r q apart before after clear_before clear_after,
  rewrite_push_pop-eq r q apart before after clear_before clear_after h,
  exec-Position r q apart before after clear_before clear_after fuel _ _
      (inl
        (before, clear_before, refl, shortened-eq r q apart before after clear_before clear_after))
      (jumped s) dropped refl refl (λ x w e. cc),
)

-- Labels on the `push` line are not carried over: where a line follows the three, the step gives what it
-- gives without them.
pub rewrite_push_pop-labels_lost :
    (r q : Reg) (labels : List Label) (before after : List Line)
    → 0 < length after
    → rewrite_push_pop
        (before
          ++ (record { labels = labels; ins = push r }
              ∷ bare_line (kill r)
              ∷ bare_line (pop q)
              ∷ after))
        (length before)
      ≡ ok (replace_reg q r (before ++ after))
unfolding rewrite_push_pop
rewrite_push_pop-labels_lost r q labels before after h =
    let line : Line = record { labels = labels; ins = push r } in
    let rest : List Line = bare_line (kill r) ∷ bare_line (pop q) ∷ after in
    let guard : leb (length (before ++ (line ∷ rest))) (length before + 3) ≡ false =
      lt→leb-false _ _ (omega (arith, length-append before (line ∷ rest))) in
    rw guard (simp (drop-append before (line ∷ rest), take-append before (line ∷ rest)))

push_labels-end :
    (lines : List Line) (labels : List Label)
    → push_labels lines (length lines) labels
      ≡ err "cannot read properties of undefined (reading 'labels')"
unfolding push_labels
push_labels-end [] labels = refl
push_labels-end (line ∷ lines) labels = rw (push_labels-end lines labels)

-- Where the three lines are the last ones of the function, the step throws.
pub rewrite_push_pop-last_throws :
    (r q : Reg) (labels : List Label) (before : List Line)
    → rewrite_push_pop
        (before
          ++ (record { labels = labels; ins = push r }
              ∷ bare_line (kill r)
              ∷ bare_line (pop q)
              ∷ []))
        (length before)
      ≡ err "cannot read properties of undefined (reading 'labels')"
unfolding rewrite_push_pop
rewrite_push_pop-last_throws r q labels before =
    let line : Line = record { labels = labels; ins = push r } in
    let rest : List Line = bare_line (kill r) ∷ bare_line (pop q) ∷ [] in
    let size : length before + 3 ≡ length (before ++ (line ∷ rest)) =
      omega (arith, length-append before (line ∷ rest)) in
    rw (
      size,
      le→leb _ _ (le_refl (length (before ++ (line ∷ rest)))),
      push_labels-end (before ++ (line ∷ rest))
          (labels_at (before ++ (line ∷ rest)) (length before)),
    )
