-- ===== src/LirOptimize/Windows/FusionRun.antt =====
-- Runs of fused lines, where one line stands for a window of three.
use h4_projekt_gruppe_0_sm.Prelude.{
  ℕ, zero, suc, Bool, true, false, List, [], ◌∷◌, Option, ◌≡◌, refl, Bool-cases, inl, inr, contains,
}
use h4_projekt_gruppe_0_sm.Lir.{Reg, Label, Ins, Line}
use h4_projekt_gruppe_0_sm.LirOptimize.Windows.Fusion.{fuse, fuse-two, fuse-fit, fuse-skip}
use h4_projekt_gruppe_0_sm.Machine.Target.{Target}
use h4_projekt_gruppe_0_sm.Machine.Registers.{
  State, Outcome, effect, seek, resume, walk, exec, jumped, dropped,
}
use h4_projekt_gruppe_0_sm.Machine.Simulation.{
  Agrees, with_regs, Refines, NextSim, JumpSim, resume_sim, same, same_sim,
}

pub seek-hit :
    (label : Label) (line : Line) (rest : List Line)
    → contains line.labels label ≡ true
    → seek label (line ∷ rest) ≡ line ∷ rest
unfolding seek
seek-hit label line rest h = rw h

pub seek-miss :
    (label : Label) (line : Line) (rest : List Line)
    → contains line.labels label ≡ false
    → seek label (line ∷ rest) ≡ seek label rest
unfolding seek
seek-miss label line rest h = rw h

pub seek-bare :
    (label : Label) (line : Line) (rest : List Line)
    → line.labels ≡ []
    → seek label (line ∷ rest) ≡ seek label rest
unfolding seek
seek-bare label line rest h = rw h

module _ {target : Target} where
  -- One line that both runs share.
  pub walk-line :
      (j j' : Label → State target → Outcome target)
      → JumpSim j j'
      → (line : Line) (rest rest' : List Line) (s : State target) (g : Reg → Option target.Word)
      → Agrees same s.regs g
      → NextSim same (walk j rest) (walk j' rest')
      → Refines (walk j (line ∷ rest) s) (walk j' (line ∷ rest') (with_regs s g))
  unfolding walk
  walk-line j j' hj line rest rest' s g agree further =
      resume_sim same _ _ j j' (same_sim line.ins s g agree) (λ s' g' _. further s' g') hj

module _ (fits : Line → Line → Line → Bool) (merged : Line → Line → Line → Ins)
    (bare : (a b c : Line) → fits a b c ≡ true → (b.labels ≡ []) × (c.labels ≡ [])) where
  -- A label leads to the fused lines from it on.
  seek-fuse :
      (label : Label) (lines : List Line)
      → seek label (fuse fits merged lines) ≡ fuse fits merged (seek label lines)
  seek-fuse label [] = unfold fuse seek in refl
  seek-fuse label (a ∷ []) = elim (Bool-cases (contains a.labels label)) [
    | inl h ↦ unfold fuse in rw (seek-hit label a [] h)
    | inr h ↦ unfold fuse in rw (seek-miss label a [] h) (unfold seek in refl)
  ]
  seek-fuse label (a ∷ b ∷ []) = elim (Bool-cases (contains a.labels label)) [
    | inl h ↦ unfold fuse in rw (seek-hit label a (b ∷ []) h)
    | inr h ↦
        rw
          (
            seek-miss label a (b ∷ []) h,
            fuse-two fits merged a b,
            seek-miss label a (fuse fits merged (b ∷ [])) h,
          )
          (seek-fuse label (b ∷ []))
  ]
  seek-fuse label (a ∷ b ∷ c ∷ rest) = elim (Bool-cases (fits a b c)) [
    | inl h ↦ elim (Bool-cases (contains a.labels label)) [
      | inl hit ↦
          rw
            (
              fuse-fit fits merged a b c rest h,
              seek-hit label a (b ∷ c ∷ rest) hit,
              seek-hit label (record a { ins = merged a b c }) (fuse fits merged rest) hit,
            )
            (rw (fuse-fit fits merged a b c rest h))
      | inr miss ↦
          rw
            (
              fuse-fit fits merged a b c rest h,
              seek-miss label a (b ∷ c ∷ rest) miss,
              seek-bare label b (c ∷ rest) (bare a b c h).0,
              seek-bare label c rest (bare a b c h).1,
              seek-miss label (record a { ins = merged a b c }) (fuse fits merged rest) miss,
            )
            (seek-fuse label rest)
    ]
    | inr h ↦ elim (Bool-cases (contains a.labels label)) [
      | inl hit ↦
          rw
            (
              fuse-skip fits merged a b c rest h,
              seek-hit label a (b ∷ c ∷ rest) hit,
              seek-hit label a (fuse fits merged (b ∷ c ∷ rest)) hit,
            )
            (rw (fuse-skip fits merged a b c rest h))
      | inr miss ↦
          rw
            (
              fuse-skip fits merged a b c rest h,
              seek-miss label a (b ∷ c ∷ rest) miss,
              seek-miss label a (fuse fits merged (b ∷ c ∷ rest)) miss,
            )
            (seek-fuse label (b ∷ c ∷ rest))
    ]
  ]

  -- The merged line does what the three lines of a window do.
  abbrev pub WindowSim : Target → Type 0
  WindowSim target =
      (a b c : Line) (s : State target) (g : Reg → Option target.Word)
      (k k' : State target → Outcome target) (j j' : Label → State target → Outcome target)
      → fits a b c ≡ true
      → Agrees same s.regs g
      → NextSim same k k'
      → JumpSim j j'
      → Refines
          (resume (λ s₁. resume (λ s₂. resume k j (effect c.ins s₂)) j (effect b.ins s₁)) j
            (effect a.ins s))
          (resume k' j' (effect (merged a b c) (with_regs s g)))

  module _ {target : Target} (windows : WindowSim target) where
    walk-window :
        (j j' : Label → State target → Outcome target)
        → JumpSim j j'
        → (a b c : Line) (rest rest' : List Line) (s : State target) (g : Reg → Option target.Word)
        → fits a b c ≡ true
        → Agrees same s.regs g
        → NextSim same (walk j rest) (walk j' rest')
        → Refines
            (walk j (a ∷ b ∷ c ∷ rest) s)
            (walk j' (record a { ins = merged a b c } ∷ rest') (with_regs s g))
    unfolding walk
    walk-window j j' hj a b c rest rest' s g h agree further =
        windows a b c s g (walk j rest) (walk j' rest') j j' h agree further hj

    walk-fuse :
        (j j' : Label → State target → Outcome target)
        → JumpSim j j'
        → (lines : List Line) (s : State target) (g : Reg → Option target.Word)
        → Agrees same s.regs g
        → Refines (walk j lines s) (walk j' (fuse fits merged lines) (with_regs s g))
    walk-fuse j j' hj [] s g agree = unfold walk in tt
    walk-fuse j j' hj (a ∷ []) s g agree =
        unfold fuse in walk-line j j' hj a [] [] s g agree λ s' g' h. unfold walk in tt
    walk-fuse j j' hj (a ∷ b ∷ []) s g agree =
        rw (fuse-two fits merged a b)
          (walk-line j j' hj a (b ∷ []) _ s g agree (walk-fuse j j' hj (b ∷ [])))
    walk-fuse j j' hj (a ∷ b ∷ c ∷ rest) s g agree = elim (Bool-cases (fits a b c)) [
      | inl h ↦
          rw (fuse-fit fits merged a b c rest h)
            (walk-window j j' hj a b c rest _ s g h agree (walk-fuse j j' hj rest))
      | inr h ↦
          rw (fuse-skip fits merged a b c rest h)
            (walk-line j j' hj a _ _ s g agree (walk-fuse j j' hj (b ∷ c ∷ rest)))
    ]

    -- Every run of the fused function, from any line on, refines that of the original one.
    pub exec-fuse :
        (program : List Line) (fuel : ℕ) (lines : List Line) (s : State target)
        (g : Reg → Option target.Word)
        → Agrees same s.regs g
        → Refines
            (exec program fuel lines s)
            (exec (fuse fits merged program) fuel (fuse fits merged lines) (with_regs s g))
    unfolding exec
    exec-fuse program zero lines s g agree = walk-fuse _ _ (λ label s' g'. refl) lines s g agree
    exec-fuse program (suc fuel) lines s g agree =
        walk-fuse _ _
          (λ label s' g'.
            rw (seek-fuse label program)
              (exec-fuse program fuel (seek label program) (jumped s') dropped λ x w h. h))
          lines s g agree
