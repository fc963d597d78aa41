-- ===== src/Machine/Region.antt =====
-- Runs of consecutive lines in which one register is dead and is not mentioned, under the renaming of
-- one register by another.
use h4_projekt_gruppe_0_sm.Prelude.{
  List, [], ◌∷◌, ◌++◌, Option, none, ◌≡◌, ◌≢◌, ◌⊎◌, inl, inr, refl, map, All, ◌∙◌, arith, contains,
  Bool-cases,
}
use h4_projekt_gruppe_0_sm.Lir.{
  Reg, Label, Ins, error, alloc_param, alloc_local, mov_int, mov_string, mov_fn, push, pop, load,
  store_reg, store_imm, call_reg, jnz_reg, binary, kill, Line,
}
use h4_projekt_gruppe_0_sm.LirOptimize.Replace.{renamed, replace_reg_ins, replace_reg_line}
use h4_projekt_gruppe_0_sm.Machine.Target.{Target}
use h4_projekt_gruppe_0_sm.Machine.Registers.{State, Outcome, next, effect, seek, walk}
use h4_projekt_gruppe_0_sm.Machine.Simulation.{
  Agrees, Separates, with_regs, Refines, JumpSim, resume_sim, writes, slots_of, effect_sim,
}

-- every register that an instruction names
unfoldable pub operands : Ins → List Reg
operands (alloc_param reg size) = reg ∷ []
operands (alloc_local reg size) = reg ∷ []
operands (mov_int reg val) = reg ∷ []
operands (mov_string reg id) = reg ∷ []
operands (mov_fn reg fn) = reg ∷ []
operands (push reg) = reg ∷ []
operands (pop reg) = reg ∷ []
operands (load reg slot) = reg ∷ slot ∷ []
operands (store_reg slot reg) = slot ∷ reg ∷ []
operands (store_imm slot val) = slot ∷ []
operands (call_reg reg args) = reg ∷ []
operands (jnz_reg reg label) = reg ∷ []
operands (binary op dst src) = dst ∷ src ∷ []
operands (kill reg) = reg ∷ []
operands _ = []

abbrev pub Lacks : Reg → List Reg → Type 0
Lacks reg = All (λ x. x ≢ reg)

-- The line names `dead` nowhere, and does not use `q` as a slot.
abbrev pub IsClear : Reg → Reg → Line → Type 0
IsClear q dead line = Lacks dead (operands line.ins) × Lacks q (slots_of line.ins)

writes-Lacks : (reg : Reg) (ins : Ins) → Lacks reg (operands ins) → Lacks reg (writes ins)
unfolding operands writes
writes-Lacks reg (binary op dst src) h = (h.0, tt)
writes-Lacks reg (load d slot) h = (h.0, tt)
writes-Lacks reg (mov_int d val) h = h
writes-Lacks reg (mov_string d val) h = h
writes-Lacks reg (mov_fn d val) h = h
writes-Lacks reg (pop d) h = h
writes-Lacks reg (kill d) h = h
writes-Lacks reg _ h = tt

module _ {target : Target} where
  -- An instruction that does not set a register leaves it.
  effect-keeps :
      (x : Reg) (ins : Ins) (s s' : State target)
      → Lacks x (writes ins)
      → effect ins s ≡ next s'
      → s'.regs x ≡ s.regs x
  unfolding effect writes
  effect-keeps x error s s' h e = cc
  effect-keeps x (pop reg) s s' h e = ground arith
  effect-keeps x _ s s' h e = ground arith

-- The renaming of `q` by `r` separates registers while one of the two is dead.
Separates-renamed {ℓ} :
    {A : Type ℓ} (q r dead d : Reg) (f : Reg → Option A)
    → (dead ≡ q) ⊎ (dead ≡ r)
    → f dead ≡ none
    → d ≢ dead
    → Separates (renamed q r) f d
Separates-renamed q r dead d f which e ne x w h other = ground arith

All-Separates {ℓ} :
    {A : Type ℓ} (q r dead : Reg) (f : Reg → Option A) (ds : List Reg)
    → (dead ≡ q) ⊎ (dead ≡ r)
    → f dead ≡ none
    → Lacks dead ds
    → All (Separates (renamed q r) f) ds
All-Separates q r dead f [] which e h = tt
All-Separates q r dead f (d ∷ ds) which e h =
    (Separates-renamed q r dead d f which e h.0, All-Separates q r dead f ds which e h.1)

All-fixed_renamed :
    (q r : Reg) (slots : List Reg) → Lacks q slots → All (λ slot. renamed q r slot ≡ slot) slots
All-fixed_renamed q r [] h = tt
All-fixed_renamed q r (slot ∷ slots) h = (ground (arith, h.0), All-fixed_renamed q r slots h.1)

module _ {target : Target} (q r dead : Reg) (which : (dead ≡ q) ⊎ (dead ≡ r)) where
  -- The registers of the two runs, where `dead` is dead in the first.
  abbrev pub RegionSim : (State target → Outcome target) → (State target → Outcome target) → Type 0
  RegionSim k k' =
      (s : State target) (g : Reg → Option target.Word)
      → s.regs dead ≡ none
      → Agrees (renamed q r) s.regs g
      → Refines (k s) (k' (with_regs s g))

  pub walk-region :
      (j j' : Label → State target → Outcome target)
      → JumpSim j j'
      → (lines tail tail' : List Line) → All (IsClear q dead) lines
      → RegionSim (walk j tail) (walk j' tail')
      → RegionSim (walk j (lines ++ tail)) (walk j' (map (replace_reg_line q r) lines ++ tail'))
  unfolding walk replace_reg_ins
  walk-region j j' hj [] tail tail' clear further s g none_dead agree = further s g none_dead agree
  walk-region j j' hj (line ∷ lines) tail tail' clear further s g none_dead agree =
      let lacks = writes-Lacks dead line.ins clear.0.0 in
      resume_sim (renamed q r) _ _ j j'
        (effect_sim (renamed q r) s g agree line.ins
          (All-Separates q r dead s.regs (writes line.ins) which none_dead lacks)
          (All-fixed_renamed q r (slots_of line.ins) clear.0.1))
        (λ s' g' e agree'.
          walk-region j j' hj lines tail tail' clear.1 further s' g'
            (effect-keeps dead line.ins s s' lacks e ∙ none_dead) agree')
        hj

-- Where a label leads in lines that are followed by others: into them, or past them.
pub seek-region :
    (q r dead : Reg) (label : Label) (lines tail tail' : List Line)
    → All (IsClear q dead) lines
    → ((found : List Line) × All (IsClear q dead) found
        × (seek label (lines ++ tail) ≡ found ++ tail)
        × (seek label (map (replace_reg_line q r) lines ++ tail')
            ≡ map (replace_reg_line q r) found ++ tail'))
      ⊎ ((seek label (lines ++ tail) ≡ seek label tail)
          × (seek label (map (replace_reg_line q r) lines ++ tail') ≡ seek label tail'))
unfolding seek
seek-region q r dead label [] tail tail' clear = inr (refl, refl)
seek-region q r dead label (line ∷ lines) tail tail' clear =
    elim (Bool-cases (contains line.labels label)) [
      | inl hit ↦ inl (line ∷ lines, clear, rw hit, rw hit)
      | inr miss ↦ rw miss (seek-region q r dead label lines tail tail' clear.1)
    ]
