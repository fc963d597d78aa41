-- ===== src/Machine/Simulation.antt =====
-- One instruction under a renaming of registers, from register files that agree where the first one is
-- defined: the second machine does what the first one does, unless the first one faults.
use h4_projekt_gruppe_0_sm.Prelude.{
  ℕ, Bool, true, false, List, [], ◌∷◌, Option, none, some, ◌==◌, if◌then◌else◌, ◌≡◌, ◌≢◌, refl, ap,
  All, take, Bool-cases, inl, inr, arith, ==→eq, ==-self, ne→==-false,
}
use h4_projekt_gruppe_0_sm.Lir.{
  Reg, Label, Ins, error, nop, ret, alloc_param, alloc_local, mov_int, mov_string, mov_fn, push,
  pop, load, store_reg, store_imm, call_reg, call_imm, jmp, jnz_reg, binary, kill,
}
use h4_projekt_gruppe_0_sm.LirOptimize.Replace.{rename}
use h4_projekt_gruppe_0_sm.Machine.Target.{Target, operation}
use h4_projekt_gruppe_0_sm.Machine.Registers.{
  State, Effect, next, goto, leave, fault, write, effect, reading, popping, assign, assign_slot,
  called, Outcome, returned, faulted, exhausted, resume,
}

-- the registers that an instruction sets
unfoldable pub writes : Ins → List Reg
writes (mov_int reg val) = reg ∷ []
writes (mov_string reg id) = reg ∷ []
writes (mov_fn reg fn) = reg ∷ []
writes (pop reg) = reg ∷ []
writes (load reg slot) = reg ∷ []
writes (binary op dst src) = dst ∷ []
writes (kill reg) = reg ∷ []
writes _ = []

-- the slots of the frame that an instruction reads or sets
unfoldable pub slots_of : Ins → List Reg
slots_of (load reg slot) = slot ∷ []
slots_of (store_reg slot reg) = slot ∷ []
slots_of (store_imm slot val) = slot ∷ []
slots_of _ = []

-- `g` has at `r x` what `f` has at `x`.
abbrev pub Agrees {ℓ} : {A : Type ℓ} → (ℕ → ℕ) → (ℕ → Option A) → (ℕ → Option A) → Type ℓ
Agrees {A} r f g = (x : ℕ) (w : A) → f x ≡ some w → g (r x) ≡ some w

-- `r` takes no other register that holds a value to where it takes `d`.
abbrev pub Separates {ℓ} : {A : Type ℓ} → (ℕ → ℕ) → (ℕ → Option A) → ℕ → Type ℓ
Separates {A} r f d = (x : ℕ) (w : A) → f x ≡ some w → d ≢ x → r d ≢ r x

pub Agrees-write {ℓ} :
    {A : Type ℓ} (r : ℕ → ℕ) (f g : ℕ → Option A) (d : ℕ) (v : Option A)
    → Agrees r f g
    → Separates r f d
    → Agrees r (write f d v) (write g (r d) v)
Agrees-write r f g d v agree apart x w h = elim (Bool-cases (d == x)) [
  | inl same ↦ rw (ap r (==→eq d x same), ==-self (r x)) (rw same at h)
  | inr other ↦
      let k : f x ≡ some w = rw other at h in
      rw (ne→==-false (r d) (r x) (apart x w k (ground arith))) (agree x w k)
]

module _ {target : Target} where
  abbrev pub with_regs : State target → (Reg → Option target.Word) → State target
  with_regs s g = record s { regs = g }

  -- The second effect does what the first one does, up to registers.
  pub data EffectSim (r : Reg → Reg) : Effect target → Effect target → Type 0 where
    nexts :
        (s : State target) (g : Reg → Option target.Word)
        → Agrees r s.regs g
        → EffectSim r (next s) (next (with_regs s g))
    gotos :
        (label : Label) (s : State target) (g : Reg → Option target.Word)
        → EffectSim r (goto label s) (goto label (with_regs s g))
    leaves :
        (s : State target) (g : Reg → Option target.Word)
        → EffectSim r (leave s) (leave (with_regs s g))
    faults : {e : Effect target} → EffectSim r fault e

  module _ (r : Reg → Reg) (s : State target) (g : Reg → Option target.Word)
      (agree : Agrees r s.regs g) where
    assign_sim :
        (d : Reg) (v : Option target.Word)
        → Separates r s.regs d
        → EffectSim r (assign s d v) (assign (with_regs s g) (r d) v)
    assign_sim d v apart =
        nexts (record s { regs = write s.regs d v }) (write g (r d) v)
          (Agrees-write r s.regs g d v agree apart)

    reading_sim :
        (d : Reg) (k k' : target.Word → Effect target)
        → ((w : target.Word) → EffectSim r (k w) (k' w))
        → EffectSim r (reading (s.regs d) k) (reading (g (r d)) k')
    reading_sim d k k' h = go (s.regs d) refl
      where
        go :
            (o : Option target.Word)
            → s.regs d ≡ o
            → EffectSim r (reading o k) (reading (g (r d)) k')
        go none e = faults
        go (some w) e = rw (agree d w e) (h w)

    slot_sim :
        (o : Option target.Word) (k k' : target.Word → Effect target)
        → ((w : target.Word) → EffectSim r (k w) (k' w))
        → EffectSim r (reading o k) (reading o k')
    slot_sim none k k' h = faults
    slot_sim (some w) k k' h = h w

    popping_sim :
        (l : List target.Word) (k k' : target.Word → List target.Word → Effect target)
        → ((w : target.Word) (ws : List target.Word) → EffectSim r (k w ws) (k' w ws))
        → EffectSim r (popping l k) (popping l k')
    popping_sim [] k k' h = faults
    popping_sim (w ∷ ws) k k' h = h w ws

    called_sim :
        (w : target.Word) (args : ℕ) → EffectSim r (called s w args) (called (with_regs s g) w args)
    called_sim w args = go (target.call w (take args s.stack) s.world)
      where
        -- the case split of `called`, on the callee's answer
        after : State target → Option (target.Word × target.World) → Effect target
        after t none = fault
        after t (some (v, world)) = next (record t { stack = v ∷ t.stack; world = world })

        go :
            (o : Option (target.Word × target.World))
            → EffectSim r (after s o) (after (with_regs s g) o)
        go none = faults
        go (some (v, world)) = nexts (record s { stack = v ∷ s.stack; world = world }) g agree

    store_sim :
        (slot : Reg) (w : target.Word)
        → EffectSim r (assign_slot s slot w) (assign_slot (with_regs s g) slot w)
    store_sim slot w =
        slot_sim (s.slots slot) _ _
          λ _. nexts (record s { slots = write s.slots slot (some w) }) g agree

    jump_sim :
        (zero? : Bool) (label : Label)
        → EffectSim r
            (if zero? then next s else goto label s)
            (if zero? then next (with_regs s g) else goto label (with_regs s g))
    jump_sim true label = nexts s g agree
    jump_sim false label = gotos label s g

    pub effect_sim :
        (ins : Ins)
        → All (Separates r s.regs) (writes ins)
        → All (λ slot. r slot ≡ slot) (slots_of ins)
        → EffectSim r (effect ins s) (effect (rename r ins) (with_regs s g))
    unfolding effect rename writes slots_of
    effect_sim error apart fixed = faults
    effect_sim nop apart fixed = nexts s g agree
    effect_sim ret apart fixed = leaves s g
    effect_sim (alloc_param reg size) apart fixed = nexts s g agree
    effect_sim (alloc_local reg size) apart fixed = nexts s g agree
    effect_sim (mov_int reg val) apart fixed = assign_sim reg _ apart.0
    effect_sim (mov_string reg id) apart fixed = assign_sim reg _ apart.0
    effect_sim (mov_fn reg fn) apart fixed = assign_sim reg _ apart.0
    effect_sim (push reg) apart fixed =
        reading_sim reg _ _ λ w. nexts (record s { stack = w ∷ s.stack }) g agree
    effect_sim (pop reg) apart fixed = popping_sim s.stack _ _ λ w ws.
        nexts (record s { regs = write s.regs reg (some w); stack = ws }) (write g (r reg) (some w))
          (Agrees-write r s.regs g reg (some w) agree apart.0)
    effect_sim (load reg slot) apart fixed =
        rw fixed.0 (slot_sim (s.slots slot) _ _ λ w. assign_sim reg _ apart.0)
    effect_sim (store_reg slot reg) apart fixed =
        rw fixed.0 (reading_sim reg _ _ λ w. store_sim slot w)
    effect_sim (store_imm slot val) apart fixed = rw fixed.0 (store_sim slot _)
    effect_sim (call_reg reg args) apart fixed = reading_sim reg _ _ λ w. called_sim w args
    effect_sim (call_imm fn args) apart fixed = called_sim _ args
    effect_sim (jmp label) apart fixed = gotos label s g
    effect_sim (jnz_reg reg label) apart fixed =
        reading_sim reg _ _ λ w. jump_sim (target.is_zero w) label
    effect_sim (binary op dst src) apart fixed = reading_sim dst _ _ λ a.
        reading_sim src _ _
          λ b. slot_sim (operation target op a b) _ _ λ w. assign_sim dst _ apart.0
    effect_sim (kill reg) apart fixed = assign_sim reg _ apart.0

  -- Unless the first run faults, the second one ends in the same way.
  abbrev pub Refines : Outcome target → Outcome target → Type 0
  Refines faulted o = Unit
  Refines exhausted o = o ≡ exhausted
  Refines (returned slots stack world) o = o ≡ returned slots stack world

  pub Refines-self : (o : Outcome target) → Refines o o
  Refines-self faulted = tt
  Refines-self exhausted = refl
  Refines-self (returned slots stack world) = refl

  -- Two ways to go on at the next line, and two ways to go on at a label.
  abbrev pub NextSim :
      (Reg → Reg) → (State target → Outcome target) → (State target → Outcome target) → Type 0
  NextSim r k k' =
      (s : State target) (g : Reg → Option target.Word)
      → Agrees r s.regs g
      → Refines (k s) (k' (with_regs s g))

  abbrev pub JumpSim :
      (Label → State target → Outcome target) → (Label → State target → Outcome target) → Type 0
  JumpSim j j' =
      (label : Label) (s : State target) (g : Reg → Option target.Word)
      → Refines (j label s) (j' label (with_regs s g))

  pub resume_sim :
      (r : Reg → Reg) {e e' : Effect target} (k k' : State target → Outcome target)
      (j j' : Label → State target → Outcome target)
      → EffectSim r e e'
      → ((s : State target) (g : Reg → Option target.Word)
          → e ≡ next s
          → Agrees r s.regs g
          → Refines (k s) (k' (with_regs s g)))
      → JumpSim j j'
      → Refines (resume k j e) (resume k' j' e')
  resume_sim r k k' j j' (nexts s g agree) hk hj = hk s g refl agree
  resume_sim r k k' j j' (gotos label s g) hk hj = hj label s g
  resume_sim r k k' j j' (leaves s g) hk hj = refl
  resume_sim r k k' j j' faults hk hj = tt

-- The identity as a renaming.
abbrev pub same : Reg → Reg
same reg = reg

-- A register that was written and killed again holds no more than before.
pub Agrees-killed {ℓ} :
    {A : Type ℓ} (f g : ℕ → Option A) (m : ℕ) (v : Option A)
    → Agrees same f g
    → Agrees same (write (write f m v) m none) g
Agrees-killed f g m v agree x w h = ground (arith, agree x w)

pub rename-same : (ins : Ins) → rename same ins ≡ ins
unfolding rename
rename-same error = refl
rename-same _ = refl

All-Separates-same {ℓ} :
    {A : Type ℓ} (f : ℕ → Option A) (regs : List ℕ) → All (Separates same f) regs
All-Separates-same f [] = tt
All-Separates-same f (d ∷ ds) = ((λ x w h ne. ne), All-Separates-same f ds)

All-fixed : (slots : List Reg) → All (λ slot. same slot ≡ slot) slots
All-fixed [] = tt
All-fixed (slot ∷ slots) = (refl, All-fixed slots)

module _ {target : Target} where
  -- One line, from register files that agree.
  pub same_sim :
      (ins : Ins) (s : State target) (g : Reg → Option target.Word)
      → Agrees same s.regs g
      → EffectSim same (effect ins s) (effect ins (with_regs s g))
  same_sim ins s g agree = rw (rename-same ins) at (
      effect_sim same s g agree ins (All-Separates-same s.regs (writes ins))
        (All-fixed (slots_of ins)))
