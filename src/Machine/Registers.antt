-- ===== src/Machine/Registers.antt =====
-- The machine that runs LIR: virtual registers, the slots of the frame, a stack. A register that is
-- read must have been written and not killed since. Registers live inside a block: a jump drops them.
use h4_projekt_gruppe_0_sm.Prelude.{
  ℕ, zero, suc, List, [], ◌∷◌, Option, none, some, ◌==◌, if◌then◌else◌, contains, take,
}
use h4_projekt_gruppe_0_sm.Lir.{
  Reg, Label, Ins, error, nop, ret, alloc_param, alloc_local, mov_int, mov_string, mov_fn, push,
  pop, load, store_reg, store_imm, call_reg, call_imm, jmp, jnz_reg, binary, kill, Line,
}
use h4_projekt_gruppe_0_sm.Machine.Target.{Target, operation}

module _ (target : Target) where
  pub record State : Type 0 where
    pub regs : Reg → Option target.Word
    pub slots : Reg → Option target.Word
    pub stack : List target.Word
    pub world : target.World

-- the value at one more place, and at no place
abbrev pub write {ℓ} : {A : Type ℓ} → (ℕ → Option A) → ℕ → Option A → ℕ → Option A
write f at v x = if at == x then v else f x

abbrev pub dropped {ℓ} : {A : Type ℓ} → ℕ → Option A
dropped x = none

-- the lines from a label on
unfoldable pub seek : Label → List Line → List Line
seek label [] = []
seek label (line ∷ rest) =
    let later = seek label rest in if contains line.labels label then line ∷ rest else later

module _ (target : Target) where
  -- What one instruction does: on to the next line, to a label, out of the function, or a fault.
  pub data Effect : Type 0 where
    next : State target → Effect
    goto : Label → State target → Effect
    leave : State target → Effect
    fault : Effect

module _ {target : Target} where
  abbrev pub reading : Option target.Word → (target.Word → Effect target) → Effect target
  reading none k = fault
  reading (some w) k = k w

  abbrev pub popping :
      List target.Word → (target.Word → List target.Word → Effect target) → Effect target
  popping [] k = fault
  popping (w ∷ ws) k = k w ws

  abbrev pub assign : State target → Reg → Option target.Word → Effect target
  assign s reg v = next (record s { regs = write s.regs reg v })

  abbrev pub assign_slot : State target → Reg → target.Word → Effect target
  assign_slot s slot v =
      reading (s.slots slot) λ _. next (record s { slots = write s.slots slot (some v) })

  -- the callee sees `args` words; its result is pushed on top of them
  abbrev pub called : State target → target.Word → ℕ → Effect target
  called s callee args = elim (target.call callee (take args s.stack) s.world) [
    | none ↦ fault
    | some (w, world) ↦ next (record s { stack = w ∷ s.stack; world = world })
  ]

  unfoldable pub effect : Ins → State target → Effect target
  effect error s = fault
  effect nop s = next s
  effect ret s = leave s
  effect (alloc_param reg size) s = next s
  effect (alloc_local reg size) s = next s
  effect (mov_int reg val) s = assign s reg (some (target.int val))
  effect (mov_string reg id) s = assign s reg (some (target.string id))
  effect (mov_fn reg fn) s = assign s reg (some (target.fn fn))
  effect (push reg) s = reading (s.regs reg) λ w. next (record s { stack = w ∷ s.stack })
  effect (pop reg) s =
      popping s.stack λ w ws. next (record s { regs = write s.regs reg (some w); stack = ws })
  effect (load reg slot) s = reading (s.slots slot) λ w. assign s reg (some w)
  effect (store_reg slot reg) s = reading (s.regs reg) λ w. assign_slot s slot w
  effect (store_imm slot val) s = assign_slot s slot (target.int val)
  effect (call_reg reg args) s = reading (s.regs reg) λ w. called s w args
  effect (call_imm fn args) s = called s (target.fn fn) args
  effect (jmp label) s = goto label s
  effect (jnz_reg reg label) s =
      reading (s.regs reg) λ w. if target.is_zero w then next s else goto label s
  effect (binary op dst src) s =
      reading (s.regs dst)
        λ a. reading (s.regs src) λ b. reading (operation target op a b) λ w. assign s dst (some w)
  effect (kill reg) s = assign s reg none

  abbrev pub jumped : State target → State target
  jumped s = record s { regs = dropped }

-- How a run ends. What a caller sees are the slots, the stack and the world, not the registers.
module _ (target : Target) where
  pub data Outcome : Type 0 where
    returned : (ℕ → Option target.Word) → List target.Word → target.World → Outcome
    faulted exhausted : Outcome

module _ {target : Target} where
  -- The end of a run after an effect, given how it goes on at the next line and at a label.
  abbrev pub resume :
      (State target → Outcome target)
      → (Label → State target → Outcome target)
      → Effect target
      → Outcome target
  resume further jump (next s) = further s
  resume further jump (goto label s) = jump label s
  resume further jump (leave s) = returned s.slots s.stack s.world
  resume further jump fault = faulted

module _ {target : Target} where
  -- A run of consecutive lines, given what a jump does.
  unfoldable pub walk :
      (Label → State target → Outcome target) → List Line → State target → Outcome target
  walk jump [] s = faulted
  walk jump (line ∷ rest) s = resume (λ s'. walk jump rest s') jump (effect line.ins s)

  -- A run of the lines `rest` of the function `program`, with fuel for the jumps.
  unfoldable pub exec : List Line → ℕ → List Line → State target → Outcome target
  exec program zero rest s = walk (λ label s'. exhausted) rest s
  exec program (suc fuel) rest s =
      walk (λ label s'. exec program fuel (seek label program) (jumped s')) rest s
