-- ===== src/LirGen/Simulation.antt =====
-- Runs on registers of the code of a MIR statement, beside the stack machine.
use h4_projekt_gruppe_0_sm.Prelude.{
  ℕ, zero, suc, List, [], ◌∷◌, ◌++◌, ◌<◌, none, some, ◌≡◌, ◌≢◌, refl, ap, sym, ◌∙◌, arith, map_get,
  take, ==-self, NumMap, ne→==-false,
}
use h4_projekt_gruppe_0_sm.Mir as Mir
use h4_projekt_gruppe_0_sm.Mir.{StmtKind, Local}
use h4_projekt_gruppe_0_sm.Lir.{Reg, Ins, push, pop, load, store_reg, call_reg, binary, kill}
use h4_projekt_gruppe_0_sm.LirGen.FnGen.{pop_args}
use h4_projekt_gruppe_0_sm.LirGen.Statements.{Runs, done, and_then, Runs-append}
use h4_projekt_gruppe_0_sm.Machine.Target.{Target, operation}
use h4_projekt_gruppe_0_sm.Machine.Registers.{State, next, effect, write, called}
use h4_projekt_gruppe_0_sm.Machine.Stack.{Frame, pop_words}

-- Different locals have different slots.
abbrev pub IsInjective : NumMap Reg → Type 0
IsInjective regs =
    (i j : ℕ) (reg : Reg) → map_get regs i ≡ some reg → map_get regs j ≡ some reg → i ≡ j

module _ {target : Target} where
  -- The slot of a local holds the local's value; the stacks and the worlds are the same.
  pub record IsRelated (regs : NumMap Reg) (s : State target) (m : Frame target) : Type 0 where
    pub slots : (id : ℕ) (reg : Reg) → map_get regs id ≡ some reg → s.slots reg ≡ m.locals id
    pub stacks : s.stack ≡ m.stack
    pub worlds : s.world ≡ m.world

  pop-next :
      (reg : Reg) (s : State target) (w : target.Word) (ws : List target.Word)
      → s.stack ≡ w ∷ ws
      → effect (pop reg) s ≡ next (record s { regs = write s.regs reg (some w); stack = ws })
  unfolding effect
  pop-next reg s w ws e = rw e

  push-next :
      (reg : Reg) (s : State target) (w : target.Word)
      → s.regs reg ≡ some w
      → effect (push reg) s ≡ next (record s { stack = w ∷ s.stack })
  unfolding effect
  push-next reg s w e = rw e

  kill-next :
      (reg : Reg) (s : State target)
      → effect (kill reg) s ≡ next (record s { regs = write s.regs reg none })
  unfolding effect
  kill-next reg s = refl

  store-next :
      (slot reg : Reg) (s : State target) (w old : target.Word)
      → s.regs reg ≡ some w
      → s.slots slot ≡ some old
      → effect (store_reg slot reg) s ≡ next (record s { slots = write s.slots slot (some w) })
  unfolding effect
  store-next slot reg s w old e there = rw (e, there)

  binary-next :
      (op : Mir.BinaryOp) (dst src : Reg) (s : State target) (a b w : target.Word)
      → s.regs dst ≡ some a
      → s.regs src ≡ some b
      → operation target op a b ≡ some w
      → effect (binary op dst src) s ≡ next (record s { regs = write s.regs dst (some w) })
  unfolding effect
  binary-next op dst src s a b w ea eb e = rw (ea, eb, e)

  call-next :
      (reg : Reg) (args : ℕ) (s : State target) (f w : target.Word) (world : target.World)
      → s.regs reg ≡ some f
      → target.call f (take args s.stack) s.world ≡ some (w, world)
      → effect (call_reg reg args) s ≡ next (record s { stack = w ∷ s.stack; world = world })
  unfolding effect
  call-next reg args s f w world ef e = rw ef (rw (e, called))

  load-next :
      (reg slot : Reg) (s : State target) (w : target.Word)
      → s.slots slot ≡ some w
      → effect (load reg slot) s ≡ next (record s { regs = write s.regs reg (some w) })
  unfolding effect
  load-next reg slot s w e = rw e

  -- `code` leads from `s` to a state that is related to `m`.
  abbrev pub Simulates : NumMap Reg → List Ins → State target → Frame target → Type 0
  Simulates regs code s m = (t : State target) × Runs code s t × IsRelated regs t m

  module _ (regs : NumMap Reg) where
    -- a value that is moved to a register, pushed and dropped
    pub value_runs :
        (ins : Ins) (reg : Reg) (s : State target) (m : Frame target) (w : target.Word)
        → effect ins s ≡ next (record s { regs = write s.regs reg (some w) })
        → IsRelated regs s m
        → Simulates regs (ins ∷ push reg ∷ kill reg ∷ []) s (record m { stack = w ∷ m.stack })
    unfolding effect
    value_runs ins reg s m w e related = (
      record s { regs = write (write s.regs reg (some w)) reg none; stack = w ∷ s.stack },
      and_then e (and_then (rw (==-self reg)) (and_then refl done)),
      record {
        slots = related.slots;
        stacks = ap (λ ws. w ∷ ws) related.stacks;
        worlds = related.worlds;
      },
    )

    pub pop_runs :
        (reg : Reg) (s : State target) (m : Frame target) (w : target.Word) (ws : List target.Word)
        → m.stack ≡ w ∷ ws
        → IsRelated regs s m
        → Simulates regs (pop reg ∷ kill reg ∷ []) s (record m { stack = ws })
    unfolding effect
    pop_runs reg s m w ws e related = (
      record s { regs = write (write s.regs reg (some w)) reg none; stack = ws },
      and_then (rw (related.stacks ∙ e)) (and_then refl done),
      record { slots = related.slots; stacks = refl; worlds = related.worlds },
    )

    pub store_runs :
        (reg slot : Reg) (id : ℕ) (s : State target) (m : Frame target) (w old : target.Word)
        (ws : List target.Word)
        → IsInjective regs
        → map_get regs id ≡ some slot
        → m.stack ≡ w ∷ ws
        → m.locals id ≡ some old
        → IsRelated regs s m
        → Simulates regs
            (pop reg ∷ store_reg slot reg ∷ kill reg ∷ [])
            s
            (record m { locals = write m.locals id (some w); stack = ws })
    unfolding effect
    store_runs reg slot id s m w old ws apart at e there related = (
      record s {
        regs = write (write s.regs reg (some w)) reg none;
        slots = write s.slots slot (some w);
        stack = ws;
      },
      and_then (pop-next reg s w ws (related.stacks ∙ e)) (
          and_then
            (store-next slot reg _ w old (rw (==-self reg)) (related.slots id slot at ∙ there))
            (and_then (kill-next reg _) done)),
      record {
        slots = λ j reg' h. ground (arith, apart id j reg', related.slots j reg' h, at, h);
        stacks = refl;
        worlds = related.worlds;
      },
    )

    pub binary_runs :
        (src dst : Reg) (op : Mir.BinaryOp) (s : State target) (m : Frame target)
        (b a w : target.Word) (ws : List target.Word)
        → src ≢ dst
        → m.stack ≡ b ∷ a ∷ ws
        → operation target op a b ≡ some w
        → IsRelated regs s m
        → Simulates regs
            (pop src ∷ pop dst ∷ binary op dst src ∷ push dst ∷ kill src ∷ kill dst ∷ [])
            s
            (record m { stack = w ∷ ws })
    unfolding effect
    binary_runs src dst op s m b a w ws apart e result related =
        let s₁ : State target = record s { regs = write s.regs src (some b); stack = a ∷ ws } in
        let s₂ : State target = record s₁ { regs = write s₁.regs dst (some a); stack = ws } in
        let s₃ : State target = record s₂ { regs = write s₂.regs dst (some w) } in
        let s₄ : State target = record s₃ { stack = w ∷ ws } in
        let s₅ : State target = record s₄ { regs = write s₄.regs src none } in
        (
          record s₅ { regs = write s₅.regs dst none },
          and_then (pop-next src s b (a ∷ ws) (related.stacks ∙ e)) (
              and_then (pop-next dst s₁ a ws refl) (
                and_then
                  (binary-next op dst src s₂ a b w (rw (==-self dst))
                    (rw (ne→==-false dst src (λ p. apart (sym p)), ==-self src)) result)
                  (and_then (push-next dst s₃ w (rw (==-self dst)))
                    (and_then (kill-next src s₄) (and_then (kill-next dst s₅) done))))),
          record { slots = related.slots; stacks = refl; worlds = related.worlds },
        )

    -- The arguments of a call, popped one by one; the register `rval` is not among those used.
    args_run :
        (count : ℕ) (reg : Reg) (rval : Reg) (l : List target.Word) (s : State target)
        (ws : List target.Word)
        → s.stack ≡ l
        → rval < reg
        → pop_words count l ≡ some ws
        → (t : State target) × Runs (pop_args count reg) s t
          × (t.regs rval ≡ s.regs rval)
          × (t.stack ≡ ws)
          × (t.slots ≡ s.slots)
          × (t.world ≡ s.world)
    unfolding pop_args pop_words
    args_run zero reg rval l s ws q h e = (s, done, refl, ground arith, refl, refl)
    args_run (suc count) reg rval [] s ws q h e = cc
    args_run (suc count) reg rval (w ∷ l) s ws q h e =
        let s₁ : State target = record s { regs = write s.regs reg (some w); stack = l } in
        let s₂ : State target = record s₁ { regs = write s₁.regs reg none } in
        let (t, r, kept, popped, slots, world) =
          args_run count (suc reg) rval l s₂ ws refl (omega arith) e in
        (
          t,
          and_then (pop-next reg s w l q) (and_then (kill-next reg s₁) r),
          kept ∙ rw (ne→==-false reg rval (omega arith)),
          popped,
          slots,
          world,
        )

    pub call_runs :
        (reg args : ℕ) (s : State target) (m : Frame target) (f w : target.Word)
        (world : target.World) (l ws : List target.Word)
        → m.stack ≡ f ∷ l
        → target.call f (take args l) m.world ≡ some (w, world)
        → pop_words args l ≡ some ws
        → IsRelated regs s m
        → Simulates regs
            (pop reg
              ∷ call_reg reg args
              ∷ kill reg
              ∷ pop (suc reg)
              ∷ (pop_args args (suc (suc reg)) ++ (push (suc reg) ∷ kill (suc reg) ∷ [])))
            s
            (record m { stack = w ∷ ws; world = world })
    call_runs reg args s m f w world l ws e result popped related =
        let s₁ : State target = record s { regs = write s.regs reg (some f); stack = l } in
        let s₂ : State target = record s₁ { stack = w ∷ l; world = world } in
        let s₃ : State target = record s₂ { regs = write s₂.regs reg none } in
        let s₄ : State target = record s₃ { regs = write s₃.regs (suc reg) (some w); stack = l } in
        let (s₅, r, kept, stack, slots, world') =
          args_run args (suc (suc reg)) (suc reg) l s₄ ws refl (omega arith) popped in
        let s₆ : State target = record s₅ { stack = w ∷ s₅.stack } in
        (
          record s₆ { regs = write s₆.regs (suc reg) none },
          and_then (pop-next reg s f l (related.stacks ∙ e)) (
              and_then
                (call-next reg args s₁ f w world (rw (==-self reg)) (rw related.worlds result))
                (and_then (kill-next reg s₂) (
                  and_then (pop-next (suc reg) s₃ w l refl) (
                    Runs-append r (
                      and_then (push-next (suc reg) s₅ w (kept ∙ rw (==-self (suc reg))))
                        (and_then (kill-next (suc reg) s₆) done)))))),
          record {
            slots = λ id slot h. ap (λ f. f slot) slots ∙ related.slots id slot h;
            stacks = ap (λ ws. w ∷ ws) stack;
            worlds = world';
          },
        )

    pub load_runs :
        (reg slot : Reg) (id : ℕ) (s : State target) (m : Frame target) (w : target.Word)
        → map_get regs id ≡ some slot
        → m.locals id ≡ some w
        → IsRelated regs s m
        → Simulates regs
            (load reg slot ∷ push reg ∷ kill reg ∷ [])
            s
            (record m { stack = w ∷ m.stack })
    load_runs reg slot id s m w at there related =
        value_runs (load reg slot) reg s m w
          (load-next reg slot s w (related.slots id slot at ∙ there)) related
