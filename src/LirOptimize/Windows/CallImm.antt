-- ===== src/LirOptimize/Windows/CallImm.antt =====
-- `eliminateMovFnCall` of sbc/lir_optimize.ts: a function that is moved to a register, called and dropped
-- is called directly.
use h4_projekt_gruppe_0_sm.Prelude.{
  ℕ, true, false, ◌&&◌, List, [], ◌∷◌, ◌++◌, Option, none, some, ◌≡◌, refl, ap, length, ok, ◌==◌,
  arith, ==-self, drop-append, take,
}
use h4_projekt_gruppe_0_sm.Lir.{Reg, Label, Ins, mov_fn, call_reg, call_imm, kill, Line}
use h4_projekt_gruppe_0_sm.LirOptimize.Windows.{
  fits_mov_fn_call, mov_fn_call_kill, unlabelled, rewrite_mov_fn_call, eliminate_mov_fn_call,
}
use h4_projekt_gruppe_0_sm.LirOptimize.Windows.Fusion.{fuse, set-splice, rewrite-fuse}
use h4_projekt_gruppe_0_sm.LirOptimize.Windows.FusionRun.{WindowSim, exec-fuse}
use h4_projekt_gruppe_0_sm.Machine.Target.{Target}
use h4_projekt_gruppe_0_sm.Machine.Registers.{
  State, Outcome, effect, resume, exec, write, Effect, fault, next,
}
use h4_projekt_gruppe_0_sm.Machine.Simulation.{
  Agrees, Agrees-killed, with_regs, Refines, NextSim, same,
}

-- the one line that the window becomes
unfoldable pub called_directly : Line → Line → Line → Ins
called_directly a b c = elim (mov_fn_call_kill a.ins b.ins c.ins) [
  | none ↦ a.ins
  | some (m, fn, r, args, k) ↦ call_imm fn args
]

-- What a window that fits is made of.
record IsCall (a b c : Line) : Type 0 where
  reg : Reg
  fn : ℕ
  args : ℕ
  moves : a.ins ≡ mov_fn reg fn
  calls : b.ins ≡ call_reg reg args
  kills : c.ins ≡ kill reg
  bare_call : b.labels ≡ []
  bare_kill : c.labels ≡ []

invert :
    (a b c : Line) (ia ib ic : Ins)
    → a.ins ≡ ia
    → b.ins ≡ ib
    → c.ins ≡ ic
    → elim (mov_fn_call_kill ia ib ic) [
      | none ↦ false
      | some (m, fn, r, args, k) ↦ unlabelled b && (unlabelled c && ((m == r) && (m == k)))
    ]
      ≡ true
    → IsCall a b c
invert a b c (mov_fn m fn) (call_reg r args) (kill k) pa pb pc h = record {
  reg = m;
  fn = fn;
  args = args;
  moves = ground arith;
  calls = ground arith;
  kills = ground arith;
  bare_call = ground arith;
  bare_kill = ground arith;
}
invert a b c _ _ _ pa pb pc h = cc

fits-IsCall : (a b c : Line) → fits_mov_fn_call a b c ≡ true → IsCall a b c
fits-IsCall a b c h = invert a b c a.ins b.ins c.ins refl refl refl h

second : (a b c d e : Line) → fits_mov_fn_call a b c ≡ true → fits_mov_fn_call b d e ≡ false
second a b c d e h = rw (fits-IsCall a b c h).calls

third : (a b c d e : Line) → fits_mov_fn_call a b c ≡ true → fits_mov_fn_call c d e ≡ false
third a b c d e h = rw (fits-IsCall a b c h).kills

bare : (a b c : Line) → fits_mov_fn_call a b c ≡ true → (b.labels ≡ []) × (c.labels ≡ [])
bare a b c h = ((fits-IsCall a b c h).bare_call, (fits-IsCall a b c h).bare_kill)

called_directly-eq :
    (a b c : Line) (m : Reg) (fn : ℕ) (args : ℕ)
    → a.ins ≡ mov_fn m fn
    → b.ins ≡ call_reg m args
    → c.ins ≡ kill m
    → called_directly a b c ≡ call_imm fn args
unfolding called_directly
called_directly-eq a b c m fn args pa pb pc = rw (pa, pb, pc)

steps_at :
    (before : List Line) (a b c : Line) (rest : List Line) (m : Reg) (fn : ℕ) (args : ℕ)
    → a.ins ≡ mov_fn m fn
    → b.ins ≡ call_reg m args
    → c.ins ≡ kill m
    → rewrite_mov_fn_call (before ++ (a ∷ b ∷ c ∷ rest)) (length before)
      ≡ ok (before ++ (record a { ins = called_directly a b c } ∷ rest))
unfolding rewrite_mov_fn_call
steps_at before a b c rest m fn args pa pb pc =
    simp
      (
        drop-append before (a ∷ b ∷ c ∷ rest),
        called_directly-eq a b c m fn args pa pb pc,
        pa,
        pb,
        pc,
      )
      (ap ok (set-splice before a b c rest (call_imm fn args)))

steps :
    (before : List Line) (a b c : Line) (rest : List Line)
    → fits_mov_fn_call a b c ≡ true
    → rewrite_mov_fn_call (before ++ (a ∷ b ∷ c ∷ rest)) (length before)
      ≡ ok (before ++ (record a { ins = called_directly a b c } ∷ rest))
steps before a b c rest h =
    let w = fits-IsCall a b c h in
    steps_at before a b c rest w.reg w.fn w.args w.moves w.calls w.kills

module _ {target : Target} (s : State target) (g : Reg → Option target.Word)
    (k k' : State target → Outcome target) (j j' : Label → State target → Outcome target)
    (agree : Agrees same s.regs g) (further : NextSim same k k') where
  run_window :
      (m : Reg) (fn : ℕ) (args : ℕ)
      → Refines
          (resume
            (λ s₁. resume (λ s₂. resume k j (effect (kill m) s₂)) j (effect (call_reg m args) s₁))
            j
            (effect (mov_fn m fn) s))
          (resume k' j' (effect (call_imm fn args) (with_regs s g)))
  unfolding effect
  run_window m fn args =
      rw (==-self m) (go (target.call (target.fn fn) (take args s.stack) s.world))
    where
      called : State target → Option (target.Word × target.World) → Effect target
      called t none = fault
      called t (some (w, world)) = next (record t { stack = w ∷ t.stack; world = world })

      moved : State target
      moved = record s { regs = write s.regs m (some (target.fn fn)) }

      go :
          (o : Option (target.Word × target.World))
          → Refines
              (resume (λ s₂. resume k j (effect (kill m) s₂)) j (called moved o))
              (resume k' j' (called (with_regs s g) o))
      go none = tt
      go (some (w, world)) =
          further
            (record s {
              regs = write (write s.regs m (some (target.fn fn))) m none;
              stack = w ∷ s.stack;
              world = world;
            })
            g (Agrees-killed s.regs g m _ agree)

  windows_at :
      (ia ib ic merged : Ins) (m : Reg) (fn : ℕ) (args : ℕ)
      → ia ≡ mov_fn m fn
      → ib ≡ call_reg m args
      → ic ≡ kill m
      → merged ≡ call_imm fn args
      → Refines
          (resume (λ s₁. resume (λ s₂. resume k j (effect ic s₂)) j (effect ib s₁)) j (effect ia s))
          (resume k' j' (effect merged (with_regs s g)))
  windows_at ia ib ic merged m fn args pa pb pc pm = rw (pa, pb, pc, pm) (run_window m fn args)

windows : (target : Target) → WindowSim fits_mov_fn_call called_directly bare target
windows target a b c s g k k' j j' h agree further jumps =
    let w = fits-IsCall a b c h in
    windows_at s g k k' j j' agree further a.ins b.ins c.ins (called_directly a b c) w.reg w.fn
      w.args w.moves w.calls w.kills
      (called_directly-eq a b c w.reg w.fn w.args w.moves w.calls w.kills)

-- The two loops of `eliminateMovFnCall` never throw, and amount to one pass over the lines that
-- replaces each window of `mov_fn`, `call_reg` and `kill` by a `call_imm` under the window's labels.
pub eliminate_mov_fn_call-fuse :
    (lines : List Line)
    → eliminate_mov_fn_call lines ≡ ok (fuse fits_mov_fn_call called_directly lines)
unfolding eliminate_mov_fn_call
eliminate_mov_fn_call-fuse lines =
    rewrite-fuse fits_mov_fn_call called_directly rewrite_mov_fn_call steps second third 0 [] lines
      refl

-- `eliminateMovFnCall` succeeds, and a run of the new lines, from the start and on any fuel, ends as
-- the run of the old lines does, unless that one faults.
pub eliminate_mov_fn_call-Refines :
    {target : Target} (lines : List Line) (fuel : ℕ) (s : State target)
    → (lines' : List Line) × (eliminate_mov_fn_call lines ≡ ok lines')
      × Refines (exec lines fuel lines s) (exec lines' fuel lines' s)
eliminate_mov_fn_call-Refines lines fuel s = (
  fuse fits_mov_fn_call called_directly lines,
  eliminate_mov_fn_call-fuse lines,
  exec-fuse fits_mov_fn_call called_directly bare (windows _) lines fuel lines s s.regs
      (λ x w h. h),
)
