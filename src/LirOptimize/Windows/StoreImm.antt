-- ===== src/LirOptimize/Windows/StoreImm.antt =====
-- `eliminateMovIntStoreReg` of sbc/lir_optimize.ts: an integer that is moved to a register, stored and
-- dropped is stored as an immediate.
use h4_projekt_gruppe_0_sm.Prelude.{
  ℕ, true, false, ◌&&◌, List, [], ◌∷◌, ◌++◌, Option, none, some, ◌≡◌, refl, ap, length, ok, ◌==◌,
  arith, ==-self, drop-append,
}
use h4_projekt_gruppe_0_sm.Lir.{Reg, Label, Ins, mov_int, store_reg, store_imm, kill, Line}
use h4_projekt_gruppe_0_sm.LirOptimize.Windows.{
  fits_mov_int_store, mov_int_store_kill, unlabelled, rewrite_mov_int_store,
  eliminate_mov_int_store_reg,
}
use h4_projekt_gruppe_0_sm.LirOptimize.Windows.Fusion.{fuse, set-splice, rewrite-fuse}
use h4_projekt_gruppe_0_sm.LirOptimize.Windows.FusionRun.{WindowSim, exec-fuse}
use h4_projekt_gruppe_0_sm.Machine.Target.{Target}
use h4_projekt_gruppe_0_sm.Machine.Registers.{
  State, Outcome, effect, resume, exec, write, reading, next,
}
use h4_projekt_gruppe_0_sm.Machine.Simulation.{
  Agrees, Agrees-killed, with_regs, Refines, NextSim, same,
}

-- the one line that the window becomes
unfoldable pub stored : Line → Line → Line → Ins
stored a b c = elim (mov_int_store_kill a.ins b.ins c.ins) [
  | none ↦ a.ins
  | some (m, val, s_reg, r, k) ↦ store_imm s_reg val
]

-- What a window that fits is made of.
record IsStore (a b c : Line) : Type 0 where
  reg : Reg
  val : ℕ
  slot : Reg
  moves : a.ins ≡ mov_int reg val
  stores : b.ins ≡ store_reg slot reg
  kills : c.ins ≡ kill reg
  bare_store : b.labels ≡ []
  bare_kill : c.labels ≡ []

invert :
    (a b c : Line) (ia ib ic : Ins)
    → a.ins ≡ ia
    → b.ins ≡ ib
    → c.ins ≡ ic
    → elim (mov_int_store_kill ia ib ic) [
      | none ↦ false
      | some (m, val, s_reg, r, k) ↦ unlabelled b && (unlabelled c && ((m == r) && (m == k)))
    ]
      ≡ true
    → IsStore a b c
invert a b c (mov_int m val) (store_reg slot r) (kill k) pa pb pc h = record {
  reg = m;
  val = val;
  slot = slot;
  moves = ground arith;
  stores = ground arith;
  kills = ground arith;
  bare_store = ground arith;
  bare_kill = ground arith;
}
invert a b c _ _ _ pa pb pc h = cc

fits-IsStore : (a b c : Line) → fits_mov_int_store a b c ≡ true → IsStore a b c
fits-IsStore a b c h = invert a b c a.ins b.ins c.ins refl refl refl h

second : (a b c d e : Line) → fits_mov_int_store a b c ≡ true → fits_mov_int_store b d e ≡ false
second a b c d e h = rw (fits-IsStore a b c h).stores

third : (a b c d e : Line) → fits_mov_int_store a b c ≡ true → fits_mov_int_store c d e ≡ false
third a b c d e h = rw (fits-IsStore a b c h).kills

bare : (a b c : Line) → fits_mov_int_store a b c ≡ true → (b.labels ≡ []) × (c.labels ≡ [])
bare a b c h = ((fits-IsStore a b c h).bare_store, (fits-IsStore a b c h).bare_kill)

stored-eq :
    (a b c : Line) (m : Reg) (val : ℕ) (slot : Reg)
    → a.ins ≡ mov_int m val
    → b.ins ≡ store_reg slot m
    → c.ins ≡ kill m
    → stored a b c ≡ store_imm slot val
unfolding stored
stored-eq a b c m val slot pa pb pc = rw (pa, pb, pc)

steps_at :
    (before : List Line) (a b c : Line) (rest : List Line) (m : Reg) (val : ℕ) (slot : Reg)
    → a.ins ≡ mov_int m val
    → b.ins ≡ store_reg slot m
    → c.ins ≡ kill m
    → rewrite_mov_int_store (before ++ (a ∷ b ∷ c ∷ rest)) (length before)
      ≡ ok (before ++ (record a { ins = stored a b c } ∷ rest))
unfolding rewrite_mov_int_store
steps_at before a b c rest m val slot pa pb pc =
    simp (drop-append before (a ∷ b ∷ c ∷ rest), stored-eq a b c m val slot pa pb pc, pa, pb, pc)
      (ap ok (set-splice before a b c rest (store_imm slot val)))

steps :
    (before : List Line) (a b c : Line) (rest : List Line)
    → fits_mov_int_store a b c ≡ true
    → rewrite_mov_int_store (before ++ (a ∷ b ∷ c ∷ rest)) (length before)
      ≡ ok (before ++ (record a { ins = stored a b c } ∷ rest))
steps before a b c rest h =
    let w = fits-IsStore a b c h in
    steps_at before a b c rest w.reg w.val w.slot w.moves w.stores w.kills

module _ {target : Target} (s : State target) (g : Reg → Option target.Word)
    (k k' : State target → Outcome target) (j j' : Label → State target → Outcome target)
    (agree : Agrees same s.regs g) (further : NextSim same k k') where
  run_window :
      (m : Reg) (val : ℕ) (slot : Reg)
      → Refines
          (resume
            (λ s₁. resume (λ s₂. resume k j (effect (kill m) s₂)) j (effect (store_reg slot m) s₁))
            j
            (effect (mov_int m val) s))
          (resume k' j' (effect (store_imm slot val) (with_regs s g)))
  unfolding effect
  run_window m val slot = rw (==-self m) (go (s.slots slot))
    where
      go :
          (o : Option target.Word)
          → Refines
              (resume
                (λ s₂. resume k j (effect (kill m) s₂))
                j
                (reading o λ _. next (record s {
                  regs = write s.regs m (some (target.int val));
                  slots = write s.slots slot (some (target.int val));
                })))
              (resume k' j' (
                reading o λ _.
                  next (record s { regs = g; slots = write s.slots slot (some (target.int val)) })))
      go none = tt
      go (some old) = further _ g (Agrees-killed s.regs g m _ agree)

  windows_at :
      (ia ib ic merged : Ins) (m : Reg) (val : ℕ) (slot : Reg)
      → ia ≡ mov_int m val
      → ib ≡ store_reg slot m
      → ic ≡ kill m
      → merged ≡ store_imm slot val
      → Refines
          (resume (λ s₁. resume (λ s₂. resume k j (effect ic s₂)) j (effect ib s₁)) j (effect ia s))
          (resume k' j' (effect merged (with_regs s g)))
  windows_at ia ib ic merged m val slot pa pb pc pm = rw (pa, pb, pc, pm) (run_window m val slot)

windows : (target : Target) → WindowSim fits_mov_int_store stored bare target
windows target a b c s g k k' j j' h agree further jumps =
    let w = fits-IsStore a b c h in
    windows_at s g k k' j j' agree further a.ins b.ins c.ins (stored a b c) w.reg w.val w.slot
      w.moves w.stores w.kills (stored-eq a b c w.reg w.val w.slot w.moves w.stores w.kills)

-- The two loops of `eliminateMovIntStoreReg` never throw, and amount to one pass over the lines that
-- replaces each window of `mov_int`, `store_reg` and `kill` by a `store_imm` under the window's labels.
pub eliminate_mov_int_store_reg-fuse :
    (lines : List Line)
    → eliminate_mov_int_store_reg lines ≡ ok (fuse fits_mov_int_store stored lines)
unfolding eliminate_mov_int_store_reg
eliminate_mov_int_store_reg-fuse lines =
    rewrite-fuse fits_mov_int_store stored rewrite_mov_int_store steps second third 0 [] lines refl

-- `eliminateMovIntStoreReg` succeeds, and a run of the new lines, from the start and on any fuel, ends as
-- the run of the old lines does, unless that one faults.
pub eliminate_mov_int_store_reg-Refines :
    {target : Target} (lines : List Line) (fuel : ℕ) (s : State target)
    → (lines' : List Line) × (eliminate_mov_int_store_reg lines ≡ ok lines')
      × Refines (exec lines fuel lines s) (exec lines' fuel lines' s)
eliminate_mov_int_store_reg-Refines lines fuel s = (
  fuse fits_mov_int_store stored lines,
  eliminate_mov_int_store_reg-fuse lines,
  exec-fuse fits_mov_int_store stored bare (windows _) lines fuel lines s s.regs (λ x w h. h),
)
