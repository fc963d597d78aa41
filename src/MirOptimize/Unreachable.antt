-- ===== src/MirOptimize/Unreachable.antt =====
-- Runs of a function before and after `eliminateUnreachable` of sbc/mir_optimize.ts.
use h4_projekt_gruppe_0_sm.Prelude.{
  ℕ, zero, suc, Bool, true, false, not, List, [], ◌∷◌, some, ◌==◌, ◌≡◌, refl, ap, sym, subst,
  ne→==-false, ◌∙◌, arith, if◌then◌else◌, select, contains, map, Bool-cases, inl, inr, Option-cases,
  ==→eq, ==-self,
}
use h4_projekt_gruppe_0_sm.Mir.{Fn, Block, find_block, TerKind, error, unset, return, goto, if_}
use h4_projekt_gruppe_0_sm.MirOptimize.{
  cfg_successors, cfg_predecessors, is_empty, is_kept, unreachable, without, eliminate_unreachable,
}
use h4_projekt_gruppe_0_sm.Machine.Target.{Target}
use h4_projekt_gruppe_0_sm.Machine.Stack.{Meaning, Frame, pop_word, steps}
use h4_projekt_gruppe_0_sm.Machine.Graph.{GraphOutcome, leave_block, enter_block, run}

other : (ids : List ℕ) (a b : ℕ) → contains ids a ≡ true → contains ids b ≡ false → (a == b) ≡ false
other ids a b ha hb = ne→==-false a b (λ e. cc)

-- Whether blocks are found does not depend on blocks of other ids.
find_block-without :
    (to_remove : List ℕ) (blocks : List Block) (id : ℕ)
    → contains to_remove id ≡ false
    → find_block (without to_remove blocks) id ≡ find_block blocks id
unfolding find_block
find_block-without to_remove [] id h = refl
find_block-without to_remove (b ∷ blocks) id h = elim (Bool-cases (contains to_remove b.id)) [
  | inl gone ↦ rw (gone, other to_remove b.id id gone h) (find_block-without to_remove blocks id h)
  | inr stays ↦ rw stays (
      ap (λ later. if b.id == id then some b else later) (find_block-without to_remove blocks id h))
]

-- A block that is found has the id, and stands among the blocks.
pred-not-empty :
    (blocks : List Block) (from id : ℕ) (block : Block)
    → find_block blocks from ≡ some block
    → contains (cfg_successors block.ter) id ≡ true
    → is_empty (cfg_predecessors blocks id) ≡ false
unfolding find_block cfg_predecessors
pred-not-empty [] from id block e h = cc
pred-not-empty (b ∷ blocks) from id block e h =
    ground (arith, pred-not-empty blocks from id block, e, h)

absurd : {A : Type 0} → true ≡ false → A
absurd h = cc

not_kept :
    (fn : Fn) (blocks : List Block) (id : ℕ)
    → contains (map (λ b. b.id) (select (λ b. not (is_kept fn b)) blocks)) id ≡ true
    → ((id == fn.entry) ≡ false) × (is_empty (cfg_predecessors fn.blocks id) ≡ true)
unfolding is_kept
not_kept fn [] id h = cc
not_kept fn (b ∷ blocks) id h = elim (Bool-cases (b.id == fn.entry)) [
  | inl at_entry ↦ not_kept fn blocks id (rw at_entry at h)
  | inr elsewhere ↦ elim (Bool-cases (is_empty (cfg_predecessors fn.blocks b.id))) [
    | inr used ↦ not_kept fn blocks id (rw (elsewhere, used) at h)
    | inl unused ↦ elim (Bool-cases (b.id == id)) [
      | inl here ↦
          subst (λ i. ((i == fn.entry) ≡ false) × (is_empty (cfg_predecessors fn.blocks i) ≡ true))
            (==→eq b.id id here) (elsewhere, unused)
      | inr there ↦ not_kept fn blocks id (rw (elsewhere, unused, there) at h)
    ]
  ]
]

-- The entry is kept, and so is what a block leads to.
entry_stays : (fn : Fn) → contains (unreachable fn) fn.entry ≡ false
unfolding unreachable
entry_stays fn = elim (Bool-cases (contains (unreachable fn) fn.entry)) [
  | inl gone ↦ absurd (sym (==-self fn.entry) ∙ (not_kept fn fn.blocks fn.entry gone).0)
  | inr stays ↦ stays
]

successor_stays :
    (fn : Fn) (from id : ℕ) (block : Block)
    → find_block fn.blocks from ≡ some block
    → contains (cfg_successors block.ter) id ≡ true
    → contains (unreachable fn) id ≡ false
unfolding unreachable
successor_stays fn from id block e h = elim (Bool-cases (contains (unreachable fn) id)) [
  | inl gone ↦
      absurd (sym (not_kept fn fn.blocks id gone).1 ∙ pred-not-empty fn.blocks from id block e h)
  | inr stays ↦ stays
]

branch_listed :
    (truthy falsy : ℕ) (is_zero : Bool)
    → contains (cfg_successors (if_ truthy falsy)) (if is_zero then falsy else truthy) ≡ true
unfolding cfg_successors
branch_listed truthy falsy true = ground arith
branch_listed truthy falsy false = ground arith

module _ {target : Target} (meaning : Meaning target) where
  leave_block-cong :
      (ter : TerKind) (j k : ℕ → Frame target → GraphOutcome target) (m : Frame target)
      → ((id : ℕ) (m' : Frame target) → contains (cfg_successors ter) id ≡ true → j id m' ≡ k id m')
      → leave_block ter j m ≡ leave_block ter k m
  unfolding leave_block cfg_successors
  leave_block-cong error j k m h = refl
  leave_block-cong unset j k m h = refl
  leave_block-cong return j k m h = refl
  leave_block-cong (goto id) j k m h = h id m (rw (==-self id) refl)
  leave_block-cong (if_ truthy falsy) j k m h = elim (Option-cases (pop_word m.stack)) [
    | inl none_eq ↦ rw (none_eq, leave_block) refl
    | inr (p, some_eq) ↦
        rw (some_eq, leave_block)
          (h (if target.is_zero p.0 then falsy else truthy) (record m { stack = p.1 })
            (branch_listed truthy falsy (target.is_zero p.0)))
  ]

  enter_block-cong :
      (block : Block) (j k : ℕ → Frame target → GraphOutcome target) (m : Frame target)
      → ((id : ℕ) (m' : Frame target)
          → contains (cfg_successors block.ter) id ≡ true
          → j id m' ≡ k id m')
      → enter_block meaning (some block) j m ≡ enter_block meaning (some block) k m
  unfolding enter_block
  enter_block-cong block j k m h = elim (Option-cases (steps meaning block.stmts m)) [
    | inl e ↦ rw (e, enter_block) refl
    | inr (m', e) ↦ rw (e, enter_block) (leave_block-cong block.ter j k m' h)
  ]

  run_from :
      (fn : Fn) (fuel id : ℕ) (m : Frame target)
      → contains (unreachable fn) id ≡ false
      → run meaning (without (unreachable fn) fn.blocks) fuel id m ≡ run meaning fn.blocks fuel id m
  unfolding run enter_block
  run_from fn zero id m h = refl
  run_from fn (suc fuel) id m h = elim (Option-cases (find_block fn.blocks id)) [
    | inl e ↦ rw (find_block-without (unreachable fn) fn.blocks id h, e, enter_block) refl
    | inr (block, e) ↦
        rw (find_block-without (unreachable fn) fn.blocks id h, e)
          (enter_block-cong block _ _ m
            λ id' m' listed. run_from fn fuel id' m' (successor_stays fn id id' block e listed))
  ]

  -- `eliminateUnreachable` keeps what a run of the function does, from the entry and with any stack, locals
  -- and world, after any number of jumps.
  pub eliminate_unreachable-run :
      (fn : Fn) (fuel : ℕ) (m : Frame target)
      → run meaning (eliminate_unreachable fn).blocks fuel (eliminate_unreachable fn).entry m
        ≡ run meaning fn.blocks fuel fn.entry m
  unfolding eliminate_unreachable
  eliminate_unreachable-run fn fuel m = run_from fn fuel fn.entry m (entry_stays fn)
