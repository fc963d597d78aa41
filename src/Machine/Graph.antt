-- ===== src/Machine/Graph.antt =====
-- A run of a control-flow graph on the stack machine, from block to block, with fuel for the jumps.
use h4_projekt_gruppe_0_sm.Prelude.{ℕ, zero, suc, List, Option, none, some, if◌then◌else◌}
use h4_projekt_gruppe_0_sm.Mir.{TerKind, Block, find_block, error, unset, return, goto, if_}
use h4_projekt_gruppe_0_sm.Machine.Target.{Target}
use h4_projekt_gruppe_0_sm.Machine.Stack.{Meaning, Frame, steps, pop_word}

-- How a run ends.
module _ (target : Target) where
  pub data GraphOutcome : Type 0 where
    returned : Frame target → GraphOutcome
    faulted exhausted : GraphOutcome

module _ {target : Target} where
  -- The end of a run after the statements of a block, given what a jump does.
  unfoldable pub leave_block :
      TerKind → (ℕ → Frame target → GraphOutcome target) → Frame target → GraphOutcome target
  leave_block error jump m = faulted
  leave_block unset jump m = faulted
  leave_block return jump m = returned m
  leave_block (goto id) jump m = jump id m
  leave_block (if_ truthy falsy) jump m = elim (pop_word m.stack) [
    | none ↦ faulted
    | some p ↦ jump (if target.is_zero p.0 then falsy else truthy) (record m { stack = p.1 })
  ]

module _ {target : Target} (meaning : Meaning target) where
  unfoldable pub enter_block :
      Option Block → (ℕ → Frame target → GraphOutcome target) → Frame target → GraphOutcome target
  enter_block none jump m = faulted
  enter_block (some block) jump m = elim (steps meaning block.stmts m) [
    | none ↦ faulted
    | some m' ↦ leave_block block.ter jump m'
  ]

  unfoldable pub run : List Block → ℕ → ℕ → Frame target → GraphOutcome target
  unfolding enter_block
  run blocks zero id m = exhausted
  run blocks (suc fuel) id m =
      enter_block (find_block blocks id) (λ id' m'. run blocks fuel id' m') m
