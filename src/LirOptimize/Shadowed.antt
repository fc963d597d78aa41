-- ===== src/LirOptimize/Shadowed.antt =====
-- sbc/lir_optimize.ts: `eliminatePushPopShadowed`, which joins a `push` with a later `pop` when nothing
-- between them touches the stack or carries a label.
use h4_projekt_gruppe_0_sm.Prelude.{
  ℕ, zero, suc, ◌+◌, ◌-◌, Bool, false, not, List, [], ◌∷◌, ◌++◌, Option, none, some, ◌==◌,
  if◌then◌else◌, get_elem?, take, drop, splice, Result, ok, ◌>>=◌, expect,
}
use h4_projekt_gruppe_0_sm.Lir.{Reg, Ins, push, pop, kill, Line}
use h4_projekt_gruppe_0_sm.LirOptimize.Replace.{replace_reg, pollutes_stack}
use h4_projekt_gruppe_0_sm.LirOptimize.Windows.{unlabelled, rewrite_reversed}

abbrev pub push_reg : Ins → Option Reg
push_reg (push reg) = some reg
push_reg _ = none

abbrev pub pop_reg : Ins → Option Reg
pop_reg (pop reg) = some reg
pop_reg _ = none

abbrev pub kills : Reg → Ins → Bool
kills reg (kill k) = k == reg
kills reg _ = false

-- The inner loop, over the lines from index `j` on: the index of the `pop` that the `push` before
-- them may be joined with.
unfoldable pub find_pop : ℕ → List Line → Option ℕ
unfolding pollutes_stack
find_pop j [] = none
find_pop j (line ∷ rest) =
    let later = find_pop (suc j) rest in
    if not (unlabelled line) then none else elim (pop_reg line.ins) [
      | some _ ↦ some j
      | none ↦ if pollutes_stack line.ins then none else later
    ]

-- The outer loop, from index `i` on.
unfoldable pub shadowed_candidates : ℕ → List Line → List (ℕ × ℕ)
unfolding find_pop
shadowed_candidates i [] = []
shadowed_candidates i (line ∷ rest) =
    let later = shadowed_candidates (suc i) rest in
    elim (push_reg line.ins) [
      | none ↦ later
      | some _ ↦ elim (find_pop (suc i) rest) [ none ↦ later | some j ↦ (i, j) ∷ later ]
    ]

-- `for (let i = pushIdx + 1; i <= popIdx - 1; ++i)`: of the next `count` lines, the first that kills
-- `reg` is taken out.
unfoldable pub remove_kill : ℕ → Reg → List Line → List Line
remove_kill zero reg lines = lines
remove_kill (suc count) reg [] = []
remove_kill (suc count) reg (line ∷ rest) =
    let later = remove_kill count reg rest in if kills reg line.ins then rest else line ∷ later

abbrev pub reg_at : (Ins → Option Reg) → List Line → ℕ → Result Reg
reg_at tag lines i = expect "" (elim (get_elem? lines i) [ none ↦ none | some line ↦ tag line.ins ])

-- The body of the second loop of `eliminatePushPopShadowed`.
unfoldable pub rewrite_shadowed : List Line → ℕ × ℕ → Result (List Line)
unfolding remove_kill replace_reg
rewrite_shadowed lines (push_idx, pop_idx) = do
  replacement ← reg_at push_reg lines push_idx
  to_remove ← reg_at pop_reg lines pop_idx
  let popped = splice lines pop_idx 1
  let between = drop (push_idx + 1) popped
  let killed =
      take (push_idx + 1) popped ++ remove_kill (pop_idx - (push_idx + 1)) replacement between
  ok (replace_reg to_remove replacement (splice killed push_idx 1))

unfoldable pub eliminate_push_pop_shadowed : List Line → Result (List Line)
unfolding shadowed_candidates rewrite_reversed rewrite_shadowed
eliminate_push_pop_shadowed lines =
    rewrite_reversed rewrite_shadowed (shadowed_candidates 0 lines) lines
