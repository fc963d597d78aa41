-- ===== src/LirOptimize.antt =====
-- sbc/lir_optimize.ts: the four peephole passes over the lines of a function, and the loop that
-- repeats them until the size of the program has been seen before.
pub mod Replace
pub mod Windows
pub mod Shadowed
pub mod PushPop
pub mod Termination
use h4_projekt_gruppe_0_sm.Prelude.{
  ℕ, zero, suc, ◌+◌, List, [], ◌∷◌, Option, none, some, if◌then◌else◌, length, contains, Result, ok,
  err, ◌>>=◌,
}
use h4_projekt_gruppe_0_sm.Lir.{Line, Fn}
use Windows.{eliminate_push_pop, eliminate_mov_fn_call, eliminate_mov_int_store_reg}
use Shadowed.{eliminate_push_pop_shadowed}

-- The body of the loop over `program.fns`.
unfoldable pub optimize_lines : List Line → Result (List Line)
optimize_lines lines =
    eliminate_push_pop lines
    >>= eliminate_mov_fn_call
    >>= eliminate_mov_int_store_reg
    >>= eliminate_push_pop_shadowed

unfoldable pub optimize_fns : List Fn → Result (List Fn)
unfolding optimize_lines
optimize_fns [] = ok []
optimize_fns (fn ∷ fns) = optimize_lines fn.lines >>= λ lines.
    optimize_fns fns >>= λ rest. ok (record fn { lines = lines } ∷ rest)

-- `program.fns.reduce((acc, fn) => acc + fn.lines.length, 0)`
unfoldable pub program_size : List Fn → ℕ
program_size [] = 0
program_size (fn ∷ fns) = length fn.lines + program_size fns

-- The `while` loop, on fuel: `none` is a loop that has not ended yet. `size_history` is the set, the
-- last size first.
unfoldable pub optimize_loop : ℕ → List ℕ → List Fn → Option (Result (List Fn))
optimize_loop zero size_history fns = none
optimize_loop (suc fuel) size_history fns = elim (optimize_fns fns) [
  | err message ↦ some (err message)
  | ok fns' ↦
      let again = optimize_loop fuel (program_size fns' ∷ size_history) fns' in
      if contains size_history (program_size fns') then some (ok fns') else again
]

unfoldable pub optimize_lir : ℕ → List Fn → Option (Result (List Fn))
unfolding optimize_loop
optimize_lir fuel fns = optimize_loop fuel (program_size fns ∷ []) fns
