-- ===== src/Tests/Passes.antt =====
-- Short functions under the passes of sbc/lir_optimize.ts.
use h4_projekt_gruppe_0_sm.Prelude.{List, [], ◌∷◌, ◌++◌, some, ◌≡◌, arith, Result, ok, err}
use h4_projekt_gruppe_0_sm.Lir.{Ins, mov_int, mov_fn, push, pop, store_reg, call_reg, ret, Line, Fn}
use h4_projekt_gruppe_0_sm.Machine.Registers.{exec, jumped}
use h4_projekt_gruppe_0_sm.Machine.Simulation.{Refines, slots_of}
use h4_projekt_gruppe_0_sm.Machine.Region.{operands}
use h4_projekt_gruppe_0_sm.LirOptimize.{optimize_lir, program_size}
use h4_projekt_gruppe_0_sm.LirOptimize.Replace.{replace_reg}
use h4_projekt_gruppe_0_sm.LirOptimize.Termination.{optimize_lir-returns}
use h4_projekt_gruppe_0_sm.LirOptimize.Windows.{
  rewrite_push_pop, fits_mov_int_store, fits_mov_fn_call, eliminate_mov_int_store_reg,
  eliminate_mov_fn_call,
}
use h4_projekt_gruppe_0_sm.LirOptimize.Windows.Fusion.{fuse}
use h4_projekt_gruppe_0_sm.LirOptimize.Windows.StoreImm.{
  stored, eliminate_mov_int_store_reg-fuse, eliminate_mov_int_store_reg-Refines,
}
use h4_projekt_gruppe_0_sm.LirOptimize.Windows.CallImm.{
  called_directly, eliminate_mov_fn_call-fuse, eliminate_mov_fn_call-Refines,
}
use h4_projekt_gruppe_0_sm.LirOptimize.PushPop.{
  bare_line, shuffle, rewrite_push_pop-Refines, rewrite_push_pop-labels_lost,
  rewrite_push_pop-last_throws,
}
use h4_projekt_gruppe_0_sm.Tests.{bare, mir_fn, state}

abbrev program : List Fn
program = record { id = 0; label = "f"; mir = mir_fn; lines = bare ret ∷ []; local_regs = [] } ∷ []

optimize_lir-returns_example : (r : Result (List Fn)) × (optimize_lir 2 program ≡ some r)
unfolding program_size
optimize_lir-returns_example = optimize_lir-returns 2 program (omega arith)

rewrite_push_pop-Refines_example :
    (lines' : List Line) × (rewrite_push_pop
        (bare_line (mov_int 1 5) ∷ (shuffle 1 2 ++ (bare_line ret ∷ [])))
        1
      ≡ ok lines')
    × Refines
        (exec
          (bare_line (mov_int 1 5) ∷ (shuffle 1 2 ++ (bare_line ret ∷ [])))
          1
          (bare_line (mov_int 1 5) ∷ (shuffle 1 2 ++ (bare_line ret ∷ [])))
          (jumped state))
        (exec lines' 1 lines' (jumped state))
unfolding operands slots_of
rewrite_push_pop-Refines_example =
    rewrite_push_pop-Refines 1 2 (bare_line (mov_int 1 5) ∷ []) (bare_line ret ∷ []) 1 state
      (λ e. omega (arith, e)) ((((λ e. omega (arith, e)), tt), tt), tt) ((tt, tt), tt) (omega arith)

rewrite_push_pop-labels_lost_example :
    rewrite_push_pop
      (record { labels = 7 ∷ []; ins = push 1 }
        ∷ bare_line (Ins.kill 1)
        ∷ bare_line (pop 2)
        ∷ bare_line ret
        ∷ [])
      0
    ≡ ok (replace_reg 2 1 (bare_line ret ∷ []))
rewrite_push_pop-labels_lost_example =
    rewrite_push_pop-labels_lost 1 2 (7 ∷ []) [] (bare_line ret ∷ []) (omega arith)

rewrite_push_pop-last_throws_example :
    rewrite_push_pop
      (record { labels = 7 ∷ []; ins = push 1 } ∷ bare_line (Ins.kill 1) ∷ bare_line (pop 2) ∷ [])
      0
    ≡ err "cannot read properties of undefined (reading 'labels')"
rewrite_push_pop-last_throws_example = rewrite_push_pop-last_throws 1 2 (7 ∷ []) []

abbrev storing : List Line
storing =
    record { labels = 0 ∷ []; ins = mov_int 1 5 }
    ∷ bare (store_reg 0 1)
    ∷ bare (Ins.kill 1)
    ∷ bare ret
    ∷ []

eliminate_mov_int_store_reg-fuse_example :
    eliminate_mov_int_store_reg storing ≡ ok (fuse fits_mov_int_store stored storing)
eliminate_mov_int_store_reg-fuse_example = eliminate_mov_int_store_reg-fuse storing

eliminate_mov_int_store_reg-Refines_example :
    (lines' : List Line) × (eliminate_mov_int_store_reg storing ≡ ok lines')
    × Refines (exec storing 1 storing state) (exec lines' 1 lines' state)
eliminate_mov_int_store_reg-Refines_example = eliminate_mov_int_store_reg-Refines storing 1 state

abbrev calling : List Line
calling =
    record { labels = 0 ∷ []; ins = mov_fn 1 3 }
    ∷ bare (call_reg 1 0)
    ∷ bare (Ins.kill 1)
    ∷ bare ret
    ∷ []

eliminate_mov_fn_call-fuse_example :
    eliminate_mov_fn_call calling ≡ ok (fuse fits_mov_fn_call called_directly calling)
eliminate_mov_fn_call-fuse_example = eliminate_mov_fn_call-fuse calling

eliminate_mov_fn_call-Refines_example :
    (lines' : List Line) × (eliminate_mov_fn_call calling ≡ ok lines')
    × Refines (exec calling 1 calling state) (exec lines' 1 lines' state)
eliminate_mov_fn_call-Refines_example = eliminate_mov_fn_call-Refines calling 1 state
