-- ===== src/Tests.antt =====
-- A target whose words are numbers, and runs of the code at concrete inputs.
mod FrontEnd
mod Programs
mod Lexing
mod Scopes
mod Passes
mod Assembly
use h4_projekt_gruppe_0_sm.Prelude.{
  ℕ, false, zero, suc, ◌>>=◌, eq_of_some, ◌+◌, ◌-◌, ◌*◌, ◌/◌, ◌%◌, ltb, ◌≤◌, ◌==◌, List, [], ◌∷◌,
  ◌++◌, if◌then◌else◌, none, some, length, ◌≡◌, refl, arith, Result, ok, err,
}
use h4_projekt_gruppe_0_sm.Ast as Ast
use h4_projekt_gruppe_0_sm.Ast.{Expr, mk_expr, ExprKind, Stmt, mk_stmt}
use h4_projekt_gruppe_0_sm.Ty as Ty
use h4_projekt_gruppe_0_sm.Mir as Mir
use h4_projekt_gruppe_0_sm.Mir.{BinaryOp, StmtKind, Local}
use h4_projekt_gruppe_0_sm.Lir.{
  Reg, Ins, mov_int, mov_fn, push, pop, store_reg, call_reg, ret, Line, Fn,
}
use h4_projekt_gruppe_0_sm.Machine.Target.{Target}
use h4_projekt_gruppe_0_sm.Machine.Registers.{State, exec, jumped}
use h4_projekt_gruppe_0_sm.Machine.Simulation.{Refines, slots_of}
use h4_projekt_gruppe_0_sm.Machine.Region.{operands}
use h4_projekt_gruppe_0_sm.Machine.Stack.{Meaning, Frame, steps}
use h4_projekt_gruppe_0_sm.Machine.Graph.{run}
use h4_projekt_gruppe_0_sm.Front.Syms.{Syms, val, define_val, val-define_val}
use h4_projekt_gruppe_0_sm.Front.Types.{resolve_tys, is_resolvable, resolve_tys_self}
use h4_projekt_gruppe_0_sm.Front.{Resolve, Resols, Checker}
use h4_projekt_gruppe_0_sm.MirGen.FnMirGen.{FnMirGen, push_stmt}
use h4_projekt_gruppe_0_sm.MirGen.Statements.{generate, store_expr}
use h4_projekt_gruppe_0_sm.MirGen.Complete.{IsComplete, generate-IsComplete}
use h4_projekt_gruppe_0_sm.MirGen.Code.{extended, Pushes}
use h4_projekt_gruppe_0_sm.MirGen.Correct.{lower_expr-Pushes}
use h4_projekt_gruppe_0_sm.MirGen.Expressions.{lower_expr}
use h4_projekt_gruppe_0_sm.MirGen.Meaning.{eval, eval_op}
use h4_projekt_gruppe_0_sm.MirOptimize.{eliminate_unreachable}
use h4_projekt_gruppe_0_sm.MirOptimize.Unreachable.{eliminate_unreachable-run}
use h4_projekt_gruppe_0_sm.LirGen.Strings.{empty, intern}
use h4_projekt_gruppe_0_sm.LirGen.Interning.{intern_lem, IsInterned, empty-IsNumbered}
use h4_projekt_gruppe_0_sm.LirGen.FnGen.{FnGen, lower_stmts}
use h4_projekt_gruppe_0_sm.LirGen.Sequences.{IsLoweredTo, lower_stmts-simulates}
use h4_projekt_gruppe_0_sm.LirOptimize.{optimize_lir, program_size}
use h4_projekt_gruppe_0_sm.LirOptimize.Replace.{replace_reg}
use h4_projekt_gruppe_0_sm.LirOptimize.Termination.{optimize_lir-returns}
use h4_projekt_gruppe_0_sm.LirOptimize.Windows.{
  rewrite_push_pop, fits_mov_int_store, fits_mov_fn_call, eliminate_mov_int_store_reg,
  eliminate_mov_fn_call,
}
use h4_projekt_gruppe_0_sm.LirOptimize.Windows.Fusion.{fuse}
use h4_projekt_gruppe_0_sm.LirOptimize.Windows.StoreImm.{
  stored, eliminate_mov_int_store_reg-fuse, eliminate_mov_int_store_reg-Refines,
}
use h4_projekt_gruppe_0_sm.LirOptimize.Windows.CallImm.{
  called_directly, eliminate_mov_fn_call-fuse, eliminate_mov_fn_call-Refines,
}
use h4_projekt_gruppe_0_sm.LirOptimize.PushPop.{
  bare_line, shuffle, rewrite_push_pop-Refines, rewrite_push_pop-labels_lost,
  rewrite_push_pop-last_throws,
}
use h4_projekt_gruppe_0_sm.AsmGen.Asm.{rax, rdi, rsi, pos, negsuc}
use h4_projekt_gruppe_0_sm.AsmGen.Layout.{StackAllocator, offset, finalize}
use h4_projekt_gruppe_0_sm.AsmGen.Slots.{total, finalize-local, finalize-param}
use h4_projekt_gruppe_0_sm.AsmGen.Registers.{AsmGen, alloc_reg}
use h4_projekt_gruppe_0_sm.AsmGen.Registers as Registers
use h4_projekt_gruppe_0_sm.AsmGen.Selection.{
  IsStacked, alloc_reg-IsStacked, kill-IsStacked, alloc_reg-shared,
}

abbrev numbers : Target
numbers = record {
  Word = ℕ;
  World = Unit {0};
  int = λ val. val;
  string = λ id. id;
  fn = λ id. id;
  is_zero = λ w. w == 0;
  less = λ a b. some (if ltb a b then 1 else 0);
  greater = λ a b. some (if ltb b a then 1 else 0);
  at_most = λ a b. some (if ltb b a then 0 else 1);
  at_least = λ a b. some (if ltb a b then 0 else 1);
  equal = λ a b. some (if a == b then 1 else 0);
  unequal = λ a b. some (if a == b then 0 else 1);
  sum = λ a b. some (a + b);
  difference = λ a b. some (a - b);
  product = λ a b. some (a * b);
  quotient = λ a b. if b == 0 then none else some (a / b);
  remainder = λ a b. if b == 0 then none else some (a % b);
  call = λ f args world. some (length args, world);
}

abbrev meaning : Meaning numbers
meaning = record { text = λ text. 0; code = λ stmt. 0 }

abbrev frame : Frame numbers
frame = record { locals = λ id. some 0; stack = []; world = tt }

abbrev pub state : State numbers
state = record { regs = λ reg. none; slots = λ reg. some 0; stack = []; world = tt }

-- a line without labels
abbrev pub bare : Ins → Line
bare ins = record { labels = []; ins = ins }

abbrev resols : Resols
resols = record { stmt_resols = []; expr_resols = [] }

-- a checker for which all is an `int`
abbrev checker : Checker
checker = record {
  fn_stmt_ty = λ stmt. ok Ty.Ty.int;
  param_ty = λ stmt i. ok Ty.Ty.int;
  let_stmt_ty = λ stmt. ok Ty.Ty.int;
  expr_ty = λ expr. ok Ty.Ty.int;
}

-- `7 - 2`
abbrev seven_minus_two : Expr
seven_minus_two =
    mk_expr 0 1 (
      ExprKind.binary Ast.BinaryOp.sub (mk_expr 1 1 (ExprKind.int 7))
        (mk_expr 2 1 (ExprKind.int 2)))

-- an empty block that is the current one
abbrev fresh_gen : FnMirGen
fresh_gen = record {
  local_ids = 0;
  locals = [];
  param_locals = [];
  let_locals = [];
  block_ids = 1;
  blocks = record { id = 0; stmts = []; ter = Mir.TerKind.unset } ∷ [];
  return_block = 0;
  current_block = 0;
  loop_exit_blocks = [];
}

abbrev minus_code : List StmtKind
minus_code =
    StmtKind.push (Mir.Val.int 7) Ty.Ty.int
    ∷ StmtKind.push (Mir.Val.int 2) Ty.Ty.int
    ∷ StmtKind.binary BinaryOp.sub
    ∷ []

lower_expr-Pushes_example :
    (code : List StmtKind) × (extended minus_code fresh_gen ≡ extended code fresh_gen)
    × Pushes meaning code frame (5 ∷ []) tt
unfolding push_stmt
lower_expr-Pushes_example =
    lower_expr-Pushes meaning resols checker seven_minus_two fresh_gen
      (extended minus_code fresh_gen) frame 5 tt (unfold lower_expr in refl)
      (unfold eval eval_op in refl)

abbrev local : Local
local = record { id = 0; ty = Ty.Ty.int; ident = none }

abbrev assignment : List StmtKind
assignment = StmtKind.push (Mir.Val.int 2) Ty.Ty.int ∷ StmtKind.store local ∷ []

abbrev slot_gen : FnGen
slot_gen = record {
  reg_ids = 1;
  label_ids = 1;
  block_labels = [];
  current_labels = [];
  local_regs = (0, 0) ∷ [];
  lines = [];
  strings = empty;
  stmt_fns = [];
}

abbrev assigned_gen : FnGen
assigned_gen = record slot_gen {
  reg_ids = 3;
  lines =
      bare (mov_int 1 2)
      ∷ bare (push 1)
      ∷ bare (Ins.kill 1)
      ∷ bare (pop 2)
      ∷ bare (store_reg 0 2)
      ∷ bare (Ins.kill 2)
      ∷ [];
}

lower_stmts-simulates_example :
    IsLoweredTo meaning slot_gen assigned_gen state
      (record frame { locals = λ x. if 0 == x then some 2 else some 0 })
unfolding empty
lower_stmts-simulates_example =
    lower_stmts-simulates meaning assignment slot_gen assigned_gen state frame
      (record frame { locals = λ x. if 0 == x then some 2 else some 0 })
      (unfold lower_stmts in refl) empty-IsNumbered
      (record { texts = λ id v h. cc; codes = λ stmt id h. cc }) (λ i j reg h k. ground arith)
      (record { slots = λ id reg h. refl; stacks = refl; worlds = refl }) (unfold steps in refl)

intern_lem_example : IsInterned "a" empty (intern "a" empty)
intern_lem_example = intern_lem "a" empty empty-IsNumbered

-- a function with a block that nothing jumps to
abbrev pub mir_fn : Mir.Fn
mir_fn = record {
  stmt = mk_stmt 0 1 Ast.StmtKind.break;
  locals = [];
  param_locals = [];
  return_local = local;
  blocks =
      record { id = 0; stmts = assignment; ter = Mir.TerKind.goto 1 }
      ∷ record { id = 2; stmts = []; ter = Mir.TerKind.goto 1 }
      ∷ record { id = 1; stmts = []; ter = Mir.TerKind.return }
      ∷ [];
  entry = 0;
  exit = 1;
}

eliminate_unreachable-run_example :
    run meaning (eliminate_unreachable mir_fn).blocks 2 (eliminate_unreachable mir_fn).entry frame
    ≡ run meaning mir_fn.blocks 2 mir_fn.entry frame
eliminate_unreachable-run_example = eliminate_unreachable-run meaning mir_fn 2 frame

abbrev outer_let : Stmt
outer_let = mk_stmt 3 1 (Ast.StmtKind.let_ (record { ident = "x"; ty = none; expr = none }))

abbrev outer : Syms
outer =
    Syms.normal (("x", Resolve.let_ outer_let) ∷ ("f", Resolve.fn outer_let) ∷ []) (Syms.root [])

val-define_val_example :
    val (define_val "x" (Resolve.loop outer_let) (Syms.fn [] outer)) "x"
    ≡ some (Resolve.loop outer_let)
val-define_val_example = val-define_val (Syms.fn [] outer) "x" "x" (Resolve.loop outer_let)

resolve_tys_self_example : resolve_tys (Ty.Ty.ptr Ty.Ty.unknown) (Ty.Ty.ptr Ty.Ty.unknown) ≡ none
unfolding is_resolvable
resolve_tys_self_example = resolve_tys_self (Ty.Ty.ptr Ty.Ty.unknown)

-- the value of a result, or another one
abbrev ok_or {ℓ} : {A : Type ℓ} → A → Result A → A
ok_or other (ok value) = value
ok_or other (err message) = other

-- `{ while 2 { return 3; } }`
abbrev looping : Ast.Block
looping = Ast.mk_block 0 1 3 (
    Ast.Stmts.cons
      (mk_stmt 4 1 (
        Ast.StmtKind.while (mk_expr 1 1 (ExprKind.int 2)) (
          Ast.mk_block 1 1 3 (
            Ast.Stmts.cons (mk_stmt 5 2 (Ast.StmtKind.return (some (mk_expr 2 1 (ExprKind.int 3)))))
              Ast.Stmts.nil))))
      Ast.Stmts.nil)

abbrev fn_checker : Checker
fn_checker = record checker { fn_stmt_ty = λ stmt. ok (Ty.Ty.fn stmt Ty.Tys.nil Ty.Ty.int) }

abbrev generated : Mir.Fn
unfolding generate
generated = ok_or mir_fn (generate resols fn_checker outer_let [] looping)

generate-IsComplete_example : IsComplete generated
unfolding lower_expr store_expr
generate-IsComplete_example =
    generate-IsComplete resols fn_checker outer_let [] looping generated (unfold generate in refl)
