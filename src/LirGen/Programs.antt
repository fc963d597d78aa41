-- ===== src/LirGen/Programs.antt =====
-- `LirGen` of sbc/lir_gen.ts: the functions of a program, each numbered and lowered. The map `fns`, whose keys
-- are the numbers from 0 on, is the list of its values. `optimizeMirFn` is on fuel, and its use of none is an
-- error.
pub mod Order
use h4_projekt_gruppe_0_sm.Prelude.{
  ℕ, suc, String, Bool, false, List, [], ◌∷◌, ◌++◌, if◌then◌else◌, NumMap, map_set, Result, ok, err,
  ◌>>=◌, expect, str_eq,
}
use Prim.Native.String.{◌++◌ as text_append}
use h4_projekt_gruppe_0_sm.Ast.{Attr, Stmt, mk_stmt, StmtKind, Stmts}
use h4_projekt_gruppe_0_sm.Ast as Ast
use h4_projekt_gruppe_0_sm.Front.{Resols, Checker}
use h4_projekt_gruppe_0_sm.Mir as Mir
use h4_projekt_gruppe_0_sm.Lir as Lir
use h4_projekt_gruppe_0_sm.MirGen.Statements as MirGen
use h4_projekt_gruppe_0_sm.MirOptimize.{optimize_mir_fn}
use h4_projekt_gruppe_0_sm.LirGen.Strings.{StringIntern, empty}
use h4_projekt_gruppe_0_sm.LirGen.FnGen as FnGen
use h4_projekt_gruppe_0_sm.LirGen.FnGen.{new_gen}

pub record LirGen : Type 0 where
  pub strings : StringIntern
  pub fn_ids : ℕ
  pub fns : List Lir.Fn
  pub stmt_fns : NumMap ℕ

unfoldable pub new_lir_gen : LirGen
unfolding empty
new_lir_gen = record { strings = empty; fn_ids = 0; fns = []; stmt_fns = [] }

abbrev pub fn_label : String → String
fn_label ident = text_append "sbc__" ident

-- `this.fns.set(id, fn)` and `this.stmtFns.set(stmt.id, fn)`, for a function of its own number
unfoldable pub add_fn : String → Stmt → Mir.Fn → LirGen → LirGen
add_fn ident stmt mir gen = record gen {
  fn_ids = suc gen.fn_ids;
  fns =
      gen.fns
      ++ (record { id = gen.fn_ids; label = fn_label ident; mir = mir; lines = []; local_regs = [] }
          ∷ []);
  stmt_fns = map_set gen.stmt_fns (Ast.stmt_id stmt) gen.fn_ids;
}

-- `attrs.at(0)?.ident === "c_function"`
abbrev pub is_c_function : List Attr → Bool
is_c_function [] = false
is_c_function (attr ∷ attrs) = str_eq attr.ident "c_function"

-- The body of the second loop of `generate`.
unfoldable pub fill_fn : Lir.Fn → StringIntern → NumMap ℕ → Result (Lir.Fn × StringIntern)
unfolding new_gen
fill_fn fn strings stmt_fns = elim fn.mir.stmt [
  | mk_stmt id line kind ↦ elim kind [
    | StmtKind.fn ident attrs params ty body ↦
        if is_c_function attrs
        then ok (fn, strings)
        else (FnGen.generate fn.mir (new_gen strings stmt_fns) >>= λ gen.
            ok (record fn { lines = gen.lines; local_regs = gen.local_regs }, gen.strings))
    | _ ↦ err ""
  ]
]

unfoldable pub fill_fns :
    List Lir.Fn → StringIntern → NumMap ℕ → Result (List Lir.Fn × StringIntern)
unfolding fill_fn
fill_fns [] strings stmt_fns = ok ([], strings)
fill_fns (fn ∷ fns) strings stmt_fns = fill_fn fn strings stmt_fns >>= λ (filled, strings₁).
    fill_fns fns strings₁ stmt_fns >>= λ (rest, strings₂). ok (filled ∷ rest, strings₂)

module _ (re : Resols) (ch : Checker) (optimize : Bool) (fuel : ℕ) (block_size : Mir.Fn → ℕ) where
  -- `if (this.opts.optimize !== false) { optimizeMirFn(mir); }`
  unfoldable pub optimized : Mir.Fn → Result Mir.Fn
  unfolding optimize_mir_fn
  optimized mir = if optimize then expect "" (optimize_mir_fn fuel (block_size mir) mir) else ok mir

  -- The first loop of `generate`.
  unfoldable pub add_stmts : Stmts → LirGen → Result LirGen
  unfolding optimized add_fn
  add_stmts Stmts.nil gen = ok gen
  add_stmts (Stmts.cons (mk_stmt id line (StmtKind.fn ident attrs params ty body)) stmts) gen =
      MirGen.generate re ch (mk_stmt id line (StmtKind.fn ident attrs params ty body)) params body
      >>= λ mir. optimized mir >>= λ mir'.
          add_stmts stmts
            (add_fn ident (mk_stmt id line (StmtKind.fn ident attrs params ty body)) mir' gen)
  add_stmts (Stmts.cons (mk_stmt id line _) stmts) gen = err "only functions can compile top level"

  unfoldable pub generate : Stmts → Result Lir.Program
  unfolding new_lir_gen add_stmts fill_fns
  generate ast = add_stmts ast new_lir_gen >>= λ gen.
      fill_fns gen.fns gen.strings gen.stmt_fns >>= λ (fns, strings).
      ok (record { strings = strings.strings; fns = fns })
