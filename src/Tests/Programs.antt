-- ===== src/Tests/Programs.antt =====
-- A program of one function under `LirGen` of sbc/lir_gen.ts.
use h4_projekt_gruppe_0_sm.Prelude.{true, [], map, some, ◌≡◌, refl, Result, ok, err}
use h4_projekt_gruppe_0_sm.Ast.{
  mk_expr, ExprKind, Stmt, mk_stmt, StmtKind, Stmts, mk_block, mk_ty, TyKind,
}
use h4_projekt_gruppe_0_sm.Ty as Ty
use h4_projekt_gruppe_0_sm.Lir as Lir
use h4_projekt_gruppe_0_sm.Front.{Checker}
use h4_projekt_gruppe_0_sm.MirGen.Statements as Statements
use h4_projekt_gruppe_0_sm.MirGen.Statements.{store_expr, leave_to}
use h4_projekt_gruppe_0_sm.LirGen.FnGen as FnGen
use h4_projekt_gruppe_0_sm.LirGen.Programs.{generate}
use h4_projekt_gruppe_0_sm.LirGen.Programs.Order.{outline, outlines, generate-outlines}

-- `fn main() -> int { return 3; }`
abbrev main_fn : Stmt
main_fn = mk_stmt 1 1 (
    StmtKind.fn "main" [] [] (mk_ty 0 1 (TyKind.ident "int")) (
      mk_block 0 1 1 (
        Stmts.cons (mk_stmt 0 1 (StmtKind.return (some (mk_expr 0 1 (ExprKind.int 3)))))
          Stmts.nil)))

abbrev main_program : Stmts
main_program = Stmts.cons main_fn Stmts.nil

abbrev main_checker : Checker
main_checker = record {
  fn_stmt_ty = λ stmt. ok (Ty.fn stmt Ty.nil Ty.int);
  param_ty = λ stmt i. err "";
  let_stmt_ty = λ stmt. err "";
  expr_ty = λ expr. ok Ty.int;
}

abbrev ok_or {ℓ} : {A : Type ℓ} → A → Result A → A
ok_or other (ok value) = value
ok_or other (err message) = other

abbrev main_lir : Lir.Program
unfolding generate
main_lir =
    ok_or (record { strings = []; fns = [] })
      (generate (record { stmt_resols = []; expr_resols = [] }) main_checker true 5 (λ mir. 2)
        main_program)

main_lir_generated :
    generate
      (record { stmt_resols = []; expr_resols = [] })
      main_checker
      true
      5
      (λ mir. 2)
      main_program
    ≡ ok main_lir
unfolding generate Statements.generate store_expr leave_to FnGen.generate
main_lir_generated = refl

generate-outlines_example : map outline main_lir.fns ≡ outlines 0 main_program
generate-outlines_example =
    generate-outlines (record { stmt_resols = []; expr_resols = [] }) main_checker true 5 (λ mir. 2)
      main_program main_lir main_lir_generated
