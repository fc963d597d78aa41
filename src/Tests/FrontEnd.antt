-- ===== src/Tests/FrontEnd.antt =====
-- Small programs under the front end of sbc/front.ts.
use h4_projekt_gruppe_0_sm.Prelude.{
  ℕ, ◌<◌, arith, List, [], ◌∷◌, ◌++◌, none, ◌≡◌, ◌≢◌, refl, ok, some, map_has, contains,
}
use h4_projekt_gruppe_0_sm.Prelude.Fueled.{done, out_of_fuel}
use h4_projekt_gruppe_0_sm.Ast.{
  BinaryOp, Expr, mk_expr, ExprKind, Exprs, Stmt, mk_stmt, StmtKind, Stmts, mk_block, mk_ty, TyKind,
  Param,
}
use h4_projekt_gruppe_0_sm.Ty as Ty
use h4_projekt_gruppe_0_sm.Front.{Resolve, Resols}
use h4_projekt_gruppe_0_sm.Front.Resolver.{
  Resolver, resolve, resolve_stmt, new_resolver, resolve_expr, push_loop, define_params,
  resolve_break, pop_loop, define,
}
use h4_projekt_gruppe_0_sm.Front.Syms.{Syms, StrMap, str_get, val}
use h4_projekt_gruppe_0_sm.Front.Resolver.Breaks.{set_all, breaks_each, breaks_fns, resolve-breaks}
use h4_projekt_gruppe_0_sm.Front.Resolver.Names.{idents_each, idents_fns, resolve-idents}
use h4_projekt_gruppe_0_sm.Front.Resolver.Bodies.{blocks, param_named, val-define_params_fn}
use h4_projekt_gruppe_0_sm.Front.Checking.{
  Memo, new_memo, let_stmt_ty, expr_ty, expr_kind_ty, remember_expr,
}
use h4_projekt_gruppe_0_sm.Front.Checking.Answers.{expr, ask, ask_all, ask-ask_all}
use h4_projekt_gruppe_0_sm.Front.Checking.Endless.{self_let, resols, let_stmt_ty-resolve_stmt}
use h4_projekt_gruppe_0_sm.Front.Parser.{Tok, Parser, new_parser}
use h4_projekt_gruppe_0_sm.Front.Parser.Exprs.{parse_expr}
use h4_projekt_gruppe_0_sm.Front.Parser.Printing.{sign, expr_toks, erase, IsPrintable}
use h4_projekt_gruppe_0_sm.Front.Parser.Progress.{left}
use h4_projekt_gruppe_0_sm.Front.Parser.RoundTrip.Expressions.{parse_expr-expr_toks}
use h4_projekt_gruppe_0_sm.Front.Parser.Stmts.{parse}
use h4_projekt_gruppe_0_sm.Front.Parser.Progress.Blocks.{parse_ends}

-- `fn f(x: int) -> int { loop { x; break; } }`
abbrev x_param : Param
x_param = record { ident = "x"; line = 1; ty = mk_ty 0 1 (TyKind.ident "int") }

abbrev x_loop : Stmt
x_loop = mk_stmt 2 2 (
    StmtKind.loop (
      mk_block 0 2 5 (
        Stmts.cons (mk_stmt 0 3 (StmtKind.expr (mk_expr 0 3 (ExprKind.ident "x"))))
          (Stmts.cons (mk_stmt 1 4 StmtKind.break) Stmts.nil))))

abbrev x_fn : Stmt
x_fn = mk_stmt 3 1 (
    StmtKind.fn "f" [] (x_param ∷ []) (mk_ty 1 1 (TyKind.ident "int"))
      (mk_block 1 1 6 (Stmts.cons x_loop Stmts.nil)))

abbrev x_program : Stmts
x_program = Stmts.cons x_fn Stmts.nil

abbrev x_resols : Resols
x_resols = record {
  stmt_resols = (1, Resolve.loop x_loop) ∷ [];
  expr_resols = (0, Resolve.param x_fn x_param 0) ∷ [];
}

x_program_resolves : resolve x_program ≡ ok x_resols
unfolding resolve resolve_expr val push_loop define_params resolve_break pop_loop define
x_program_resolves = refl

resolve-breaks_example :
    x_resols.stmt_resols ≡ set_all [] (breaks_each none x_program ++ breaks_fns x_program)
resolve-breaks_example = resolve-breaks x_program x_resols x_program_resolves

resolve-idents_example :
    map_has x_resols.expr_resols 0 ≡ contains (idents_each x_program ++ idents_fns x_program) 0
resolve-idents_example = resolve-idents x_program x_resols 0 x_program_resolves

-- `#[a(nowhere)] fn f() -> int {}`: the argument of the attribute is not resolved.
abbrev marked_fn : Stmt
marked_fn = mk_stmt 3 1 (
    StmtKind.fn "f"
      (record { ident = "a"; args = Exprs.cons (mk_expr 0 1 (ExprKind.ident "nowhere")) Exprs.nil }
        ∷ [])
      [] (mk_ty 1 1 (TyKind.ident "int")) (mk_block 1 1 6 Stmts.nil))

marked_resolves :
    resolve (Stmts.cons marked_fn Stmts.nil) ≡ ok (record { stmt_resols = []; expr_resols = [] })
unfolding resolve resolve_expr define_params define
marked_resolves = refl

-- A block that defines `y`, in a function with two parameters `x`, where `z` is a `let` outside.
abbrev y_table : StrMap
y_table = ("y", Resolve.let_ x_loop) ∷ []

abbrev z_outside : Syms
z_outside = Syms.root (("z", Resolve.let_ x_loop) ∷ ("f", Resolve.fn x_fn) ∷ [])

abbrev y_block : Syms
unfolding define_params
y_block =
    blocks (y_table ∷ []) (define_params x_fn 0 (x_param ∷ x_param ∷ []) (Syms.fn [] z_outside))

val-define_params_fn_example : val y_block "x" ≡ some (Resolve.param x_fn x_param 1)
unfolding define_params param_named str_get
val-define_params_fn_example =
    val-define_params_fn (y_table ∷ []) x_fn (x_param ∷ x_param ∷ []) z_outside "x"

-- Each kind of name.
y_block_names :
    (val y_block "y" ≡ some (Resolve.let_ x_loop))
    × (val y_block "z" ≡ none)
    × (val y_block "f" ≡ some (Resolve.fn x_fn))
unfolding define_params val str_get
y_block_names = (refl, refl, refl)

-- The literals 7 and "a".
abbrev seven : Expr
seven = mk_expr 0 1 (ExprKind.int 7)

abbrev letter : Expr
letter = mk_expr 1 1 (ExprKind.str "a")

abbrev seven_memo : Memo
seven_memo = record { stmt_tys = []; expr_tys = (0, Ty.int) ∷ []; ty_tys = [] }

abbrev both_memo : Memo
both_memo = record { stmt_tys = []; expr_tys = (0, Ty.int) ∷ (1, Ty.ptr Ty.str) ∷ []; ty_tys = [] }

seven_asked : ask x_resols 1 (expr seven) new_memo ≡ done (Ty.int, seven_memo)
unfolding ask expr_ty new_memo expr_kind_ty remember_expr
seven_asked = refl

letter_asked : ask_all x_resols 1 (expr letter ∷ []) seven_memo ≡ done both_memo
unfolding ask_all ask expr_ty expr_kind_ty remember_expr
letter_asked = refl

ask-ask_all_example : ask x_resols 1 (expr seven) both_memo ≡ done (Ty.int, both_memo)
ask-ask_all_example =
    ask-ask_all x_resols 1 1 0 (expr seven) (expr letter ∷ []) new_memo seven_memo both_memo Ty.int
      seven_asked letter_asked

let_stmt_ty-resolve_stmt_example :
    (r' : Resolver) × (resolve_stmt (self_let 0 1 0 "x") new_resolver ≡ ok r')
    × ((fuel : ℕ) → let_stmt_ty (resols r') fuel (self_let 0 1 0 "x") new_memo ≡ out_of_fuel)
unfolding new_memo
let_stmt_ty-resolve_stmt_example =
    let_stmt_ty-resolve_stmt new_resolver 0 1 0 "x" new_memo refl refl

-- `break;`
abbrev break_toks : List Tok
break_toks =
    record { type = "break"; line = 1; int_val = none; string_val = none; ident_val = none }
    ∷ record { type = ";"; line = 1; int_val = none; string_val = none; ident_val = none }
    ∷ []

break_parsed : parse break_toks ≡ done (Stmts.cons (mk_stmt 0 1 StmtKind.break) Stmts.nil)
unfolding parse
break_parsed = refl

parse_ends_example : parse break_toks ≢ out_of_fuel
parse_ends_example = parse_ends break_toks

-- `1 + 2 * 3`, before a `;`
abbrev sum_of_product : Expr
sum_of_product = mk_expr 4 1 (
    ExprKind.binary BinaryOp.add (mk_expr 0 1 (ExprKind.int 1)) (
      mk_expr 3 1 (
        ExprKind.binary BinaryOp.mul (mk_expr 1 1 (ExprKind.int 2))
          (mk_expr 2 1 (ExprKind.int 3)))))

abbrev semicolon : List Tok
semicolon = sign ";" 1 ∷ []

sum_of_product-IsPrintable : IsPrintable sum_of_product
unfolding IsPrintable
sum_of_product-IsPrintable = (omega arith, omega arith, tt, (omega arith, omega arith, tt, tt))

sum_of_product_fuel : left (new_parser (expr_toks sum_of_product semicolon)) < 7
unfolding expr_toks new_parser
sum_of_product_fuel = omega arith

sum_of_product_toks :
    (new_parser (expr_toks sum_of_product semicolon)).toks ≡ expr_toks sum_of_product semicolon
unfolding new_parser
sum_of_product_toks = refl

parse_expr-expr_toks_example :
    (result : Expr) × (after : Parser) × (parse_expr 7
        (new_parser (expr_toks sum_of_product semicolon))
      ≡ done (result, after))
    × (erase result ≡ erase sum_of_product)
    × (after.toks ≡ semicolon)
parse_expr-expr_toks_example =
    parse_expr-expr_toks sum_of_product 7 semicolon
      (new_parser (expr_toks sum_of_product semicolon)) sum_of_product-IsPrintable
      sum_of_product_toks (record { no_call = refl; no_op = refl }) sum_of_product_fuel
