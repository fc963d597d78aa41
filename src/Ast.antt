-- ===== src/Ast.antt =====
-- sbc/ast.ts: the syntax trees of the language. `Expr`, `Stmt`, `Block` and `Ty` are the source's
-- records of an id, a line and a kind. An optional field is an `Option`, but for the `falsy` block of
-- an `if`, which has a constructor for each case.
use h4_projekt_gruppe_0_sm.Prelude.{ℕ, suc, String, List, Option}

pub data BinaryOp : Type 0 where
  or xor and lt gt le ge eq ne add sub mul div mod_ : BinaryOp

mutual
  pub data Expr : Type 0 where
    mk_expr : ℕ → ℕ → ExprKind → Expr

  pub data ExprKind : Type 0 where
    error : ExprKind
    ident : String → ExprKind
    int : ℕ → ExprKind
    str : String → ExprKind
    call : Expr → Exprs → ExprKind
    not_ : Expr → ExprKind
    negate : Expr → ExprKind
    binary : BinaryOp → Expr → Expr → ExprKind

  pub data Exprs : Type 0 where
    nil : Exprs
    cons : Expr → Exprs → Exprs

mutual
  pub data Ty : Type 0 where
    mk_ty : ℕ → ℕ → TyKind → Ty

  pub data TyKind : Type 0 where
    error void : TyKind
    ident : String → TyKind
    ptr : Ty → TyKind

pub record Attr : Type 0 where
  pub ident : String
  pub args : Exprs

pub record Param : Type 0 where
  pub ident : String
  pub line : ℕ
  pub ty : Ty

pub record LetStmt : Type 0 where
  pub ident : String
  pub ty : Option Ty
  pub expr : Option Expr

mutual
  pub data Stmt : Type 0 where
    mk_stmt : ℕ → ℕ → StmtKind → Stmt

  pub data StmtKind : Type 0 where
    error : StmtKind
    fn : String → List Attr → List Param → Ty → Block → StmtKind
    let_ : LetStmt → StmtKind
    loop : Block → StmtKind
    while : Expr → Block → StmtKind
    if_ : Expr → Block → StmtKind
    if_else : Expr → Block → Block → StmtKind
    return : Option Expr → StmtKind
    break : StmtKind
    assign : Expr → Expr → StmtKind
    expr : Expr → StmtKind

  pub data Block : Type 0 where
    mk_block : ℕ → ℕ → ℕ → Stmts → Block

  pub data Stmts : Type 0 where
    nil : Stmts
    cons : Stmt → Stmts → Stmts

abbrev pub expr_id : Expr → ℕ
expr_id (mk_expr id line kind) = id

abbrev pub stmt_id : Stmt → ℕ
stmt_id (mk_stmt id line kind) = id

abbrev pub stmt_kind : Stmt → StmtKind
stmt_kind (mk_stmt id line kind) = kind

abbrev pub exprs_length : Exprs → ℕ
exprs_length nil = 0
exprs_length (cons e es) = suc (exprs_length es)
