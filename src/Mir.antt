-- ===== src/Mir.antt =====
-- sbc/mir.ts: the control-flow graph of a function over a stack machine. A reference to a block is the
-- block's id; everything else a record refers to is held by value.
use h4_projekt_gruppe_0_sm.Prelude.{
  ℕ, String, List, [], ◌∷◌, Option, none, some, NumMap, ◌==◌, if◌then◌else◌,
}
use h4_projekt_gruppe_0_sm.Ast.{Stmt}
use h4_projekt_gruppe_0_sm.Ty.{Ty}

pub data BinaryOp : Type 0 where
  lt gt le ge eq ne add sub mul div mod_ : BinaryOp

pub record Local : Type 0 where
  pub id : ℕ
  pub ty : Ty
  pub ident : Option String

pub data Val : Type 0 where
  int : ℕ → Val
  str : String → Val
  fn : Stmt → Val

pub data StmtKind : Type 0 where
  error : StmtKind
  push : Val → Ty → StmtKind
  pop : StmtKind
  load : Local → StmtKind
  store : Local → StmtKind
  call : ℕ → StmtKind
  binary : BinaryOp → StmtKind

pub data TerKind : Type 0 where
  error unset return : TerKind
  goto : ℕ → TerKind
  if_ : ℕ → ℕ → TerKind

pub record Block : Type 0 where
  pub id : ℕ
  pub stmts : List StmtKind
  pub ter : TerKind

pub record Fn : Type 0 where
  pub stmt : Stmt
  pub locals : List Local
  pub param_locals : NumMap Local
  pub return_local : Local
  pub blocks : List Block
  pub entry : ℕ
  pub exit : ℕ

-- The object that a reference to a block stands for, as it is among `blocks`.
unfoldable pub find_block : List Block → ℕ → Option Block
find_block [] id = none
find_block (b ∷ blocks) id =
    let later = find_block blocks id in if b.id == id then some b else later
