-- ===== src/MirGen/FnMirGen.antt =====
-- The state of `FnMirGen` of sbc/mir_gen.ts and the methods that change it. A block that a field or a
-- variable refers to is its id; a change of a block is a change of the one of that id among `blocks`.
use h4_projekt_gruppe_0_sm.Prelude.{
  ℕ, suc, String, List, [], ◌∷◌, ◌++◌, Option, if◌then◌else◌, ◌==◌, map, NumMap,
}
use h4_projekt_gruppe_0_sm.Ty.{Ty}
use h4_projekt_gruppe_0_sm.Mir.{Local, StmtKind, TerKind, unset, Block}

pub record FnMirGen : Type 0 where
  pub local_ids : ℕ
  pub locals : List Local
  pub param_locals : NumMap Local
  pub let_locals : NumMap Local
  pub block_ids : ℕ
  pub blocks : List Block
  pub return_block : ℕ
  pub current_block : ℕ
  pub loop_exit_blocks : NumMap ℕ

-- `local(ty, ident)`
unfoldable pub local : Ty → Option String → FnMirGen → FnMirGen × Local
local ty ident gen =
    let new : Local = record { id = gen.local_ids; ty = ty; ident = ident } in
    (record gen { local_ids = suc gen.local_ids; locals = gen.locals ++ (new ∷ []) }, new)

-- `block()`
unfoldable pub block : FnMirGen → FnMirGen × ℕ
block gen = (
  record gen {
    block_ids = suc gen.block_ids;
    blocks = gen.blocks ++ (record { id = gen.block_ids; stmts = []; ter = unset } ∷ []);
  },
  gen.block_ids,
)

abbrev pub append_to : ℕ → List StmtKind → List Block → List Block
append_to id stmts = map λ b. if b.id == id then record b { stmts = b.stmts ++ stmts } else b

-- `pushStmt(kind)`
unfoldable pub push_stmt : StmtKind → FnMirGen → FnMirGen
push_stmt kind gen = record gen { blocks = append_to gen.current_block (kind ∷ []) gen.blocks }

-- `block.ter = Ter(ter)`
unfoldable pub set_ter : ℕ → TerKind → FnMirGen → FnMirGen
set_ter id ter gen = record gen {
  blocks = map (λ b. if b.id == id then record b { ter = ter } else b) gen.blocks;
}

-- `this.currentBlock = block`
unfoldable pub enter : ℕ → FnMirGen → FnMirGen
enter id gen = record gen { current_block = id }
