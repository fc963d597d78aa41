-- ===== src/LirGen/FnGen.antt =====
-- `FnGen` of sbc/lir_gen.ts: the lines of one function.
use h4_projekt_gruppe_0_sm.Prelude.{
  ℕ, zero, suc, List, [], ◌∷◌, ◌++◌, if◌then◌else◌, NumMap, map_set, map_get, map_has, Result, ok,
  ◌>>=◌, expect, length, ltb,
}
use h4_projekt_gruppe_0_sm.Ast.{stmt_id}
use h4_projekt_gruppe_0_sm.Mir as Mir
use h4_projekt_gruppe_0_sm.Mir.{Local, StmtKind, TerKind, Block}
use h4_projekt_gruppe_0_sm.Lir.{
  Reg, Label, Ins, error, nop, ret, alloc_param, alloc_local, mov_int, mov_string, mov_fn, push,
  pop, load, store_reg, call_reg, jmp, jnz_reg, binary, kill, Line,
}
use h4_projekt_gruppe_0_sm.LirGen.Strings.{StringIntern, intern}

-- The fields of the class. `stmt_fns` takes the id of a function's statement to the function.
pub record FnGen : Type 0 where
  pub reg_ids : ℕ
  pub label_ids : ℕ
  pub block_labels : NumMap Label
  pub current_labels : List Label
  pub local_regs : NumMap Reg
  pub lines : List Line
  pub strings : StringIntern
  pub stmt_fns : NumMap ℕ

unfoldable pub push_ins : Ins → FnGen → FnGen
push_ins ins gen = record gen {
  lines = gen.lines ++ (record { labels = gen.current_labels; ins = ins } ∷ []);
  current_labels = [];
}

-- consecutive calls of `pushIns`
unfoldable pub push_all : List Ins → FnGen → FnGen
unfolding push_ins
push_all [] gen = gen
push_all (ins ∷ rest) gen = push_all rest (push_ins ins gen)

-- `reg()`, `count` times: the registers from `reg_ids` on are taken
unfoldable pub take_regs : ℕ → FnGen → FnGen
take_regs zero gen = gen
take_regs (suc count) gen = take_regs count (record gen { reg_ids = suc gen.reg_ids })

-- the loop of a call that pops its arguments, from the register `reg` on
unfoldable pub pop_args : ℕ → Reg → List Ins
pop_args zero reg = []
pop_args (suc count) reg = pop reg ∷ kill reg ∷ pop_args count (suc reg)

unfoldable pub lower_stmt : StmtKind → FnGen → Result FnGen
unfolding push_all take_regs pop_args
lower_stmt StmtKind.error gen = ok (push_all (error ∷ []) gen)
lower_stmt (StmtKind.push (Mir.Val.str val) ty) gen =
    let reg = gen.reg_ids in
    let (strings, string_id) = intern val gen.strings in
    ok (
      push_all (mov_string reg string_id ∷ push reg ∷ kill reg ∷ [])
        (take_regs 1 (record gen { strings = strings })))
lower_stmt (StmtKind.push (Mir.Val.int val) ty) gen =
    let reg = gen.reg_ids in
    ok (push_all (mov_int reg val ∷ push reg ∷ kill reg ∷ []) (take_regs 1 gen))
lower_stmt (StmtKind.push (Mir.Val.fn stmt) ty) gen =
    let reg = gen.reg_ids in
    expect "" (map_get gen.stmt_fns (stmt_id stmt)) >>= λ fn.
    ok (push_all (mov_fn reg fn ∷ push reg ∷ kill reg ∷ []) (take_regs 1 gen))
lower_stmt StmtKind.pop gen =
    let reg = gen.reg_ids in ok (push_all (pop reg ∷ kill reg ∷ []) (take_regs 1 gen))
lower_stmt (StmtKind.load local) gen =
    let reg = gen.reg_ids in
    expect "" (map_get gen.local_regs local.id) >>= λ s_reg.
    ok (push_all (load reg s_reg ∷ push reg ∷ kill reg ∷ []) (take_regs 1 gen))
lower_stmt (StmtKind.store local) gen =
    let reg = gen.reg_ids in
    expect "" (map_get gen.local_regs local.id) >>= λ s_reg.
    ok (push_all (pop reg ∷ store_reg s_reg reg ∷ kill reg ∷ []) (take_regs 1 gen))
lower_stmt (StmtKind.call args) gen =
    let reg = gen.reg_ids in
    let rval = suc reg in
    ok (
      push_all
        (pop reg
          ∷ call_reg reg args
          ∷ kill reg
          ∷ pop rval
          ∷ (pop_args args (suc rval) ++ (push rval ∷ kill rval ∷ [])))
        (take_regs (suc (suc args)) gen))
lower_stmt (StmtKind.binary op) gen =
    let src = gen.reg_ids in
    let dst = suc src in
    ok (
      push_all (pop src ∷ pop dst ∷ binary op dst src ∷ push dst ∷ kill src ∷ kill dst ∷ [])
        (take_regs 2 gen))

unfoldable pub lower_stmts : List StmtKind → FnGen → Result FnGen
unfolding lower_stmt
lower_stmts [] gen = ok gen
lower_stmts (stmt ∷ stmts) gen = lower_stmt stmt gen >>= lower_stmts stmts

unfoldable pub lower_ter : TerKind → FnGen → Result FnGen
unfolding push_all take_regs
lower_ter TerKind.error gen = ok (push_all (error ∷ []) gen)
lower_ter TerKind.unset gen = ok (push_all (error ∷ []) gen)
lower_ter TerKind.return gen = ok (push_all (ret ∷ []) gen)
lower_ter (TerKind.goto target) gen =
    expect "" (map_get gen.block_labels target) >>= λ label. ok (push_all (jmp label ∷ []) gen)
lower_ter (TerKind.if_ truthy falsy) gen =
    let reg = gen.reg_ids in
    expect "" (map_get gen.block_labels truthy) >>= λ t.
    expect "" (map_get gen.block_labels falsy) >>= λ f.
    ok (push_all (pop reg ∷ jnz_reg reg t ∷ kill reg ∷ jmp f ∷ []) (take_regs 1 gen))

-- The first loop of `generate`: a label for each block.
unfoldable pub label_blocks : List Block → FnGen → FnGen
label_blocks [] gen = gen
label_blocks (block ∷ blocks) gen = label_blocks blocks (record gen {
  label_ids = suc gen.label_ids;
  block_labels = map_set gen.block_labels block.id gen.label_ids;
})

-- A slot of the frame for a local.
unfoldable pub alloc : (Reg → Ins) → Local → FnGen → FnGen
unfolding push_ins
alloc ins local gen =
    let reg = gen.reg_ids in
    let gen' = push_ins (ins reg) (record gen { reg_ids = suc reg }) in
    record gen' { local_regs = map_set gen'.local_regs local.id reg }

unfoldable pub alloc_params : List (ℕ × Local) → FnGen → FnGen
unfolding alloc
alloc_params [] gen = gen
alloc_params ((i, local) ∷ params) gen =
    alloc_params params (alloc (λ reg. alloc_param reg 8) local gen)

-- The loop over all locals skips those that have a slot.
unfoldable pub alloc_locals : List Local → FnGen → FnGen
unfolding alloc
alloc_locals [] gen = gen
alloc_locals (local ∷ locals) gen =
    alloc_locals locals
      (if map_has gen.local_regs local.id then gen else alloc (λ reg. alloc_local reg 8) local gen)

-- The body of the last loop of `generate`.
unfoldable pub lower_block : Block → FnGen → Result FnGen
unfolding lower_stmts lower_ter
lower_block block gen = do
  label ← expect "" (map_get gen.block_labels block.id)
  gen' ←
      lower_stmts block.stmts (record gen { current_labels = gen.current_labels ++ (label ∷ []) })
  lower_ter block.ter gen'

unfoldable pub lower_blocks : List Block → FnGen → Result FnGen
unfolding lower_block
lower_blocks [] gen = ok gen
lower_blocks (block ∷ blocks) gen = lower_block block gen >>= lower_blocks blocks

unfoldable pub frame : Mir.Fn → FnGen → FnGen
unfolding label_blocks alloc_params alloc_locals
frame fn gen =
    let labelled = label_blocks fn.blocks gen in
    let params = alloc_params fn.param_locals labelled in
    let result = alloc (λ reg. alloc_local reg 8) fn.return_local params in
    alloc_locals fn.locals result

-- `generate()`, from the fields' first values
unfoldable pub generate : Mir.Fn → FnGen → Result FnGen
unfolding frame lower_blocks push_ins
generate fn gen = lower_blocks fn.blocks (frame fn gen) >>= λ done.
    ok (if ltb 0 (length done.current_labels) then push_ins nop done else done)

unfoldable pub new_gen : StringIntern → NumMap ℕ → FnGen
new_gen strings stmt_fns = record {
  reg_ids = 0;
  label_ids = 0;
  block_labels = [];
  current_labels = [];
  local_regs = [];
  lines = [];
  strings = strings;
  stmt_fns = stmt_fns;
}
