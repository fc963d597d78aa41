-- ===== src/MirGen/Complete.antt =====
-- References to blocks in the function that `generate` of sbc/mir_gen.ts gives.
use h4_projekt_gruppe_0_sm.Prelude.{
  ℕ, suc, ◌<◌, List, [], ◌∷◌, none, ◌≡◌, refl, subst, arith, contains, All, ok, >>=-eq-ok, eq_of_ok,
  true,
}
use h4_projekt_gruppe_0_sm.Ast.{Stmt, Block, Param}
use h4_projekt_gruppe_0_sm.Mir as Mir
use h4_projekt_gruppe_0_sm.Mir.{Local, Fn, goto, return}
use h4_projekt_gruppe_0_sm.Front.{Resols, Checker}
use h4_projekt_gruppe_0_sm.MirOptimize.{cfg_successors}
use h4_projekt_gruppe_0_sm.MirGen.FnMirGen.{FnMirGen, local, block, set_ter, enter}
use h4_projekt_gruppe_0_sm.MirGen.Statements.{lower_block, add_params, return_ty, new_gen, generate}
use h4_projekt_gruppe_0_sm.MirGen.Closed.{ids_of, Leads, IsClosed, set_ter-IsClosed}
use h4_projekt_gruppe_0_sm.MirGen.ClosedStatements.{block-Closes}

-- The entry, the exit and every successor of a block are ids of blocks.
unfoldable pub IsComplete : Fn → Type 0
IsComplete fn =
    (contains (ids_of fn.blocks) fn.entry ≡ true)
    × (contains (ids_of fn.blocks) fn.exit ≡ true)
    × All (λ b. All (λ id. contains (ids_of fn.blocks) id ≡ true) (cfg_successors b.ter)) fn.blocks

-- no blocks yet
abbrev IsFresh : FnMirGen → Type 0
IsFresh gen = (gen.block_ids ≡ 0) × (gen.blocks ≡ []) × (gen.loop_exit_blocks ≡ [])

add_params-IsFresh :
    (ch : Checker) (stmt : Stmt) (i : ℕ) (params : List Param) (gen gen' : FnMirGen)
    → add_params ch stmt i params gen ≡ ok gen'
    → IsFresh gen
    → IsFresh gen'
unfolding add_params local
add_params-IsFresh ch stmt i [] gen gen' h fresh = subst IsFresh (eq_of_ok h) fresh
add_params-IsFresh ch stmt i (param ∷ params) gen gen' h fresh =
    let (ty, _, r) = >>=-eq-ok (ch.param_ty stmt i) _ h in
    add_params-IsFresh ch stmt (suc i) params _ gen' r fresh

-- The state in which the body of a function is lowered.
abbrev start : FnMirGen → FnMirGen
start gen =
    enter (block gen).1 (record (block (block gen).0).0 { return_block = (block (block gen).0).1 })

start-IsClosed : (gen : FnMirGen) → IsFresh gen → IsClosed (start gen)
unfolding enter block cfg_successors
start-IsClosed gen (none_yet, no_blocks, no_exits) =
    rw (none_yet, no_blocks, no_exits)
      (record {
        found = λ id below. ground arith;
        leads = ((tt, (tt, tt)));
        current = omega arith;
        returns = omega arith;
        leaves = tt;
      })

found-ids :
    (n : ℕ) (ids known : List ℕ)
    → ((id : ℕ) → id < n → contains known id ≡ true)
    → All (λ id. id < n) ids
    → All (λ id. contains known id ≡ true) ids
found-ids n [] known h a = tt
found-ids n (id ∷ ids) known h a = (h id a.0, found-ids n ids known h a.1)

found-successors :
    (n : ℕ) (blocks : List Mir.Block) (known : List ℕ)
    → ((id : ℕ) → id < n → contains known id ≡ true)
    → Leads n blocks
    → All (λ b. All (λ id. contains known id ≡ true) (cfg_successors b.ter)) blocks
found-successors n [] known h a = tt
found-successors n (b ∷ blocks) known h a =
    (found-ids n (cfg_successors b.ter) known h a.0, found-successors n blocks known h a.1)

-- If `generate` gives a function, then the entry, the exit and every successor of each of its blocks are
-- blocks of the function.
pub generate-IsComplete :
    (re : Resols) (ch : Checker) (stmt : Stmt) (params : List Param) (body : Block) (fn : Fn)
    → generate re ch stmt params body ≡ ok fn
    → IsComplete fn
unfolding generate IsComplete local new_gen block enter set_ter cfg_successors
generate-IsComplete re ch stmt params body fn h =
    let (fn_ty, _, r₁) = >>=-eq-ok (ch.fn_stmt_ty stmt) _ h in
    let (ty, _, r₂) = >>=-eq-ok (return_ty fn_ty) _ r₁ in
    let (gen₁, return_local) = local ty none new_gen in
    let (gen₂, h₂, r₃) = >>=-eq-ok (add_params ch stmt 0 params gen₁) _ r₂ in
    let fresh = add_params-IsFresh ch stmt 0 params gen₁ gen₂ h₂ (refl, refl, refl) in
    let (gen₃, h₃, r₄) = >>=-eq-ok (lower_block re ch return_local body (start gen₂)) _ r₃ in
    let (closed, more) =
      block-Closes re ch return_local body (start gen₂) gen₃ h₃ (start-IsClosed gen₂ fresh) in
    let exit : ℕ = suc gen₂.block_ids in
    let gen₄ : FnMirGen = set_ter gen₃.current_block (goto exit) gen₃ in
    let closed₄ : IsClosed gen₄ =
      set_ter-IsClosed gen₃.current_block (goto exit) gen₃ (omega (arith, more), tt) closed in
    let gen₅ : FnMirGen = set_ter exit return gen₄ in
    let closed₅ : IsClosed gen₅ = set_ter-IsClosed exit return gen₄ tt closed₄ in
    subst IsComplete (eq_of_ok r₄) (
      closed₅.found gen₂.block_ids (omega (arith, more)),
      closed₅.found gen₅.return_block closed₅.returns,
      found-successors gen₅.block_ids gen₅.blocks (ids_of gen₅.blocks) closed₅.found closed₅.leads,
    )
