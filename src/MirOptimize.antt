-- ===== src/MirOptimize.antt =====
-- sbc/mir_optimize.ts: blocks that nothing jumps to are dropped, and a block is joined with its only
-- successor where it is that block's only predecessor, until a size repeats. Blocks are compared by
-- their ids, as in the source, and `first` stands for the block of that id as it is when it is visited.
pub mod Unreachable
use h4_projekt_gruppe_0_sm.Prelude.{
  ℕ, zero, suc, ◌+◌, Bool, true, false, not, ◌&&◌, List, [], ◌∷◌, ◌++◌, Option, none, some, ◌==◌,
  if◌then◌else◌, length, any, select, contains, map,
}
use h4_projekt_gruppe_0_sm.Mir.{Fn, Block, find_block, TerKind, error, unset, return, goto, if_}

unfoldable pub cfg_successors : TerKind → List ℕ
cfg_successors error = []
cfg_successors unset = []
cfg_successors return = []
cfg_successors (goto target) = target ∷ []
cfg_successors (if_ truthy falsy) = truthy ∷ falsy ∷ []

unfoldable pub cfg_predecessors : List Block → ℕ → List Block
unfolding cfg_successors
cfg_predecessors blocks id = select (λ b. contains (cfg_successors b.ter) id) blocks

abbrev pub is_empty {ℓ} : {A : Type ℓ} → List A → Bool
is_empty [] = true
is_empty (x ∷ xs) = false

-- `block.id === fn.entry.id || preds.length !== 0`
unfoldable pub is_kept : Fn → Block → Bool
unfolding cfg_predecessors
is_kept fn block =
    if block.id == fn.entry then true else not (is_empty (cfg_predecessors fn.blocks block.id))

-- the ids of `toRemove`
unfoldable pub unreachable : Fn → List ℕ
unfolding is_kept
unreachable fn = map (λ b. b.id) (select (λ b. not (is_kept fn b)) fn.blocks)

abbrev pub without : List ℕ → List Block → List Block
without to_remove = select (λ b. not (contains to_remove b.id))

unfoldable pub eliminate_unreachable : Fn → Fn
unfolding unreachable
eliminate_unreachable fn = record fn { blocks = without (unreachable fn) fn.blocks }

-- `first.stmts.push(...second.stmts); first.ter = second.ter`
unfoldable pub absorb : ℕ → Block → List Block → List Block
absorb first second =
    map λ b.
      if b.id == first then record b { stmts = b.stmts ++ second.stmts; ter = second.ter } else b

abbrev pub only {ℓ} : {A : Type ℓ} → List A → Option A
only (x ∷ []) = some x
only _ = none

-- The only successor of `first`, if `first` is its only predecessor.
unfoldable pub joinable : List Block → Block → Option Block
unfolding cfg_successors cfg_predecessors find_block
joinable blocks first = elim (only (cfg_successors first.ter)) [
  | none ↦ none
  | some id ↦ elim (only (cfg_predecessors blocks id)) [
    | none ↦ none
    | some _ ↦ find_block blocks id
  ]
]

-- The body of the loop of `joinSequentialBlocks` at the block `id`, with the set `toRemove`.
unfoldable pub join_at : ℕ → Fn × List ℕ → Fn × List ℕ
unfolding joinable absorb
join_at id (fn, to_remove) = elim (find_block fn.blocks id) [
  | none ↦ (fn, to_remove)
  | some first ↦ elim (joinable fn.blocks first) [
    | none ↦ (fn, to_remove)
    | some second ↦ (
      record fn {
        blocks = absorb id second fn.blocks;
        exit = if second.id == fn.exit then id else fn.exit;
      },
      second.id ∷ to_remove,
    )
  ]
]

unfoldable pub join_loop : List ℕ → Fn × List ℕ → Fn × List ℕ
unfolding join_at
join_loop [] state = state
join_loop (id ∷ ids) state = join_loop ids (join_at id state)

unfoldable pub join_sequential_blocks : Fn → Fn
unfolding join_loop
join_sequential_blocks fn =
    let (joined, to_remove) = join_loop (map (λ b. b.id) fn.blocks) (fn, []) in
    record joined { blocks = without to_remove joined.blocks }

unfoldable pub fn_size : ℕ → List Block → ℕ
fn_size block_size [] = 0
fn_size block_size (b ∷ blocks) = block_size + length b.stmts + fn_size block_size blocks

-- The `while` loop on fuel, with the sizes seen; `block_size` is fixed before the loop.
unfoldable pub optimize_loop : ℕ → ℕ → List ℕ → Fn → Option Fn
unfolding eliminate_unreachable join_sequential_blocks fn_size
optimize_loop zero block_size size_history fn = none
optimize_loop (suc fuel) block_size size_history fn =
    let fn' = join_sequential_blocks (eliminate_unreachable fn) in
    let size = fn_size block_size fn'.blocks in
    let again = optimize_loop fuel block_size (size ∷ size_history) fn' in
    if contains size_history size then some fn' else again

-- `optimizeMirFn` from a given `blockSize`.
unfoldable pub optimize_mir_fn : ℕ → ℕ → Fn → Option Fn
unfolding optimize_loop
optimize_mir_fn fuel block_size fn =
    optimize_loop fuel block_size (fn_size block_size fn.blocks ∷ []) fn
