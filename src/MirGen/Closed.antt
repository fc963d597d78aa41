-- ===== src/MirGen/Closed.antt =====
-- References to blocks in the graph that sbc/mir_gen.ts builds: those of terminators, the current block
-- and the table of exits.
use h4_projekt_gruppe_0_sm.Prelude.{
  ℕ, suc, ◌<◌, ◌≤◌, List, [], ◌∷◌, ◌++◌, some, ◌==◌, ◌≡◌, refl, ap, arith, if◌then◌else◌, map, true,
  Bool-cases, inl, inr, contains, All, All-append, NumMap, map_get, map_set,
}
use h4_projekt_gruppe_0_sm.Mir.{Block, StmtKind, TerKind}
use h4_projekt_gruppe_0_sm.MirOptimize.{cfg_successors}
use h4_projekt_gruppe_0_sm.MirGen.FnMirGen.{FnMirGen, append_to, set_ter, enter, block}
use h4_projekt_gruppe_0_sm.MirGen.Code.{extended}

abbrev pub ids_of : List Block → List ℕ
ids_of = map (λ b. b.id)

-- every successor is below `bound`
abbrev pub Leads : ℕ → List Block → Type 0
Leads bound = All (λ b. All (λ id. id < bound) (cfg_successors b.ter))

pub record IsClosedState (block_ids : ℕ) (blocks : List Block) (current_block return_block : ℕ)
    (exits : NumMap ℕ) : Type 0 where
  pub found : (id : ℕ) → id < block_ids → contains (ids_of blocks) id ≡ true
  pub leads : Leads block_ids blocks
  pub current : current_block < block_ids
  pub returns : return_block < block_ids
  pub leaves : All (λ e. e.1 < block_ids) exits

-- The numbers below `block_ids` are ids of blocks, and only these are referred to.
abbrev pub IsClosed : FnMirGen → Type 0
IsClosed gen =
    IsClosedState gen.block_ids gen.blocks gen.current_block gen.return_block gen.loop_exit_blocks

All-below : (n m : ℕ) (ids : List ℕ) → n ≤ m → All (λ id. id < n) ids → All (λ id. id < m) ids
All-below n m [] h a = tt
All-below n m (id ∷ ids) h a = (omega (arith, h, a.0), All-below n m ids h a.1)

Leads-below : (n m : ℕ) (blocks : List Block) → n ≤ m → Leads n blocks → Leads m blocks
Leads-below n m [] h a = tt
Leads-below n m (b ∷ blocks) h a =
    (All-below n m (cfg_successors b.ter) h a.0, Leads-below n m blocks h a.1)

exits-below :
    (n m : ℕ) (exits : NumMap ℕ) → n ≤ m → All (λ e. e.1 < n) exits → All (λ e. e.1 < m) exits
exits-below n m [] h a = tt
exits-below n m (e ∷ exits) h a = (omega (arith, h, a.0), exits-below n m exits h a.1)

exits-map_set :
    (n k v : ℕ) (exits : NumMap ℕ)
    → v < n
    → All (λ e. e.1 < n) exits
    → All (λ e. e.1 < n) (map_set exits k v)
exits-map_set n k v [] h a = (h, tt)
exits-map_set n k v ((j, w) ∷ exits) h a = elim (Bool-cases (j == k)) [
  | inl e ↦ rw e (h, a.1)
  | inr e ↦ rw e (a.0, exits-map_set n k v exits h a.1)
]

exits-map_get :
    (n k v : ℕ) (exits : NumMap ℕ) → All (λ e. e.1 < n) exits → map_get exits k ≡ some v → v < n
exits-map_get n k v [] a h = cc
exits-map_get n k v ((j, w) ∷ exits) a h = ground (arith, exits-map_get n k v exits, a)

ids_of-append_to :
    (id : ℕ) (code : List StmtKind) (blocks : List Block)
    → ids_of (append_to id code blocks) ≡ ids_of blocks
ids_of-append_to id code [] = refl
ids_of-append_to id code (b ∷ blocks) = elim (Bool-cases (b.id == id)) [
  | inl e ↦ rw e (ap (λ r. b.id ∷ r) (ids_of-append_to id code blocks))
  | inr e ↦ rw e (ap (λ r. b.id ∷ r) (ids_of-append_to id code blocks))
]

Leads-append_to :
    (n id : ℕ) (code : List StmtKind) (blocks : List Block)
    → Leads n blocks
    → Leads n (append_to id code blocks)
Leads-append_to n id code [] a = tt
Leads-append_to n id code (b ∷ blocks) a = elim (Bool-cases (b.id == id)) [
  | inl e ↦ rw e (a.0, Leads-append_to n id code blocks a.1)
  | inr e ↦ rw e (a.0, Leads-append_to n id code blocks a.1)
]

pub extended-IsClosed :
    (code : List StmtKind) (gen : FnMirGen) → IsClosed gen → IsClosed (extended code gen)
extended-IsClosed code gen h = record {
  found = λ id below. rw (ids_of-append_to gen.current_block code gen.blocks) (h.found id below);
  leads = Leads-append_to gen.block_ids gen.current_block code gen.blocks h.leads;
  current = h.current;
  returns = h.returns;
  leaves = h.leaves;
}

abbrev pub with_ter : ℕ → TerKind → List Block → List Block
with_ter id ter = map (λ b. if b.id == id then record b { ter = ter } else b)

ids_of-with_ter :
    (id : ℕ) (ter : TerKind) (blocks : List Block) → ids_of (with_ter id ter blocks) ≡ ids_of blocks
ids_of-with_ter id ter [] = refl
ids_of-with_ter id ter (b ∷ blocks) = elim (Bool-cases (b.id == id)) [
  | inl e ↦ rw e (ap (λ r. b.id ∷ r) (ids_of-with_ter id ter blocks))
  | inr e ↦ rw e (ap (λ r. b.id ∷ r) (ids_of-with_ter id ter blocks))
]

Leads-with_ter :
    (n id : ℕ) (ter : TerKind) (blocks : List Block)
    → All (λ i. i < n) (cfg_successors ter)
    → Leads n blocks
    → Leads n (with_ter id ter blocks)
Leads-with_ter n id ter [] t a = tt
Leads-with_ter n id ter (b ∷ blocks) t a = elim (Bool-cases (b.id == id)) [
  | inl e ↦ rw e (t, Leads-with_ter n id ter blocks t a.1)
  | inr e ↦ rw e (a.0, Leads-with_ter n id ter blocks t a.1)
]

pub set_ter-IsClosed :
    (id : ℕ) (ter : TerKind) (gen : FnMirGen)
    → All (λ i. i < gen.block_ids) (cfg_successors ter)
    → IsClosed gen
    → IsClosed (set_ter id ter gen)
unfolding set_ter
set_ter-IsClosed id ter gen t h = record {
  found = λ i below. rw (ids_of-with_ter id ter gen.blocks) (h.found i below);
  leads = Leads-with_ter gen.block_ids id ter gen.blocks t h.leads;
  current = h.current;
  returns = h.returns;
  leaves = h.leaves;
}

contains-append :
    (blocks : List Block) (new : Block) (id : ℕ)
    → contains (ids_of (blocks ++ (new ∷ []))) id
      ≡ (if contains (ids_of blocks) id then true else new.id == id)
contains-append [] new id = ground arith
contains-append (b ∷ blocks) new id = ground (arith, contains-append blocks new id)

pub block-IsClosed : (gen : FnMirGen) → IsClosed gen → IsClosed (block gen).0
unfolding block cfg_successors
block-IsClosed gen h = record {
  found = λ id below. rw (contains-append gen.blocks _ id) (ground (arith, h.found id));
  leads =
      All-append _ gen.blocks _
        (Leads-below gen.block_ids (suc gen.block_ids) gen.blocks (omega arith) h.leads) (tt, tt);
  current = omega (arith, h.current);
  returns = omega (arith, h.returns);
  leaves =
      exits-below gen.block_ids (suc gen.block_ids) gen.loop_exit_blocks (omega arith) h.leaves;
}

pub enter-IsClosed :
    (id : ℕ) (gen : FnMirGen) → id < gen.block_ids → IsClosed gen → IsClosed (enter id gen)
unfolding enter
enter-IsClosed id gen below h = record {
  found = h.found;
  leads = h.leads;
  current = below;
  returns = h.returns;
  leaves = h.leaves;
}

pub exit-IsClosed :
    (key exit : ℕ) (gen : FnMirGen)
    → exit < gen.block_ids
    → IsClosed gen
    → IsClosed (record gen { loop_exit_blocks = map_set gen.loop_exit_blocks key exit })
exit-IsClosed key exit gen below h = record {
  found = h.found;
  leads = h.leads;
  current = h.current;
  returns = h.returns;
  leaves = exits-map_set gen.block_ids key exit gen.loop_exit_blocks below h.leaves;
}

pub exit_below :
    (key exit : ℕ) (gen : FnMirGen)
    → IsClosed gen
    → map_get gen.loop_exit_blocks key ≡ some exit
    → exit < gen.block_ids
exit_below key exit gen h e = exits-map_get gen.block_ids key exit gen.loop_exit_blocks h.leaves e
