-- ===== src/LirOptimize/Windows.antt =====
-- sbc/lir_optimize.ts: `eliminatePushPop`, `eliminateMovFnCall` and `eliminateMovIntStoreReg`. Each
-- collects the indices at which a window of three lines fits, then rewrites them from the last to the
-- first.
pub mod Fusion
pub mod FusionRun
pub mod StoreImm
pub mod CallImm
use h4_projekt_gruppe_0_sm.Prelude.{
  ℕ, zero, suc, ◌+◌, Bool, true, false, ◌&&◌, List, [], ◌∷◌, ◌++◌, Option, none, some, ◌==◌, leb,
  if◌then◌else◌, length, get_elem?, drop, splice, Result, ok, err, ◌>>=◌, expect,
}
use h4_projekt_gruppe_0_sm.Lir.{
  Reg, Label, Ins, mov_int, mov_fn, push, pop, store_reg, store_imm, call_reg, call_imm, kill, Line,
}
use h4_projekt_gruppe_0_sm.LirOptimize.Replace.{replace_reg}

-- `labels.length === 0`
abbrev pub unlabelled : Line → Bool
unlabelled line = elim line.labels [ [] ↦ true | _ ↦ false ]

-- The tags of three consecutive lines, with the registers that the passes read off them:
-- the registers of `push`, `kill` and `pop` ...
abbrev pub push_kill_pop : Ins → Ins → Ins → Option (Reg × Reg × Reg)
push_kill_pop (push p) (kill k) (pop q) = some (p, k, q)
push_kill_pop _ _ _ = none

-- ... the register and function of `mov_fn`, the register and arguments of `call_reg`, that of `kill`
abbrev pub mov_fn_call_kill : Ins → Ins → Ins → Option (Reg × ℕ × Reg × ℕ × Reg)
mov_fn_call_kill (mov_fn m fn) (call_reg c args) (kill k) = some (m, fn, c, args, k)
mov_fn_call_kill _ _ _ = none

-- ... the register and value of `mov_int`, the slot and register of `store_reg`, that of `kill`.
abbrev pub mov_int_store_kill : Ins → Ins → Ins → Option (Reg × ℕ × Reg × Reg × Reg)
mov_int_store_kill (mov_int m val) (store_reg s_reg t) (kill k) = some (m, val, s_reg, t, k)
mov_int_store_kill _ _ _ = none

abbrev pub fits_push_pop : Line → Line → Line → Bool
fits_push_pop a b c = elim (push_kill_pop a.ins b.ins c.ins) [
  | none ↦ false
  | some (p, k, q) ↦ unlabelled b && (unlabelled c && (p == k))
]

abbrev pub fits_mov_fn_call : Line → Line → Line → Bool
fits_mov_fn_call a b c = elim (mov_fn_call_kill a.ins b.ins c.ins) [
  | none ↦ false
  | some (m, fn, r, args, k) ↦ unlabelled b && (unlabelled c && ((m == r) && (m == k)))
]

abbrev pub fits_mov_int_store : Line → Line → Line → Bool
fits_mov_int_store a b c = elim (mov_int_store_kill a.ins b.ins c.ins) [
  | none ↦ false
  | some (m, val, s_reg, r, k) ↦ unlabelled b && (unlabelled c && ((m == r) && (m == k)))
]

-- `const [a, b, c] = fn.lines.slice(i)`, where there are three
abbrev pub window {ℓ} : {A : Type ℓ} → (Line → Line → Line → A) → List Line → Option A
window f (a ∷ b ∷ c ∷ rest) = some (f a b c)
window f _ = none

abbrev pub window_fits : (Line → Line → Line → Bool) → List Line → Bool
window_fits fits lines = elim (window fits lines) [ none ↦ false | some b ↦ b ]

-- The loop `for (let i = 0; i < fn.lines.length - 2; ++i)` that fills `candidates`, from index `i` on.
unfoldable pub candidates : (Line → Line → Line → Bool) → ℕ → List Line → List ℕ
candidates fits i [] = []
candidates fits i (line ∷ rest) =
    let later = candidates fits (suc i) rest in
    if window_fits fits (line ∷ rest) then i ∷ later else later

-- The loop `for (const i of candidates.toReversed())`: the last candidate is rewritten first.
unfoldable pub rewrite_reversed {ℓ} :
    {C : Type ℓ} → (List Line → C → Result (List Line)) → List C → List Line → Result (List Line)
rewrite_reversed step [] lines = ok lines
rewrite_reversed step (c ∷ cs) lines = rewrite_reversed step cs lines >>= λ lines'. step lines' c

-- `fn.lines[i].labels.push(...labels)`
unfoldable pub push_labels : List Line → ℕ → List Label → Result (List Line)
push_labels [] i labels = err "cannot read properties of undefined (reading 'labels')"
push_labels (line ∷ rest) zero labels = ok (record line { labels = line.labels ++ labels } ∷ rest)
push_labels (line ∷ rest) (suc i) labels = push_labels rest i labels >>= λ rest'. ok (line ∷ rest')

-- `fn.lines[i].ins = ins`
unfoldable pub set_ins : List Line → ℕ → Ins → List Line
set_ins [] i ins = []
set_ins (line ∷ rest) zero ins = record line { ins = ins } ∷ rest
set_ins (line ∷ rest) (suc i) ins = line ∷ set_ins rest i ins

abbrev pub labels_at : List Line → ℕ → List Label
labels_at lines i = elim (get_elem? lines i) [ none ↦ [] | some line ↦ line.labels ]

-- the `throw` where the tags at `i` are not those of the candidate
abbrev pub tags_at {ℓ} : {A : Type ℓ} → (Ins → Ins → Ins → Option A) → List Line → ℕ → Result A
tags_at tags lines i = expect "" (elim (window (λ a b c. tags a.ins b.ins c.ins) (drop i lines)) [
  | none ↦ none
  | some found ↦ found
])

-- The body of the second loop of `eliminatePushPop`.
unfoldable pub rewrite_push_pop : List Line → ℕ → Result (List Line)
unfolding push_labels replace_reg
rewrite_push_pop lines i = do
  lines' ←
      if leb (length lines) (i + 3) then push_labels lines (i + 3) (labels_at lines i) else ok lines
  (replacement, _, to_remove) ← tags_at push_kill_pop lines' i
  ok (replace_reg to_remove replacement (splice lines' i 3))

unfoldable pub eliminate_push_pop : List Line → Result (List Line)
unfolding candidates rewrite_reversed rewrite_push_pop
eliminate_push_pop lines =
    rewrite_reversed rewrite_push_pop (candidates fits_push_pop 0 lines) lines

-- The body of the second loop of `eliminateMovFnCall`.
unfoldable pub rewrite_mov_fn_call : List Line → ℕ → Result (List Line)
unfolding set_ins
rewrite_mov_fn_call lines i = do
  (_, fn_val, _, args, _) ← tags_at mov_fn_call_kill lines i
  ok (set_ins (splice lines (i + 1) 2) i (call_imm fn_val args))

unfoldable pub eliminate_mov_fn_call : List Line → Result (List Line)
unfolding candidates rewrite_reversed rewrite_mov_fn_call
eliminate_mov_fn_call lines =
    rewrite_reversed rewrite_mov_fn_call (candidates fits_mov_fn_call 0 lines) lines

-- The body of the second loop of `eliminateMovIntStoreReg`.
unfoldable pub rewrite_mov_int_store : List Line → ℕ → Result (List Line)
unfolding set_ins
rewrite_mov_int_store lines i = do
  (_, val, s_reg, _, _) ← tags_at mov_int_store_kill lines i
  ok (set_ins (splice lines (i + 1) 2) i (store_imm s_reg val))

unfoldable pub eliminate_mov_int_store_reg : List Line → Result (List Line)
unfolding candidates rewrite_reversed rewrite_mov_int_store
eliminate_mov_int_store_reg lines =
    rewrite_reversed rewrite_mov_int_store (candidates fits_mov_int_store 0 lines) lines
