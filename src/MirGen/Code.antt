-- ===== src/MirGen/Code.antt =====
-- Code at the end of the current block, and what it computes on the stack machine: how the code of parts
-- is put together by `lowerExpr` of sbc/mir_gen.ts.
use mathlib.Core.List.{reverse-cons}
use h4_projekt_gruppe_0_sm.Prelude.{
  ℕ, suc, ◌+◌, List, [], ◌∷◌, ◌++◌, Option, none, some, ◌==◌, ◌≡◌, refl, ap, sym, subst, ◌∙◌, arith,
  reverse, append_assoc, append-nil, Bool-cases, inl, inr, length, length-append, take-append,
  fun_ext, eq_of_some,
}
use h4_projekt_gruppe_0_sm.Ty.{Ty}
use h4_projekt_gruppe_0_sm.Mir as Mir
use h4_projekt_gruppe_0_sm.Mir.{Local, Block, StmtKind, Val, push, load, call, binary, int, str, fn}
use h4_projekt_gruppe_0_sm.Machine.Target.{Target, operation}
use h4_projekt_gruppe_0_sm.Machine.Stack.{
  Meaning, Frame, word, step, steps, pop_words, ◌>>=◌, >>=-eq-some,
}
use h4_projekt_gruppe_0_sm.MirGen.FnMirGen.{FnMirGen, append_to, push_stmt}

-- `code` at the end of the current block.
abbrev pub extended : List StmtKind → FnMirGen → FnMirGen
extended code gen = record gen { blocks = append_to gen.current_block code gen.blocks }

append_to-append :
    (id : ℕ) (xs ys : List StmtKind) (blocks : List Block)
    → append_to id ys (append_to id xs blocks) ≡ append_to id (xs ++ ys) blocks
append_to-append id xs ys [] = refl
append_to-append id xs ys (b ∷ blocks) = elim (Bool-cases (b.id == id)) [
  | inl h ↦ rw h (
      rw (h, append_assoc b.stmts xs ys)
        (ap (λ rest. record b { stmts = b.stmts ++ (xs ++ ys) } ∷ rest)
          (append_to-append id xs ys blocks)))
  | inr h ↦ rw (h, h) (ap (λ rest. b ∷ rest) (append_to-append id xs ys blocks))
]

append_to-nil : (id : ℕ) (blocks : List Block) → append_to id [] blocks ≡ blocks
append_to-nil id [] = refl
append_to-nil id (b ∷ blocks) = elim (Bool-cases (b.id == id)) [
  | inl h ↦ rw (h, append-nil b.stmts) (ap (λ rest. b ∷ rest) (append_to-nil id blocks))
  | inr h ↦ rw h (ap (λ rest. b ∷ rest) (append_to-nil id blocks))
]

extended-extended :
    (xs ys : List StmtKind) (gen : FnMirGen)
    → extended ys (extended xs gen) ≡ extended (xs ++ ys) gen
extended-extended xs ys gen =
    ap (λ blocks. record gen { blocks = blocks })
      (append_to-append gen.current_block xs ys gen.blocks)

length-reverse : {A : Type 0} (ws : List A) → length (reverse ws) ≡ length ws
length-reverse [] = refl
length-reverse (w ∷ ws) =
    ap length (reverse-cons w ws)
    ∙ length-append (reverse ws) (w ∷ [])
    ∙ ap (λ n. n + 1) (length-reverse ws)
    ∙ omega arith

pop_words-append : {A : Type 0} (vs ws : List A) → pop_words (length vs) (vs ++ ws) ≡ some ws
unfolding pop_words
pop_words-append [] ws = refl
pop_words-append (v ∷ vs) ws = pop_words-append vs ws

bind_assoc_option :
    {A : Type 0} {B : Type 0} {C : Type 0} (o : Option A) (f : A → Option B) (g : B → Option C)
    → (o >>= λ a. f a >>= g) ≡ (o >>= f >>= g)
bind_assoc_option none f g = refl
bind_assoc_option (some a) f g = refl

module _ {target : Target} (meaning : Meaning target) where
  steps-append :
      (xs ys : List StmtKind) (m : Frame target)
      → steps meaning (xs ++ ys) m ≡ (steps meaning xs m >>= steps meaning ys)
  unfolding steps
  steps-append [] ys m = refl
  steps-append (x ∷ xs) ys m =
      ap (λ f. step meaning x m >>= f) (fun_ext λ m'. steps-append xs ys m')
      ∙ bind_assoc_option (step meaning x m) (steps meaning xs) (steps meaning ys)

  -- `code` pushes the words `ws`, the first one first, and leaves the world `world`.
  abbrev pub Pushes : List StmtKind → Frame target → List target.Word → target.World → Type 0
  Pushes code m ws world =
      steps meaning code m ≡ some (record m { stack = reverse ws ++ m.stack; world = world })

  steps-after :
      (xs ys : List StmtKind) (m m₁ m₂ : Frame target)
      → steps meaning xs m ≡ some m₁
      → steps meaning ys m₁ ≡ some m₂
      → steps meaning (xs ++ ys) m ≡ some m₂
  steps-after xs ys m m₁ m₂ h k = steps-append xs ys m ∙ (rw h k)

  steps_call :
      (vs : List target.Word) (count : ℕ) (f w : target.Word) (world : target.World)
      (m : Frame target)
      → length vs ≡ count
      → target.call f vs m.world ≡ some (w, world)
      → steps meaning (call count ∷ []) (record m { stack = f ∷ (vs ++ m.stack) })
        ≡ some (record m { stack = w ∷ m.stack; world = world })
  unfolding steps step
  steps_call vs count f w world m n h =
      rw (← n, take-append vs m.stack, h, pop_words-append vs m.stack) refl

  steps_binary :
      (op : Mir.BinaryOp) (v w u : target.Word) (m : Frame target)
      → operation target op v w ≡ some u
      → steps meaning (binary op ∷ []) (record m { stack = w ∷ v ∷ m.stack })
        ≡ some (record m { stack = u ∷ m.stack })
  unfolding steps step
  steps_binary op v w u m h = rw h refl

  -- What something means where the locals hold what the first argument says.
  abbrev pub Value : Type 0
  Value = (ℕ → Option target.Word) → target.World → Option (target.Word × target.World)

  abbrev pub Values : Type 0
  Values = (ℕ → Option target.Word) → target.World → Option (List target.Word × target.World)

  -- `gen'` is `gen` with code at the end of the current block that computes what `value` says.
  abbrev pub Computes : FnMirGen → FnMirGen → Value → Type 0
  Computes gen gen' value =
      (code : List StmtKind) × (gen' ≡ extended code gen)
      × ((m : Frame target) (w : target.Word) (world : target.World)
          → value m.locals m.world ≡ some (w, world)
          → Pushes code m (w ∷ []) world)

  -- The same for arguments.
  abbrev pub ComputesAll : FnMirGen → FnMirGen → ℕ → Values → Type 0
  ComputesAll gen gen' count value =
      (code : List StmtKind) × (gen' ≡ extended code gen)
      × ((m : Frame target) (ws : List target.Word) (world : target.World)
          → value m.locals m.world ≡ some (ws, world)
          → Pushes code m ws world × (length ws ≡ count))

  pushed :
      (m : Frame target) (p q : target.Word × target.World)
      → some p ≡ some q
      → some (record m { stack = p.0 ∷ m.stack; world = p.1 })
        ≡ some (record m { stack = q.0 ∷ m.stack; world = q.1 })
  pushed m p q h = ap (λ r. some (record m { stack = r.0 ∷ m.stack; world = r.1 })) (eq_of_some h)

  pub push_code :
      (val : Val) (ty : Ty) (gen : FnMirGen)
      → Computes gen (push_stmt (push val ty) gen) (λ memory world. some (word meaning val, world))
  unfolding push_stmt steps step
  push_code val ty gen =
      (push val ty ∷ [], refl, λ m w world e. pushed m (word meaning val, m.world) (w, world) e)

  pub load_code :
      (local : Local) (gen : FnMirGen)
      → Computes gen
          (push_stmt (load local) gen)
          (λ memory world. memory local.id >>= λ w. some (w, world))
  unfolding push_stmt steps step
  load_code local gen = (
    load local ∷ [],
    refl,
    λ m w world e.
        let (v, ev, e') = >>=-eq-some (m.locals local.id) _ e in
        rw ev (pushed m (v, m.world) (w, world) e'),
  )

  extended-twice :
      (xs ys : List StmtKind) (gen gen₁ gen₂ : FnMirGen)
      → gen₁ ≡ extended xs gen
      → gen₂ ≡ extended ys gen₁
      → gen₂ ≡ extended (xs ++ ys) gen
  extended-twice xs ys gen gen₁ gen₂ h k = k ∙ ap (extended ys) h ∙ extended-extended xs ys gen

  pub call_code :
      (gen gen₁ gen₂ : FnMirGen) (count : ℕ) (args : Values) (callee : Value)
      → ComputesAll gen gen₁ count args
      → Computes gen₁ gen₂ callee
      → Computes gen (push_stmt (call count) gen₂) (λ memory world.
        args memory world >>= λ p. callee memory p.1 >>= λ q. target.call q.0 (reverse p.0) q.1)
  unfolding push_stmt
  call_code gen gen₁ gen₂ count args callee (xs, gx, cx) (ys, gy, cy) = (
    xs ++ ys ++ (call count ∷ []),
    extended-twice (xs ++ ys) (call count ∷ []) gen gen₂ _
        (extended-twice xs ys gen gen₁ gen₂ gx gy) refl,
    λ m w world e.
        let ((ws, world₁), ea, e') = >>=-eq-some (args m.locals m.world) _ e in
        let ((f, world₂), ec, e'') = >>=-eq-some (callee m.locals world₁) _ e' in
        let (pushed_args, count_eq) = cx m ws world₁ ea in
        let m₁ : Frame target = record m { stack = reverse ws ++ m.stack; world = world₁ } in
        let m₂ : Frame target = record m { world = world₂ } in
        steps-after (xs ++ ys) (call count ∷ []) m
          (record m₂ { stack = f ∷ (reverse ws ++ m.stack) }) _
          (steps-after xs ys m m₁ _ pushed_args (cy m₁ f world₂ ec))
          (steps_call (reverse ws) count f w world m₂ (length-reverse ws ∙ count_eq) e''),
  )

  pub binary_code :
      (gen gen₁ gen₂ : FnMirGen) (op : Mir.BinaryOp)
      (combine : target.Word → target.Word → Option target.Word) (left right : Value)
      → ((a b : target.Word) → combine a b ≡ operation target op a b)
      → Computes gen gen₁ left
      → Computes gen₁ gen₂ right
      → Computes gen (push_stmt (binary op) gen₂) (λ memory world.
        left memory world >>= λ p. right memory p.1 >>= λ q. combine p.0 q.0 >>= λ w. some (w, q.1))
  unfolding push_stmt
  binary_code gen gen₁ gen₂ op combine left right same (xs, gx, cx) (ys, gy, cy) = (
    xs ++ ys ++ (binary op ∷ []),
    extended-twice (xs ++ ys) (binary op ∷ []) gen gen₂ _ (extended-twice xs ys gen gen₁ gen₂ gx gy)
        refl,
    λ m w world e.
        let ((u, world₁), el, e₁) = >>=-eq-some (left m.locals m.world) _ e in
        let ((v, world₂), er, e₂) = >>=-eq-some (right m.locals world₁) _ e₁ in
        let (r, eb, e₃) = >>=-eq-some (combine u v) _ e₂ in
        let m₁ : Frame target = record m { stack = u ∷ m.stack; world = world₁ } in
        let m₂ : Frame target = record m { world = world₂ } in
        steps-after (xs ++ ys) (binary op ∷ []) m (record m₂ { stack = v ∷ u ∷ m.stack }) _
          (steps-after xs ys m m₁ _ (cx m u world₁ el) (cy m₁ v world₂ er))
          (steps_binary op u v r m₂ (sym (same u v) ∙ eb) ∙ pushed m (r, world₂) (w, world) e₃),
  )

  pub arg_code :
      (gen gen₁ gen₂ : FnMirGen) (count : ℕ) (arg : Value) (args : Values)
      → Computes gen gen₁ arg
      → ComputesAll gen₁ gen₂ count args
      → ComputesAll gen gen₂
          (suc count)
          (λ memory world. arg memory world >>= λ p. args memory p.1 >>= λ q. some (p.0 ∷ q.0, q.1))
  arg_code gen gen₁ gen₂ count arg args (xs, gx, cx) (ys, gy, cy) = (
    xs ++ ys,
    extended-twice xs ys gen gen₁ gen₂ gx gy,
    λ m ws world e.
        let ((w, world₁), ea, e₁) = >>=-eq-some (arg m.locals m.world) _ e in
        let ((rest, world₂), er, e₂) = >>=-eq-some (args m.locals world₁) _ e₁ in
        let m₁ : Frame target = record m { stack = w ∷ m.stack; world = world₁ } in
        let (pushed_rest, count_eq) = cy m₁ rest world₂ er in
        subst (λ p. Pushes (xs ++ ys) m p.0 p.1 × (length p.0 ≡ suc count)) (eq_of_some e₂)
          (
            steps-after xs ys m m₁ _ (cx m w world₁ ea) (
                rw (reverse-cons w rest, append_assoc (reverse rest) (w ∷ []) m.stack) pushed_rest),
            ap suc count_eq,
          ),
  )

  pub no_args_code : (gen : FnMirGen) → ComputesAll gen gen 0 (λ memory world. some ([], world))
  unfolding steps
  no_args_code gen = (
    [],
    ap (λ bs. record gen { blocks = bs }) (sym (append_to-nil gen.current_block gen.blocks)),
    λ m ws world e. subst (λ p. Pushes [] m p.0 p.1 × (length p.0 ≡ 0)) (eq_of_some e) (refl, refl),
  )
