-- ===== src/Machine/Stack.antt =====
-- The machine that runs MIR: the locals of the function by their ids, and a stack. A control-flow graph
-- is run from block to block, with fuel for the jumps.
use h4_projekt_gruppe_0_sm.Prelude.{
  ℕ, zero, suc, String, List, [], ◌∷◌, Option, none, some, take, ◌≡◌, refl, arith,
}
use h4_projekt_gruppe_0_sm.Ast.{Stmt}
use h4_projekt_gruppe_0_sm.Mir.{
  Val, int, str, fn, StmtKind, error, push, pop, load, store, call, binary,
}
use h4_projekt_gruppe_0_sm.Machine.Target.{Target, operation}
use h4_projekt_gruppe_0_sm.Machine.Registers.{write}

-- The words of the values that MIR names by their content.
pub record Meaning (target : Target) : Type 0 where
  pub text : String → target.Word
  pub code : Stmt → target.Word

module _ (target : Target) where
  pub record Frame : Type 0 where
    pub locals : ℕ → Option target.Word
    pub stack : List target.Word
    pub world : target.World

infixl 5 ◌>>=◌
abbrev pub ◌>>=◌ {ℓ κ} : {A : Type ℓ} {B : Type κ} → Option A → (A → Option B) → Option B
none >>= f = none
some a >>= f = f a

pub >>=-eq-some {ℓ κ} :
    {A : Type ℓ} {B : Type κ} (o : Option A) (f : A → Option B) {b : B}
    → (o >>= f) ≡ some b
    → (a : A) × (o ≡ some a) × (f a ≡ some b)
>>=-eq-some none f h = cc
>>=-eq-some (some a) f h = (a, refl, h)

abbrev pub pop_word {ℓ} : {A : Type ℓ} → List A → Option (A × List A)
pop_word [] = none
pop_word (w ∷ ws) = some (w, ws)

pub pop_word-eq-some {ℓ} :
    {A : Type ℓ} (l : List A) (p : A × List A) → pop_word l ≡ some p → l ≡ p.0 ∷ p.1
pop_word-eq-some [] p h = cc
pop_word-eq-some (w ∷ ws) p h = ground arith

-- `count` words off the stack
unfoldable pub pop_words {ℓ} : {A : Type ℓ} → ℕ → List A → Option (List A)
pop_words zero ws = some ws
pop_words (suc count) [] = none
pop_words (suc count) (w ∷ ws) = pop_words count ws

module _ {target : Target} (meaning : Meaning target) where
  unfoldable pub word : Val → target.Word
  word (int val) = target.int val
  word (str val) = meaning.text val
  word (fn stmt) = meaning.code stmt

  unfoldable pub step : StmtKind → Frame target → Option (Frame target)
  unfolding word pop_words
  step error m = none
  step (push val ty) m = some (record m { stack = word val ∷ m.stack })
  step pop m = pop_word m.stack >>= λ p. some (record m { stack = p.1 })
  step (load local) m = m.locals local.id >>= λ w. some (record m { stack = w ∷ m.stack })
  step (store local) m = pop_word m.stack >>= λ p. m.locals local.id >>= λ _.
      some (record m { locals = write m.locals local.id (some p.0); stack = p.1 })
  step (call args) m = pop_word m.stack >>= λ p. target.call p.0 (take args p.1) m.world >>= λ q.
      pop_words args p.1 >>= λ ws. some (record m { stack = q.0 ∷ ws; world = q.1 })
  step (binary op) m = pop_word m.stack >>= λ p.
      pop_word p.1 >>= λ q. operation target op q.0 p.0 >>= λ w. some (record m { stack = w ∷ q.1 })

  unfoldable pub steps : List StmtKind → Frame target → Option (Frame target)
  unfolding step
  steps [] m = some m
  steps (stmt ∷ stmts) m = step stmt m >>= steps stmts
