-- ===== src/Front/Parser/Progress.antt =====
-- The tokens that the rules of `Parser` of sbc/front.ts use up, and the fuel that is enough for them.
pub mod Expressions
pub mod Statements
pub mod Blocks
use h4_projekt_gruppe_0_sm.Prelude.{
  ℕ, zero, suc, ◌<◌, ◌≤◌, String, Bool, true, false, ◌||◌, length, List, [], ◌∷◌, Option, none,
  some, Option-cases, inl, inr, if◌then◌else◌, ◌≡◌, refl, arith,
}
use h4_projekt_gruppe_0_sm.Prelude.Fueled.{Fueled, out_of_fuel, thrown, done, ◌>>=◌, present}
use h4_projekt_gruppe_0_sm.Front.Parser.{
  Tok, Parser, Rule, is_done, test, step, eat, required, tail, more_items, items,
}

abbrev pub left : Parser → ℕ
left p = length p.toks

-- The rule ends, and if it does not throw, with fewer than `n` tokens left.
unfoldable pub Ends : {A : Type 0} → ℕ → Fueled (A × Parser) → Type 0
Ends n out_of_fuel = ⊥
Ends n (thrown message) = Unit
Ends n (done (a, p)) = left p < n

pub Ends-bind :
    {A B : Type 0} (n k : ℕ) (m : Fueled (A × Parser)) (f : A × Parser → Fueled (B × Parser))
    → Ends n m
    → ((a : A) (p : Parser) → left p < n → Ends k (f (a, p)))
    → Ends k (m >>= f)
unfolding Ends
Ends-bind n k out_of_fuel f h g = h
Ends-bind n k (thrown message) f h g = tt
Ends-bind n k (done (a, p)) f h g = g a p h

pub Ends-weaken : {A : Type 0} (n k : ℕ) (m : Fueled (A × Parser)) → n ≤ k → Ends n m → Ends k m
unfolding Ends
Ends-weaken n k out_of_fuel l h = h
Ends-weaken n k (thrown message) l h = tt
Ends-weaken n k (done (a, p)) l h = omega arith

pub Ends-present :
    {A B : Type 0} (k : ℕ) (message : String) (o : Option A) (f : A → Fueled (B × Parser))
    → ((a : A) → Ends k (f a))
    → Ends k (present message o >>= f)
unfolding Ends
Ends-present k message none f g = tt
Ends-present k message (some a) f g = g a

pub Ends-done : {A : Type 0} (k : ℕ) (a : A) (p : Parser) → left p < k → Ends k (done (a, p))
unfolding Ends
Ends-done k a p h = h

pub Ends-thrown : (A : Type 0) (k : ℕ) (message : String) → Ends {A = A} k (thrown message)
unfolding Ends
Ends-thrown A k message = tt

pub Ends-if :
    {A : Type 0} (k : ℕ) (c : Bool) (m n : Fueled (A × Parser))
    → Ends k m
    → Ends k n
    → Ends k (if c then m else n)
Ends-if k true m n h g = h
Ends-if k false m n h g = g

-- A token that is eaten is one less.
pub eat-lt : (type : String) (p p₁ : Parser) → eat type p ≡ some p₁ → left p₁ < left p
unfolding eat
eat-lt type p p₁ h = by_toks p.toks refl
  where
    by_toks : (toks : List Tok) → p.toks ≡ toks → left p₁ < left p
    by_toks [] e = ground (arith, h, e)
    by_toks (tok ∷ toks) e = ground (arith, h, e)

pub Ends-eat :
    {A : Type 0} (k : ℕ) (type : String) (p : Parser) (eaten : Parser → Fueled (A × Parser))
    (other : Fueled (A × Parser))
    → ((p₁ : Parser) → left p₁ < left p → Ends k (eaten p₁))
    → Ends k other
    → Ends k (elim (eat type p) [ some p₁ ↦ eaten p₁ | none ↦ other ])
Ends-eat k type p eaten other h g = elim (Option-cases (eat type p)) [
  | inl missing ↦ rw missing g
  | inr (p₁, found) ↦ rw found (h p₁ (eat-lt type p p₁ found))
]

pub Ends-required :
    {A : Type 0} (k : ℕ) (type : String) (p : Parser) (f : Parser → Fueled (A × Parser))
    → ((p₁ : Parser) → left p₁ < left p → Ends k (f p₁))
    → Ends k (required type p >>= f)
unfolding required
Ends-required k type p f h = elim (Option-cases (eat type p)) [
  | inl missing ↦ rw missing (Ends-thrown _ k type)
  | inr (p₁, found) ↦ rw found (h p₁ (eat-lt type p p₁ found))
]

-- A rule with fewer than `n` tokens before it uses one of them at least.
abbrev pub Advances : {A : Type 0} → ℕ → Rule A → Type 0
Advances n rule = (p : Parser) → left p < n → Ends (left p) (rule p)

module _ {A : Type 0} (item : Rule A) (bound : ℕ) (item-Advances : Advances bound item) where
  more_items-Ends :
      (fuel : ℕ) (p : Parser)
      → left p < fuel
      → left p < bound
      → Ends (suc (left p)) (more_items item fuel p)
  unfolding more_items
  more_items-Ends zero p h b = ground arith
  more_items-Ends (suc fuel) p h b = Ends-if _ _ _ _ (Ends-done _ _ p (omega arith)) (
      Ends-required _ "," p _ (λ p₁ l₁. Ends-if _ _ _ _ (Ends-done _ _ p₁ (omega arith)) (
        Ends-bind (left p₁) _ (item p₁) _ (item-Advances p₁ (omega arith)) (λ a p₂ l₂.
          Ends-bind (suc (left p₂)) _ (more_items item fuel p₂) _
            (more_items-Ends fuel p₂ (omega arith) (omega arith))
            (λ rest p₃ l₃. Ends-done _ _ p₃ (omega arith))))))

  pub items-Ends :
      (fuel : ℕ) (p : Parser)
      → left p < fuel
      → left p < bound
      → Ends (suc (left p)) (items item fuel p)
  unfolding items
  items-Ends fuel p h b = Ends-if _ _ _ _ (Ends-done _ _ p (omega arith)) (
      Ends-bind (left p) _ (item p) _ (item-Advances p b) (λ a p₁ l₁.
        Ends-bind (suc (left p₁)) _ (more_items item fuel p₁) _
          (more_items-Ends fuel p₁ (omega arith) (omega arith))
          (λ rest p₂ l₂. Ends-done _ _ p₂ (omega arith))))
