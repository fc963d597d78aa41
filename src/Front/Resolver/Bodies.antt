-- ===== src/Front/Resolver/Bodies.antt =====
-- The names in the body of a function, by the scopes that `Resolver` of sbc/front.ts makes for it.
use h4_projekt_gruppe_0_sm.Prelude.{
  ℕ, suc, String, Bool, true, false, List, [], ◌∷◌, ◌++◌, map, Option, none, some, if◌then◌else◌,
  str_eq, ◌≡◌, refl, ap, sym, ◌∙◌, Option-cases, inl, inr,
}
use h4_projekt_gruppe_0_sm.Ast.{Stmt, Param}
use h4_projekt_gruppe_0_sm.Front.{Resolve}
use h4_projekt_gruppe_0_sm.Front.Syms.{
  Syms, StrMap, str_get, is_let, val, define_val, val-define_val,
}
use h4_projekt_gruppe_0_sm.Front.Resolver.{define_params}

-- The scopes of blocks with the tables `tables`, each inside of the next one, and all inside of `syms`.
abbrev pub blocks : List StrMap → Syms → Syms
blocks [] syms = syms
blocks (table ∷ tables) syms = Syms.normal table (blocks tables syms)

-- The first one that there is.
abbrev pub first : List (Option Resolve) → Option Resolve
first [] = none
first (none ∷ rest) = first rest
first (some re ∷ rest) = some re

-- The last one of the parameters of the function `stmt`, numbered from `i` on, that has the name `ident`.
unfoldable pub param_named : Stmt → ℕ → List Param → String → Option Resolve
param_named stmt i [] ident = none
param_named stmt i (param ∷ params) ident = first (
    param_named stmt (suc i) params ident
    ∷ (if str_eq param.ident ident then some (Resolve.param stmt param i) else none)
    ∷ [])

-- What is no `let`.
abbrev pub unless_let : Option Resolve → Option Resolve
unless_let none = none
unless_let (some re) = if is_let re then none else some re

first_assoc :
    (a b : Option Resolve) (rest : List (Option Resolve))
    → first (first (a ∷ b ∷ []) ∷ rest) ≡ first (a ∷ b ∷ rest)
first_assoc none none rest = refl
first_assoc none (some re) rest = refl
first_assoc (some re) b rest = refl

first_if :
    (c : Bool) (a o : Option Resolve) (re : Resolve)
    → first (a ∷ (if c then some re else o) ∷ [])
      ≡ first (a ∷ (if c then some re else none) ∷ o ∷ [])
first_if true none o re = refl
first_if true (some r) o re = refl
first_if false none none re = refl
first_if false none (some r) re = refl
first_if false (some r) o re = refl

first_single : (a : Option Resolve) → first (a ∷ []) ≡ a
first_single none = refl
first_single (some re) = refl

val-define_params :
    (stmt : Stmt) (i : ℕ) (params : List Param) (syms : Syms) (ident : String)
    → val (define_params stmt i params syms) ident
      ≡ first (param_named stmt i params ident ∷ val syms ident ∷ [])
unfolding define_params param_named
val-define_params stmt i [] syms ident = sym (first_single (val syms ident))
val-define_params stmt i (param ∷ params) syms ident =
    let re : Resolve = Resolve.param stmt param i in
    val-define_params stmt (suc i) params (define_val param.ident re syms) ident
    ∙ ap (λ o. first (param_named stmt (suc i) params ident ∷ o ∷ []))
        (val-define_val syms param.ident ident re)
    ∙ first_if (str_eq param.ident ident) (param_named stmt (suc i) params ident) (val syms ident)
        re
    ∙ sym (
        first_assoc (param_named stmt (suc i) params ident)
          (if str_eq param.ident ident then some re else none) (val syms ident ∷ []))

first_rest :
    (a : Option Resolve) (rest : List (Option Resolve))
    → first (a ∷ first rest ∷ []) ≡ first (a ∷ rest)
first_rest none rest = first_single (first rest)
first_rest (some re) rest = refl

val-normal :
    (table : StrMap) (syms : Syms) (ident : String)
    → val (Syms.normal table syms) ident ≡ first (str_get table ident ∷ val syms ident ∷ [])
unfolding val
val-normal table syms ident = elim (Option-cases (str_get table ident)) [
  | inl e ↦ rw (e, val) (sym (first_single (val syms ident)))
  | inr (re, e) ↦ rw (e, val) refl
]

val-fn :
    (parent : Syms) (ident : String) → val (Syms.fn [] parent) ident ≡ unless_let (val parent ident)
unfolding val str_get
val-fn parent ident = elim (Option-cases (val parent ident)) [
  | inl e ↦ rw e refl
  | inr (re, e) ↦ rw e refl
]

-- In the body of a function, inside of any blocks of it, a name resolves by the innermost block that has it;
-- else to the last parameter of that name; and else to what it does where the function stands, but not to a
-- `let` of there.
pub val-define_params_fn :
    (tables : List StrMap) (stmt : Stmt) (params : List Param) (parent : Syms) (ident : String)
    → val (blocks tables (define_params stmt 0 params (Syms.fn [] parent))) ident
      ≡ first (
          map (λ table. str_get table ident) tables
          ++ (param_named stmt 0 params ident ∷ unless_let (val parent ident) ∷ []))
val-define_params_fn [] stmt params parent ident =
    val-define_params stmt 0 params (Syms.fn [] parent) ident
    ∙ ap (λ o. first (param_named stmt 0 params ident ∷ o ∷ [])) (val-fn parent ident)
val-define_params_fn (table ∷ tables) stmt params parent ident =
    val-normal table (blocks tables (define_params stmt 0 params (Syms.fn [] parent))) ident
    ∙ ap (λ o. first (str_get table ident ∷ o ∷ []))
        (val-define_params_fn tables stmt params parent ident)
    ∙ first_rest (str_get table ident) _
