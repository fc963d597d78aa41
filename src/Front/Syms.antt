-- ===== src/Front/Syms.antt =====
-- `RootSyms`, `FnSyms` and `NormalSyms` of sbc/front.ts: scopes of names, with the scope around each.
use h4_projekt_gruppe_0_sm.Prelude.{
  String, Bool, true, false, List, [], ◌∷◌, Option, none, some, if◌then◌else◌, ◌≡◌, refl, str_eq,
  eq_iff, Bool-cases, inl, inr, arith,
}
use h4_projekt_gruppe_0_sm.Front.{Resolve}

-- A JavaScript `Map` from strings.
abbrev pub StrMap : Type 0
StrMap = List (String × Resolve)

unfoldable pub str_get : StrMap → String → Option Resolve
str_get [] ident = none
str_get ((key, re) ∷ entries) ident =
    let later = str_get entries ident in if str_eq key ident then some re else later

unfoldable pub str_set : StrMap → String → Resolve → StrMap
str_set [] ident new = (ident, new) ∷ []
str_set ((key, re) ∷ entries) ident new =
    let later = str_set entries ident new in
    if str_eq key ident then (key, new) ∷ entries else (key, re) ∷ later

pub data Syms : Type 0 where
  root : StrMap → Syms
  fn normal : StrMap → Syms → Syms

abbrev pub is_let : Resolve → Bool
is_let (Resolve.let_ stmt) = true
is_let _ = false

-- `val(ident)`
unfoldable pub val : Syms → String → Option Resolve
unfolding str_get
val (root entries) ident = str_get entries ident
val (fn entries parent) ident =
    let outer = val parent ident in
    elim (str_get entries ident) [
      | some re ↦ some re
      | none ↦ elim outer [ none ↦ none | some re ↦ if is_let re then none else some re ]
    ]
val (normal entries parent) ident =
    let outer = val parent ident in
    elim (str_get entries ident) [ some re ↦ some re | none ↦ outer ]

-- `defineVal(ident, re)`
unfoldable pub define_val : String → Resolve → Syms → Syms
unfolding str_set
define_val ident re (root entries) = root (str_set entries ident re)
define_val ident re (fn entries parent) = fn (str_set entries ident re) parent
define_val ident re (normal entries parent) = normal (str_set entries ident re) parent

str_get-str_set :
    (entries : StrMap) (ident other : String) (re : Resolve)
    → str_get (str_set entries ident re) other
      ≡ (if str_eq ident other then some re else str_get entries other)
unfolding str_get str_set
str_get-str_set [] ident other re = refl
str_get-str_set ((key, old) ∷ entries) ident other re = ground (
  arith,
  eq_iff key ident,
  eq_iff ident other,
  eq_iff key other,
  str_get-str_set entries ident other re,
)

-- In each kind of scope, a name that was defined resolves to its definition, and any other name to what
-- it did before.
pub val-define_val :
    (syms : Syms) (ident other : String) (re : Resolve)
    → val (define_val ident re syms) other
      ≡ (if str_eq ident other then some re else val syms other)
unfolding val define_val
val-define_val (root entries) ident other re = str_get-str_set entries ident other re
val-define_val (fn entries parent) ident other re =
    rw (str_get-str_set entries ident other re, val)
      (elim (Bool-cases (str_eq ident other)) [ inl h ↦ rw h refl | inr h ↦ rw h refl ])
val-define_val (normal entries parent) ident other re =
    rw (str_get-str_set entries ident other re, val)
      (elim (Bool-cases (str_eq ident other)) [ inl h ↦ rw h refl | inr h ↦ rw h refl ])
