-- ===== src/Front/Types.antt =====
-- `assignable` and `resolveTys` of the class `Checker` of sbc/front.ts. The message of a refusal is left out.
use h4_projekt_gruppe_0_sm.Prelude.{
  Bool, true, false, not, Option, none, some, if◌then◌else◌, ◌==◌, ◌≡◌, refl, ==-self, Bool-cases,
  inl, inr,
}
use h4_projekt_gruppe_0_sm.Ast.{stmt_id}
use h4_projekt_gruppe_0_sm.Ty.{Ty, error, unknown, void, int, str, ptr, fn}

unfoldable pub assignable : Ty → Ty → Bool
assignable error error = true
assignable unknown unknown = true
assignable void void = true
assignable int int = true
assignable str str = true
assignable (ptr a) (ptr b) = true
assignable (fn s params ty) (fn t params' ty') = stmt_id s == stmt_id t
assignable _ _ = false

-- `none` is the result that is not `ok`.
unfoldable pub resolve_tys : Ty → Ty → Option Ty
resolve_tys error b = some error
resolve_tys a error = some a
resolve_tys void void = some void
resolve_tys int int = some int
resolve_tys str str = some str
resolve_tys (ptr a) (ptr b) = elim (resolve_tys a b) [ none ↦ none | some _ ↦ some (ptr a) ]
resolve_tys (fn s params ty) (fn t params' ty') =
    if not (stmt_id s == stmt_id t) then some (fn s params ty) else none
resolve_tys _ _ = none

-- Below any pointers there is neither a function nor `unknown`.
unfoldable pub is_resolvable : Ty → Bool
is_resolvable unknown = false
is_resolvable (fn s params ty) = false
is_resolvable (ptr a) = is_resolvable a
is_resolvable _ = true

-- `resolveTys` of a type with itself is that type, but for `unknown` and the type of a function, and
-- pointers to these, which it refuses.
pub resolve_tys_self : (t : Ty) → resolve_tys t t ≡ (if is_resolvable t then some t else none)
unfolding resolve_tys is_resolvable
resolve_tys_self error = refl
resolve_tys_self unknown = refl
resolve_tys_self void = refl
resolve_tys_self int = refl
resolve_tys_self str = refl
resolve_tys_self (ptr a) = elim (Bool-cases (is_resolvable a)) [
  | inl h ↦ rw (resolve_tys_self a, h) refl
  | inr h ↦ rw (resolve_tys_self a, h) refl
]
resolve_tys_self (fn s params ty) = rw (==-self (stmt_id s)) refl
