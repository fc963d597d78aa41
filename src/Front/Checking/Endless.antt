-- ===== src/Front/Checking/Endless.antt =====
-- A `let` whose value is its own name, under `Resolver` and `Checker` of sbc/front.ts.
use h4_projekt_gruppe_0_sm.Prelude.{
  ℕ, zero, suc, String, none, some, map_get, map_set, map_get-map_set, ◌≡◌, refl, ==-self, eq_iff,
  ok,
}
use h4_projekt_gruppe_0_sm.Prelude.Fueled.{out_of_fuel}
use h4_projekt_gruppe_0_sm.Ast.{Expr, mk_expr, ExprKind, Stmt, mk_stmt, StmtKind}
use h4_projekt_gruppe_0_sm.Front as Front
use h4_projekt_gruppe_0_sm.Front.{Resolve, Resols}
use h4_projekt_gruppe_0_sm.Front.Syms.{val, define_val, val-define_val}
use h4_projekt_gruppe_0_sm.Front.Resolver.{Resolver, resolve_stmt, resolve_expr, define}
use h4_projekt_gruppe_0_sm.Front.Checking.{Memo, new_let_ty, expr_kind_ty, resolved_ty, let_stmt_ty}

-- `let ident = ident;`
abbrev pub self_value : ℕ → ℕ → String → Expr
self_value id line ident = mk_expr id line (ExprKind.ident ident)

abbrev pub self_let : ℕ → ℕ → ℕ → String → Stmt
self_let id line value_id ident = mk_stmt id line (
    StmtKind.let_
      (record { ident = ident; ty = none; expr = some (self_value value_id line ident) }))

abbrev pub resols : Resolver → Resols
resols r = record { stmt_resols = r.stmt_resols; expr_resols = r.expr_resols }

module _ (re : Resols) (id line value_id : ℕ) (ident : String) (memo : Memo) where
  let_stmt_ty_endless :
      (fuel : ℕ)
      → Front.expr re (self_value value_id line ident)
        ≡ some (Resolve.let_ (self_let id line value_id ident))
      → map_get memo.stmt_tys id ≡ none
      → map_get memo.expr_tys value_id ≡ none
      → let_stmt_ty re fuel (self_let id line value_id ident) memo ≡ out_of_fuel
  unfolding let_stmt_ty new_let_ty expr_kind_ty resolved_ty
  let_stmt_ty_endless zero h s e = refl
  let_stmt_ty_endless (suc zero) h s e = rw s refl
  let_stmt_ty_endless (suc (suc fuel)) h s e =
      rw s (rw e (rw h (rw (let_stmt_ty_endless fuel h s e) refl)))

-- The resolver takes the value of `let x = x` for that very `let`. Where the checker remembers a type of
-- neither, it asks for the type of one to know that of the other: whatever fuel it is given, it uses it up.
pub let_stmt_ty-resolve_stmt :
    (r : Resolver) (id line value_id : ℕ) (ident : String) (memo : Memo)
    → map_get memo.stmt_tys id ≡ none
    → map_get memo.expr_tys value_id ≡ none
    → (r' : Resolver) × (resolve_stmt (self_let id line value_id ident) r ≡ ok r')
      × ((fuel : ℕ)
          → let_stmt_ty (resols r') fuel (self_let id line value_id ident) memo ≡ out_of_fuel)
unfolding resolve_stmt define Front.expr resolve_expr
let_stmt_ty-resolve_stmt r id line value_id ident memo s e =
    let self = Resolve.let_ (self_let id line value_id ident) in
    let r' : Resolver = record r {
      syms = define_val ident self r.syms;
      expr_resols = map_set r.expr_resols value_id self;
    } in
    let defined : val (define_val ident self r.syms) ident ≡ some self =
      rw (val-define_val r.syms ident ident self, (eq_iff ident ident).1 refl) refl in
    (
      r',
      rw (defined) refl,
      λ fuel.
          let_stmt_ty_endless (resols r') id line value_id ident memo fuel
            (rw (map_get-map_set r.expr_resols value_id value_id self, ==-self value_id) refl) s e,
    )
