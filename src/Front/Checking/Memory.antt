-- ===== src/Front/Checking/Memory.antt =====
-- What `Checker` of sbc/front.ts remembers, from one question to the next.
pub mod Questions
use h4_projekt_gruppe_0_sm.Prelude.{
  ℕ, zero, suc, ◌&&◌, ◌≢◌, Bool, true, false, List, [], ◌∷◌, Option, none, some, if◌then◌else◌,
  ◌==◌, NumMap, map_get, map_set, map_get-map_set, ◌≡◌, refl, ap, str_eq, ne→==-false,
}
use h4_projekt_gruppe_0_sm.Prelude.Fueled.{Fueled, out_of_fuel, thrown, done, ◌>>=◌, present}
use h4_projekt_gruppe_0_sm.Ast as Ast
use h4_projekt_gruppe_0_sm.Ast.{
  mk_ty, TyKind, Expr, mk_expr, ExprKind, Exprs, exprs_length, Stmt, mk_stmt, StmtKind, Param,
  LetStmt, BinaryOp,
}
use h4_projekt_gruppe_0_sm.Ty.{Ty, int, fn}
use h4_projekt_gruppe_0_sm.Front.{Resolve, Resols}
use h4_projekt_gruppe_0_sm.Front.Types.{assignable}
use h4_projekt_gruppe_0_sm.Front.Checking.{
  Memo, Asked, remember_ty, remember_stmt, remember_expr, remembered, ty_ty, ty_ty_kind, param_tys,
  fn_stmt_ty, param_of, param_ty, tys_length, check_args, is_typed, let_ty, inferred, ask_optional,
  arg_tys, call_ty, new_let_ty, resolved_ty, expr_kind_ty, expr_ty, let_stmt_ty,
}

-- `n` has the entries of `m`.
abbrev pub Extends : NumMap Ty → NumMap Ty → Type 0
Extends m n = (id : ℕ) (ty : Ty) → map_get m id ≡ some ty → map_get n id ≡ some ty

pub record Keeps (memo memo' : Memo) : Type 0 where
  pub stmts : Extends memo.stmt_tys memo'.stmt_tys
  pub exprs : Extends memo.expr_tys memo'.expr_tys
  pub tys : Extends memo.ty_tys memo'.ty_tys

pub Keeps-refl : (memo : Memo) → Keeps memo memo
Keeps-refl memo = record { stmts = λ id ty h. h; exprs = λ id ty h. h; tys = λ id ty h. h }

pub Keeps-trans : (a b c : Memo) → Keeps a b → Keeps b c → Keeps a c
Keeps-trans a b c h k = record {
  stmts = λ id ty e. k.stmts id ty (h.stmts id ty e);
  exprs = λ id ty e. k.exprs id ty (h.exprs id ty e);
  tys = λ id ty e. k.tys id ty (h.tys id ty e);
}

-- What a question does to the memory, if it is answered.
abbrev pub Grows {ℓ} : {A : Type ℓ} → Memo → Fueled (A × Memo) → Type 0
Grows memo (done (a, memo')) = Keeps memo memo'
Grows memo (thrown message) = Unit
Grows memo out_of_fuel = Unit

pub Grows-bind :
    {A B : Type 0} (memo : Memo) (m : Fueled (A × Memo)) (f : A × Memo → Fueled (B × Memo))
    → Grows memo m
    → ((a : A) (memo' : Memo) → Grows memo' (f (a, memo')))
    → Grows memo (m >>= f)
Grows-bind memo out_of_fuel f h k = tt
Grows-bind memo (thrown message) f h k = tt
Grows-bind {B = B} memo (done (a, memo₁)) f h k = after (f (a, memo₁)) (k a memo₁)
  where
    after : (r : Fueled (B × Memo)) → Grows memo₁ r → Grows memo r
    after out_of_fuel g = tt
    after (thrown message) g = tt
    after (done (b, memo₂)) g = Keeps-trans memo memo₁ memo₂ h g

-- A step that does not touch the memory.
pub Grows-pure :
    {A B : Type 0} (memo : Memo) (m : Fueled A) (f : A → Fueled (B × Memo))
    → ((a : A) → Grows memo (f a))
    → Grows memo (m >>= f)
Grows-pure memo out_of_fuel f k = tt
Grows-pure memo (thrown message) f k = tt
Grows-pure memo (done a) f k = k a

pub Grows-if :
    {A : Type 0} (memo : Memo) (b : Bool) (l r : Fueled (A × Memo))
    → Grows memo l
    → Grows memo r
    → Grows memo (if b then l else r)
Grows-if memo true l r h k = h
Grows-if memo false l r h k = k

-- An entry for a number that had none.
Extends-map_set :
    (m n : NumMap Ty) (id : ℕ) (ty : Ty)
    → map_get m id ≡ none
    → Extends m n
    → Extends m (map_set n id ty)
Extends-map_set m n id ty new h j t e =
    rw (map_get-map_set n id j ty, ne→==-false id j differs) (h j t e)
  where
    differs : id ≢ j
    differs same = cc (ap (map_get m) same, new, e)

pub Grows-remember_ty :
    (memo : Memo) (id : ℕ) (r : Fueled (Ty × Memo))
    → map_get memo.ty_tys id ≡ none
    → Grows memo r
    → Grows memo (r >>= remember_ty id)
unfolding remember_ty
Grows-remember_ty memo id out_of_fuel new h = tt
Grows-remember_ty memo id (thrown message) new h = tt
Grows-remember_ty memo id (done (ty, memo')) new h = record {
  stmts = h.stmts;
  exprs = h.exprs;
  tys = Extends-map_set memo.ty_tys memo'.ty_tys id ty new h.tys;
}

pub Grows-remember_stmt :
    (memo : Memo) (id : ℕ) (r : Fueled (Ty × Memo))
    → map_get memo.stmt_tys id ≡ none
    → Grows memo r
    → Grows memo (r >>= remember_stmt id)
unfolding remember_stmt
Grows-remember_stmt memo id out_of_fuel new h = tt
Grows-remember_stmt memo id (thrown message) new h = tt
Grows-remember_stmt memo id (done (ty, memo')) new h = record {
  stmts = Extends-map_set memo.stmt_tys memo'.stmt_tys id ty new h.stmts;
  exprs = h.exprs;
  tys = h.tys;
}

pub Grows-remember_expr :
    (memo : Memo) (id : ℕ) (r : Fueled (Ty × Memo))
    → map_get memo.expr_tys id ≡ none
    → Grows memo r
    → Grows memo (r >>= remember_expr id)
unfolding remember_expr
Grows-remember_expr memo id out_of_fuel new h = tt
Grows-remember_expr memo id (thrown message) new h = tt
Grows-remember_expr memo id (done (ty, memo')) new h = record {
  stmts = h.stmts;
  exprs = Extends-map_set memo.expr_tys memo'.expr_tys id ty new h.exprs;
  tys = h.tys;
}

-- A question that is asked only when there is no answer yet.
pub Grows-remembered :
    (memo : Memo) (found : Option Ty) (ask : Asked Ty)
    → (found ≡ none → Grows memo (ask memo))
    → Grows memo (remembered found ask memo)
Grows-remembered memo (some ty) ask h = Keeps-refl memo
Grows-remembered memo none ask h = h refl
