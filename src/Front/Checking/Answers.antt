-- ===== src/Front/Checking/Answers.antt =====
-- The answers of `Checker` of sbc/front.ts, which the lowering asks for again and again.
use h4_projekt_gruppe_0_sm.Prelude.{
  ℕ, zero, suc, List, [], ◌∷◌, Option, none, some, map_get, map_set, map_get-map_set, ◌≡◌, refl,
  sym, subst, ==-self, ◌⊎◌, inl, inr,
}
use h4_projekt_gruppe_0_sm.Prelude.Fueled.{Fueled, done, ◌>>=◌, >>=-eq-done}
use h4_projekt_gruppe_0_sm.Ast.{Expr, mk_expr, Stmt, mk_stmt, StmtKind, stmt_id, expr_id}
use h4_projekt_gruppe_0_sm.Ty.{Ty}
use h4_projekt_gruppe_0_sm.Front.{Resols}
use h4_projekt_gruppe_0_sm.Front.Checking.{
  Memo, Asked, remember_stmt, remember_expr, remembered, fn_stmt_ty, param_of, param_ty, expr_ty,
  let_stmt_ty,
}
use h4_projekt_gruppe_0_sm.Front.Checking.Memory.{Keeps, Keeps-refl, Keeps-trans, Grows}
use h4_projekt_gruppe_0_sm.Front.Checking.Memory.Questions.{
  fn_stmt_ty-Grows, param_ty-Grows, expr_ty-Grows, let_stmt_ty-Grows,
}

-- The four questions.
pub data Question : Type 0 where
  fn_stmt : Stmt → Question
  param : Stmt → ℕ → Question
  let_stmt : Stmt → Question
  expr : Expr → Question

unfoldable pub ask : Resols → ℕ → Question → Asked Ty
ask re fuel (fn_stmt s) memo = fn_stmt_ty s memo
ask re fuel (param s i) memo = param_ty s i memo
ask re fuel (let_stmt s) memo = let_stmt_ty re fuel s memo
ask re fuel (expr e) memo = expr_ty re fuel e memo

-- Several, one after the other.
unfoldable pub ask_all : Resols → ℕ → List Question → Memo → Fueled Memo
ask_all re fuel [] memo = done memo
ask_all re fuel (q ∷ qs) memo = ask re fuel q memo >>= λ (ty, memo'). ask_all re fuel qs memo'

answered :
    {A : Type 0} (memo : Memo) (r : Fueled (A × Memo)) (a : A) (memo' : Memo)
    → r ≡ done (a, memo')
    → Grows memo r
    → Keeps memo memo'
answered memo r a memo' h g = subst (Grows memo) h g

ask-Grows : (re : Resols) (fuel : ℕ) (q : Question) (memo : Memo) → Grows memo (ask re fuel q memo)
unfolding ask
ask-Grows re fuel (fn_stmt s) memo = fn_stmt_ty-Grows s memo
ask-Grows re fuel (param s i) memo = param_ty-Grows s i memo
ask-Grows re fuel (let_stmt s) memo = let_stmt_ty-Grows re fuel s memo
ask-Grows re fuel (expr e) memo = expr_ty-Grows re fuel e memo

ask_all-Keeps :
    (re : Resols) (fuel : ℕ) (qs : List Question) (memo memo' : Memo)
    → ask_all re fuel qs memo ≡ done memo'
    → Keeps memo memo'
unfolding ask_all
ask_all-Keeps re fuel [] memo memo' h = subst (Keeps memo) (cc) (Keeps-refl memo)
ask_all-Keeps re fuel (q ∷ qs) memo memo' h =
    let ((ty, memo₁), first, rest) = >>=-eq-done (ask re fuel q memo) _ h in
    Keeps-trans memo memo₁ memo' (answered memo _ ty memo₁ first (ask-Grows re fuel q memo))
      (ask_all-Keeps re fuel qs memo₁ memo' rest)

remembered-eq-done :
    (found : Option Ty) (next : Asked Ty) (memo memo' : Memo) (t : Ty)
    → remembered found next memo ≡ done (t, memo')
    → ((found ≡ some t) × (memo ≡ memo')) ⊎ (next memo ≡ done (t, memo'))
remembered-eq-done (some ty) next memo memo' t h = inl (cc, cc)
remembered-eq-done none next memo memo' t h = inr h

remember_expr-get :
    (id : ℕ) (a : Ty × Memo) (memo' : Memo) (t : Ty)
    → remember_expr id a ≡ done (t, memo')
    → map_get memo'.expr_tys id ≡ some t
unfolding remember_expr
remember_expr-get id (ty, memo) memo' t h =
    rw (← entries) (rw (map_get-map_set memo.expr_tys id id ty, ==-self id) (cc))
  where
    entries : map_set memo.expr_tys id ty ≡ memo'.expr_tys
    entries = cc

remember_stmt-get :
    (id : ℕ) (a : Ty × Memo) (memo' : Memo) (t : Ty)
    → remember_stmt id a ≡ done (t, memo')
    → map_get memo'.stmt_tys id ≡ some t
unfolding remember_stmt
remember_stmt-get id (ty, memo) memo' t h =
    rw (← entries) (rw (map_get-map_set memo.stmt_tys id id ty, ==-self id) (cc))
  where
    entries : map_set memo.stmt_tys id ty ≡ memo'.stmt_tys
    entries = cc

-- What has been answered is in the memory.
expr_ty-remembers :
    (re : Resols) (fuel : ℕ) (e : Expr) (memo memo' : Memo) (t : Ty)
    → expr_ty re fuel e memo ≡ done (t, memo')
    → map_get memo'.expr_tys (expr_id e) ≡ some t
unfolding expr_ty
expr_ty-remembers re zero e memo memo' t h = cc
expr_ty-remembers re (suc fuel) (mk_expr id line kind) memo memo' t h =
    elim (remembered-eq-done (map_get memo.expr_tys id) _ memo memo' t h) [
      | inl (known, same) ↦ rw (← same) known
      | inr new ↦
          let (a, _, last) = >>=-eq-done _ (remember_expr id) new in
          remember_expr-get id a memo' t last
    ]

let_stmt_ty-remembers :
    (re : Resols) (fuel : ℕ) (s : Stmt) (memo memo' : Memo) (t : Ty)
    → let_stmt_ty re fuel s memo ≡ done (t, memo')
    → map_get memo'.stmt_tys (stmt_id s) ≡ some t
unfolding let_stmt_ty
let_stmt_ty-remembers re zero s memo memo' t h = cc
let_stmt_ty-remembers re (suc fuel) (mk_stmt id line (StmtKind.let_ decl)) memo memo' t h =
    elim (remembered-eq-done (map_get memo.stmt_tys id) _ memo memo' t h) [
      | inl (known, same) ↦ rw (← same) known
      | inr new ↦
          let (a, _, last) = >>=-eq-done _ (remember_stmt id) new in
          remember_stmt-get id a memo' t last
    ]
let_stmt_ty-remembers re (suc fuel) (mk_stmt id line _) memo memo' t h = cc

fn_stmt_ty-remembers :
    (s : Stmt) (memo memo' : Memo) (t : Ty)
    → fn_stmt_ty s memo ≡ done (t, memo')
    → map_get memo'.stmt_tys (stmt_id s) ≡ some t
unfolding fn_stmt_ty
fn_stmt_ty-remembers (mk_stmt id line (StmtKind.fn ident attrs params ty body)) memo memo' t h =
    elim (remembered-eq-done (map_get memo.stmt_tys id) _ memo memo' t h) [
      | inl (known, same) ↦ rw (← same) known
      | inr new ↦
          let (a, _, last) = >>=-eq-done _ (remember_stmt id) new in
          remember_stmt-get id a memo' t last
    ]
fn_stmt_ty-remembers (mk_stmt id line _) memo memo' t h = cc

-- Asked once more, of a memory that still has the answer.
fn_stmt_ty_again :
    (s : Stmt) (memo memo₁ memo₂ : Memo) (t : Ty)
    → fn_stmt_ty s memo ≡ done (t, memo₁)
    → Keeps memo₁ memo₂
    → fn_stmt_ty s memo₂ ≡ done (t, memo₂)
unfolding fn_stmt_ty
fn_stmt_ty_again (mk_stmt id line (StmtKind.fn ident attrs params ty body)) memo memo₁ memo₂ t h k =
    let s = mk_stmt id line (StmtKind.fn ident attrs params ty body) in
    rw (k.stmts id t (fn_stmt_ty-remembers s memo memo₁ t h)) refl
fn_stmt_ty_again (mk_stmt id line _) memo memo₁ memo₂ t h k = cc

let_stmt_ty_again :
    (re : Resols) (fuel later : ℕ) (s : Stmt) (memo memo₁ memo₂ : Memo) (t : Ty)
    → let_stmt_ty re fuel s memo ≡ done (t, memo₁)
    → Keeps memo₁ memo₂
    → let_stmt_ty re (suc later) s memo₂ ≡ done (t, memo₂)
unfolding let_stmt_ty
let_stmt_ty_again re fuel later (mk_stmt id line (StmtKind.let_ decl)) memo memo₁ memo₂ t h k =
    rw
      (k.stmts id t
        (let_stmt_ty-remembers re fuel (mk_stmt id line (StmtKind.let_ decl)) memo memo₁ t h))
      refl
let_stmt_ty_again re zero later (mk_stmt id line _) memo memo₁ memo₂ t h k = cc
let_stmt_ty_again re (suc fuel) later (mk_stmt id line _) memo memo₁ memo₂ t h k = cc

ask_again :
    (re : Resols) (fuel later : ℕ) (q : Question) (memo memo₁ memo₂ : Memo) (t : Ty)
    → ask re fuel q memo ≡ done (t, memo₁)
    → Keeps memo₁ memo₂
    → ask re (suc later) q memo₂ ≡ done (t, memo₂)
unfolding ask expr_ty let_stmt_ty param_ty
ask_again re fuel later (fn_stmt s) memo memo₁ memo₂ t h k =
    fn_stmt_ty_again s memo memo₁ memo₂ t h k
ask_again re fuel later (param s i) memo memo₁ memo₂ t h k =
    let ((ty, m), first, rest) = >>=-eq-done (fn_stmt_ty s memo) _ h in
    let (found, is_found, last) = >>=-eq-done (param_of ty i) _ rest in
    rw (fn_stmt_ty_again s memo m memo₂ ty first (subst (λ x. Keeps x memo₂) (sym (cc)) k))
      (rw is_found (cc))
ask_again re fuel later (let_stmt s) memo memo₁ memo₂ t h k =
    let_stmt_ty_again re fuel later s memo memo₁ memo₂ t h k
ask_again re fuel later (expr (mk_expr id line kind)) memo memo₁ memo₂ t h k =
    rw (k.exprs id t (expr_ty-remembers re fuel (mk_expr id line kind) memo memo₁ t h)) refl

-- A question that the checker has answered has the same answer at any later time, whatever is asked in
-- between, and asking it again changes nothing of what the checker remembers.
pub ask-ask_all :
    (re : Resols) (fuel meanwhile later : ℕ) (q : Question) (qs : List Question)
    (memo memo₁ memo₂ : Memo) (t : Ty)
    → ask re fuel q memo ≡ done (t, memo₁)
    → ask_all re meanwhile qs memo₁ ≡ done memo₂
    → ask re (suc later) q memo₂ ≡ done (t, memo₂)
ask-ask_all re fuel meanwhile later q qs memo memo₁ memo₂ t h k =
    ask_again re fuel later q memo memo₁ memo₂ t h (ask_all-Keeps re meanwhile qs memo₁ memo₂ k)
