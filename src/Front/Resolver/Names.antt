-- ===== src/Front/Resolver/Names.antt =====
-- The identifiers of a program that the resolver goes through, read off the syntax tree, beside what `Resolver` of sbc/front.ts records of
-- expressions.
use h4_projekt_gruppe_0_sm.Prelude.{
  ℕ, List, [], ◌∷◌, ◌++◌, Option, none, some, Bool, true, false, ◌||◌, contains, NumMap, map_set,
  map_has, ◌≡◌, refl, arith, ok, err, >>=-eq-ok, expect-eq-ok, eq_of_ok,
}
use h4_projekt_gruppe_0_sm.Ast as Ast
use h4_projekt_gruppe_0_sm.Ast.{
  Expr, mk_expr, ExprKind, Exprs, Stmt, mk_stmt, StmtKind, Block, mk_block, Stmts,
}
use h4_projekt_gruppe_0_sm.Front.{Resolve, Resols}
use h4_projekt_gruppe_0_sm.Front.Syms as Syms
use h4_projekt_gruppe_0_sm.Front.Syms.{val}
use h4_projekt_gruppe_0_sm.Front.Resolver.{
  Resolver, define, push_loop, pop_loop, resolve_expr, resolve_expr_kind, resolve_args,
  resolve_optional, resolve_break, resolve_stmt, resolve_stmt_kind, resolve_block, resolve_each,
  resolve_fns, resolve_fn, resolve_stmts, new_resolver, resolve,
}

-- The numbers of the identifiers of an expression.
unfoldable mutual
  pub idents_expr : Expr → List ℕ
  idents_expr (mk_expr id line kind) = idents_expr_kind kind id

  pub idents_expr_kind : ExprKind → ℕ → List ℕ
  idents_expr_kind (ExprKind.ident ident) id = id ∷ []
  idents_expr_kind (ExprKind.call callee args) id = idents_expr callee ++ idents_args args
  idents_expr_kind (ExprKind.not_ operand) id = idents_expr operand
  idents_expr_kind (ExprKind.negate operand) id = idents_expr operand
  idents_expr_kind (ExprKind.binary op left right) id = idents_expr left ++ idents_expr right
  idents_expr_kind _ id = []

  pub idents_args : Exprs → List ℕ
  idents_args Exprs.nil = []
  idents_args (Exprs.cons arg args) = idents_expr arg ++ idents_args args

abbrev pub idents_optional : Option Expr → List ℕ
idents_optional none = []
idents_optional (some expr) = idents_expr expr

-- Those of statements, but for the bodies of functions, and those of whole blocks.
unfoldable mutual
  pub idents_stmt : Stmt → List ℕ
  idents_stmt (mk_stmt id line kind) = idents_kind kind

  pub idents_kind : StmtKind → List ℕ
  idents_kind (StmtKind.let_ let_stmt) = idents_optional let_stmt.expr
  idents_kind (StmtKind.loop body) = idents_block body
  idents_kind (StmtKind.while expr body) = idents_expr expr ++ idents_block body
  idents_kind (StmtKind.if_ expr truthy) = idents_expr expr ++ idents_block truthy
  idents_kind (StmtKind.if_else expr truthy falsy) =
      idents_expr expr ++ (idents_block truthy ++ idents_block falsy)
  idents_kind (StmtKind.return expr) = idents_optional expr
  idents_kind (StmtKind.assign subject expr) = idents_expr subject ++ idents_expr expr
  idents_kind (StmtKind.expr expr) = idents_expr expr
  idents_kind _ = []

  pub idents_block : Block → List ℕ
  idents_block (mk_block id line_entry line_exit stmts) = idents_each stmts ++ idents_fns stmts

  pub idents_each : Stmts → List ℕ
  idents_each Stmts.nil = []
  idents_each (Stmts.cons stmt stmts) = idents_stmt stmt ++ idents_each stmts

  pub idents_fns : Stmts → List ℕ
  idents_fns Stmts.nil = []
  idents_fns (Stmts.cons stmt stmts) = idents_fn stmt ++ idents_fns stmts

  pub idents_fn : Stmt → List ℕ
  idents_fn (mk_stmt id line (StmtKind.fn ident attrs params ty body)) = idents_block body
  idents_fn (mk_stmt id line _) = []

-- `r'` records what `r` does and `ids`, and no more.
abbrev Knows : Resolver → Resolver → List ℕ → Type 0
Knows r r' ids =
    (id : ℕ) → map_has r'.expr_resols id ≡ (map_has r.expr_resols id || contains ids id)

map_has-map_set :
    (m : NumMap Resolve) (k j : ℕ) (v : Resolve)
    → map_has (map_set m k v) j ≡ (map_has m j || contains (k ∷ []) j)
map_has-map_set [] k j v = ground arith
map_has-map_set ((i, w) ∷ m) k j v = ground (arith, map_has-map_set m k j v)

contains-append :
    (xs ys : List ℕ) (id : ℕ) → contains (xs ++ ys) id ≡ (contains xs id || contains ys id)
contains-append [] ys id = refl
contains-append (x ∷ xs) ys id = ground (arith, contains-append xs ys id)

or_assoc : (a b c : Bool) → ((a || b) || c) ≡ (a || (b || c))
or_assoc true b c = refl
or_assoc false b c = refl

or_false : (a : Bool) → a ≡ (a || false)
or_false true = refl
or_false false = refl

Knows-trans :
    (r r₁ r₂ : Resolver) (xs ys : List ℕ) → Knows r r₁ xs → Knows r₁ r₂ ys → Knows r r₂ (xs ++ ys)
Knows-trans r r₁ r₂ xs ys h k id =
    rw (k id, h id, contains-append xs ys id)
      (or_assoc (map_has r.expr_resols id) (contains xs id) (contains ys id))

ok-Knows : (r r' : Resolver) → ok r ≡ ok r' → Knows r r' []
ok-Knows r r' h = rw (← eq_of_ok h) (λ id. or_false (map_has r.expr_resols id))

record_ident-Knows :
    (r : Resolver) (id : ℕ) (re : Resolve)
    → Knows r (record r { expr_resols = map_set r.expr_resols id re }) (id ∷ [])
record_ident-Knows r id re j = map_has-map_set r.expr_resols id j re

mutual
  unfolding resolve_expr idents_expr

  resolve_expr-Knows :
      (e : Expr) (r r' : Resolver) → resolve_expr e r ≡ ok r' → Knows r r' (idents_expr e)
  resolve_expr-Knows (mk_expr id line kind) r r' h = resolve_expr_kind-Knows kind id r r' h

  resolve_expr_kind-Knows :
      (k : ExprKind) (id : ℕ) (r r' : Resolver)
      → resolve_expr_kind k id r ≡ ok r'
      → Knows r r' (idents_expr_kind k id)
  resolve_expr_kind-Knows ExprKind.error id r r' h = ok-Knows r r' h
  resolve_expr_kind-Knows (ExprKind.ident ident) id r r' h =
      let (re, _, h') = expect-eq-ok "Resolver: ident not defined" (val r.syms ident) _ h in
      rw (← eq_of_ok h') (record_ident-Knows r id re)
  resolve_expr_kind-Knows (ExprKind.int value) id r r' h = ok-Knows r r' h
  resolve_expr_kind-Knows (ExprKind.str value) id r r' h = ok-Knows r r' h
  resolve_expr_kind-Knows (ExprKind.call callee args) id r r' h =
      let (r₁, h₁, h₂) = >>=-eq-ok (resolve_expr callee r) _ h in
      Knows-trans r r₁ r' _ _ (resolve_expr-Knows callee r r₁ h₁) (resolve_args-Knows args r₁ r' h₂)
  resolve_expr_kind-Knows (ExprKind.not_ operand) id r r' h = cc
  resolve_expr_kind-Knows (ExprKind.negate operand) id r r' h = cc
  resolve_expr_kind-Knows (ExprKind.binary op left right) id r r' h =
      let (r₁, h₁, h₂) = >>=-eq-ok (resolve_expr left r) _ h in
      Knows-trans r r₁ r' _ _ (resolve_expr-Knows left r r₁ h₁) (resolve_expr-Knows right r₁ r' h₂)

  resolve_args-Knows :
      (es : Exprs) (r r' : Resolver) → resolve_args es r ≡ ok r' → Knows r r' (idents_args es)
  resolve_args-Knows Exprs.nil r r' h = ok-Knows r r' h
  resolve_args-Knows (Exprs.cons e es) r r' h =
      let (r₁, h₁, h₂) = >>=-eq-ok (resolve_expr e r) _ h in
      Knows-trans r r₁ r' _ _ (resolve_expr-Knows e r r₁ h₁) (resolve_args-Knows es r₁ r' h₂)

resolve_optional-Knows :
    (e : Option Expr) (r r' : Resolver)
    → resolve_optional e r ≡ ok r'
    → Knows r r' (idents_optional e)
resolve_optional-Knows none r r' h = ok-Knows r r' h
resolve_optional-Knows (some e) r r' h = resolve_expr-Knows e r r' h

resolve_break-Knows : (id : ℕ) (r r' : Resolver) → resolve_break id r ≡ ok r' → Knows r r' []
unfolding resolve_break
resolve_break-Knows id r r' h = from_stack r.loop_stack h
  where
    from_stack :
        (loops : List Stmt)
        → elim loops [
          | [] ↦ err "Resolver: break outside loop"
          | loop ∷ _ ↦ ok (record r { stmt_resols = map_set r.stmt_resols id (Resolve.loop loop) })
        ]
          ≡ ok r'
        → Knows r r' []
    from_stack [] e = cc
    from_stack (loop ∷ _) e = ok-Knows _ r' e

mutual
  unfolding resolve_stmt idents_stmt push_loop pop_loop define

  resolve_stmt-Knows :
      (s : Stmt) (r r' : Resolver) → resolve_stmt s r ≡ ok r' → Knows r r' (idents_stmt s)
  resolve_stmt-Knows (mk_stmt id line kind) r r' h =
      resolve_stmt_kind-Knows kind (mk_stmt id line kind) r r' h

  resolve_stmt_kind-Knows :
      (k : StmtKind) (s : Stmt) (r r' : Resolver)
      → resolve_stmt_kind k s r ≡ ok r'
      → Knows r r' (idents_kind k)
  resolve_stmt_kind-Knows StmtKind.error s r r' h = ok-Knows r r' h
  resolve_stmt_kind-Knows (StmtKind.fn ident attrs params ty body) s r r' h = ok-Knows _ r' h
  resolve_stmt_kind-Knows (StmtKind.let_ let_stmt) s r r' h =
      resolve_optional-Knows let_stmt.expr (define let_stmt.ident (Resolve.let_ s) r) r' h
  resolve_stmt_kind-Knows (StmtKind.loop body) s r r' h =
      let (r₁, h₁, h₂) = >>=-eq-ok (resolve_block body (push_loop s r)) _ h in
      rw (← eq_of_ok h₂) (resolve_block-Knows body (push_loop s r) r₁ h₁)
  resolve_stmt_kind-Knows (StmtKind.while expr body) s r r' h =
      let (r₁, h₁, h₂) = >>=-eq-ok (resolve_expr expr r) _ h in
      let (r₂, h₃, h₄) = >>=-eq-ok (resolve_block body (push_loop s r₁)) _ h₂ in
      rw (← eq_of_ok h₄) (
        Knows-trans r r₁ (pop_loop r₂) _ _ (resolve_expr-Knows expr r r₁ h₁)
          (resolve_block-Knows body (push_loop s r₁) r₂ h₃))
  resolve_stmt_kind-Knows (StmtKind.if_ expr truthy) s r r' h =
      let (r₁, h₁, h₂) = >>=-eq-ok (resolve_expr expr r) _ h in
      Knows-trans r r₁ r' _ _ (resolve_expr-Knows expr r r₁ h₁)
        (resolve_block-Knows truthy r₁ r' h₂)
  resolve_stmt_kind-Knows (StmtKind.if_else expr truthy falsy) s r r' h =
      let (r₁, h₁, h₂) = >>=-eq-ok (resolve_expr expr r) _ h in
      let (r₂, h₃, h₄) = >>=-eq-ok (resolve_block truthy r₁) _ h₂ in
      Knows-trans r r₁ r' _ _ (resolve_expr-Knows expr r r₁ h₁) (
        Knows-trans r₁ r₂ r' _ _ (resolve_block-Knows truthy r₁ r₂ h₃)
          (resolve_block-Knows falsy r₂ r' h₄))
  resolve_stmt_kind-Knows (StmtKind.return expr) s r r' h = resolve_optional-Knows expr r r' h
  resolve_stmt_kind-Knows StmtKind.break s r r' h = resolve_break-Knows (Ast.stmt_id s) r r' h
  resolve_stmt_kind-Knows (StmtKind.assign subject expr) s r r' h =
      let (r₁, h₁, h₂) = >>=-eq-ok (resolve_expr subject r) _ h in
      Knows-trans r r₁ r' _ _ (resolve_expr-Knows subject r r₁ h₁)
        (resolve_expr-Knows expr r₁ r' h₂)
  resolve_stmt_kind-Knows (StmtKind.expr expr) s r r' h = resolve_expr-Knows expr r r' h

  resolve_block-Knows :
      (b : Block) (r r' : Resolver) → resolve_block b r ≡ ok r' → Knows r r' (idents_block b)
  resolve_block-Knows (mk_block id line_entry line_exit stmts) r r' h =
      let inner : Resolver = record r { syms = Syms.normal [] r.syms } in
      let (r₁, h₁, h₂) = >>=-eq-ok (resolve_each stmts inner) _ h in
      let (r₂, h₃, h₄) = >>=-eq-ok (resolve_fns stmts r₁) _ h₂ in
      rw (← eq_of_ok h₄) (
        Knows-trans inner r₁ r₂ _ _ (resolve_each-Knows stmts inner r₁ h₁)
          (resolve_fns-Knows stmts r₁ r₂ h₃))

  resolve_each-Knows :
      (ss : Stmts) (r r' : Resolver) → resolve_each ss r ≡ ok r' → Knows r r' (idents_each ss)
  resolve_each-Knows Stmts.nil r r' h = ok-Knows r r' h
  resolve_each-Knows (Stmts.cons s ss) r r' h =
      let (r₁, h₁, h₂) = >>=-eq-ok (resolve_stmt s r) _ h in
      Knows-trans r r₁ r' _ _ (resolve_stmt-Knows s r r₁ h₁) (resolve_each-Knows ss r₁ r' h₂)

  resolve_fns-Knows :
      (ss : Stmts) (r r' : Resolver) → resolve_fns ss r ≡ ok r' → Knows r r' (idents_fns ss)
  resolve_fns-Knows Stmts.nil r r' h = ok-Knows r r' h
  resolve_fns-Knows (Stmts.cons s ss) r r' h =
      let (r₁, h₁, h₂) = >>=-eq-ok (resolve_fn s r) _ h in
      Knows-trans r r₁ r' _ _ (resolve_fn-Knows s r r₁ h₁) (resolve_fns-Knows ss r₁ r' h₂)

  resolve_fn-Knows :
      (s : Stmt) (r r' : Resolver) → resolve_fn s r ≡ ok r' → Knows r r' (idents_fn s)
  resolve_fn-Knows (mk_stmt id line (StmtKind.fn ident attrs params ty body)) r r' h =
      let (r₁, h₁, h₂) = >>=-eq-ok (resolve_block body _) _ h in
      rw (← eq_of_ok h₂) (resolve_block-Knows body _ r₁ h₁)
  resolve_fn-Knows (mk_stmt id line k) r r' h = ok-Knows r r' h

-- If `resolve` succeeds, then the expressions that it has an entry for are just the identifiers of the
-- program, those in the bodies of functions included and those in the arguments of attributes left out.
pub resolve-idents :
    (ast : Stmts) (re : Resols) (id : ℕ)
    → resolve ast ≡ ok re
    → map_has re.expr_resols id ≡ contains (idents_each ast ++ idents_fns ast) id
unfolding resolve resolve_stmts new_resolver
resolve-idents ast re id h =
    let (r₂, h₁, h₂) = >>=-eq-ok (resolve_stmts ast new_resolver) _ h in
    let (r₁, h₃, h₄) = >>=-eq-ok (resolve_each ast new_resolver) _ h₁ in
    rw (← eq_of_ok h₂) (
      Knows-trans new_resolver r₁ r₂ _ _ (resolve_each-Knows ast new_resolver r₁ h₃)
        (resolve_fns-Knows ast r₁ r₂ h₄) id)
