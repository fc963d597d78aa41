-- ===== src/Front/Resolver/Breaks.antt =====
-- What `Resolver` of sbc/front.ts records of the `break`s of a program, beside a list of them that is read
-- off the syntax tree.
use h4_projekt_gruppe_0_sm.Prelude.{
  ℕ, String, List, [], ◌∷◌, ◌++◌, Option, none, some, NumMap, map_set, ◌≡◌, refl, ap, sym, ◌∙◌, ok,
  err, >>=-eq-ok, expect-eq-ok, eq_of_ok,
}
use h4_projekt_gruppe_0_sm.Ast as Ast
use h4_projekt_gruppe_0_sm.Ast.{
  Expr, mk_expr, ExprKind, Exprs, Stmt, mk_stmt, StmtKind, Block, mk_block, Stmts, Param,
}
use h4_projekt_gruppe_0_sm.Front.{Resolve, Resols}
use h4_projekt_gruppe_0_sm.Front.Syms as Syms
use h4_projekt_gruppe_0_sm.Front.Syms.{val}
use h4_projekt_gruppe_0_sm.Front.Resolver.{
  Resolver, define, push_loop, pop_loop, resolve_expr, resolve_expr_kind, resolve_args,
  resolve_optional, resolve_break, resolve_stmt, resolve_stmt_kind, resolve_block, resolve_each,
  resolve_fns, resolve_fn, resolve_stmts, new_resolver, resolve,
}

-- The number of each `break` with the loop around it, in the order of the source's passes: the functions of
-- a block after its statements. `loop` is the innermost loop of the same function.
unfoldable mutual
  pub breaks_stmt : Option Stmt → Stmt → List (ℕ × Resolve)
  breaks_stmt loop (mk_stmt id line kind) = breaks_kind loop kind (mk_stmt id line kind)

  pub breaks_kind : Option Stmt → StmtKind → Stmt → List (ℕ × Resolve)
  breaks_kind loop (StmtKind.loop body) stmt = breaks_block (some stmt) body
  breaks_kind loop (StmtKind.while expr body) stmt = breaks_block (some stmt) body
  breaks_kind loop (StmtKind.if_ expr truthy) stmt = breaks_block loop truthy
  breaks_kind loop (StmtKind.if_else expr truthy falsy) stmt =
      breaks_block loop truthy ++ breaks_block loop falsy
  breaks_kind none StmtKind.break stmt = []
  breaks_kind (some loop) StmtKind.break stmt = (Ast.stmt_id stmt, Resolve.loop loop) ∷ []
  breaks_kind loop _ stmt = []

  pub breaks_block : Option Stmt → Block → List (ℕ × Resolve)
  breaks_block loop (mk_block id line_entry line_exit stmts) =
      breaks_each loop stmts ++ breaks_fns stmts

  pub breaks_each : Option Stmt → Stmts → List (ℕ × Resolve)
  breaks_each loop Stmts.nil = []
  breaks_each loop (Stmts.cons stmt stmts) = breaks_stmt loop stmt ++ breaks_each loop stmts

  pub breaks_fns : Stmts → List (ℕ × Resolve)
  breaks_fns Stmts.nil = []
  breaks_fns (Stmts.cons stmt stmts) = breaks_fn stmt ++ breaks_fns stmts

  pub breaks_fn : Stmt → List (ℕ × Resolve)
  breaks_fn (mk_stmt id line (StmtKind.fn ident attrs params ty body)) = breaks_block none body
  breaks_fn (mk_stmt id line _) = []

-- `map_set` for each entry, the first one first
unfoldable pub set_all : NumMap Resolve → List (ℕ × Resolve) → NumMap Resolve
set_all m [] = m
set_all m ((k, v) ∷ entries) = set_all (map_set m k v) entries

set_all-append :
    (m : NumMap Resolve) (xs ys : List (ℕ × Resolve))
    → set_all m (xs ++ ys) ≡ set_all (set_all m xs) ys
unfolding set_all
set_all-append m [] ys = refl
set_all-append m ((k, v) ∷ xs) ys = set_all-append (map_set m k v) xs ys

-- the innermost loop
abbrev top : List Stmt → Option Stmt
top [] = none
top (loop ∷ loops) = some loop

-- `r'` has the entries more, and the loops of `r`.
abbrev Adds : Resolver → Resolver → List (ℕ × Resolve) → Type 0
Adds r r' entries =
    (r'.stmt_resols ≡ set_all r.stmt_resols entries) × (r'.loop_stack ≡ r.loop_stack)

Adds-trans :
    (r r₁ r₂ : Resolver) (xs ys : List (ℕ × Resolve))
    → Adds r r₁ xs
    → Adds r₁ r₂ ys
    → Adds r r₂ (xs ++ ys)
Adds-trans r r₁ r₂ xs ys h k =
    (k.0 ∙ ap (λ m. set_all m ys) h.0 ∙ sym (set_all-append r.stmt_resols xs ys), k.1 ∙ h.1)

ok-Adds : (r r' : Resolver) → ok r ≡ ok r' → Adds r r' []
unfolding set_all
ok-Adds r r' h = rw (← eq_of_ok h) (refl, refl)

mutual
  unfolding resolve_expr set_all

  resolve_expr-Adds : (e : Expr) (r r' : Resolver) → resolve_expr e r ≡ ok r' → Adds r r' []
  resolve_expr-Adds (mk_expr id line kind) r r' h = resolve_expr_kind-Adds kind id r r' h

  resolve_expr_kind-Adds :
      (k : ExprKind) (id : ℕ) (r r' : Resolver) → resolve_expr_kind k id r ≡ ok r' → Adds r r' []
  resolve_expr_kind-Adds ExprKind.error id r r' h = ok-Adds _ r' h
  resolve_expr_kind-Adds (ExprKind.ident ident) id r r' h =
      let (re, _, h') = expect-eq-ok "Resolver: ident not defined" (val r.syms ident) _ h in
      rw (← eq_of_ok h') (refl, refl)
  resolve_expr_kind-Adds (ExprKind.int value) id r r' h = ok-Adds _ r' h
  resolve_expr_kind-Adds (ExprKind.str value) id r r' h = ok-Adds _ r' h
  resolve_expr_kind-Adds (ExprKind.call callee args) id r r' h =
      let (r₁, h₁, h₂) = >>=-eq-ok (resolve_expr callee r) _ h in
      Adds-trans r r₁ r' [] [] (resolve_expr-Adds callee r r₁ h₁) (resolve_args-Adds args r₁ r' h₂)
  resolve_expr_kind-Adds (ExprKind.not_ operand) id r r' h = cc
  resolve_expr_kind-Adds (ExprKind.negate operand) id r r' h = cc
  resolve_expr_kind-Adds (ExprKind.binary op left right) id r r' h =
      let (r₁, h₁, h₂) = >>=-eq-ok (resolve_expr left r) _ h in
      Adds-trans r r₁ r' [] [] (resolve_expr-Adds left r r₁ h₁) (resolve_expr-Adds right r₁ r' h₂)

  resolve_args-Adds : (es : Exprs) (r r' : Resolver) → resolve_args es r ≡ ok r' → Adds r r' []
  resolve_args-Adds Exprs.nil r r' h = ok-Adds _ r' h
  resolve_args-Adds (Exprs.cons e es) r r' h =
      let (r₁, h₁, h₂) = >>=-eq-ok (resolve_expr e r) _ h in
      Adds-trans r r₁ r' [] [] (resolve_expr-Adds e r r₁ h₁) (resolve_args-Adds es r₁ r' h₂)

resolve_optional-Adds :
    (e : Option Expr) (r r' : Resolver) → resolve_optional e r ≡ ok r' → Adds r r' []
unfolding set_all
resolve_optional-Adds none r r' h = ok-Adds _ r' h
resolve_optional-Adds (some e) r r' h = resolve_expr-Adds e r r' h

-- A scope around a part changes neither.
in_block-Adds :
    (syms : Syms.Syms) (r r₁ : Resolver) (entries : List (ℕ × Resolve))
    → Adds (record r { syms = syms }) r₁ entries
    → Adds r (record r₁ { syms = r.syms }) entries
in_block-Adds syms r r₁ entries h = h

-- Inside a loop, and out of it again.
in_loop-Adds :
    (loop : Stmt) (r r₁ : Resolver) (entries : List (ℕ × Resolve))
    → Adds (push_loop loop r) r₁ entries
    → Adds r (pop_loop r₁) entries
unfolding push_loop pop_loop
in_loop-Adds loop r r₁ entries h = (h.0, rw h.1 refl)

absurd_ok : {message : String} {r : Resolver} {A : Type 0} → err message ≡ ok r → A
absurd_ok h = cc

resolve_break-Adds :
    (loops : List Stmt) (stmt : Stmt) (r r' : Resolver)
    → r.loop_stack ≡ loops
    → resolve_break (Ast.stmt_id stmt) r ≡ ok r'
    → Adds r r' (breaks_kind (top loops) StmtKind.break stmt)
unfolding resolve_break breaks_stmt set_all
resolve_break-Adds [] stmt r r' e h = absurd_ok (rw (e, resolve_break) at h)
resolve_break-Adds (loop ∷ loops) stmt r r' e h =
    rw (← eq_of_ok (rw (e, resolve_break) at h)) (refl, refl)

mutual
  unfolding resolve_stmt breaks_stmt push_loop define

  resolve_stmt-Adds :
      (s : Stmt) (loops : List Stmt) (r r' : Resolver)
      → r.loop_stack ≡ loops
      → resolve_stmt s r ≡ ok r'
      → Adds r r' (breaks_stmt (top loops) s)
  resolve_stmt-Adds (mk_stmt id line kind) loops r r' e h =
      resolve_stmt_kind-Adds kind (mk_stmt id line kind) loops r r' e h

  resolve_stmt_kind-Adds :
      (k : StmtKind) (s : Stmt) (loops : List Stmt) (r r' : Resolver)
      → r.loop_stack ≡ loops
      → resolve_stmt_kind k s r ≡ ok r'
      → Adds r r' (breaks_kind (top loops) k s)
  resolve_stmt_kind-Adds StmtKind.error s loops r r' e h = ok-Adds _ r' h
  resolve_stmt_kind-Adds (StmtKind.fn ident attrs params ty body) s loops r r' e h = ok-Adds _ r' h
  resolve_stmt_kind-Adds (StmtKind.let_ let_stmt) s loops r r' e h =
      resolve_optional-Adds let_stmt.expr (define let_stmt.ident (Resolve.let_ s) r) r' h
  resolve_stmt_kind-Adds (StmtKind.loop body) s loops r r' e h =
      let (r₁, h₁, h₂) = >>=-eq-ok (resolve_block body (push_loop s r)) _ h in
      rw (← eq_of_ok h₂) (
        in_loop-Adds s r r₁ (breaks_block (some s) body)
          (resolve_block-Adds body (s ∷ loops) (push_loop s r) r₁ (ap (λ l. s ∷ l) e) h₁))
  resolve_stmt_kind-Adds (StmtKind.while expr body) s loops r r' e h =
      let (r₁, h₁, h₂) = >>=-eq-ok (resolve_expr expr r) _ h in
      let (r₂, h₃, h₄) = >>=-eq-ok (resolve_block body (push_loop s r₁)) _ h₂ in
      let first = resolve_expr-Adds expr r r₁ h₁ in
      rw (← eq_of_ok h₄) (
        Adds-trans r r₁ (pop_loop r₂) [] (breaks_block (some s) body) first (
          in_loop-Adds s r₁ r₂ (breaks_block (some s) body) (
            resolve_block-Adds body (s ∷ loops) (push_loop s r₁) r₂ (ap (λ l. s ∷ l) (first.1 ∙ e))
              h₃)))
  resolve_stmt_kind-Adds (StmtKind.if_ expr truthy) s loops r r' e h =
      let (r₁, h₁, h₂) = >>=-eq-ok (resolve_expr expr r) _ h in
      let first = resolve_expr-Adds expr r r₁ h₁ in
      Adds-trans r r₁ r' [] _ first (resolve_block-Adds truthy loops r₁ r' (first.1 ∙ e) h₂)
  resolve_stmt_kind-Adds (StmtKind.if_else expr truthy falsy) s loops r r' e h =
      let (r₁, h₁, h₂) = >>=-eq-ok (resolve_expr expr r) _ h in
      let (r₂, h₃, h₄) = >>=-eq-ok (resolve_block truthy r₁) _ h₂ in
      let first = resolve_expr-Adds expr r r₁ h₁ in
      let second = resolve_block-Adds truthy loops r₁ r₂ (first.1 ∙ e) h₃ in
      Adds-trans r r₁ r' [] _ first (
        Adds-trans r₁ r₂ r' _ _ second
          (resolve_block-Adds falsy loops r₂ r' (second.1 ∙ first.1 ∙ e) h₄))
  resolve_stmt_kind-Adds (StmtKind.return expr) s loops r r' e h = resolve_optional-Adds expr r r' h
  resolve_stmt_kind-Adds StmtKind.break s loops r r' e h = resolve_break-Adds loops s r r' e h
  resolve_stmt_kind-Adds (StmtKind.assign subject expr) s loops r r' e h =
      let (r₁, h₁, h₂) = >>=-eq-ok (resolve_expr subject r) _ h in
      Adds-trans r r₁ r' [] [] (resolve_expr-Adds subject r r₁ h₁) (resolve_expr-Adds expr r₁ r' h₂)
  resolve_stmt_kind-Adds (StmtKind.expr expr) s loops r r' e h = resolve_expr-Adds expr r r' h

  resolve_block-Adds :
      (b : Block) (loops : List Stmt) (r r' : Resolver)
      → r.loop_stack ≡ loops
      → resolve_block b r ≡ ok r'
      → Adds r r' (breaks_block (top loops) b)
  resolve_block-Adds (mk_block id line_entry line_exit stmts) loops r r' e h =
      let inner : Resolver = record r { syms = Syms.normal [] r.syms } in
      let (r₁, h₁, h₂) = >>=-eq-ok (resolve_each stmts inner) _ h in
      let (r₂, h₃, h₄) = >>=-eq-ok (resolve_fns stmts r₁) _ h₂ in
      let first = resolve_each-Adds stmts loops inner r₁ e h₁ in
      rw (← eq_of_ok h₄) (Adds-trans inner r₁ r₂ _ _ first (resolve_fns-Adds stmts r₁ r₂ h₃))

  resolve_each-Adds :
      (ss : Stmts) (loops : List Stmt) (r r' : Resolver)
      → r.loop_stack ≡ loops
      → resolve_each ss r ≡ ok r'
      → Adds r r' (breaks_each (top loops) ss)
  resolve_each-Adds Stmts.nil loops r r' e h = ok-Adds _ r' h
  resolve_each-Adds (Stmts.cons s ss) loops r r' e h =
      let (r₁, h₁, h₂) = >>=-eq-ok (resolve_stmt s r) _ h in
      let first = resolve_stmt-Adds s loops r r₁ e h₁ in
      Adds-trans r r₁ r' _ _ first (resolve_each-Adds ss loops r₁ r' (first.1 ∙ e) h₂)

  resolve_fns-Adds :
      (ss : Stmts) (r r' : Resolver) → resolve_fns ss r ≡ ok r' → Adds r r' (breaks_fns ss)
  resolve_fns-Adds Stmts.nil r r' h = ok-Adds _ r' h
  resolve_fns-Adds (Stmts.cons s ss) r r' h =
      let (r₁, h₁, h₂) = >>=-eq-ok (resolve_fn s r) _ h in
      Adds-trans r r₁ r' _ _ (resolve_fn-Adds s r r₁ h₁) (resolve_fns-Adds ss r₁ r' h₂)

  resolve_fn-Adds : (s : Stmt) (r r' : Resolver) → resolve_fn s r ≡ ok r' → Adds r r' (breaks_fn s)
  resolve_fn-Adds (mk_stmt id line (StmtKind.fn ident attrs params ty body)) r r' h =
      let (r₁, h₁, h₂) = >>=-eq-ok (resolve_block body _) _ h in
      let (same, _) = resolve_block-Adds body [] _ r₁ refl h₁ in rw (← eq_of_ok h₂) (same, refl)
  resolve_fn-Adds (mk_stmt id line k) r r' h = ok-Adds _ r' h

-- If `resolve` succeeds, what it records of statements is, for each `break` of the program in the order of its
-- passes, the innermost loop around it in the same function.
pub resolve-breaks :
    (ast : Stmts) (re : Resols)
    → resolve ast ≡ ok re
    → re.stmt_resols ≡ set_all [] (breaks_each none ast ++ breaks_fns ast)
unfolding resolve resolve_stmts new_resolver
resolve-breaks ast re h =
    let (r₂, h₁, h₂) = >>=-eq-ok (resolve_stmts ast new_resolver) _ h in
    let (r₁, h₃, h₄) = >>=-eq-ok (resolve_each ast new_resolver) _ h₁ in
    let first = resolve_each-Adds ast [] new_resolver r₁ refl h₃ in
    ap (λ s. s.stmt_resols) (sym (eq_of_ok h₂))
    ∙ (Adds-trans new_resolver r₁ r₂ _ _ first (resolve_fns-Adds ast r₁ r₂ h₄)).0
