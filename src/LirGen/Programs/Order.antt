-- ===== src/LirGen/Programs/Order.antt =====
-- The functions that `LirGen.generate` of sbc/lir_gen.ts gives, beside those at the top of the syntax tree.
use h4_projekt_gruppe_0_sm.Prelude.{
  ℕ, zero, suc, eq_of_some, subst, ap₂, contains, String, Bool, true, false, Bool-cases, inl, inr,
  List, [], ◌∷◌, ◌++◌, map, map-append, if◌then◌else◌, NumMap, Option, none, some, ok, expect,
  >>=-eq-ok, eq_of_ok, ◌≡◌, refl, ap, sym, ◌∙◌, append_assoc, append-nil, arith,
}
use Prim.Native.String.{◌++◌ as text_append}
use h4_projekt_gruppe_0_sm.Ast.{Param, Block, Stmt, mk_stmt, StmtKind, Stmts}
use h4_projekt_gruppe_0_sm.Front.{Resols, Checker}
use h4_projekt_gruppe_0_sm.Mir as Mir
use h4_projekt_gruppe_0_sm.Lir as Lir
use h4_projekt_gruppe_0_sm.MirGen.Statements as MirGen
use h4_projekt_gruppe_0_sm.MirOptimize as MirOptimize
use h4_projekt_gruppe_0_sm.LirGen.Strings.{StringIntern}
use h4_projekt_gruppe_0_sm.LirGen.Programs.{
  LirGen, new_lir_gen, fn_label, add_fn, fill_fn, fill_fns, optimized, add_stmts, generate,
}

-- The number, the label and the statement of a function.
abbrev pub outline : Lir.Fn → ℕ × String × Stmt
outline fn = (fn.id, fn.label, fn.mir.stmt)

-- The functions at the top of a program, numbered from `n` on.
abbrev pub outlines : ℕ → Stmts → List (ℕ × String × Stmt)
outlines n Stmts.nil = []
outlines n (Stmts.cons (mk_stmt id line (StmtKind.fn ident attrs params ty body)) stmts) =
    (n, text_append "sbc__" ident, mk_stmt id line (StmtKind.fn ident attrs params ty body))
    ∷ outlines (suc n) stmts
outlines n (Stmts.cons (mk_stmt id line _) stmts) = outlines n stmts

fill_fn-outline :
    (fn fn' : Lir.Fn) (strings strings' : StringIntern) (stmt_fns : NumMap ℕ)
    → fill_fn fn strings stmt_fns ≡ ok (fn', strings')
    → outline fn' ≡ outline fn
unfolding fill_fn
fill_fn-outline fn fn' strings strings' stmt_fns h = ground (arith, h)

join_at-stmt : (id : ℕ) (s : Mir.Fn × List ℕ) → (MirOptimize.join_at id s).0.stmt ≡ s.0.stmt
unfolding MirOptimize.join_at
join_at-stmt id (fn, to_remove) = ground arith

join_loop-stmt :
    (ids : List ℕ) (s : Mir.Fn × List ℕ) → (MirOptimize.join_loop ids s).0.stmt ≡ s.0.stmt
unfolding MirOptimize.join_loop
join_loop-stmt [] s = refl
join_loop-stmt (id ∷ ids) s = join_loop-stmt ids (MirOptimize.join_at id s) ∙ join_at-stmt id s

-- A round of the optimisation keeps the statement of the function.
round-stmt :
    (fn : Mir.Fn)
    → (MirOptimize.join_sequential_blocks (MirOptimize.eliminate_unreachable fn)).stmt ≡ fn.stmt
unfolding MirOptimize.join_sequential_blocks MirOptimize.eliminate_unreachable
round-stmt fn =
    let reached = MirOptimize.eliminate_unreachable fn in
    join_loop-stmt (map (λ b. b.id) reached.blocks) (reached, [])

optimize_loop-stmt :
    (fuel block_size : ℕ) (history : List ℕ) (fn fn' : Mir.Fn)
    → MirOptimize.optimize_loop fuel block_size history fn ≡ some fn'
    → fn'.stmt ≡ fn.stmt
unfolding MirOptimize.optimize_loop
optimize_loop-stmt zero block_size history fn fn' h = cc
optimize_loop-stmt (suc fuel) block_size history fn fn' h =
    let fn₁ = MirOptimize.join_sequential_blocks (MirOptimize.eliminate_unreachable fn) in
    let size = MirOptimize.fn_size block_size fn₁.blocks in
    elim (Bool-cases (contains history size)) [
      | inl seen ↦
          ap (λ f. f.stmt)
            (sym (
              eq_of_some (
                subst
                  (λ b.
                    (if b
                      then some fn₁
                      else MirOptimize.optimize_loop fuel block_size (size ∷ history) fn₁)
                    ≡ some fn')
                  seen h)))
          ∙ round-stmt fn
      | inr new ↦
          optimize_loop-stmt fuel block_size (size ∷ history) fn₁ fn' (
            subst
              (λ b.
                (if b
                  then some fn₁
                  else MirOptimize.optimize_loop fuel block_size (size ∷ history) fn₁)
                ≡ some fn')
              new h)
          ∙ round-stmt fn
    ]

generate-stmt :
    (re : Resols) (ch : Checker) (stmt : Stmt) (params : List Param) (body : Block) (fn : Mir.Fn)
    → MirGen.generate re ch stmt params body ≡ ok fn
    → fn.stmt ≡ stmt
unfolding MirGen.generate
generate-stmt re ch stmt params body fn h =
    let (fn_ty, _, h₁) = >>=-eq-ok (ch.fn_stmt_ty stmt) _ h in
    let (ty, _, h₂) = >>=-eq-ok (MirGen.return_ty fn_ty) _ h₁ in
    let (gen₂, _, h₃) = >>=-eq-ok (MirGen.add_params ch stmt 0 params _) _ h₂ in
    let (gen₅, _, h₄) = >>=-eq-ok (MirGen.lower_block re ch _ body _) _ h₃ in
    ap (λ f. f.stmt) (sym (eq_of_ok h₄))

fill_fns-outline :
    (fns fns' : List Lir.Fn) (strings strings' : StringIntern) (stmt_fns : NumMap ℕ)
    → fill_fns fns strings stmt_fns ≡ ok (fns', strings')
    → map outline fns' ≡ map outline fns
unfolding fill_fns
fill_fns-outline [] fns' strings strings' stmt_fns h =
    let is : [] ≡ fns' = cc in ap (map outline) (sym is)
fill_fns-outline (fn ∷ fns) fns' strings strings' stmt_fns h =
    let ((filled, strings₁), first, h₁) = >>=-eq-ok (fill_fn fn strings stmt_fns) _ h in
    let ((rest, strings₂), later, h₂) = >>=-eq-ok (fill_fns fns strings₁ stmt_fns) _ h₁ in
    let is : (filled ∷ rest) ≡ fns' = cc in
    sym (ap (map outline) is)
    ∙ ap₂ (λ x xs. x ∷ xs) (fill_fn-outline fn filled strings strings₁ stmt_fns first)
        (fill_fns-outline fns rest strings₁ strings₂ stmt_fns later)

module _ (re : Resols) (ch : Checker) (optimize : Bool) (fuel : ℕ) (block_size : Mir.Fn → ℕ) where
  optimized-stmt :
      (mir mir' : Mir.Fn)
      → optimized re ch optimize fuel block_size mir ≡ ok mir'
      → mir'.stmt ≡ mir.stmt
  unfolding optimized MirOptimize.optimize_mir_fn
  optimized-stmt mir mir' h = by_flag optimize h
    where
      expect_some : (o : Option Mir.Fn) → expect "" o ≡ ok mir' → o ≡ some mir'
      expect_some none e = cc
      expect_some (some f) e = ap some (eq_of_ok e)

      by_flag :
          (b : Bool)
          → (if b
              then expect "" (
                  MirOptimize.optimize_loop fuel
                    (block_size mir)
                    (MirOptimize.fn_size (block_size mir) mir.blocks ∷ [])
                    mir)
              else ok mir)
            ≡ ok mir'
          → mir'.stmt ≡ mir.stmt
      by_flag false e = ap (λ f. f.stmt) (sym (eq_of_ok e))
      by_flag true e =
          optimize_loop-stmt fuel (block_size mir)
            (MirOptimize.fn_size (block_size mir) mir.blocks ∷ []) mir mir' (expect_some _ e)

  add_stmts-outlines :
      (stmts : Stmts) (gen gen' : LirGen)
      → add_stmts re ch optimize fuel block_size stmts gen ≡ ok gen'
      → map outline gen'.fns ≡ map outline gen.fns ++ outlines gen.fn_ids stmts
  unfolding add_stmts add_fn
  add_stmts-outlines Stmts.nil gen gen' h =
      ap (λ g. map outline g.fns) (sym (eq_of_ok h)) ∙ sym (append-nil (map outline gen.fns))
  add_stmts-outlines (Stmts.cons (mk_stmt id line (StmtKind.fn ident attrs params ty body)) stmts)
        gen gen' h =
      let stmt = mk_stmt id line (StmtKind.fn ident attrs params ty body) in
      let (mir, generated, h₁) = >>=-eq-ok (MirGen.generate re ch stmt params body) _ h in
      let (mir', improved, h₂) = >>=-eq-ok (optimized re ch optimize fuel block_size mir) _ h₁ in
      let same : mir'.stmt ≡ stmt =
        optimized-stmt mir mir' improved ∙ generate-stmt re ch stmt params body mir generated in
      add_stmts-outlines stmts (add_fn ident stmt mir' gen) gen' h₂
      ∙ ap (λ xs. xs ++ outlines (suc gen.fn_ids) stmts)
          (map-append outline gen.fns _
            ∙ ap (λ x. map outline gen.fns ++ ((gen.fn_ids, fn_label ident, x) ∷ [])) same)
      ∙ append_assoc (map outline gen.fns) ((gen.fn_ids, fn_label ident, stmt) ∷ [])
          (outlines (suc gen.fn_ids) stmts)
  add_stmts-outlines (Stmts.cons (mk_stmt id line _) stmts) gen gen' h = cc

  -- If `generate` succeeds, the functions of the program are those at the top of the syntax tree in their order,
  -- numbered from 0 on, each with its label and with MIR of its own statement, whether optimised or not.
  pub generate-outlines :
      (ast : Stmts) (program : Lir.Program)
      → generate re ch optimize fuel block_size ast ≡ ok program
      → map outline program.fns ≡ outlines 0 ast
  unfolding generate new_lir_gen
  generate-outlines ast program h =
      let (gen, added, h₁) =
        >>=-eq-ok (add_stmts re ch optimize fuel block_size ast new_lir_gen) _ h in
      let ((fns, strings), filled, h₂) =
        >>=-eq-ok (fill_fns gen.fns gen.strings gen.stmt_fns) _ h₁ in
      ap (λ p. map outline p.fns) (sym (eq_of_ok h₂))
      ∙ fill_fns-outline gen.fns fns gen.strings strings gen.stmt_fns filled
      ∙ add_stmts-outlines ast new_lir_gen gen added
