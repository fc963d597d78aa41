-- ===== src/Front/Parser/RoundTrip/Expressions.antt =====
-- `parseExpr` of sbc/front.ts, on the tokens of a whole expression.
use h4_projekt_gruppe_0_sm.Prelude.{
  ℕ, suc, ◌≤◌, ◌<◌, true, false, List, ◌∷◌, ◌≡◌, refl, Bool-cases, ◌⊎◌, inl, inr, leb, leb→le, ap,
  subst, ◌∙◌, arith,
}
use h4_projekt_gruppe_0_sm.Prelude.Fueled.{done}
use h4_projekt_gruppe_0_sm.Ast.{Expr, mk_expr, ExprKind, Exprs, BinaryOp}
use h4_projekt_gruppe_0_sm.Front.Parser.{Tok, Parser}
use h4_projekt_gruppe_0_sm.Front.Parser.Exprs.{parse_operand, parse_expr}
use h4_projekt_gruppe_0_sm.Front.Parser.Printing.{
  below, rank, IsPostfix, IsPrintable, ArePrintable, expr_toks, kind_toks, erase, erase_kind, Stops,
  next,
}
use h4_projekt_gruppe_0_sm.Front.Parser.Progress.{left}
use h4_projekt_gruppe_0_sm.Front.Parser.RoundTrip.Operands.{
  atom-Continues, negate-Prefix, not-Prefix, parse_operand_ident, parse_operand_int,
  parse_operand_str,
}
use h4_projekt_gruppe_0_sm.Front.Parser.RoundTrip.{
  Args, Binary, BinaryLoop, More, Postfix, Prefix, Whole,
}
use h4_projekt_gruppe_0_sm.Front.Parser.RoundTrip.Levels.{
  Binary-BinaryLoop, Binary-Whole, BinaryLoop-Binary, Binary-looser, Postfix-Prefix, Prefix-Binary,
}
use h4_projekt_gruppe_0_sm.Front.Parser.RoundTrip.Calls.{
  call-Postfix, cons-Args, cons-More, nil-Args, nil-More,
}
use h4_projekt_gruppe_0_sm.Front.Parser.RoundTrip.Operators.{binary-BinaryLoop}

-- All of it, by the structure of the expression.
pub record Reads (e : Expr) : Type 0 where
  pub postfix : IsPostfix e → Postfix e
  pub prefix : rank e ≤ 0 → Prefix e
  pub loop : (m : ℕ) → rank e ≤ suc m → BinaryLoop m e
  pub binary : (m : ℕ) → rank e ≤ m → Binary m e

Prefix-Reads : (e : Expr) → (IsPostfix e → Postfix e) → Prefix e → Reads e
Prefix-Reads e post pre =
    let bin : (m : ℕ) → Binary m e = λ m. Binary-looser e 0 m (omega arith) (Prefix-Binary e pre) in
    record {
      postfix = post;
      prefix = λ _. pre;
      loop = λ m _. Binary-BinaryLoop m e (bin m);
      binary = λ m _. bin m;
    }

Postfix-Reads : (e : Expr) → IsPostfix e → IsPrintable e → Postfix e → Reads e
Postfix-Reads e x h post = Prefix-Reads e (λ _. post) (Postfix-Prefix e x h post)

binary-Reads :
    (id line : ℕ) (op : BinaryOp) (l r : Expr)
    → BinaryLoop (below op) l
    → Binary (below op) r
    → Reads (mk_expr id line (ExprKind.binary op l r))
binary-Reads id line op l r left_loop right_binary =
    let e = mk_expr id line (ExprKind.binary op l r) in
    let own : BinaryLoop (below op) e = binary-BinaryLoop id line op l r left_loop right_binary in
    let bin : (m : ℕ) → suc (below op) ≤ m → Binary m e =
      λ m h. Binary-looser e (suc (below op)) m h (BinaryLoop-Binary (below op) e own) in
    record {
      postfix = λ x. elim x [ ];
      prefix = λ h. absurd h;
      loop = λ m h. at_level m h own bin (Bool-cases (leb (suc (below op)) m));
      binary = bin;
    }
  where
    absurd : suc (below op) ≤ 0 → Prefix (mk_expr id line (ExprKind.binary op l r))
    absurd h = elim (contradiction h) [ ]
      where
        contradiction : suc (below op) ≤ 0 → ⊥
        contradiction h = omega (arith, h)

    at_level :
        (m : ℕ)
        → suc (below op) ≤ suc m
        → BinaryLoop (below op) (mk_expr id line (ExprKind.binary op l r))
        → ((m : ℕ) → suc (below op) ≤ m → Binary m (mk_expr id line (ExprKind.binary op l r)))
        → (leb (suc (below op)) m ≡ true) ⊎ (leb (suc (below op)) m ≡ false)
        → BinaryLoop m (mk_expr id line (ExprKind.binary op l r))
    at_level m h own bin (inl looser) =
        Binary-BinaryLoop m _ (bin m (leb→le (suc (below op)) m looser))
    at_level m h own bin (inr equal) =
        subst (λ j. BinaryLoop j (mk_expr id line (ExprKind.binary op l r)))
          (ground (arith, equal, h)) own

Reads-Whole : (e : Expr) → Reads e → Whole e
Reads-Whole e r = Binary-Whole e (r.binary 7 (rank-le e))
  where
    op-le : (op : BinaryOp) → suc (below op) ≤ 7
    op-le BinaryOp.or = omega arith
    op-le op = omega arith

    rank-le : (e : Expr) → rank e ≤ 7
    rank-le (mk_expr id line (ExprKind.binary op l r)) = op-le op
    rank-le (mk_expr id line _) = omega arith

atom-Reads :
    (id line : ℕ) (kind : ExprKind)
    → IsPostfix (mk_expr id line kind)
    → IsPrintable (mk_expr id line kind)
    → erase_kind kind ≡ kind
    → ((rest : List Tok) (p : Parser)
        → p.toks ≡ kind_toks kind line rest
        → (tok : Tok) × (kind_toks kind line rest ≡ tok ∷ rest)
          × (parse_operand p
              ≡ done (
                mk_expr p.expr_ids tok.line kind,
                record (next p) { expr_ids = suc p.expr_ids },
              )))
    → Reads (mk_expr id line kind)
unfolding expr_toks erase
atom-Reads id line kind x h plain operand =
    Postfix-Reads (mk_expr id line kind) x h (λ n k rest p t b l.
      let (tok, is, parsed) = operand rest p t in
      atom-Continues (mk_expr id line kind) (parse_expr n) n k p tok rest kind (t ∙ is) l plain
        (ap (mk_expr 0 0) plain) parsed)

mutual
  unfolding IsPrintable expr_toks erase

  Expr-Reads : (e : Expr) → IsPrintable e → Reads e
  Expr-Reads (mk_expr id line ExprKind.error) h = elim h [ ]
  Expr-Reads (mk_expr id line (ExprKind.ident ident)) h =
      atom-Reads id line (ExprKind.ident ident) tt h refl
        (λ rest p t. (_, refl, parse_operand_ident p line rest ident t))
  Expr-Reads (mk_expr id line (ExprKind.int value)) h =
      atom-Reads id line (ExprKind.int value) tt h refl
        (λ rest p t. (_, refl, parse_operand_int p line rest value t))
  Expr-Reads (mk_expr id line (ExprKind.str value)) h =
      atom-Reads id line (ExprKind.str value) tt h refl
        (λ rest p t. (_, refl, parse_operand_str p line rest value t))
  Expr-Reads (mk_expr id line (ExprKind.call callee args)) h =
      Postfix-Reads (mk_expr id line (ExprKind.call callee args)) tt h (
        call-Postfix id line callee args ((Expr-Reads callee h.1).postfix h.0)
          (ArePrintable-Args args h.2))
  Expr-Reads (mk_expr id line (ExprKind.not_ e)) h =
      Prefix-Reads (mk_expr id line (ExprKind.not_ e)) (λ x. elim x [ ])
        (not-Prefix id line e ((Expr-Reads e h.1).prefix h.0))
  Expr-Reads (mk_expr id line (ExprKind.negate e)) h =
      Prefix-Reads (mk_expr id line (ExprKind.negate e)) (λ x. elim x [ ])
        (negate-Prefix id line e ((Expr-Reads e h.1).prefix h.0))
  Expr-Reads (mk_expr id line (ExprKind.binary op l r)) h =
      binary-Reads id line op l r ((Expr-Reads l h.2).loop (below op) h.0)
        ((Expr-Reads r h.3).binary (below op) h.1)

  ArePrintable-Args : (es : Exprs) → ArePrintable es → Args es
  ArePrintable-Args Exprs.nil h = nil-Args
  ArePrintable-Args (Exprs.cons e es) h =
      cons-Args e es h.0 (Reads-Whole e (Expr-Reads e h.0)) (ArePrintable-More es h.1)

  ArePrintable-More : (es : Exprs) → ArePrintable es → More es
  ArePrintable-More Exprs.nil h = nil-More
  ArePrintable-More (Exprs.cons e es) h =
      cons-More e es h.0 (Reads-Whole e (Expr-Reads e h.0)) (ArePrintable-More es h.1)

-- Where the operands of an expression are as tight as their places ask, and where what follows is neither an
-- operator nor an opening parenthesis, `parseExpr` reads its tokens back, on fuel for more tokens than there
-- are: it returns the expression, but for numbers and lines, and leaves what follows.
pub parse_expr-expr_toks :
    (e : Expr) (fuel : ℕ) (rest : List Tok) (p : Parser)
    → IsPrintable e
    → p.toks ≡ expr_toks e rest
    → Stops 7 rest
    → left p < fuel
    → (result : Expr) × (after : Parser) × (parse_expr fuel p ≡ done (result, after))
      × (erase result ≡ erase e)
      × (after.toks ≡ rest)
parse_expr-expr_toks e fuel rest p h t s l =
    let c = Reads-Whole e (Expr-Reads e h) fuel rest p t l s in
    (c.result, c.after, c.returns, c.same, c.toks)
