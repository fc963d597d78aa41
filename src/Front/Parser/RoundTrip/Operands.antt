-- ===== src/Front/Parser/RoundTrip/Operands.antt =====
-- `parseOperandExpr` and `parsePrefixExpr` of sbc/front.ts, on the tokens of an expression.
use h4_projekt_gruppe_0_sm.Prelude.{
  ℕ, zero, suc, ◌<◌, String, length, List, ◌∷◌, ◌≡◌, refl, ap, sym, ◌∙◌, arith,
}
use h4_projekt_gruppe_0_sm.Prelude.Fueled.{done}
use h4_projekt_gruppe_0_sm.Ast.{Expr, mk_expr, ExprKind}
use h4_projekt_gruppe_0_sm.Front.Parser.{Tok, Parser, Rule, starts, step, new_expr}
use h4_projekt_gruppe_0_sm.Front.Parser.Exprs.{
  parse_operand, postfix_loop, parse_postfix, parse_prefix, parse_expr,
}
use h4_projekt_gruppe_0_sm.Front.Parser.Printing.{
  sign, expr_toks, kind_toks, erase, erase_kind, next, eat-next, eat-none,
}
use h4_projekt_gruppe_0_sm.Front.Parser.Progress.{left}
use h4_projekt_gruppe_0_sm.Front.Parser.RoundTrip.{Continues, Parsed, Prefix, next-eaten, next-toks}

-- An operand, and an operator before it.
not_operand :
    (x : Rule Expr) (k line : ℕ) (p : Parser) (rest : List Tok) (e : Expr)
    → p.toks ≡ sign "not" line ∷ expr_toks e rest
    → (c : Parsed e rest (parse_prefix x k (next p)))
    → parse_prefix x (suc k) p ≡ done (new_expr (ExprKind.not_ c.result) c.tok.line c.after)
unfolding parse_prefix
not_operand x k line p rest e t c =
    rw (eat-next "not" p (sign "not" line) (expr_toks e rest) t refl, parse_prefix)
      (rw c.returns (rw c.eaten refl))

negate_operand :
    (x : Rule Expr) (k line : ℕ) (p : Parser) (rest : List Tok) (e : Expr)
    → p.toks ≡ sign "-" line ∷ expr_toks e rest
    → (c : Parsed e rest (parse_prefix x k (next p)))
    → parse_prefix x (suc k) p ≡ done (new_expr (ExprKind.negate c.result) c.tok.line c.after)
unfolding parse_prefix
negate_operand x k line p rest e t c =
    rw (eat-none "not" p (ap (λ toks. starts toks "not") t), parse_prefix)
      (rw (eat-next "-" p (sign "-" line) (expr_toks e rest) t refl)
        (rw c.returns (rw c.eaten refl)))

pub not-Prefix : (id line : ℕ) (e : Expr) → Prefix e → Prefix (mk_expr id line (ExprKind.not_ e))
unfolding expr_toks erase new_expr
not-Prefix id line e pre n zero rest p t b l s = ground arith
not-Prefix id line e pre n (suc k) rest p t b l s =
    let t₁ = next-toks p (sign "not" line) (expr_toks e rest) t in
    let c =
      pre n k rest (next p) t₁ (omega (arith, ap length t, ap length t₁))
        (omega (arith, ap length t, ap length t₁)) s in
    record {
      result = mk_expr c.after.expr_ids c.tok.line (ExprKind.not_ c.result);
      after = record c.after { expr_ids = suc c.after.expr_ids };
      returns = not_operand (parse_expr n) k line p rest e t c;
      same = ap (λ x. mk_expr 0 0 (ExprKind.not_ x)) c.same;
      toks = c.toks;
      tok = c.tok;
      eaten = c.eaten;
    }

pub negate-Prefix :
    (id line : ℕ) (e : Expr) → Prefix e → Prefix (mk_expr id line (ExprKind.negate e))
unfolding expr_toks erase new_expr
negate-Prefix id line e pre n zero rest p t b l s = ground arith
negate-Prefix id line e pre n (suc k) rest p t b l s =
    let t₁ = next-toks p (sign "-" line) (expr_toks e rest) t in
    let c =
      pre n k rest (next p) t₁ (omega (arith, ap length t, ap length t₁))
        (omega (arith, ap length t, ap length t₁)) s in
    record {
      result = mk_expr c.after.expr_ids c.tok.line (ExprKind.negate c.result);
      after = record c.after { expr_ids = suc c.after.expr_ids };
      returns = negate_operand (parse_expr n) k line p rest e t c;
      same = ap (λ x. mk_expr 0 0 (ExprKind.negate x)) c.same;
      toks = c.toks;
      tok = c.tok;
      eaten = c.eaten;
    }

-- Atoms.
pub atom-Continues :
    (e : Expr) (x : Rule Expr) (n k : ℕ) (p : Parser) (tok : Tok) (rest : List Tok)
    (kind : ExprKind)
    → p.toks ≡ tok ∷ rest
    → left p < k
    → erase_kind kind ≡ kind
    → erase e ≡ mk_expr 0 0 kind
    → parse_operand p
      ≡ done (mk_expr p.expr_ids tok.line kind, record (next p) { expr_ids = suc p.expr_ids })
    → Continues e rest (postfix_loop x) (parse_postfix x k p)
unfolding parse_postfix erase
atom-Continues e x n k p tok rest kind t l plain same h = record {
  result = mk_expr p.expr_ids tok.line kind;
  after = record (next p) { expr_ids = suc p.expr_ids };
  fuel = k;
  returns = rw (h, parse_postfix) refl;
  same = ap (mk_expr 0 0) plain ∙ sym same;
  toks = next-toks p tok rest t;
  tok = tok;
  eaten = next-eaten p tok rest t;
  enough = omega (arith, ap length t);
}

module _ (p : Parser) (line : ℕ) (rest : List Tok) where
  pub parse_operand_ident :
      (ident : String)
      → p.toks ≡ kind_toks (ExprKind.ident ident) line rest
      → parse_operand p
        ≡ done (
          mk_expr p.expr_ids line (ExprKind.ident ident),
          record (next p) { expr_ids = suc p.expr_ids },
        )
  unfolding parse_operand expr_toks new_expr step
  parse_operand_ident ident t =
      rw (eat-next "ident" p _ rest t refl, parse_operand) (rw (next-eaten p _ rest t) refl)

  pub parse_operand_int :
      (value : ℕ)
      → p.toks ≡ kind_toks (ExprKind.int value) line rest
      → parse_operand p
        ≡ done (
          mk_expr p.expr_ids line (ExprKind.int value),
          record (next p) { expr_ids = suc p.expr_ids },
        )
  unfolding parse_operand expr_toks new_expr step
  parse_operand_int value t =
      rw (eat-none "ident" p (ap (λ toks. starts toks "ident") t), parse_operand)
        (rw (eat-next "int" p _ rest t refl) (rw (next-eaten p _ rest t) refl))

  pub parse_operand_str :
      (value : String)
      → p.toks ≡ kind_toks (ExprKind.str value) line rest
      → parse_operand p
        ≡ done (
          mk_expr p.expr_ids line (ExprKind.str value),
          record (next p) { expr_ids = suc p.expr_ids },
        )
  unfolding parse_operand expr_toks new_expr step
  parse_operand_str value t =
      rw (eat-none "ident" p (ap (λ toks. starts toks "ident") t), parse_operand)
        (rw (eat-none "int" p (ap (λ toks. starts toks "int") t))
          (rw (eat-next "str" p _ rest t refl) (rw (next-eaten p _ rest t) refl)))
