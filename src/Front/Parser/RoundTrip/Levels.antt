-- ===== src/Front/Parser/RoundTrip/Levels.antt =====
-- The levels of `parseBinaryExpr` of sbc/front.ts, on the tokens of an expression.
use h4_projekt_gruppe_0_sm.Prelude.{
  ℕ, zero, suc, ◌≤◌, ◌<◌, false, length, List, ◌≡◌, refl, Bool-cases, inl, inr, leb, leb→le, ap,
  sym, subst, ◌∙◌, arith,
}
use h4_projekt_gruppe_0_sm.Prelude.Fueled.{done}
use h4_projekt_gruppe_0_sm.Ast.{Expr, mk_expr, ExprKind}
use h4_projekt_gruppe_0_sm.Front.Parser.{Tok, Parser, Rule, starts}
use h4_projekt_gruppe_0_sm.Front.Parser.Exprs.{
  postfix_loop, parse_postfix, parse_prefix, binary_loop, parse_binary, parse_expr, ops,
}
use h4_projekt_gruppe_0_sm.Front.Parser.Printing.{
  below, IsPostfix, IsPrintable, expr_toks, length-expr_toks, Stops, Stops-sooner, eat_op-none,
  eat-none, is_op,
}
use h4_projekt_gruppe_0_sm.Front.Parser.Progress.{left}
use h4_projekt_gruppe_0_sm.Front.Parser.RoundTrip.{Binary, BinaryLoop, Postfix, Prefix, Whole}

postfix_first :
    (e : Expr) (rest : List Tok)
    → IsPostfix e
    → IsPrintable e
    → (starts (expr_toks e rest) "not" ≡ false) × (starts (expr_toks e rest) "-" ≡ false)
unfolding expr_toks IsPrintable
postfix_first (mk_expr id line (ExprKind.ident ident)) rest x h = (refl, refl)
postfix_first (mk_expr id line (ExprKind.int value)) rest x h = (refl, refl)
postfix_first (mk_expr id line (ExprKind.str value)) rest x h = (refl, refl)
postfix_first (mk_expr id line (ExprKind.call callee args)) rest x h =
    postfix_first callee _ h.0 h.1
postfix_first (mk_expr id line (ExprKind.not_ e)) rest x h = elim x [ ]
postfix_first (mk_expr id line (ExprKind.negate e)) rest x h = elim x [ ]
postfix_first (mk_expr id line (ExprKind.binary op l r)) rest x h = elim x [ ]
postfix_first (mk_expr id line ExprKind.error) rest x h = elim h [ ]

-- Each rule at the point where it looks at a token, by what the token is.
postfix_loop_stops :
    (x : Rule Expr) (k : ℕ) (e : Expr) (p : Parser)
    → starts p.toks "(" ≡ false
    → left p < k
    → postfix_loop x k e p ≡ done (e, p)
unfolding postfix_loop
postfix_loop_stops x zero e p s l = ground arith
postfix_loop_stops x (suc k) e p s l = rw (eat-none "(" p s, postfix_loop) refl

binary_loop-Stops :
    (x : Rule Expr) (m k : ℕ) (e : Expr) (p : Parser) (rest : List Tok)
    → p.toks ≡ rest
    → Stops m rest
    → length rest < k
    → binary_loop x m k e p ≡ done (e, p)
unfolding binary_loop
binary_loop-Stops x m zero e p rest t s l = ground arith
binary_loop-Stops x m (suc k) e p rest t s l =
    rw (eat_op-none ops m p (ap (is_op ops m) t ∙ s.no_op), binary_loop) refl

parse_prefix_postfix :
    (x : Rule Expr) (k : ℕ) (p : Parser)
    → starts p.toks "not" ≡ false
    → starts p.toks "-" ≡ false
    → parse_prefix x (suc k) p ≡ parse_postfix x (suc k) p
unfolding parse_prefix
parse_prefix_postfix x k p h g = rw (eat-none "not" p h, parse_prefix) (rw (eat-none "-" p g) refl)

-- A postfix expression with no call after it.
pub Postfix-Prefix : (e : Expr) → IsPostfix e → IsPrintable e → Postfix e → Prefix e
Postfix-Prefix e x h post n zero rest p t b l s = ground arith
Postfix-Prefix e x h post n (suc k) rest p t b l s =
    let first = postfix_first e rest x h in
    let c = post n (suc k) rest p t b l in
    record {
      result = c.result;
      after = c.after;
      same = c.same;
      toks = c.toks;
      tok = c.tok;
      eaten = c.eaten;
      returns =
          parse_prefix_postfix (parse_expr n) k p (ap (λ toks. starts toks "not") t ∙ first.0)
            (ap (λ toks. starts toks "-") t ∙ first.1)
          ∙ c.returns
          ∙ postfix_loop_stops (parse_expr n) c.fuel c.result c.after
              (ap (λ toks. starts toks "(") c.toks ∙ s)
              (subst (λ toks. length toks < c.fuel) (sym c.toks) c.enough);
    }

pub Prefix-Binary : (e : Expr) → Prefix e → Binary 0 e
unfolding parse_binary
Prefix-Binary e pre n k rest p t b l s = pre n k rest p t b l s.no_call

-- The loop of a level, after an operand that is tighter.
pub Binary-BinaryLoop : (m : ℕ) (e : Expr) → Binary m e → BinaryLoop m e
unfolding parse_binary
Binary-BinaryLoop m e bin n k rest p t b l s =
    let c = bin n k rest p t b l s in
    record {
      result = c.result;
      after = c.after;
      fuel = k;
      same = c.same;
      toks = c.toks;
      tok = c.tok;
      eaten = c.eaten;
      returns = rw (c.returns, parse_binary) refl;
      enough = omega (arith, length-expr_toks e rest, ap length t);
    }

pub BinaryLoop-Binary : (m : ℕ) (e : Expr) → BinaryLoop m e → Binary (suc m) e
BinaryLoop-Binary m e loop n k rest p t b l s =
    let c = loop n k rest p t b l (Stops-sooner m rest s) in
    record {
      result = c.result;
      after = c.after;
      same = c.same;
      toks = c.toks;
      tok = c.tok;
      eaten = c.eaten;
      returns =
          c.returns
          ∙ binary_loop-Stops (parse_binary (parse_expr n) k m) (suc m) c.fuel c.result c.after rest
              c.toks s c.enough;
    }

-- What is read at a level is read at a looser one.
pub Binary-looser : (e : Expr) (m k : ℕ) → m ≤ k → Binary m e → Binary k e
Binary-looser e m zero l bin = subst (λ j. Binary j e) (omega arith) bin
Binary-looser e m (suc k) l bin = elim (Bool-cases (leb m k)) [
  | inl below ↦
      BinaryLoop-Binary k e (Binary-BinaryLoop k e (Binary-looser e m k (leb→le m k below) bin))
  | inr equal ↦ subst (λ j. Binary j e) (ground (arith, equal, l)) bin
]

pub Binary-Whole : (e : Expr) → Binary 7 e → Whole e
unfolding parse_expr
Binary-Whole e bin zero rest p t l s = ground arith
Binary-Whole e bin (suc n) rest p t l s = bin n (suc n) rest p t (omega arith) l s
