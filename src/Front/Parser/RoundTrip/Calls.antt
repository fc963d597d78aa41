-- ===== src/Front/Parser/RoundTrip/Calls.antt =====
-- Arguments and the loop of `parsePostfixExpr` of sbc/front.ts, on the tokens of a call.
use h4_projekt_gruppe_0_sm.Prelude.{
  ℕ, zero, suc, ◌≤◌, ◌<◌, true, false, ◌||◌, length, List, [], ◌∷◌, str_eq, ◌≡◌, refl, ap, ap₂, ◌∙◌,
  arith,
}
use h4_projekt_gruppe_0_sm.Prelude.Fueled.{done}
use h4_projekt_gruppe_0_sm.Ast.{Expr, mk_expr, ExprKind, Exprs}
use h4_projekt_gruppe_0_sm.Front.Parser.{
  Tok, Parser, Rule, starts, step, required, items, more_items, new_expr, is_done, test, head,
}
use h4_projekt_gruppe_0_sm.Front.Parser.Exprs.{line_of, to_exprs, postfix_loop, parse_expr}
use h4_projekt_gruppe_0_sm.Front.Parser.Printing.{
  IsPrintable, sign, expr_toks, args_toks, more_toks, erase, length-expr_toks, length-args_toks,
  Stops, next, eat-next,
}
use h4_projekt_gruppe_0_sm.Front.Parser.Progress.{left}
use h4_projekt_gruppe_0_sm.Front.Parser.RoundTrip.{
  Args, Continues, More, Postfix, Whole, next-eaten, next-toks,
}

-- The first token of an expression does not end a list, and that of a postfix expression is no operator.
pub record Begins (toks : List Tok) : Type 0 where
  pub tok : Tok
  pub others : List Tok
  pub is : toks ≡ tok ∷ others
  pub no_end : str_eq tok.type ")" ≡ false

expr_toks-Begins : (e : Expr) (rest : List Tok) → IsPrintable e → Begins (expr_toks e rest)
unfolding expr_toks IsPrintable
expr_toks-Begins (mk_expr id line (ExprKind.ident ident)) rest h = record {
  tok = _;
  others = _;
  is = refl;
  no_end = refl;
}
expr_toks-Begins (mk_expr id line (ExprKind.int value)) rest h = record {
  tok = _;
  others = _;
  is = refl;
  no_end = refl;
}
expr_toks-Begins (mk_expr id line (ExprKind.str value)) rest h = record {
  tok = _;
  others = _;
  is = refl;
  no_end = refl;
}
expr_toks-Begins (mk_expr id line (ExprKind.call callee args)) rest h =
    expr_toks-Begins callee _ h.1
expr_toks-Begins (mk_expr id line (ExprKind.not_ e)) rest h = record {
  tok = _;
  others = _;
  is = refl;
  no_end = refl;
}
expr_toks-Begins (mk_expr id line (ExprKind.negate e)) rest h = record {
  tok = _;
  others = _;
  is = refl;
  no_end = refl;
}
expr_toks-Begins (mk_expr id line (ExprKind.binary op l r)) rest h = expr_toks-Begins l _ h.2
expr_toks-Begins (mk_expr id line ExprKind.error) rest h = elim h [ ]

-- The list ends, or not, by the first token.
at_end_Begins :
    (p : Parser) (toks : List Tok) → p.toks ≡ toks → Begins toks → (is_done p || test ")" p) ≡ false
at_end_Begins p toks t b = rw (t ∙ b.is) b.no_end

at_end_sign :
    (p : Parser) (line : ℕ) (rest : List Tok)
    → p.toks ≡ sign ")" line ∷ rest
    → (is_done p || test ")" p) ≡ true
at_end_sign p line rest t = rw t refl

at_end_comma :
    (p : Parser) (line : ℕ) (rest : List Tok)
    → p.toks ≡ sign "," line ∷ rest
    → (is_done p || test ")" p) ≡ false
at_end_comma p line rest t = rw t refl

more_items_cons :
    (x : Rule Expr) (k line : ℕ) (toks : List Tok) (p after last : Parser) (e : Expr)
    (es : List Expr)
    → p.toks ≡ sign "," line ∷ toks
    → test ")" (next p) ≡ false
    → x (next p) ≡ done (e, after)
    → more_items x k after ≡ done (es, last)
    → more_items x (suc k) p ≡ done (e ∷ es, last)
unfolding more_items required
more_items_cons x k line toks p after last e es t first head rest =
    rw (at_end_comma p line toks t, more_items)
      (rw (eat-next "," p (sign "," line) toks t refl) (rw first (rw head (rw rest refl))))

more_Stops :
    (es : Exprs) (line : ℕ) (rest : List Tok) → Stops 7 (more_toks es line (sign ")" line ∷ rest))
unfolding expr_toks
more_Stops Exprs.nil line rest = record { no_call = refl; no_op = refl }
more_Stops (Exprs.cons e es) line rest = record { no_call = refl; no_op = refl }

pub nil-More : More Exprs.nil
unfolding more_items expr_toks
nil-More n zero line rest p t b l = ground arith
nil-More n (suc k) line rest p t b l = record {
  result = [];
  after = p;
  returns = rw (at_end_sign p line rest t, more_items) refl;
  same = refl;
  toks = t;
}

pub nil-Args : Args Exprs.nil
unfolding items expr_toks
nil-Args n k line rest p t b l = record {
  result = [];
  after = p;
  returns = rw (at_end_sign p line rest t, items) refl;
  same = refl;
  toks = t;
}

pub cons-Args : (e : Expr) (es : Exprs) → IsPrintable e → Whole e → More es → Args (Exprs.cons e es)
unfolding items expr_toks erase
cons-Args e es h whole more n k line rest p t b l =
    let after = more_toks es line (sign ")" line ∷ rest) in
    let c = whole n after p t b (more_Stops es line rest) in
    let shorter : left c.after ≤ left p =
      omega (arith, ap length c.toks, ap length t, length-expr_toks e after) in
    let d = more n k line rest c.after c.toks (omega arith) (omega arith) in
    record {
      result = c.result ∷ d.result;
      after = d.after;
      returns =
          rw (at_end_Begins p _ t (expr_toks-Begins e after h), items)
            (rw c.returns (rw d.returns refl));
      same = ap₂ Exprs.cons c.same d.same;
      toks = d.toks;
    }

pub cons-More : (e : Expr) (es : Exprs) → IsPrintable e → Whole e → More es → More (Exprs.cons e es)
unfolding more_items expr_toks erase required
cons-More e es h whole more n zero line rest p t b l = ground arith
cons-More e es h whole more n (suc k) line rest p t b l =
    let after = more_toks es line (sign ")" line ∷ rest) in
    let t₁ = next-toks p (sign "," line) (expr_toks e after) t in
    let begins = expr_toks-Begins e after h in
    let c =
      whole n after (next p) t₁ (omega (arith, ap length t, ap length t₁))
        (more_Stops es line rest) in
    let shorter : left c.after < left p =
      omega (arith, ap length c.toks, ap length t, length-expr_toks e after) in
    let d = more n k line rest c.after c.toks (omega arith) (omega arith) in
    record {
      result = c.result ∷ d.result;
      after = d.after;
      returns =
          more_items_cons (parse_expr n) k line (expr_toks e after) p c.after d.after c.result
            d.result t (ap (λ toks. starts toks ")") (t₁ ∙ begins.is) ∙ begins.no_end) c.returns
            d.returns;
      same = ap₂ Exprs.cons c.same d.same;
      toks = d.toks;
    }

-- A call, after what is called.
call_turn :
    (x : Rule Expr) (k line : ℕ) (toks rest : List Tok) (p p₁ : Parser) (f : Expr) (es : List Expr)
    → p.toks ≡ sign "(" line ∷ toks
    → items x k (next p) ≡ done (es, p₁)
    → p₁.toks ≡ sign ")" line ∷ rest
    → postfix_loop x (suc k) f p
      ≡ postfix_loop x k
          (mk_expr p₁.expr_ids (line_of f) (ExprKind.call f (to_exprs es)))
          (record (next p₁) { expr_ids = suc p₁.expr_ids })
unfolding postfix_loop required new_expr step
call_turn x k line toks rest p p₁ f es t args close =
    rw (eat-next "(" p (sign "(" line) toks t refl, postfix_loop)
      (rw args (rw (eat-next ")" p₁ (sign ")" line) rest close refl) refl))

call-Continues :
    (n m id line : ℕ) (callee : Expr) (args : Exprs) (rest : List Tok) (p : Parser) (f : Expr)
    → Args args
    → p.toks ≡ sign "(" line ∷ args_toks args line (sign ")" line ∷ rest)
    → erase f ≡ erase callee
    → left p ≤ n
    → left p < m
    → Continues
        (mk_expr id line (ExprKind.call callee args))
        rest
        (postfix_loop (parse_expr n))
        (postfix_loop (parse_expr n) m f p)
unfolding erase
call-Continues n zero id line callee args rest p f args_read t same b l = ground arith
call-Continues n (suc k) id line callee args rest p f args_read t same b l =
    let toks = args_toks args line (sign ")" line ∷ rest) in
    let t₁ = next-toks p (sign "(" line) toks t in
    let shorter : left (next p) < left p = omega (arith, ap length t, ap length t₁) in
    let a = args_read n k line rest (next p) t₁ (omega arith) (omega arith) in
    record {
      result = mk_expr a.after.expr_ids (line_of f) (ExprKind.call f (to_exprs a.result));
      after = record (next a.after) { expr_ids = suc a.after.expr_ids };
      fuel = k;
      returns = call_turn (parse_expr n) k line toks rest p a.after f a.result t a.returns a.toks;
      same = ap₂ (λ x y. mk_expr 0 0 (ExprKind.call x y)) same a.same;
      toks = next-toks a.after (sign ")" line) rest a.toks;
      tok = sign ")" line;
      eaten = next-eaten a.after (sign ")" line) rest a.toks;
      enough = omega (arith, ap length t₁, length-args_toks args line (sign ")" line ∷ rest));
    }

pub call-Postfix :
    (id line : ℕ) (callee : Expr) (args : Exprs)
    → Postfix callee
    → Args args
    → Postfix (mk_expr id line (ExprKind.call callee args))
unfolding expr_toks
call-Postfix id line callee args post args_read n k rest p t b l =
    let inner = args_toks args line (sign ")" line ∷ rest) in
    let c = post n k (sign "(" line ∷ inner) p t b l in
    let shorter : left c.after ≤ left p =
      omega
        (arith, ap length c.toks, ap length t, length-expr_toks callee (sign "(" line ∷ inner)) in
    let d =
      call-Continues n c.fuel id line callee args rest c.after c.result args_read c.toks c.same
        (omega arith) (omega (arith, c.enough, ap length c.toks)) in
    record {
      result = d.result;
      after = d.after;
      fuel = d.fuel;
      returns = c.returns ∙ d.returns;
      same = d.same;
      toks = d.toks;
      tok = d.tok;
      eaten = d.eaten;
      enough = d.enough;
    }
