-- ===== src/Front/Parser/RoundTrip/Operators.antt =====
-- The loop of `parseBinaryExpr` of sbc/front.ts, on the tokens of a binary operator.
use h4_projekt_gruppe_0_sm.Prelude.{
  ℕ, zero, suc, ◌≤◌, ◌<◌, length, List, ◌∷◌, ◌≡◌, refl, ap, ap₂, ◌∙◌, arith,
}
use h4_projekt_gruppe_0_sm.Prelude.Fueled.{done}
use h4_projekt_gruppe_0_sm.Ast.{Expr, mk_expr, ExprKind, BinaryOp}
use h4_projekt_gruppe_0_sm.Front.Parser.{Tok, Parser, Rule, new_expr}
use h4_projekt_gruppe_0_sm.Front.Parser.Exprs.{line_of, binary_loop, parse_binary, parse_expr}
use h4_projekt_gruppe_0_sm.Front.Parser.Printing.{
  op_text, below, sign, expr_toks, erase, length-expr_toks, Stops, op-Stops, next, eat_op-next,
}
use h4_projekt_gruppe_0_sm.Front.Parser.Progress.{left}
use h4_projekt_gruppe_0_sm.Front.Parser.RoundTrip.{Binary, BinaryLoop, Continues, next-toks}

-- A binary operator, after its left operand.
binary_turn :
    (x : Rule Expr) (k line : ℕ) (toks : List Tok) (op : BinaryOp) (p p₁ : Parser) (l r : Expr)
    → p.toks ≡ sign (op_text op) line ∷ toks
    → x (next p) ≡ done (r, p₁)
    → binary_loop x (suc (below op)) (suc k) l p
      ≡ binary_loop x
          (suc (below op))
          k
          (mk_expr p₁.expr_ids (line_of l) (ExprKind.binary op l r))
          (record p₁ { expr_ids = suc p₁.expr_ids })
unfolding binary_loop new_expr
binary_turn x k line toks op p p₁ l r t right =
    rw (eat_op-next op p line toks t, binary_loop) (rw right refl)

binary-Continues :
    (n k₀ k id line : ℕ) (op : BinaryOp) (left_operand right_operand : Expr) (rest : List Tok)
    (p : Parser) (f : Expr)
    → Binary (below op) right_operand
    → p.toks ≡ sign (op_text op) line ∷ expr_toks right_operand rest
    → erase f ≡ erase left_operand
    → left p ≤ n
    → left p ≤ k₀
    → left p < k
    → Stops (below op) rest
    → Continues
        (mk_expr id line (ExprKind.binary op left_operand right_operand))
        rest
        (binary_loop (parse_binary (parse_expr n) k₀ (below op)) (suc (below op)))
        (binary_loop (parse_binary (parse_expr n) k₀ (below op)) (suc (below op)) k f p)
unfolding erase
binary-Continues n k₀ zero id line op l r rest p f bin t same b b₀ h s = ground arith
binary-Continues n k₀ (suc k) id line op l r rest p f bin t same b b₀ h s =
    let toks = expr_toks r rest in
    let t₁ = next-toks p (sign (op_text op) line) toks t in
    let shorter : left (next p) < left p = omega (arith, ap length t, ap length t₁) in
    let c = bin n k₀ rest (next p) t₁ (omega arith) (omega arith) s in
    record {
      result = mk_expr c.after.expr_ids (line_of f) (ExprKind.binary op f c.result);
      after = record c.after { expr_ids = suc c.after.expr_ids };
      fuel = k;
      returns =
          binary_turn (parse_binary (parse_expr n) k₀ (below op)) k line toks op p c.after f
            c.result t c.returns;
      same = ap₂ (λ x y. mk_expr 0 0 (ExprKind.binary op x y)) same c.same;
      toks = c.toks;
      tok = c.tok;
      eaten = c.eaten;
      enough = omega (arith, ap length t₁, length-expr_toks r rest);
    }

pub binary-BinaryLoop :
    (id line : ℕ) (op : BinaryOp) (l r : Expr)
    → BinaryLoop (below op) l
    → Binary (below op) r
    → BinaryLoop (below op) (mk_expr id line (ExprKind.binary op l r))
unfolding expr_toks
binary-BinaryLoop id line op l r loop bin n k rest p t b h s =
    let inner = expr_toks r rest in
    let c = loop n k (sign (op_text op) line ∷ inner) p t b h (op-Stops op line inner) in
    let shorter : left c.after ≤ left p =
      omega (
        arith,
        ap length c.toks,
        ap length t,
        length-expr_toks l (sign (op_text op) line ∷ inner),
      ) in
    let d =
      binary-Continues n k c.fuel id line op l r rest c.after c.result bin c.toks c.same
        (omega arith) (omega arith) (omega (arith, c.enough, ap length c.toks)) s in
    record {
      result = d.result;
      after = d.after;
      fuel = d.fuel;
      returns = c.returns ∙ d.returns;
      same = d.same;
      toks = d.toks;
      tok = d.tok;
      eaten = d.eaten;
      enough = d.enough;
    }
