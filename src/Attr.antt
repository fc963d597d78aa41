-- ===== src/Attr.antt =====
-- sbc/attr.ts: the attributes of a function statement, by their names.
use h4_projekt_gruppe_0_sm.Prelude.{
  ℕ, String, Bool, true, false, List, [], ◌∷◌, Option, none, some, if◌then◌else◌, str_eq, Result,
  ok, err, expect,
}
use h4_projekt_gruppe_0_sm.Ast.{
  Stmt, mk_stmt, StmtKind, Attr, Exprs, cons, mk_expr, ExprKind, exprs_length,
}

-- `AttrView.fromStmt(stmt)`, the view as its attributes
abbrev pub from_stmt : Stmt → Result (List Attr)
from_stmt (mk_stmt id line (StmtKind.fn ident attrs params ty body)) = ok attrs
from_stmt (mk_stmt id line _) = err "invalid statement"

-- `attrs.find((attr) => attr.ident === ident)`
unfoldable pub find : List Attr → String → Option Attr
find [] ident = none
find (attr ∷ attrs) ident =
    let later = find attrs ident in if str_eq attr.ident ident then some attr else later

-- `AttrView.has`
unfoldable pub has : List Attr → String → Bool
has [] ident = false
has (attr ∷ attrs) ident =
    let later = has attrs ident in if str_eq attr.ident ident then true else later

-- `AttrView.get`
unfoldable pub get : List Attr → String → Result Attr
unfolding find
get attrs ident = expect "not found" (find attrs ident)

-- `OneAttrView.args`
unfoldable pub args : Attr → ℕ
args attr = exprs_length attr.args

-- The argument 0 as the text of a string: `isStr(0)` holds where there is one, and `strVal(0)` is it.
abbrev pub first_str : Exprs → Option String
first_str (cons (mk_expr id line (ExprKind.str val)) rest) = some val
first_str _ = none
