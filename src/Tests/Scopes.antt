-- ===== src/Tests/Scopes.antt =====
-- Names under the symbol tables of slige/compiler/resolve/cx.ts.
use h4_projekt_gruppe_0_sm.Prelude.{ℕ, false, [], ◌∷◌, if◌then◌else◌, ◌==◌, ◌≡◌, refl}
use h4_projekt_gruppe_0_sm.Slige.Syms.{
  Nodes, Ident, local, is_local, ok, redef, Syms, root, fn_syms, local_syms, get_val, get_ty,
  def_val,
}
use h4_projekt_gruppe_0_sm.Slige.Syms.Scopes.{
  shown, def_val-get_val, get_val-is_local, def_val-redef,
}

-- Numbers for the nodes of a syntax tree.
abbrev numbered : Nodes
numbered = record {
  Item = ℕ;
  EnumItem = ℕ;
  StructItem = ℕ;
  FnItem = ℕ;
  Variant = ℕ;
  FieldDef = ℕ;
  Span = ℕ;
}

abbrev x_ident : Ident numbered
x_ident = record { id = 1; text = "x"; span = 0 }

abbrev x_again : Ident numbered
x_again = record { id = 1; text = "x"; span = 7 }

abbrev empty_root : Syms numbered
empty_root = root (record { vals = []; tys = [] })

abbrev empty_scope : Syms numbered
empty_scope = local_syms (record { vals = []; tys = [] }) empty_root

abbrev x_scope : Syms numbered
x_scope =
    local_syms (record { vals = (1, record { ident = x_ident; kind = local 5 }) ∷ []; tys = [] })
      empty_root

x_defined : def_val x_ident (local 5) empty_scope ≡ ok x_scope
unfolding def_val
x_defined = refl

def_val-get_val_example :
    (get_val x_scope x_again ≡ (
      if x_ident.id == x_again.id
      then shown empty_scope x_again (record { ident = x_ident; kind = local 5 })
      else get_val empty_scope x_again))
    × (get_ty x_scope x_again ≡ get_ty empty_scope x_again)
def_val-get_val_example = def_val-get_val x_ident x_again (local 5) empty_scope x_scope x_defined

def_val-redef_example : def_val x_again (local 6) x_scope ≡ redef x_ident
def_val-redef_example =
    def_val-redef x_ident x_again (local 5) (local 6) empty_scope x_scope x_defined refl

-- A function inside the block of `x`.
get_val-is_local_example :
    is_local (get_val (fn_syms (record { vals = []; tys = [] }) x_scope) x_again).kind ≡ false
get_val-is_local_example =
    get_val-is_local (fn_syms (record { vals = []; tys = [] }) x_scope) x_again refl
