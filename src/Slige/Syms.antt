-- ===== src/Slige/Syms.antt =====
-- The symbol tables of slige/compiler/resolve/cx.ts. They keep the nodes of the syntax tree without a look at
-- them, so the types of these are a parameter. `IdMap` is a map from the numbers of identifiers. A scope has
-- those around it by value, for a definition goes to the innermost one.
pub mod Scopes
use h4_projekt_gruppe_0_sm.Prelude.{
  ℕ, String, Bool, true, false, [], Option, none, some, if◌then◌else◌, NumMap, map_get, map_set,
}

-- The types of `@slige/ast` that a resolution refers to.
pub record Nodes : Type 1 where
  pub Item : Type 0
  pub EnumItem : Type 0
  pub StructItem : Type 0
  pub FnItem : Type 0
  pub Variant : Type 0
  pub FieldDef : Type 0
  pub Span : Type 0

module _ (n : Nodes) where
  pub record Ident : Type 0 where
    pub id : ℕ
    pub text : String
    pub span : n.Span

  pub data ResolveKind : Type 0 where
    error : ResolveKind
    enum : n.Item → n.EnumItem → ResolveKind
    struct : n.Item → n.StructItem → ResolveKind
    fn : n.Item → n.FnItem → ResolveKind
    variant : n.Item → n.EnumItem → n.Variant → ℕ → ResolveKind
    field : n.Item → n.FieldDef → ResolveKind
    local : ℕ → ResolveKind

  pub record Resolve : Type 0 where
    pub ident : Ident
    pub kind : ResolveKind

module _ {n : Nodes} where
  -- `ResolveError`
  abbrev pub resolve_error : Ident n → Resolve n
  resolve_error ident = record { ident = ident; kind = error }

  abbrev pub is_local : ResolveKind n → Bool
  is_local (local id) = true
  is_local _ = false

-- `Res<void, Redef>`, where success has the table as it is then.
pub data Res (n : Nodes) (A : Type 0) : Type 0 where
  ok : A → Res n A
  redef : Ident n → Res n A

abbrev pub map_res : {n : Nodes} {A B : Type 0} → (A → B) → Res n A → Res n B
map_res f (ok a) = ok (f a)
map_res f (redef ident) = redef ident

abbrev pub SymsOneNsTab : Nodes → Type 0
SymsOneNsTab n = NumMap (Resolve n)

pub record SymsNsTab (n : Nodes) : Type 0 where
  pub vals : SymsOneNsTab n
  pub tys : SymsOneNsTab n

pub data Syms (n : Nodes) : Type 0 where
  root : SymsNsTab n → Syms n
  fn_syms item_syms local_syms : SymsNsTab n → Syms n → Syms n

module _ {n : Nodes} where
  -- `def` of one table
  unfoldable pub def : Ident n → ResolveKind n → SymsOneNsTab n → Res n (SymsOneNsTab n)
  def ident kind defs = elim (map_get defs ident.id) [
    | some first ↦ redef first.ident
    | none ↦ ok (map_set defs ident.id (record { ident = ident; kind = kind }))
  ]

  -- `defVal` and `defTy` of the two tables of a scope
  unfoldable pub tab_def_val : Ident n → ResolveKind n → SymsNsTab n → Res n (SymsNsTab n)
  unfolding def
  tab_def_val ident kind tab =
      map_res (λ vals. record tab { vals = vals }) (def ident kind tab.vals)

  unfoldable pub tab_def_ty : Ident n → ResolveKind n → SymsNsTab n → Res n (SymsNsTab n)
  unfolding def
  tab_def_ty ident kind tab = map_res (λ tys. record tab { tys = tys }) (def ident kind tab.tys)

  -- `found || other`
  abbrev pub or_else : Option (Resolve n) → Resolve n → Resolve n
  or_else (some found) other = found
  or_else none other = other

  -- `if (res.kind.tag === "local") { return ResolveError(ident); }`
  abbrev pub hide_local : Ident n → Resolve n → Resolve n
  hide_local ident res = if is_local res.kind then resolve_error ident else res

  unfoldable pub get_val : Syms n → Ident n → Resolve n
  get_val (root tab) ident = or_else (map_get tab.vals ident.id) (resolve_error ident)
  get_val (fn_syms tab parent) ident =
      hide_local ident (or_else (map_get tab.vals ident.id) (get_val parent ident))
  get_val (item_syms tab parent) ident =
      hide_local ident (or_else (map_get tab.vals ident.id) (get_val parent ident))
  get_val (local_syms tab parent) ident = or_else (map_get tab.vals ident.id) (get_val parent ident)

  unfoldable pub get_ty : Syms n → Ident n → Resolve n
  get_ty (root tab) ident = or_else (map_get tab.tys ident.id) (resolve_error ident)
  get_ty (fn_syms tab parent) ident = or_else (map_get tab.tys ident.id) (get_ty parent ident)
  get_ty (item_syms tab parent) ident = or_else (map_get tab.tys ident.id) (get_ty parent ident)
  get_ty (local_syms tab parent) ident = or_else (map_get tab.tys ident.id) (get_ty parent ident)

  unfoldable pub def_val : Ident n → ResolveKind n → Syms n → Res n (Syms n)
  unfolding tab_def_val
  def_val ident kind (root tab) = map_res root (tab_def_val ident kind tab)
  def_val ident kind (fn_syms tab parent) =
      map_res (λ t. fn_syms t parent) (tab_def_val ident kind tab)
  def_val ident kind (item_syms tab parent) =
      map_res (λ t. item_syms t parent) (tab_def_val ident kind tab)
  def_val ident kind (local_syms tab parent) =
      map_res (λ t. local_syms t parent) (tab_def_val ident kind tab)

  unfoldable pub def_ty : Ident n → ResolveKind n → Syms n → Res n (Syms n)
  unfolding tab_def_ty
  def_ty ident kind (root tab) = map_res root (tab_def_ty ident kind tab)
  def_ty ident kind (fn_syms tab parent) =
      map_res (λ t. fn_syms t parent) (tab_def_ty ident kind tab)
  def_ty ident kind (item_syms tab parent) =
      map_res (λ t. item_syms t parent) (tab_def_ty ident kind tab)
  def_ty ident kind (local_syms tab parent) =
      map_res (λ t. local_syms t parent) (tab_def_ty ident kind tab)
