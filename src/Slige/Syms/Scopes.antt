-- ===== src/Slige/Syms/Scopes.antt =====
-- What the scopes of slige/compiler/resolve/cx.ts answer after a definition.
use h4_projekt_gruppe_0_sm.Prelude.{
  ℕ, Bool, true, false, Option, some, Bool-cases, inl, inr, if◌then◌else◌, ◌==◌, map_get,
  map_get-map_set, ◌≡◌, refl, ap, sym, ◌∙◌, arith,
}
use h4_projekt_gruppe_0_sm.Slige.Syms.{
  Nodes, Ident, ResolveKind, Resolve, resolve_error, is_local, Res, ok, redef, map_res,
  SymsOneNsTab, SymsNsTab, Syms, root, fn_syms, item_syms, local_syms, def, tab_def_val, or_else,
  hide_local, get_val, get_ty, def_val,
}

module _ {n : Nodes} where
  -- The scope of a function or an item.
  abbrev pub hides : Syms n → Bool
  hides (fn_syms tab parent) = true
  hides (item_syms tab parent) = true
  hides _ = false

  -- A new value as a scope shows it.
  abbrev pub shown : Syms n → Ident n → Resolve n → Resolve n
  shown syms ident res = if hides syms then hide_local ident res else res

  def-get :
      (ident : Ident n) (kind : ResolveKind n) (defs defs' : SymsOneNsTab n) (id : ℕ)
      → def ident kind defs ≡ ok defs'
      → map_get defs' id
        ≡ (if ident.id == id then some (record { ident = ident; kind = kind }) else map_get defs id)
  unfolding def
  def-get ident kind defs defs' id h =
      ground (arith, h, map_get-map_set defs ident.id id (record { ident = ident; kind = kind }))

  map_res-eq-ok :
      {A B : Type 0} (f : A → B) (m : Res n A) {b : B}
      → map_res f m ≡ ok b
      → (a : A) × (m ≡ ok a) × (f a ≡ b)
  map_res-eq-ok f (ok a) h = (a, refl, cc)
  map_res-eq-ok f (redef ident) h = cc

  tab_def_val-vals :
      (ident : Ident n) (kind : ResolveKind n) (tab tab' : SymsNsTab n) (id : ℕ)
      → tab_def_val ident kind tab ≡ ok tab'
      → (map_get tab'.vals id ≡ (
          if ident.id == id
          then some (record { ident = ident; kind = kind })
          else map_get tab.vals id))
        × (tab'.tys ≡ tab.tys)
  unfolding tab_def_val
  tab_def_val-vals ident kind tab tab' id h =
      let (vals, is_ok, same) =
        map_res-eq-ok (λ vals. record tab { vals = vals }) (def ident kind tab.vals) h in
      (
        ap (λ t. map_get t.vals id) (sym same) ∙ def-get ident kind tab.vals vals id is_ok,
        ap (λ t. t.tys) (sym same),
      )

  -- An answer, as the scope shows it, by whether the name is the one that was defined.
  looked_up :
      (b : Bool) (found found' : Option (Resolve n)) (new outer : Resolve n)
      (show : Resolve n → Resolve n)
      → found' ≡ (if b then some new else found)
      → show (or_else found' outer) ≡ (if b then show new else show (or_else found outer))
  looked_up true found found' new outer show h = ap (λ o. show (or_else o outer)) h
  looked_up false found found' new outer show h = ap (λ o. show (or_else o outer)) h

  -- A value that was defined is what its name resolves to, where it is shown, and other names resolve as
  -- before. What names of types resolve to stays the same.
  pub def_val-get_val :
      (ident other : Ident n) (kind : ResolveKind n) (syms syms' : Syms n)
      → def_val ident kind syms ≡ ok syms'
      → (get_val syms' other ≡ (
          if ident.id == other.id
          then shown syms other (record { ident = ident; kind = kind })
          else get_val syms other))
        × (get_ty syms' other ≡ get_ty syms other)
  unfolding def_val get_val get_ty
  def_val-get_val ident other kind (root tab) syms' h =
      let (tab', is_ok, same) = map_res-eq-ok (root) (tab_def_val ident kind tab) h in
      let (vals, tys) = tab_def_val-vals ident kind tab tab' other.id is_ok in
      (
        ap (λ s. get_val s other) (sym same)
            ∙ looked_up (ident.id == other.id) (map_get tab.vals other.id)
                (map_get tab'.vals other.id) (record { ident = ident; kind = kind })
                (resolve_error other) (λ res. res) vals,
        ap (λ s. get_ty s other) (sym same)
            ∙ ap (λ t. or_else (map_get t other.id) (resolve_error other)) tys,
      )
  def_val-get_val ident other kind (fn_syms tab parent) syms' h =
      let (tab', is_ok, same) =
        map_res-eq-ok (λ t. fn_syms t parent) (tab_def_val ident kind tab) h in
      let (vals, tys) = tab_def_val-vals ident kind tab tab' other.id is_ok in
      (
        ap (λ s. get_val s other) (sym same)
            ∙ looked_up (ident.id == other.id) (map_get tab.vals other.id)
                (map_get tab'.vals other.id) (record { ident = ident; kind = kind })
                (get_val parent other) (hide_local other) vals,
        ap (λ s. get_ty s other) (sym same)
            ∙ ap (λ t. or_else (map_get t other.id) (get_ty parent other)) tys,
      )
  def_val-get_val ident other kind (item_syms tab parent) syms' h =
      let (tab', is_ok, same) =
        map_res-eq-ok (λ t. item_syms t parent) (tab_def_val ident kind tab) h in
      let (vals, tys) = tab_def_val-vals ident kind tab tab' other.id is_ok in
      (
        ap (λ s. get_val s other) (sym same)
            ∙ looked_up (ident.id == other.id) (map_get tab.vals other.id)
                (map_get tab'.vals other.id) (record { ident = ident; kind = kind })
                (get_val parent other) (hide_local other) vals,
        ap (λ s. get_ty s other) (sym same)
            ∙ ap (λ t. or_else (map_get t other.id) (get_ty parent other)) tys,
      )
  def_val-get_val ident other kind (local_syms tab parent) syms' h =
      let (tab', is_ok, same) =
        map_res-eq-ok (λ t. local_syms t parent) (tab_def_val ident kind tab) h in
      let (vals, tys) = tab_def_val-vals ident kind tab tab' other.id is_ok in
      (
        ap (λ s. get_val s other) (sym same)
            ∙ looked_up (ident.id == other.id) (map_get tab.vals other.id)
                (map_get tab'.vals other.id) (record { ident = ident; kind = kind })
                (get_val parent other) (λ res. res) vals,
        ap (λ s. get_ty s other) (sym same)
            ∙ ap (λ t. or_else (map_get t other.id) (get_ty parent other)) tys,
      )

  hidden : (ident : Ident n) (res : Resolve n) → is_local (hide_local ident res).kind ≡ false
  hidden ident res = elim (Bool-cases (is_local res.kind)) [
    | inl e ↦ rw (e, hide_local) refl
    | inr e ↦ rw (e, hide_local) e
  ]

  -- Through the scope of a function or an item no name resolves to a local, whatever its own table and those
  -- around have.
  pub get_val-is_local :
      (syms : Syms n) (ident : Ident n)
      → hides syms ≡ true
      → is_local (get_val syms ident).kind ≡ false
  unfolding get_val
  get_val-is_local (root tab) ident h = cc
  get_val-is_local (local_syms tab parent) ident h = cc
  get_val-is_local (fn_syms tab parent) ident h =
      hidden ident (or_else (map_get tab.vals ident.id) (get_val parent ident))
  get_val-is_local (item_syms tab parent) ident h =
      hidden ident (or_else (map_get tab.vals ident.id) (get_val parent ident))

  def-redef :
      (ident : Ident n) (kind : ResolveKind n) (defs : SymsOneNsTab n) (first : Resolve n)
      → map_get defs ident.id ≡ some first
      → def ident kind defs ≡ redef first.ident
  unfolding def
  def-redef ident kind defs first found = rw (found, def) refl

  tab_def_val-redef :
      (ident again : Ident n) (kind kind' : ResolveKind n) (tab tab' : SymsNsTab n)
      → tab_def_val ident kind tab ≡ ok tab'
      → (ident.id == again.id) ≡ true
      → tab_def_val again kind' tab' ≡ redef ident
  unfolding tab_def_val
  tab_def_val-redef ident again kind kind' tab tab' h same =
      let (vals, _) = tab_def_val-vals ident kind tab tab' again.id h in
      let found : map_get tab'.vals again.id ≡ some (record { ident = ident; kind = kind }) =
        vals ∙ rw same refl in
      ap (map_res (λ vals. record tab' { vals = vals }))
        (def-redef again kind' tab'.vals (record { ident = ident; kind = kind }) found)

  -- A value is defined once in a scope: a second definition of its name fails with the first identifier.
  pub def_val-redef :
      (ident again : Ident n) (kind kind' : ResolveKind n) (syms syms' : Syms n)
      → def_val ident kind syms ≡ ok syms'
      → (ident.id == again.id) ≡ true
      → def_val again kind' syms' ≡ redef ident
  unfolding def_val
  def_val-redef ident again kind kind' (root tab) syms' h same =
      let (tab', is_ok, is) = map_res-eq-ok root (tab_def_val ident kind tab) h in
      ap (def_val again kind') (sym is)
      ∙ ap (map_res root) (tab_def_val-redef ident again kind kind' tab tab' is_ok same)
  def_val-redef ident again kind kind' (fn_syms tab parent) syms' h same =
      let (tab', is_ok, is) =
        map_res-eq-ok (λ t. fn_syms t parent) (tab_def_val ident kind tab) h in
      ap (def_val again kind') (sym is)
      ∙ ap (map_res (λ t. fn_syms t parent))
          (tab_def_val-redef ident again kind kind' tab tab' is_ok same)
  def_val-redef ident again kind kind' (item_syms tab parent) syms' h same =
      let (tab', is_ok, is) =
        map_res-eq-ok (λ t. item_syms t parent) (tab_def_val ident kind tab) h in
      ap (def_val again kind') (sym is)
      ∙ ap (map_res (λ t. item_syms t parent))
          (tab_def_val-redef ident again kind kind' tab tab' is_ok same)
  def_val-redef ident again kind kind' (local_syms tab parent) syms' h same =
      let (tab', is_ok, is) =
        map_res-eq-ok (λ t. local_syms t parent) (tab_def_val ident kind tab) h in
      ap (def_val again kind') (sym is)
      ∙ ap (map_res (λ t. local_syms t parent))
          (tab_def_val-redef ident again kind kind' tab tab' is_ok same)
