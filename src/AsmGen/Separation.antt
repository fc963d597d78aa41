-- ===== src/AsmGen/Separation.antt =====
-- The states that `AsmGen` of sbc/asm_gen.ts goes through while registers are chosen and killed in good order.
use h4_projekt_gruppe_0_sm.Prelude.{
  ℕ, zero, suc, ◌<◌, ◌≤◌, true, false, ◌||◌, Bool-cases, List, [], ◌∷◌, ◌++◌, none, some, ◌==◌, ◌≡◌,
  ◌≢◌, refl, ap, sym, ◌∙◌, arith, inl, inr, ◌⊎◌, map_get, contains, length, get_elem?, ok,
  >>=-eq-ok, expect-eq-ok, eq_of_ok,
}
use h4_projekt_gruppe_0_sm.Lir.{Reg}
use h4_projekt_gruppe_0_sm.AsmGen.Asm.{Asm, Reg64}
use h4_projekt_gruppe_0_sm.AsmGen.Registers.{AsmGen, selectable, alloc_reg, reg, kill, write_all}
use h4_projekt_gruppe_0_sm.AsmGen.Selection.{
  IsStacked, alloc_reg-IsStacked, kill-IsStacked, IsStacked-separate,
}

unfoldable pub kill_all : List Reg → AsmGen → AsmGen
kill_all [] gen = gen
kill_all (r ∷ regs) gen = kill_all regs (kill r gen)

-- The states from one without live registers on, by `reg` where it does not throw, by writing lines, by `kill` of
-- the last live register, and by any calls of `kill` in a row that leave no register live.
pub data Reached : AsmGen → Type 0 where
  start : (lines : List Asm) → Reached (record { live_regs = []; reg_select = []; lines = lines })
  chosen :
      {gen gen' : AsmGen} (r : Reg) (machine : Reg64)
      → Reached gen
      → reg r gen ≡ ok (gen', machine)
      → Reached gen'
  killed :
      {gen : AsmGen} (live : List Reg) (r : Reg)
      → Reached gen
      → gen.live_regs ≡ live ++ (r ∷ [])
      → Reached (kill r gen)
  cleared :
      {gen : AsmGen} (regs : List Reg)
      → Reached gen
      → (kill_all regs gen).live_regs ≡ []
      → Reached (kill_all regs gen)
  written : {gen : AsmGen} (lines : List Asm) → Reached gen → Reached (write_all lines gen)

abbrev Distinct : List Reg → Type 0
Distinct [] = Unit
Distinct (r ∷ live) = (contains live r ≡ false) × Distinct live

contains-append_one :
    (l : List Reg) (r x : Reg) → contains (l ++ (r ∷ [])) x ≡ (contains l x || (r == x))
contains-append_one [] r x = ground arith
contains-append_one (y ∷ l) r x = ground (arith, contains-append_one l r x)

Distinct-append_one :
    (l : List Reg) (r : Reg) → Distinct l → contains l r ≡ false → Distinct (l ++ (r ∷ []))
Distinct-append_one [] r d h = (refl, tt)
Distinct-append_one (y ∷ l) r d h =
    (ground (arith, d.0, contains-append_one l r y), Distinct-append_one l r d.1 (ground arith))

Distinct-drop_last :
    (l : List Reg) (r : Reg) → Distinct (l ++ (r ∷ [])) → (contains l r ≡ false) × Distinct l
Distinct-drop_last [] r d = (refl, tt)
Distinct-drop_last (y ∷ l) r d =
    let (fresh, rest) = Distinct-drop_last l r d.1 in
    (
      ground (arith, d.0, contains-append_one l r y),
      (ground (arith, d.0, contains-append_one l r y), rest),
    )

length-append_one : (l : List Reg) (r : Reg) → length (l ++ (r ∷ [])) ≡ suc (length l)
length-append_one [] r = refl
length-append_one (y ∷ l) r = ap suc (length-append_one l r)

get_elem?-some {ℓ} :
    {A : Type ℓ} (l : List A) (i : ℕ) → i < length l → (a : A) × (get_elem? l i ≡ some a)
get_elem?-some [] i h = elim h [ ]
get_elem?-some (a ∷ l) zero h = (a, refl)
get_elem?-some (a ∷ l) (suc i) h = get_elem?-some l i (omega arith)

lt_of_get_elem? {ℓ} :
    {A : Type ℓ} (l : List A) (i : ℕ) (a : A) → get_elem? l i ≡ some a → i < length l
lt_of_get_elem? [] i a h = cc
lt_of_get_elem? (x ∷ l) zero a h = omega arith
lt_of_get_elem? (x ∷ l) (suc i) a h = omega (arith, lt_of_get_elem? l i a h)

contains-get_elem? :
    (l : List Reg) (r : Reg) → contains l r ≡ true → (i : ℕ) × (get_elem? l i ≡ some r)
contains-get_elem? [] r h = cc
contains-get_elem? (x ∷ l) r h = elim (Bool-cases (x == r)) [
  | inl same ↦ (zero, ground (arith, same))
  | inr other ↦ let (i, at_i) = contains-get_elem? l r (ground (arith, other)) in (suc i, at_i)
]

-- The live registers are as many as there are machine registers at most, differ, and have these in order.
record IsOrdered (gen : AsmGen) : Type 0 where
  pub stacked : IsStacked gen
  pub distinct : Distinct gen.live_regs
  pub fits : length gen.live_regs ≤ length selectable

alloc_reg-live_regs :
    (gen gen' : AsmGen) (r : Reg)
    → alloc_reg r gen ≡ ok gen'
    → (gen'.live_regs ≡ gen.live_regs)
      ⊎ ((contains gen.live_regs r ≡ false)
          × (length gen.live_regs < length selectable)
          × (gen'.live_regs ≡ gen.live_regs ++ (r ∷ [])))
unfolding alloc_reg
alloc_reg-live_regs gen gen' r h = elim (Bool-cases (contains gen.live_regs r)) [
  | inl live ↦ inl (ap (λ g. g.live_regs) (sym (eq_of_ok (rw live at h))))
  | inr fresh ↦
      let (m, em, e) =
        expect-eq-ok "ran out of registers" (get_elem? selectable (length gen.live_regs)) _
          (rw fresh at h) in
      inr (
        fresh,
        lt_of_get_elem? selectable (length gen.live_regs) m em,
        ap (λ g. g.live_regs) (sym (eq_of_ok e)),
      )
]

alloc_reg-IsOrdered :
    (gen gen' : AsmGen) (r : Reg) → IsOrdered gen → alloc_reg r gen ≡ ok gen' → IsOrdered gen'
alloc_reg-IsOrdered gen gen' r o h =
    let stacked' : IsStacked gen' = alloc_reg-IsStacked gen gen' r o.stacked h in
    elim (alloc_reg-live_regs gen gen' r h) [
      | inl e ↦ record { stacked = stacked'; distinct = rw e o.distinct; fits = rw e o.fits }
      | inr (fresh, lt, e) ↦ record {
        stacked = stacked';
        distinct = rw e (Distinct-append_one gen.live_regs r o.distinct fresh);
        fits = rw (e, length-append_one gen.live_regs r) lt;
      }
    ]

kill-IsOrdered :
    (gen : AsmGen) (live : List Reg) (r : Reg)
    → IsOrdered gen
    → gen.live_regs ≡ live ++ (r ∷ [])
    → IsOrdered (kill r gen)
kill-IsOrdered gen live r o e =
    let (fresh, rest) = Distinct-drop_last live r (rw e at o.distinct) in
    let (stacked', left) = kill-IsStacked gen live r e fresh o.stacked in
    record {
      stacked = stacked';
      distinct = rw left rest;
      fits = rw left (omega (arith, ap length e, length-append_one live r, o.fits));
    }

none_live-IsOrdered : (gen : AsmGen) → gen.live_regs ≡ [] → IsOrdered gen
unfolding IsStacked
none_live-IsOrdered gen e = record {
  stacked = λ i r h. absurd_at i r (rw e at h);
  distinct = rw e tt;
  fits = rw e (omega arith);
}
  where
    absurd_at :
        (i : ℕ) (r : Reg) → none ≡ some r → map_get gen.reg_select r ≡ get_elem? selectable i
    absurd_at i r h = cc

Reached-IsOrdered : {gen : AsmGen} → Reached gen → IsOrdered gen
unfolding reg write_all IsStacked
Reached-IsOrdered (start lines) = none_live-IsOrdered _ refl
Reached-IsOrdered (chosen {gen} {gen'} r machine before h) =
    let (gen₁, h₁, h₂) = >>=-eq-ok (alloc_reg r gen) _ h in
    let (m, em, h₃) = expect-eq-ok "" (map_get gen₁.reg_select r) _ h₂ in
    let same : gen₁ ≡ gen' = ap (λ p. p.0) (eq_of_ok h₃) in
    rw (← same) (alloc_reg-IsOrdered gen gen₁ r (Reached-IsOrdered before) h₁)
Reached-IsOrdered (killed {gen} live r before e) =
    kill-IsOrdered gen live r (Reached-IsOrdered before) e
Reached-IsOrdered (cleared {gen} regs before none_left) =
    none_live-IsOrdered (kill_all regs gen) none_left
Reached-IsOrdered (written {gen} lines before) =
    let o = Reached-IsOrdered before in
    record { stacked = o.stacked; distinct = o.distinct; fits = o.fits }

-- From no live registers, and where registers are killed in the opposite order of their choice or, with nothing
-- chosen in between, till none is live: two different live registers have each a machine register, and not
-- the same.
pub reg-separate :
    {gen : AsmGen} (r s : Reg)
    → Reached gen
    → contains gen.live_regs r ≡ true
    → contains gen.live_regs s ≡ true
    → r ≢ s
    → (m n : Reg64) × (map_get gen.reg_select r ≡ some m)
      × (map_get gen.reg_select s ≡ some n)
      × (m ≢ n)
unfolding IsStacked
reg-separate {gen} r s reached live_r live_s differ =
    let o : IsOrdered gen = Reached-IsOrdered reached in
    let (i, at_i) = contains-get_elem? gen.live_regs r live_r in
    let (j, at_j) = contains-get_elem? gen.live_regs s live_s in
    let (m, em) =
      get_elem?-some selectable i (omega (arith, lt_of_get_elem? gen.live_regs i r at_i, o.fits)) in
    let (n, en) =
      get_elem?-some selectable j (omega (arith, lt_of_get_elem? gen.live_regs j s at_j, o.fits)) in
    let for_r = o.stacked i r at_i ∙ em in
    let for_s = o.stacked j s at_j ∙ en in
    (
      m,
      n,
      for_r,
      for_s,
      λ same.
          differ (
            IsStacked-separate gen i j r s m o.stacked at_i at_j for_r
              (for_s ∙ ap some (sym same))),
    )
