-- ===== src/AsmGen/Selection.antt =====
-- Live registers and the machine registers that `allocReg` and `kill` of sbc/asm_gen.ts give them.
use h4_projekt_gruppe_0_sm.Prelude.{
  ℕ, zero, suc, true, false, not, List, [], ◌∷◌, ◌++◌, some, ◌==◌, ◌≡◌, ◌≢◌, refl, ap, sym, ◌∙◌,
  arith, ◌⊎◌, inl, inr, NumMap, map_get, map_get-map_set, contains, length, get_elem?, select,
  Bool-cases, ok, ◌>>=◌, expect-eq-ok, eq_of_ok, eq_of_some, ne→==-false, ==-self,
}
use h4_projekt_gruppe_0_sm.Lir.{Reg}
use h4_projekt_gruppe_0_sm.AsmGen.Asm.{
  Asm, Reg64, rax, rdi, rsi, rdx, rcx, r8, r9, r10, r11, rbp, rsp,
}
use h4_projekt_gruppe_0_sm.AsmGen.Registers.{AsmGen, selectable, alloc_reg, kill}

-- The live register at the place `i` has the machine register at the place `i`.
unfoldable pub IsStacked : AsmGen → Type 0
IsStacked gen =
    (i : ℕ) (r : Reg)
    → get_elem? gen.live_regs i ≡ some r
    → map_get gen.reg_select r ≡ get_elem? selectable i

get_elem?-append_one :
    (l : List ℕ) (r x i : ℕ)
    → get_elem? (l ++ (r ∷ [])) i ≡ some x
    → ((get_elem? l i ≡ some x) × (contains l x ≡ true)) ⊎ ((i ≡ length l) × (x ≡ r))
get_elem?-append_one [] r x zero h = ground arith
get_elem?-append_one [] r x (suc i) h = cc
get_elem?-append_one (y ∷ l) r x zero h = ground arith
get_elem?-append_one (y ∷ l) r x (suc i) h = ground (arith, get_elem?-append_one l r x i h)

get_elem?-contains : (l : List ℕ) (x i : ℕ) → get_elem? l i ≡ some x → contains l x ≡ true
get_elem?-contains [] x i h = cc
get_elem?-contains (y ∷ l) x zero h = ground arith
get_elem?-contains (y ∷ l) x (suc i) h = ground (arith, get_elem?-contains l x i h)

get_elem?-append : (l k : List ℕ) (x i : ℕ) → get_elem? l i ≡ some x → get_elem? (l ++ k) i ≡ some x
get_elem?-append [] k x i h = cc
get_elem?-append (y ∷ l) k x zero h = h
get_elem?-append (y ∷ l) k x (suc i) h = get_elem?-append l k x i h

select-append_one :
    (l : List ℕ) (r : ℕ) → contains l r ≡ false → select (λ x. not (x == r)) (l ++ (r ∷ [])) ≡ l
select-append_one [] r h = ground arith
select-append_one (y ∷ l) r h = ground (arith, select-append_one l r)

map_get-select :
    (m : NumMap Reg64) (r x : ℕ)
    → r ≢ x
    → map_get (select (λ entry. not (entry.0 == r)) m) x ≡ map_get m x
map_get-select [] r x h = refl
map_get-select ((k, v) ∷ m) r x h = ground (arith, map_get-select m r x h)

contains-ne : (l : List ℕ) (x r : ℕ) → contains l x ≡ true → contains l r ≡ false → r ≢ x
contains-ne l x r hx hr h = cc

-- The machine registers differ from each other.
place : Reg64 → ℕ
place rax = 0
place rdi = 1
place rsi = 2
place rdx = 3
place rcx = 4
place r8 = 5
place r9 = 6
place r10 = 7
place r11 = 8
place rbp = 9
place rsp = 10

place_lem : (i : ℕ) (m : Reg64) → get_elem? selectable i ≡ some m → place m ≡ i
unfolding place
place_lem zero m h = ap place (sym (eq_of_some h))
place_lem (suc zero) m h = ap place (sym (eq_of_some h))
place_lem (suc (suc zero)) m h = ap place (sym (eq_of_some h))
place_lem (suc (suc (suc zero))) m h = ap place (sym (eq_of_some h))
place_lem (suc (suc (suc (suc zero)))) m h = ap place (sym (eq_of_some h))
place_lem (suc (suc (suc (suc (suc zero))))) m h = ap place (sym (eq_of_some h))
place_lem (suc (suc (suc (suc (suc (suc zero)))))) m h = ap place (sym (eq_of_some h))
place_lem (suc (suc (suc (suc (suc (suc (suc zero))))))) m h = ap place (sym (eq_of_some h))
place_lem (suc (suc (suc (suc (suc (suc (suc (suc zero)))))))) m h = ap place (sym (eq_of_some h))
place_lem (suc (suc (suc (suc (suc (suc (suc (suc (suc i))))))))) m h = cc

-- Where the `i`-th live register has the `i`-th machine register, `allocReg` keeps it so, if it succeeds.
pub alloc_reg-IsStacked :
    (gen gen' : AsmGen) (r : Reg) → IsStacked gen → alloc_reg r gen ≡ ok gen' → IsStacked gen'
unfolding alloc_reg IsStacked
alloc_reg-IsStacked gen gen' r stacked h = elim (Bool-cases (contains gen.live_regs r)) [
  | inl live ↦ rw (eq_of_ok (sym (rw live at h))) stacked
  | inr fresh ↦
      let (m, em, e) =
        expect-eq-ok "ran out of registers" (get_elem? selectable (length gen.live_regs)) _
          (rw fresh at h) in
      rw (← eq_of_ok e) λ i x at_i. elim (get_elem?-append_one gen.live_regs r x i at_i) [
        | inl (old, there) ↦
            rw
              (
                map_get-map_set gen.reg_select r x m,
                ne→==-false r x (contains-ne gen.live_regs x r there fresh),
              )
              (stacked i x old)
        | inr (last, same) ↦
            rw (map_get-map_set gen.reg_select r x m, same, ==-self r, last) (sym em)
      ]
]

-- Where the `i`-th live register has the `i`-th machine register, `kill` of the one that was chosen last keeps it so, and leaves
-- the others live.
pub kill-IsStacked :
    (gen : AsmGen) (live : List Reg) (r : Reg)
    → gen.live_regs ≡ live ++ (r ∷ [])
    → contains live r ≡ false
    → IsStacked gen
    → IsStacked (kill r gen) × ((kill r gen).live_regs ≡ live)
unfolding kill IsStacked
kill-IsStacked gen live r e fresh stacked =
    let left : select (λ x. not (x == r)) gen.live_regs ≡ live =
      rw e (select-append_one live r fresh) in
    (
      λ i x at_i.
          let at_live : get_elem? live i ≡ some x = ap (λ l. get_elem? l i) (sym left) ∙ at_i in
          map_get-select gen.reg_select r x
            (contains-ne live x r (get_elem?-contains live x i at_live) fresh)
          ∙ stacked i x (rw e (get_elem?-append live (r ∷ []) x i at_live)),
      left,
    )

-- Then live registers with the same machine register are the same one.
pub IsStacked-separate :
    (gen : AsmGen) (i j : ℕ) (r s : Reg) (m : Reg64)
    → IsStacked gen
    → get_elem? gen.live_regs i ≡ some r
    → get_elem? gen.live_regs j ≡ some s
    → map_get gen.reg_select r ≡ some m
    → map_get gen.reg_select s ≡ some m
    → r ≡ s
unfolding IsStacked
IsStacked-separate gen i j r s m stacked hr hs er es =
    let at_i : place m ≡ i = place_lem i m (sym (stacked i r hr) ∙ er) in
    let at_j : place m ≡ j = place_lem j m (sym (stacked j s hs) ∙ es) in
    eq_of_some (sym hr ∙ ap (get_elem? gen.live_regs) (sym at_i ∙ at_j) ∙ hs)

-- From no live registers, choosing for `a` and `b`, killing `a` and choosing for `c` gives `b` and `c`,
-- which are both live, the same machine register.
pub alloc_reg-shared :
    (lines : List Asm) (a b c : Reg)
    → a ≢ b
    → b ≢ c
    → (do
      gen₁ ← alloc_reg a (record { live_regs = []; reg_select = []; lines = lines })
      gen₂ ← alloc_reg b gen₁
      alloc_reg c (kill a gen₂))
      ≡ ok (record { live_regs = b ∷ c ∷ []; reg_select = (b, rdi) ∷ (c, rdi) ∷ []; lines = lines })
unfolding alloc_reg kill
alloc_reg-shared lines a b c ab bc =
    let e₁ : (a == b) ≡ false = ne→==-false a b ab in
    let e₃ : (b == c) ≡ false = ne→==-false b c bc in
    let e₄ : (b == a) ≡ false = ne→==-false b a (λ h. ab (sym h)) in
    rw (e₁, alloc_reg) rw (e₄, ==-self a, kill) rw (e₃, alloc_reg) refl
