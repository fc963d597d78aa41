-- ===== src/AsmGen/Slots.antt =====
-- Where `StackAllocator.finalize` of sbc/asm_gen.ts puts parameters and locals.
use h4_projekt_gruppe_0_sm.Prelude.{
  ℕ, zero, suc, ◌+◌, ◌<◌, ◌≤◌, false, List, [], ◌∷◌, some, ◌==◌, ◌≡◌, refl, ap, subst, ne→==-false,
  ◌∙◌, arith, NumMap, map_get, map_set, map_has, map_get-map_set, take, get_elem?, reverse, ok,
  ==-self, eq_of_some,
}
use h4_projekt_gruppe_0_sm.Lir.{Reg}
use h4_projekt_gruppe_0_sm.AsmGen.Asm.{ℤ, pos, negsuc}
use h4_projekt_gruppe_0_sm.AsmGen.Layout.{
  align, align8, StackLayout, offset, StackAllocator, place_params, place_locals, finalize,
}

-- No register is there twice.
abbrev pub IsDistinct : List (Reg × ℕ) → Type 0
IsDistinct [] = Unit
IsDistinct ((reg, size) ∷ regs) = (map_has regs reg ≡ false) × IsDistinct regs

-- The bytes of slots that stand beside each other.
unfoldable pub total : List (Reg × ℕ) → ℕ
unfolding align
total [] = 0
total ((reg, size) ∷ regs) = align8 size + total regs

align8-min : (size : ℕ) → 0 < size → 8 ≤ align8 size
unfolding align
align8-min size h = ground arith

map_set_other :
    (m : NumMap ℤ) (k j : ℕ) (v : ℤ) → (k == j) ≡ false → map_get (map_set m k v) j ≡ map_get m j
map_set_other m k j v h = rw (map_get-map_set m k j v, h) refl

map_set_same : (m : NumMap ℤ) (k : ℕ) (v : ℤ) → map_get (map_set m k v) k ≡ some v
map_set_same m k v = rw (map_get-map_set m k k v, ==-self k) refl

map_has_tail :
    (k : Reg) (size : ℕ) (regs : List (Reg × ℕ)) (reg : Reg)
    → map_has ((k, size) ∷ regs) reg ≡ false
    → ((k == reg) ≡ false) × (map_has regs reg ≡ false)
map_has_tail k size regs reg h = ground arith

-- A register that is not placed keeps its offset.
place_locals_other :
    (locals : List (Reg × ℕ)) (current : ℤ) (layout : StackLayout) (reg : Reg)
    → map_has locals reg ≡ false
    → map_get (place_locals locals current layout).reg_offsets reg ≡ map_get layout.reg_offsets reg
unfolding place_locals
place_locals_other [] current layout reg h = refl
place_locals_other ((k, size) ∷ locals) current layout reg h =
    let (ne, rest) = map_has_tail k size locals reg h in
    place_locals_other locals _ _ reg rest ∙ map_set_other layout.reg_offsets k reg current ne

place_params_other :
    (params : List (Reg × ℕ)) (current : ℤ) (offsets : NumMap ℤ) (reg : Reg)
    → map_has params reg ≡ false
    → map_get (place_params params current offsets) reg ≡ map_get offsets reg
unfolding place_params
place_params_other [] current offsets reg h = refl
place_params_other ((k, size) ∷ params) current offsets reg h =
    let (ne, rest) = map_has_tail k size params reg h in
    place_params_other params _ _ reg rest ∙ map_set_other offsets k reg _ ne

place_locals_at :
    (locals : List (Reg × ℕ)) (n : ℕ) (layout : StackLayout) (i : ℕ) (reg : Reg) (size : ℕ)
    → IsDistinct locals
    → get_elem? locals i ≡ some (reg, size)
    → map_get (place_locals locals (negsuc n) layout).reg_offsets reg
      ≡ some (negsuc (n + total (take i locals)))
unfolding place_locals total
place_locals_at [] n layout i reg size d h = cc
place_locals_at ((k, s) ∷ locals) n layout zero reg size d h =
    let key : k ≡ reg = ap (λ p. p.0) (eq_of_some h) in
    subst
      (λ r.
        map_get (place_locals ((k, s) ∷ locals) (negsuc n) layout).reg_offsets r
        ≡ some (negsuc (n + 0)))
      key
      (place_locals_other locals _ _ k d.0
        ∙ map_set_same layout.reg_offsets k (negsuc n)
        ∙ ap (λ j. some (negsuc j)) (omega arith))
place_locals_at ((k, s) ∷ locals) n layout (suc i) reg size d h =
    place_locals_at locals (n + align8 s) _ i reg size d.1 h
    ∙ ap (λ j. some (negsuc j)) (omega arith)

place_params_at :
    (params : List (Reg × ℕ)) (n : ℕ) (offsets : NumMap ℤ) (i : ℕ) (reg : Reg) (size : ℕ)
    → IsDistinct params
    → get_elem? params i ≡ some (reg, size)
    → map_get (place_params params (pos n) offsets) reg
      ≡ some (pos (n + total (take (suc i) params)))
unfolding place_params total
place_params_at [] n offsets i reg size d h = cc
place_params_at ((k, s) ∷ params) n offsets zero reg size d h =
    let key : k ≡ reg = ap (λ p. p.0) (eq_of_some h) in
    subst
      (λ r.
        map_get (place_params ((k, s) ∷ params) (pos n) offsets) r
        ≡ some (pos (n + (align8 s + 0))))
      key
      (place_params_other params _ _ k d.0
        ∙ map_set_same offsets k (pos (n + align8 s))
        ∙ ap (λ j. some (pos j)) (omega arith))
place_params_at ((k, s) ∷ params) n offsets (suc i) reg size d h =
    place_params_at params (n + align8 s) _ i reg size d.1 h ∙ ap (λ j. some (pos j)) (omega arith)

frame_size_total :
    (locals : List (Reg × ℕ)) (current : ℤ) (layout : StackLayout)
    → (place_locals locals current layout).frame_size ≡ layout.frame_size + total locals
unfolding place_locals total
frame_size_total [] current layout = omega arith
frame_size_total ((k, s) ∷ locals) current layout = frame_size_total locals _ _ ∙ omega arith

total-take :
    (regs : List (Reg × ℕ)) (i : ℕ) (reg : Reg) (size : ℕ)
    → get_elem? regs i ≡ some (reg, size)
    → total (take i regs) + align8 size ≤ total regs
unfolding total
total-take [] i reg size h = cc
total-take ((k, s) ∷ regs) zero reg size h =
    let same : s ≡ size = ap (λ p. p.1) (eq_of_some h) in
    subst (λ t. 0 + align8 t ≤ align8 s + total regs) same (omega arith)
total-take ((k, s) ∷ regs) (suc i) reg size h = omega (arith, total-take regs i reg size h)

-- Where the registers of the locals differ, a local of any size but zero is at `rbp` less 8 and less the
-- bytes of the locals before it, and its slot begins inside of the frame.
pub finalize-local :
    (allocator : StackAllocator) (i : ℕ) (reg : Reg) (size : ℕ)
    → IsDistinct allocator.local_regs
    → 0 < size
    → get_elem? allocator.local_regs i ≡ some (reg, size)
    → (offset (finalize allocator) reg ≡ ok (negsuc (7 + total (take i allocator.local_regs))))
      × (8 + total (take i allocator.local_regs) ≤ (finalize allocator).frame_size)
unfolding finalize offset
finalize-local allocator i reg size d positive h =
    let placed : StackLayout = record {
      frame_size = 0;
      reg_offsets = place_params (reverse allocator.param_regs) (pos 8) [];
    } in
    let size_eq = frame_size_total allocator.local_regs (negsuc 7) placed in
    let bound = total-take allocator.local_regs i reg size h in
    let least = align8-min size positive in
    (
      rw (place_locals_at allocator.local_regs 7 _ i reg size d h, offset) refl,
      rw size_eq (omega (arith, bound, least)),
    )

-- Where the registers of the parameters differ, one that is no register of a local is at `rbp` and 8 more
-- than the bytes of itself and of the parameters that come after it.
pub finalize-param :
    (allocator : StackAllocator) (i : ℕ) (reg : Reg) (size : ℕ)
    → IsDistinct (reverse allocator.param_regs)
    → map_has allocator.local_regs reg ≡ false
    → get_elem? (reverse allocator.param_regs) i ≡ some (reg, size)
    → offset (finalize allocator) reg
      ≡ ok (pos (8 + total (take (suc i) (reverse allocator.param_regs))))
unfolding finalize offset
finalize-param allocator i reg size d other h =
    rw
      (
        place_locals_other allocator.local_regs (negsuc 7) _ reg other,
        place_params_at (reverse allocator.param_regs) 8 [] i reg size d h,
        offset,
      )
      (rw
        (ne→==-false (8 + total (take (suc i) (reverse allocator.param_regs))) 0
          (λ e. omega (arith, e)))
        refl)
