-- ===== src/AsmGen/Layout.antt =====
-- `StackAllocator` and `StackLayout` of sbc/asm_gen.ts: where the parameters and the locals of a function
-- are in its frame.
use h4_projekt_gruppe_0_sm.Prelude.{
  ℕ, ◌+◌, ◌-◌, ◌%◌, List, [], ◌∷◌, none, some, if◌then◌else◌, ◌==◌, NumMap, map_get, map_set,
  reverse, Result, ok, err,
}
use h4_projekt_gruppe_0_sm.Lir.{Reg}
use h4_projekt_gruppe_0_sm.AsmGen.Asm.{ℤ, pos, negsuc, ◌+ℤ◌, ◌-ℤ◌}

unfoldable pub align : ℕ → ℕ → ℕ
align value alignment =
    if value % alignment == 0 then value else value + (alignment - value % alignment)

abbrev pub align8 : ℕ → ℕ
align8 value = align value 8

pub record StackLayout : Type 0 where
  pub frame_size : ℕ
  pub reg_offsets : NumMap ℤ

-- `offset(reg)`: an offset of zero is taken for a missing one
unfoldable pub offset : StackLayout → Reg → Result ℤ
offset layout reg = elim (map_get layout.reg_offsets reg) [
  | none ↦ err "not found"
  | some (pos n) ↦ if n == 0 then err "not found" else ok (pos n)
  | some (negsuc n) ↦ ok (negsuc n)
]

pub record StackAllocator : Type 0 where
  pub param_regs : NumMap ℕ
  pub local_regs : NumMap ℕ

unfoldable pub alloc_param : Reg → ℕ → StackAllocator → StackAllocator
alloc_param reg size allocator = record allocator {
  param_regs = map_set allocator.param_regs reg size;
}

unfoldable pub alloc_local : Reg → ℕ → StackAllocator → StackAllocator
alloc_local reg size allocator = record allocator {
  local_regs = map_set allocator.local_regs reg size;
}

-- The first loop of `finalize`.
unfoldable pub place_params : List (Reg × ℕ) → ℤ → NumMap ℤ → NumMap ℤ
unfolding align
place_params [] current_offset offsets = offsets
place_params ((reg, size) ∷ params) current_offset offsets =
    place_params params (current_offset +ℤ align8 size)
      (map_set offsets reg (current_offset +ℤ align8 size))

-- The second loop of `finalize`, with the size of the frame.
unfoldable pub place_locals : List (Reg × ℕ) → ℤ → StackLayout → StackLayout
unfolding align
place_locals [] current_offset layout = layout
place_locals ((reg, size) ∷ locals) current_offset layout =
    place_locals locals (current_offset -ℤ align8 size) (record {
      frame_size = layout.frame_size + align8 size;
      reg_offsets = map_set layout.reg_offsets reg current_offset;
    })

unfoldable pub finalize : StackAllocator → StackLayout
unfolding place_params place_locals
finalize allocator = place_locals allocator.local_regs (negsuc 7) (record {
  frame_size = 0;
  reg_offsets = place_params (reverse allocator.param_regs) (pos 8) [];
})
