-- ===== src/Tests/Assembly.antt =====
-- Slots and registers of sbc/asm_gen.ts.
use h4_projekt_gruppe_0_sm.Prelude.{
  zero, suc, ◌>>=◌, eq_of_some, ◌+◌, ◌≤◌, [], ◌∷◌, ◌≡◌, ◌≢◌, some, map_get, refl, arith, ok,
}
use h4_projekt_gruppe_0_sm.AsmGen.Asm.{Reg64, rax, rdi, rsi, pos, negsuc}
use h4_projekt_gruppe_0_sm.AsmGen.Layout.{StackAllocator, offset, finalize}
use h4_projekt_gruppe_0_sm.AsmGen.Slots.{total, finalize-local, finalize-param}
use h4_projekt_gruppe_0_sm.AsmGen.Registers.{AsmGen, alloc_reg}
use h4_projekt_gruppe_0_sm.AsmGen.Registers as Registers
use h4_projekt_gruppe_0_sm.AsmGen.Selection.{
  IsStacked, alloc_reg-IsStacked, kill-IsStacked, alloc_reg-shared,
}
use h4_projekt_gruppe_0_sm.AsmGen.Separation.{Reached, start, chosen, killed, reg-separate}

abbrev allocator : StackAllocator
allocator = record { param_regs = (0, 8) ∷ (1, 8) ∷ []; local_regs = (2, 8) ∷ (3, 8) ∷ [] }

finalize-local_example :
    (offset (finalize allocator) 3 ≡ ok (negsuc (7 + total ((2, 8) ∷ []))))
    × (8 + total ((2, 8) ∷ []) ≤ (finalize allocator).frame_size)
finalize-local_example = finalize-local allocator 1 3 8 (refl, (refl, tt)) (omega arith) refl

finalize-param_example : offset (finalize allocator) 1 ≡ ok (pos (8 + total ((1, 8) ∷ [])))
finalize-param_example = finalize-param allocator 0 1 8 (refl, (refl, tt)) refl refl

abbrev two_live : AsmGen
two_live = record { live_regs = 4 ∷ 5 ∷ []; reg_select = (4, rax) ∷ (5, rdi) ∷ []; lines = [] }

two_live-IsStacked : IsStacked two_live
unfolding IsStacked
two_live-IsStacked zero r h = rw (← eq_of_some h) refl
two_live-IsStacked (suc zero) r h = rw (← eq_of_some h) refl
two_live-IsStacked (suc (suc i)) r h = cc

alloc_reg-IsStacked_example : IsStacked (record {
  live_regs = 4 ∷ 5 ∷ 6 ∷ [];
  reg_select = (4, rax) ∷ (5, rdi) ∷ (6, rsi) ∷ [];
  lines = [];
})
alloc_reg-IsStacked_example =
    alloc_reg-IsStacked two_live
      (record {
        live_regs = 4 ∷ 5 ∷ 6 ∷ [];
        reg_select = (4, rax) ∷ (5, rdi) ∷ (6, rsi) ∷ [];
        lines = [];
      })
      6 two_live-IsStacked (unfold alloc_reg in refl)

kill-IsStacked_example :
    IsStacked (Registers.kill 5 two_live) × ((Registers.kill 5 two_live).live_regs ≡ 4 ∷ [])
kill-IsStacked_example = kill-IsStacked two_live (4 ∷ []) 5 refl refl two_live-IsStacked

-- `reg(4)`, `reg(5)`, `kill(5)` and `reg(6)`
abbrev four_six : AsmGen
four_six = record { live_regs = 4 ∷ 6 ∷ []; reg_select = (4, rax) ∷ (6, rdi) ∷ []; lines = [] }

abbrev one_live : AsmGen
one_live = record { live_regs = 4 ∷ []; reg_select = (4, rax) ∷ []; lines = [] }

one_live-Reached : Reached one_live
unfolding alloc_reg Registers.reg
one_live-Reached = chosen 4 rax (start []) refl

two_live-Reached : Reached two_live
unfolding alloc_reg Registers.reg
two_live-Reached = chosen 5 rdi one_live-Reached refl

killed-Reached : Reached one_live
unfolding Registers.kill
killed-Reached = killed (4 ∷ []) 5 two_live-Reached refl

four_six-Reached : Reached four_six
unfolding alloc_reg Registers.reg
four_six-Reached = chosen 6 rdi killed-Reached refl

reg-separate_example :
    (m n : Reg64) × (map_get four_six.reg_select 4 ≡ some m)
    × (map_get four_six.reg_select 6 ≡ some n)
    × (m ≢ n)
reg-separate_example = reg-separate 4 6 four_six-Reached refl refl (λ e. omega (arith, e))

alloc_reg-shared_example :
    (do
      gen₁ ← alloc_reg 1 (record { live_regs = []; reg_select = []; lines = [] })
      gen₂ ← alloc_reg 2 gen₁
      alloc_reg 3 (Registers.kill 1 gen₂))
    ≡ ok (record { live_regs = 2 ∷ 3 ∷ []; reg_select = (2, rdi) ∷ (3, rdi) ∷ []; lines = [] })
alloc_reg-shared_example = alloc_reg-shared [] 1 2 3 (λ e. omega (arith, e)) (λ e. omega (arith, e))
