-- ===== src/LirGen/Statements.antt =====
-- Runs of the lines that are pushed for a MIR statement, and the state of the generator after it.
use h4_projekt_gruppe_0_sm.Prelude.{
  ℕ, zero, suc, List, [], ◌∷◌, ◌++◌, ◌≡◌, refl, ap, ap₂, ◌∙◌, append_assoc, map,
}
use h4_projekt_gruppe_0_sm.Lir.{Label, Ins, Line}
use h4_projekt_gruppe_0_sm.LirGen.FnGen.{FnGen, push_all, push_ins, take_regs}
use h4_projekt_gruppe_0_sm.Machine.Target.{Target}
use h4_projekt_gruppe_0_sm.Machine.Registers.{State, Outcome, next, effect, walk}

abbrev pub instructions : List Line → List Ins
instructions = map λ line. line.ins

module _ {target : Target} where
  -- A straight run of instructions, on to the next line at each.
  pub data Runs : List Ins → State target → State target → Type 0 where
    done : {s : State target} → Runs [] s s
    and_then :
        {ins : Ins} {rest : List Ins} {s t u : State target}
        → effect ins s ≡ next t
        → Runs rest t u
        → Runs (ins ∷ rest) s u

  -- Lines that run straight lead to the lines behind them.
  pub walk-Runs :
      (j : Label → State target → Outcome target) (lines rest : List Line) {s t : State target}
      → Runs (instructions lines) s t
      → walk j (lines ++ rest) s ≡ walk j rest t
  unfolding walk
  walk-Runs j [] rest done = refl
  walk-Runs j (line ∷ lines) rest (and_then e r) = rw e (walk-Runs j lines rest r)

  pub Runs-append :
      {xs ys : List Ins} {s t u : State target} → Runs xs s t → Runs ys t u → Runs (xs ++ ys) s u
  Runs-append done r = r
  Runs-append (and_then e q) r = and_then e (Runs-append q r)

-- How a `FnGen` grows when lines are pushed: their first one takes the labels that wait.
abbrev pub emitted : List Label → List Ins → List Line
emitted labels [] = []
emitted labels (ins ∷ rest) = record { labels = labels; ins = ins } ∷ emitted [] rest

pub instructions-emitted :
    (labels : List Label) (code : List Ins) → instructions (emitted labels code) ≡ code
instructions-emitted labels [] = refl
instructions-emitted labels (ins ∷ rest) = ap (λ tail. ins ∷ tail) (instructions-emitted [] rest)

pub record Emits (gen gen' : FnGen) (code : List Ins) : Type 0 where
  pub grown : gen'.lines ≡ gen.lines ++ emitted gen.current_labels code
  pub labels_done : gen'.current_labels ≡ []
  pub same_slots : gen'.local_regs ≡ gen.local_regs
  pub same_labels : gen'.block_labels ≡ gen.block_labels
  pub same_fns : gen'.stmt_fns ≡ gen.stmt_fns

push_all-lines :
    (ins : Ins) (code : List Ins) (gen : FnGen) → Emits gen (push_all (ins ∷ code) gen) (ins ∷ code)
unfolding push_all
push_all-lines ins [] gen = record {
  grown = refl;
  labels_done = refl;
  same_slots = refl;
  same_labels = refl;
  same_fns = refl;
}
push_all-lines ins (ins' ∷ code) gen =
    let gen₁ = push_ins ins gen in
    let rest = push_all-lines ins' code gen₁ in
    record {
      grown =
          rest.grown
          ∙ append_assoc gen.lines (record { labels = gen.current_labels; ins = ins } ∷ []) _;
      labels_done = rest.labels_done;
      same_slots = rest.same_slots;
      same_labels = rest.same_labels;
      same_fns = rest.same_fns;
    }

-- Two more register numbers change nothing of this.
take_regs-fields :
    (count : ℕ) (gen : FnGen)
    → ((take_regs count gen).lines ≡ gen.lines)
      × ((take_regs count gen).current_labels ≡ gen.current_labels)
      × ((take_regs count gen).local_regs ≡ gen.local_regs)
      × ((take_regs count gen).block_labels ≡ gen.block_labels)
      × ((take_regs count gen).stmt_fns ≡ gen.stmt_fns)
unfolding take_regs
take_regs-fields zero gen = (refl, refl, refl, refl, refl)
take_regs-fields (suc count) gen = take_regs-fields count (record gen { reg_ids = suc gen.reg_ids })

pub emits :
    (count : ℕ) (ins : Ins) (code : List Ins) (gen : FnGen)
    → Emits gen (push_all (ins ∷ code) (take_regs count gen)) (ins ∷ code)
emits count ins code gen =
    let fields = take_regs-fields count gen in
    let e = push_all-lines ins code (take_regs count gen) in
    record {
      grown = e.grown ∙ ap₂ (λ ls labels. ls ++ emitted labels (ins ∷ code)) fields.0 fields.1;
      labels_done = e.labels_done;
      same_slots = e.same_slots ∙ fields.2;
      same_labels = e.same_labels ∙ fields.3;
      same_fns = e.same_fns ∙ fields.4;
    }

push_all-strings : (code : List Ins) (gen : FnGen) → (push_all code gen).strings ≡ gen.strings
unfolding push_all
push_all-strings [] gen = refl
push_all-strings (ins ∷ code) gen = push_all-strings code (push_ins ins gen)

take_regs-strings : (count : ℕ) (gen : FnGen) → (take_regs count gen).strings ≡ gen.strings
unfolding take_regs
take_regs-strings zero gen = refl
take_regs-strings (suc count) gen =
    take_regs-strings count (record gen { reg_ids = suc gen.reg_ids })

pub emits-strings :
    (count : ℕ) (code : List Ins) (gen : FnGen)
    → (push_all code (take_regs count gen)).strings ≡ gen.strings
emits-strings count code gen =
    push_all-strings code (take_regs count gen) ∙ take_regs-strings count gen
