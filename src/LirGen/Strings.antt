-- ===== src/LirGen/Strings.antt =====
-- `StringIntern` of sbc/lir_gen.ts: a number for each different string.
use h4_projekt_gruppe_0_sm.Prelude.{
  ℕ, suc, String, [], ◌∷◌, Option, none, some, if◌then◌else◌, NumMap, map_set, str_eq,
}

pub record StringIntern : Type 0 where
  pub ids : ℕ
  pub strings : NumMap String

unfoldable pub empty : StringIntern
empty = record { ids = 0; strings = [] }

-- `entries().find(([_id, v]) => v === value)`, the id of the entry
unfoldable pub find_entry : NumMap String → String → Option ℕ
find_entry [] value = none
find_entry ((id, v) ∷ entries) value =
    let later = find_entry entries value in if str_eq v value then some id else later

unfoldable pub intern : String → StringIntern → StringIntern × ℕ
unfolding find_entry
intern value t = elim (find_entry t.strings value) [
  | some id ↦ (t, id)
  | none ↦ (record t { ids = suc t.ids; strings = map_set t.strings t.ids value }, t.ids)
]
