-- ===== src/LirGen/Interning.antt =====
-- The table of `StringIntern` of sbc/lir_gen.ts: its numbers, its strings and how it grows.
use h4_projekt_gruppe_0_sm.Prelude.{
  ℕ, suc, ◌≤◌, ◌<◌, String, [], ◌∷◌, none, some, NumMap, map_get, map_set, str_eq, eq_iff, ◌≡◌,
  refl, sym, ap, ◌∙◌, arith, false, Bool-cases, inl, inr, ◌==◌, ne→==-false, ==→eq, ==-self,
  Option-cases, map_get-map_set, eq_of_some,
}
use h4_projekt_gruppe_0_sm.LirGen.Strings.{StringIntern, empty, find_entry, intern}

-- The entries are numbered from `n` up to `ids`, and no string is there twice.
abbrev pub Numbered : ℕ → ℕ → NumMap String → Type 0
Numbered n ids [] = n ≡ ids
Numbered n ids ((id, v) ∷ entries) =
    (id ≡ n) × (find_entry entries v ≡ none) × Numbered (suc n) ids entries

pub record IsNumbered (t : StringIntern) : Type 0 where
  pub numbered : Numbered 0 t.ids t.strings

Numbered-le : (n ids : ℕ) (es : NumMap String) → Numbered n ids es → n ≤ ids
Numbered-le n ids [] h = omega arith
Numbered-le n ids ((id, v) ∷ es) h = omega (arith, Numbered-le (suc n) ids es h.2)

-- The keys lie between `n` and `ids`.
key_bounds :
    (n ids : ℕ) (es : NumMap String) (id : ℕ) (v : String)
    → Numbered n ids es
    → map_get es id ≡ some v
    → (n ≤ id) × (id < ids)
key_bounds n ids [] id v h e = cc
key_bounds n ids ((j, w) ∷ es) id v h e = elim (Bool-cases (j == id)) [
  | inl at ↦
      let le = Numbered-le (suc n) ids es h.2 in
      let q = ==→eq j id at in (omega (arith, h.0), omega (arith, h.0))
  | inr past ↦
      let b = key_bounds (suc n) ids es id v h.2 (rw past at e) in (omega (arith, b.0), b.1)
]

-- An entry that is found is the one at its key.
found-get :
    (n ids : ℕ) (es : NumMap String) (value : String) (id : ℕ)
    → Numbered n ids es
    → find_entry es value ≡ some id
    → map_get es id ≡ some value
unfolding find_entry
found-get n ids [] value id h e = cc
found-get n ids ((j, w) ∷ es) value id h e = elim (Bool-cases (str_eq w value)) [
  | inl same ↦ ground (arith, eq_iff w value)
  | inr other ↦
      let there = found-get (suc n) ids es value id h.2 (rw other at e) in
      let b = key_bounds (suc n) ids es id value h.2 there in
      rw (ne→==-false j id (omega (arith, h.0, b.0))) there
]

-- The key of a value is the one at which it is found.
get-found :
    (n ids : ℕ) (es : NumMap String) (value : String) (id : ℕ)
    → Numbered n ids es
    → map_get es id ≡ some value
    → find_entry es value ≡ some id
unfolding find_entry
get-found n ids [] value id h e = cc
get-found n ids ((j, w) ∷ es) value id h e = elim (Bool-cases (j == id)) [
  | inl at ↦ ground (arith, eq_iff w value)
  | inr past ↦
      let there : map_get es id ≡ some value = rw past at e in
      let later = get-found (suc n) ids es value id h.2 there in
      ground (arith, eq_iff w value, h.1, later)
]

find_entry-map_set :
    (es : NumMap String) (k : ℕ) (value w : String)
    → find_entry es w ≡ none
    → str_eq value w ≡ false
    → find_entry (map_set es k value) w ≡ none
unfolding find_entry
find_entry-map_set [] k value w e h = rw h
find_entry-map_set ((j, u) ∷ es) k value w e h =
    ground (arith, find_entry-map_set es k value w, h, e)

not_found :
    (j : ℕ) (w : String) (es : NumMap String) (value : String)
    → find_entry ((j, w) ∷ es) value ≡ none
    → (str_eq value w ≡ false) × (find_entry es value ≡ none)
unfolding find_entry
not_found j w es value e = ground (arith, eq_iff w value, eq_iff value w)

-- A new string goes behind the others.
Numbered-map_set :
    (n ids : ℕ) (es : NumMap String) (value : String)
    → Numbered n ids es
    → find_entry es value ≡ none
    → Numbered n (suc ids) (map_set es ids value)
Numbered-map_set n ids [] value h e = (sym h, unfold find_entry in refl, ap suc h)
Numbered-map_set n ids ((j, w) ∷ es) value h e =
    let le = Numbered-le (suc n) ids es h.2 in
    let (apart, rest) = not_found j w es value e in
    rw (ne→==-false j ids (omega (arith, h.0))) (
      h.0,
      find_entry-map_set es ids value w h.1 apart,
      Numbered-map_set (suc n) ids es value h.2 rest,
    )

map_get-new :
    (es : NumMap String) (k : ℕ) (value : String) → map_get (map_set es k value) k ≡ some value
map_get-new es k value = rw (map_get-map_set es k k value, ==-self k)

-- What a caller of `intern` is told, of the new table and the number.
abbrev pub IsInterned : String → StringIntern → StringIntern × ℕ → Type 0
IsInterned value t r =
    IsNumbered r.0
    × (map_get r.0.strings r.1 ≡ some value)
    × ((id : ℕ) (v : String) → map_get t.strings id ≡ some v → map_get r.0.strings id ≡ some v)
    × ((id : ℕ) → map_get r.0.strings id ≡ some value → id ≡ r.1)

intern-old :
    (value : String) (t : StringIntern) (id : ℕ)
    → find_entry t.strings value ≡ some id
    → intern value t ≡ (t, id)
unfolding intern
intern-old value t id e = rw (e, intern)

intern-new :
    (value : String) (t : StringIntern)
    → find_entry t.strings value ≡ none
    → intern value t
      ≡ (record t { ids = suc t.ids; strings = map_set t.strings t.ids value }, t.ids)
unfolding intern
intern-new value t e = rw (e, intern)

IsInterned-old :
    (value : String) (t : StringIntern) (id : ℕ)
    → IsNumbered t
    → find_entry t.strings value ≡ some id
    → IsInterned value t (t, id)
IsInterned-old value t id h e = (
  h,
  found-get 0 t.ids t.strings value id h.numbered e,
  (λ i v k. k),
  λ i k. eq_of_some (sym (get-found 0 t.ids t.strings value i h.numbered k) ∙ e),
)

IsInterned-new :
    (value : String) (t : StringIntern)
    → IsNumbered t
    → find_entry t.strings value ≡ none
    → IsInterned value t
        (record t { ids = suc t.ids; strings = map_set t.strings t.ids value }, t.ids)
IsInterned-new value t h e =
    let numbered = Numbered-map_set 0 t.ids t.strings value h.numbered e in
    let new = map_get-new t.strings t.ids value in
    (
      record { numbered = numbered },
      new,
      (λ id v k.
          map_get-map_set t.strings t.ids id value
          ∙ rw
              (ne→==-false t.ids id
                (omega (arith, (key_bounds 0 t.ids t.strings id v h.numbered k).1)))
              k),
      λ i k. eq_of_some (
          sym (get-found 0 (suc t.ids) _ value i numbered k)
          ∙ get-found 0 (suc t.ids) _ value t.ids numbered new),
    )

-- `intern` keeps the table numbered from 0 without repetition, gives the number under which the string
-- stands in the new table, leaves every entry of the old table, and no other number has the string.
pub intern_lem :
    (value : String) (t : StringIntern) → IsNumbered t → IsInterned value t (intern value t)
intern_lem value t h = elim (Option-cases (find_entry t.strings value)) [
  | inl e ↦ rw (intern-new value t e) (IsInterned-new value t h e)
  | inr (id, e) ↦ rw (intern-old value t id e) (IsInterned-old value t id h e)
]

pub empty-IsNumbered : IsNumbered empty
unfolding empty
empty-IsNumbered = record { numbered = refl }
