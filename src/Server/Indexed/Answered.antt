-- ===== src/Server/Indexed/Answered.antt =====
-- The pointers of the responses are those of the requests whose handlers have a response.
use windrpc.Base.{
  ◌≡◌, refl, ap, ◌∙◌, sym, Bool, true, false, Option, none, some, List, [], ◌∷◌, map, arith,
  Bool-cases, inl, inr, if◌then◌else◌,
}
use windrpc.Base.Text.{Str, str_eq, str_eq_refl, str_eq→eq, str_mem}
use windrpc.Proto.Resolve.Imports.{Once}
use windrpc.Server.Indexed.{IndexedEntry, at_index}

-- the pointers of the entries that have a response
unfoldable pub answered : List IndexedEntry → List (Str × Str × Str) → List (Str × Str × Str)
answered [] ps = []
answered (e ∷ table) [] = []
answered (e ∷ table) (p ∷ ps) =
    let rest = answered table ps in if e.has_response then p ∷ rest else rest

abbrev pub key_of : Str × Str × Str → Str
key_of p = p.0

abbrev pub index_of : IndexedEntry → Str
index_of e = e.index

module _ (index : Str) (p : Str × Str × Str) (rest : List (Str × Str × Str)) where
  skip-at_index :
      (b : Bool)
      → str_eq p.0 index ≡ false
      → at_index key_of index (if b then p ∷ rest else rest) ≡ at_index key_of index rest
  unfolding at_index
  skip-at_index true other = rw other refl
  skip-at_index false other = refl

  take-at_index :
      (b : Bool)
      → str_eq p.0 index ≡ true
      → at_index key_of index rest ≡ none
      → at_index key_of index (if b then p ∷ rest else rest) ≡ (if b then some p else none)
  unfolding at_index
  take-at_index true same h = rw same refl
  take-at_index false same h = h

-- an index that the table does not have has no pointer
answered-none :
    (index : Str) (table : List IndexedEntry) (ps : List (Str × Str × Str))
    → map index_of table ≡ map key_of ps
    → str_mem index (map index_of table) ≡ false
    → at_index key_of index (answered table ps) ≡ none
unfolding answered at_index str_mem
answered-none index [] ps h new = refl
answered-none index (e ∷ table) [] h new = refl
answered-none index (e ∷ table) (p ∷ ps) h new = elim (Bool-cases (str_eq p.0 index)) [
  | inl same ↦
      let k : p.0 ≡ index = str_eq→eq p.0 index same in
      let i : e.index ≡ index = cc (h, k) in absurd (cc (rw (i, str_eq_refl index) at new))
  | inr other ↦
      skip-at_index index p (answered table ps) e.has_response other
      ∙ answered-none index table ps (cc h) (ground arith)
]

entry_or : IndexedEntry → Option IndexedEntry → IndexedEntry
entry_or d none = d
entry_or d (some e) = e

pointer_or : Str × Str × Str → Option (Str × Str × Str) → Str × Str × Str
pointer_or d none = d
pointer_or d (some e) = e

-- where the indices are different, an index has its pointer just if its handler has a response
pub answered-at_index :
    (index : Str) (table : List IndexedEntry) (ps : List (Str × Str × Str)) (e : IndexedEntry)
    (p : Str × Str × Str)
    → map index_of table ≡ map key_of ps
    → Once (map index_of table)
    → at_index index_of index table ≡ some e
    → at_index key_of index ps ≡ some p
    → at_index key_of index (answered table ps) ≡ (if e.has_response then some p else none)
unfolding answered at_index Once entry_or pointer_or
answered-at_index index [] ps e p h once he hp = absurd (cc he)
answered-at_index index (d ∷ table) [] e p h once he hp = absurd (cc hp)
answered-at_index index (d ∷ table) (q ∷ ps) e p h once he hp =
    let k : q.0 ≡ d.index = cc h in
    elim (Bool-cases (str_eq q.0 index)) [
      | inl same ↦
          let same_d : str_eq d.index index ≡ true = (rw k at same) in
          let is_e : d ≡ e = ap (entry_or d) (rw same_d at he) in
          let is_p : q ≡ p = ap (pointer_or q) (rw same at hp) in
          let new : str_mem index (map index_of table) ≡ false =
            (rw (str_eq→eq d.index index same_d) at once.0) in
          rw (sym is_e, sym is_p)
            (take-at_index index q (answered table ps) d.has_response same
              (answered-none index table ps (cc h) new))
      | inr other ↦
          let other_d : str_eq d.index index ≡ false = (rw k at other) in
          skip-at_index index q (answered table ps) d.has_response other
          ∙ answered-at_index index table ps e p (cc h) once.1 (rw other_d at he) (rw other at hp)
    ]
