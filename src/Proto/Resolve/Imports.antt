-- ===== src/Proto/Resolve/Imports.antt =====
-- The imports of a .proto file: each file that a type needs, once.
use mathlib.Core.Path.{subst}
use mathlib.Core.Bool.{Bool, true, false}
use windrpc.Base.{
  ◌≡◌, ◌⊎◌, refl, sym, List, [], ◌∷◌, ◌++◌, All, arith, Bool-cases, inl, inr, if◌then◌else◌,
}
use windrpc.Base.Text.{Str, str_eq, str_eq_refl, str_eq→eq, str_mem, split}
use windrpc.Proto.Resolve.{
  scalar_types, file_parts, import_path, add_import, import_loop, generate_import_paths,
}

-- a file that is imported, if there is one
unfoldable pub FileImported : List Str → List Str → Type 0
FileImported imports [] = Unit
FileImported imports (p ∷ parts) = str_mem (import_path (p ∷ parts)) imports ≡ true

-- the file of a type that is no scalar
unfoldable pub Imported : List Str → Str → Type 0
unfolding FileImported
Imported imports t =
    (str_mem t scalar_types ≡ true) ⊎ FileImported imports (file_parts (split b'.' t))

-- no text is there twice
unfoldable pub Once : List Str → Type 0
Once [] = Unit
Once (x ∷ xs) = (str_mem x xs ≡ false) × Once xs

pub str_mem-append :
    (x : Str) (xs ys : List Str) → str_mem x xs ≡ true → str_mem x (xs ++ ys) ≡ true
unfolding str_mem
str_mem-append x [] ys h = cc
str_mem-append x (y ∷ xs) ys h = ground (arith, str_mem-append x xs ys)

pub str_mem-append_right :
    (x : Str) (xs ys : List Str) → str_mem x ys ≡ true → str_mem x (xs ++ ys) ≡ true
unfolding str_mem
str_mem-append_right x [] ys h = h
str_mem-append_right x (y ∷ xs) ys h = ground (arith, str_mem-append_right x xs ys)

str_mem-last : (x : Str) (xs : List Str) → str_mem x (xs ++ x ∷ []) ≡ true
unfolding str_mem
str_mem-last x [] = ground (arith, str_eq_refl x)
str_mem-last x (y ∷ xs) = ground (arith, str_mem-last x xs)

str_eq_comm : (x y : Str) → str_eq x y ≡ false → str_eq y x ≡ false
str_eq_comm x y h = elim (Bool-cases (str_eq y x)) [
  | inl same ↦ cc (rw (str_eq→eq y x same, str_eq_refl x) at h)
  | inr other ↦ other
]

not_behind :
    (y x : Str) (xs : List Str)
    → str_mem y xs ≡ false
    → str_eq x y ≡ false
    → str_mem y (xs ++ x ∷ []) ≡ false
unfolding str_mem
not_behind y x [] h ne = ground (arith, str_eq_comm x y)
not_behind y x (z ∷ xs) h ne = ground (arith, not_behind y x xs)

Once-append : (x : Str) (xs : List Str) → Once xs → str_mem x xs ≡ false → Once (xs ++ x ∷ [])
unfolding Once str_mem
Once-append x [] h new = (refl, tt)
Once-append x (y ∷ xs) (hy, h) new =
    (not_behind y x xs hy (ground arith), Once-append x xs h (ground arith))

-- what a round does
module _ (imports : List Str) where
  add-Once : (parts : List Str) → Once imports → Once (add_import imports parts)
  unfolding add_import
  add-Once [] h = h
  add-Once (p ∷ parts) h = elim (Bool-cases (str_mem (import_path (p ∷ parts)) imports)) [
    | inl there ↦ rw there h
    | inr new ↦ rw new (Once-append (import_path (p ∷ parts)) imports h new)
  ]

  add-FileImported : (parts : List Str) → FileImported (add_import imports parts) parts
  unfolding add_import FileImported
  add-FileImported [] = tt
  add-FileImported (p ∷ parts) = elim (Bool-cases (str_mem (import_path (p ∷ parts)) imports)) [
    | inl there ↦ rw (there, there) refl
    | inr new ↦ rw new (str_mem-last (import_path (p ∷ parts)) imports)
  ]

  add_keeps :
      (x : Str) (parts : List Str)
      → str_mem x imports ≡ true
      → str_mem x (add_import imports parts) ≡ true
  unfolding add_import
  add_keeps x [] h = h
  add_keeps x (p ∷ parts) h = elim (Bool-cases (str_mem (import_path (p ∷ parts)) imports)) [
    | inl there ↦ rw there h
    | inr new ↦ rw new (str_mem-append x imports (import_path (p ∷ parts) ∷ []) h)
  ]

loop_keeps :
    (imports ts : List Str) (x : Str)
    → str_mem x imports ≡ true
    → str_mem x (import_loop imports ts) ≡ true
unfolding import_loop
loop_keeps imports [] x h = h
loop_keeps imports (t ∷ ts) x h = elim (Bool-cases (str_mem t scalar_types)) [
  | inl scalar ↦ rw scalar (loop_keeps imports ts x h)
  | inr other ↦ rw other (
      loop_keeps (add_import imports (file_parts (split b'.' t))) ts x
        (add_keeps imports x (file_parts (split b'.' t)) h))
]

loop_keeps_file :
    (imports ts parts : List Str)
    → FileImported imports parts
    → FileImported (import_loop imports ts) parts
unfolding FileImported
loop_keeps_file imports ts [] h = tt
loop_keeps_file imports ts (p ∷ parts) h = loop_keeps imports ts (import_path (p ∷ parts)) h

loop_next :
    (imports ts : List Str) (t : Str) (b : Bool)
    → str_mem t scalar_types ≡ b
    → import_loop imports (t ∷ ts)
      ≡ import_loop (if b then imports else add_import imports (file_parts (split b'.' t))) ts
unfolding import_loop
loop_next imports ts t b h = rw h refl

loop_lem :
    (imports ts : List Str)
    → Once imports
    → Once (import_loop imports ts) × All (Imported (import_loop imports ts)) ts
loop_lem imports [] h = (unfold import_loop in h, tt)
loop_lem imports (t ∷ ts) h = elim (Bool-cases (str_mem t scalar_types)) [
  | inl scalar ↦
      let rest = loop_lem imports ts h in
      let here : Imported (import_loop imports ts) t = unfold Imported in inl scalar in
      subst (λ r. Once r × All (Imported r) (t ∷ ts)) (sym (loop_next imports ts t true scalar))
        (rest.0, (here, rest.1))
  | inr other ↦
      let parts : List Str = file_parts (split b'.' t) in
      let rest = loop_lem (add_import imports parts) ts (add-Once imports parts h) in
      let here : Imported (import_loop (add_import imports parts) ts) t =
        unfold Imported in
        inr
          (loop_keeps_file (add_import imports parts) ts parts (add-FileImported imports parts)) in
      subst (λ r. Once r × All (Imported r) (t ∷ ts)) (sym (loop_next imports ts t false other))
        (rest.0, (here, rest.1))
]

-- The imports that are generated for a list of types hold the file of every type of the list that is
-- no scalar and has a qualified name, and hold no line twice.
pub generate_import_paths_lem :
    (type_names : List Str)
    → Once (generate_import_paths type_names)
      × All (Imported (generate_import_paths type_names)) type_names
unfolding generate_import_paths
generate_import_paths_lem type_names = loop_lem [] type_names (unfold Once in tt)
