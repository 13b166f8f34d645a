-- ===== src/Proto/Resolve/Known.antt =====
-- Types that the validator accepts, and the names that they get in the .proto files.
use windrpc.Base.{
  ◌≡◌, refl, ◌⊎◌, inl, inr, true, false, ◌&&◌, Option, none, some, List, [], ◌∷◌, ◌++◌, Bool-cases,
}
use windrpc.Base.Text.{Str, codes, str_eq, str_mem, split, lower}
use windrpc.Base.Result.{ok}
use windrpc.Spec.{Spec}
use windrpc.Converter.{to_pascal_case}
use windrpc.Validator.Types.{
  common_types, service_types, option_eq, in_current, mem_option, valid_parts, is_valid_type,
}
use windrpc.Proto.Resolve.{
  scalar_types, or_common, declared_types, qualifier, last_part, is_local, of_service,
  resolve_type_name,
}

-- a scalar, or a name whose last part is in Pascal case
abbrev pub IsPascalName : Str → Type 0
IsPascalName t =
    (str_mem (lower t) scalar_types ≡ true)
    ⊎ (to_pascal_case (last_part (split b'.' t)) ≡ last_part (split b'.' t))

pascal_part :
    (t : Str)
    → str_mem (lower t) scalar_types ≡ false
    → IsPascalName t
    → to_pascal_case (last_part (split b'.' t)) ≡ last_part (split b'.' t)
pascal_part t other (inl scalar) = absurd (cc (other, scalar))
pascal_part t other (inr pascal) = pascal

module _ (spec : Spec) (package_prefix : Str) where
  -- a name that the .proto file of a service, or of the common types, may use
  pub data Known (current : Option Str) (t : Str) : Type 0 where
    scalar : str_mem t scalar_types ≡ true → Known current t
    local :
        (service : Str) (names : List Str)
        → current ≡ some service
        → service_types spec.services service ≡ some names
        → str_mem t names ≡ true
        → Known current t
    common :
        (name : Str)
        → str_mem name (common_types spec) ≡ true
        → t ≡ package_prefix ++ codes ".windrpc.types." ++ name
        → Known current t
    foreign :
        (owner name qualified_name : Str) (names : List Str)
        → service_types spec.services owner ≡ some names
        → str_mem name names ≡ true
        → split b'.' qualified_name ≡ owner ∷ name ∷ []
        → t ≡ package_prefix ++ codes ".windrpc.service." ++ qualified_name
        → Known current t

  -- the service whose file it is has its types
  abbrev pub HasTypes : Option Str → Type 0
  HasTypes none = Unit
  HasTypes (some c) = (names : List Str) × (service_types spec.services c ≡ some names)

  local_lem :
      (current : Option Str) (name : Str)
      → HasTypes current
      → ((is_local spec package_prefix current name ≡ ok true) × Known current name)
        ⊎ ((is_local spec package_prefix current name ≡ ok false)
            × (in_current spec current name ≡ false))
  unfolding is_local in_current declared_types or_common mem_option
  local_lem none name h = inr (refl, refl)
  local_lem (some []) name (names, e) = elim (Bool-cases (str_mem name names)) [
    | inl there ↦ inl (rw (e, there) refl, local [] names refl e there)
    | inr other ↦ inr (rw (e, other) refl, refl)
  ]
  local_lem (some (c ∷ s)) name (names, e) = elim (Bool-cases (str_mem name names)) [
    | inl there ↦ inl (rw (e, there) refl, local (c ∷ s) names refl e there)
    | inr other ↦ inr (rw (e, other) refl, rw (e, other) refl)
  ]

  mem_option-true :
      (name : Str) (o : Option (List Str))
      → mem_option name o ≡ true
      → (names : List Str) × (o ≡ some names) × (str_mem name names ≡ true)
  unfolding mem_option
  mem_option-true name none h = absurd (cc h)
  mem_option-true name (some names) h = (names, refl, h)

  module _ (unnamed : service_types spec.services (codes "types") ≡ none) (current : Option Str)
      (has : HasTypes current) (type_name : Str) where
    declared-common : declared_types spec (codes "types") ≡ ok (common_types spec)
    unfolding declared_types or_common str_eq
    declared-common = rw unnamed refl

    -- the outcome of the search among the other services
    abbrev Found : List Str → Type 0
    Found parts =
        (r : Str) × (of_service spec package_prefix (qualifier parts) (last_part parts) type_name
          ≡ ok r)
        × Known current r

    -- the name is neither local nor common, so that it is of another service
    other_service :
        (parts : List Str)
        → split b'.' type_name ≡ parts
        → to_pascal_case (last_part parts) ≡ last_part parts
        → valid_parts spec current parts ≡ true
        → in_current spec current (last_part parts) ≡ false
        → str_mem (last_part parts) (common_types spec) ≡ false
        → Found parts
    unfolding valid_parts qualifier last_part of_service declared_types or_common
    other_service [] e pascal valid l c = absurd (cc valid)
    other_service (n ∷ []) e pascal valid l c = absurd (cc (rw (pascal, l, c) at valid))
    other_service (o ∷ n ∷ []) e pascal valid l c = elim (Bool-cases (str_eq o (codes "types"))) [
      | inl types ↦ absurd (cc (rw (types, pascal, c) at valid))
      | inr other ↦
          let (names, owns, there) =
            mem_option-true n (service_types spec.services o) (rw (other, pascal) at valid) in
          (
            package_prefix ++ codes ".windrpc.service." ++ type_name,
            rw (owns, there) refl,
            foreign o n type_name names owns there e refl,
          )
    ]
    other_service (a ∷ b ∷ n ∷ []) e pascal valid l c =
        elim (Bool-cases (option_eq spec.package_name a && str_eq b (codes "types"))) [
          | inl types ↦ absurd (cc (rw (types, pascal, c) at valid))
          | inr other ↦ absurd (cc (rw other at valid))
        ]
    other_service (a ∷ b ∷ d ∷ n ∷ more) e pascal valid l c = absurd (cc valid)

    valid_by_parts :
        (t : Str)
        → is_valid_type spec current (some t) ≡ true
        → str_mem (lower t) scalar_types ≡ false
        → valid_parts spec current (split b'.' t) ≡ true
    unfolding is_valid_type
    valid_by_parts [] h other = absurd (cc h)
    valid_by_parts (c ∷ t) h other = rw other at h

    abbrev simple_name : Str
    simple_name = last_part (split b'.' type_name)

    -- A type that the validator accepts, a scalar or written in Pascal case, gets a name in the .proto file: a
    -- scalar, a type of the own service, a common type, or a type of the service that it names.
    pub resolve_type_name-Known :
        is_valid_type spec current (some type_name) ≡ true
        → IsPascalName type_name
        → (r : Str) × (resolve_type_name spec package_prefix type_name current ≡ ok r)
          × Known current r
    resolve_type_name-Known valid pascal =
        elim (Bool-cases (str_mem (lower type_name) scalar_types)) [
          | inl is_scalar ↦
              (lower type_name, unfold resolve_type_name in rw is_scalar refl, scalar is_scalar)
          | inr other ↦ elim (local_lem current simple_name has) [
            | inl (found, known) ↦
                (simple_name, unfold resolve_type_name in rw (other, found) refl, known)
            | inr (missing, not_here) ↦
                elim (Bool-cases (str_mem simple_name (common_types spec))) [
                  | inl there ↦ (
                    package_prefix ++ codes ".windrpc.types." ++ simple_name,
                    unfold resolve_type_name in rw (other, missing, declared-common, there) refl,
                    common simple_name there refl,
                  )
                  | inr not_common ↦
                      let (r, found, known) =
                        other_service (split b'.' type_name) refl
                          (pascal_part type_name other pascal)
                          (valid_by_parts type_name valid other) not_here not_common in
                      (
                        r,
                        unfold resolve_type_name in
                            rw (other, missing, declared-common, not_common) found,
                        known,
                      )
                ]
          ]
        ]
