-- ===== src/Client/Js/Values.antt =====
-- An enum member without a value stops the JavaScript generator.
use windrpc.Base.{◌≡◌, refl, ◌⊎◌, inl, inr, Option, none, some, List, [], ◌∷◌, ◌++◌, ℕ}
use windrpc.Base.Text.{Str}
use windrpc.Base.Result.{Result, ok, raise, key_error, ◌>>=◌}
use windrpc.Spec.{ℤ, Member, EnumDef, Spec}
use windrpc.Spec.Required.{required}
use windrpc.Client.Js.Schema.{
  put_key, values_dict, add_enum, add_enums, Root, build_protobufjs_root_json,
}

-- a call that raises `KeyError`, if it raises
KeyErrorOnly {ℓ} : {A : Type ℓ} → Result A → Type ℓ
KeyErrorOnly {A = A} call = (call ≡ raise key_error) ⊎ ((a : A) × (call ≡ ok a))

-- such a call, and one behind it that raises `KeyError`
bind-key_error {ℓ κ} :
    {A : Type ℓ} {B : Type κ} (call : Result A) (rest : A → Result B)
    → KeyErrorOnly call
    → ((a : A) → rest a ≡ raise key_error)
    → (call >>= rest) ≡ raise key_error
unfolding KeyErrorOnly
bind-key_error call rest (inl e) h = rw e refl
bind-key_error call rest (inr (a, e)) h = rw e (h a)

bind-KeyErrorOnly {ℓ κ} :
    {A : Type ℓ} {B : Type κ} (call : Result A) (rest : A → Result B)
    → KeyErrorOnly call
    → ((a : A) → KeyErrorOnly (rest a))
    → KeyErrorOnly (call >>= rest)
unfolding KeyErrorOnly
bind-KeyErrorOnly call rest (inl e) h = inl (rw e refl)
bind-KeyErrorOnly call rest (inr (a, e)) h = rw e (h a)

required-KeyErrorOnly {ℓ} : {A : Type ℓ} (key : Option A) → KeyErrorOnly (required key)
unfolding KeyErrorOnly required
required-KeyErrorOnly none = inl refl
required-KeyErrorOnly (some a) = inr (a, refl)

values-KeyErrorOnly : (ms : List Member) (d : List (Str × ℤ)) → KeyErrorOnly (values_dict ms d)
unfolding values_dict
values-KeyErrorOnly [] d = unfold KeyErrorOnly in inr (d, refl)
values-KeyErrorOnly (m ∷ ms) d =
    bind-KeyErrorOnly (required m.name) _ (required-KeyErrorOnly m.name) (λ name.
      bind-KeyErrorOnly (required m.value) _ (required-KeyErrorOnly m.value)
        (λ value. values-KeyErrorOnly ms (put_key name value d)))

-- a member without a value behind others
values-key_error :
    (before after : List Member) (m : Member) (d : List (Str × ℤ))
    → m.value ≡ none
    → values_dict (before ++ m ∷ after) d ≡ raise key_error
unfolding values_dict
values-key_error [] after m d h =
    bind-key_error (required m.name) _ (required-KeyErrorOnly m.name)
      (λ name. rw h (unfold required in refl))
values-key_error (b ∷ before) after m d h =
    bind-key_error (required b.name) _ (required-KeyErrorOnly b.name) (λ name.
      bind-key_error (required b.value) _ (required-KeyErrorOnly b.value)
        (λ value. values-key_error before after m (put_key name value d) h))

-- an enum that is not passed over
enum-key_error :
    (e : EnumDef) (after : List EnumDef) (c : ℕ) (n : Str) (root : Root)
    → e.name ≡ some (c ∷ n)
    → values_dict e.members [] ≡ raise key_error
    → add_enums (e ∷ after) root ≡ raise key_error
unfolding add_enums
enum-key_error e after c n root named h = rw (named, h) refl

add_enum-KeyErrorOnly :
    (name : Option Str) (members : List Member) (root : Root)
    → KeyErrorOnly (add_enum name members root)
unfolding add_enum KeyErrorOnly
add_enum-KeyErrorOnly none members root = inr (root, refl)
add_enum-KeyErrorOnly (some []) members root = inr (root, refl)
add_enum-KeyErrorOnly (some (c ∷ n)) members root =
    bind-KeyErrorOnly (values_dict members []) _ (values-KeyErrorOnly members [])
      (λ vs. inr (_, refl))

enums-key_error :
    (before after : List EnumDef) (e : EnumDef) (c : ℕ) (n : Str) (root : Root)
    → e.name ≡ some (c ∷ n)
    → values_dict e.members [] ≡ raise key_error
    → add_enums (before ++ e ∷ after) root ≡ raise key_error
unfolding add_enums
enums-key_error [] after e c n root named h = enum-key_error e after c n root named h
enums-key_error (b ∷ before) after e c n root named h =
    bind-key_error (add_enum b.name b.members root) _ (add_enum-KeyErrorOnly b.name b.members root)
      (λ next. enums-key_error before after e c n next named h)

-- The schema of the JavaScript client is not built, and `KeyError` is raised, as soon as one member of
-- a common enum with a name leaves its value out.
pub build_protobufjs_root_json-key_error :
    (spec_data : Spec) (before after : List EnumDef) (e : EnumDef) (c : ℕ) (n : Str)
    (earlier later : List Member) (m : Member)
    → spec_data.enums ≡ before ++ e ∷ after
    → e.name ≡ some (c ∷ n)
    → e.members ≡ earlier ++ m ∷ later
    → m.value ≡ none
    → build_protobufjs_root_json spec_data ≡ raise key_error
unfolding build_protobufjs_root_json
build_protobufjs_root_json-key_error spec_data before after e c n earlier later m enums named
      members implicit =
    let raises : values_dict e.members [] ≡ raise key_error =
      rw members (values-key_error earlier later m [] implicit) in
    rw
      (
        enums,
        enums-key_error before after e c n
            (record { nested = []; enum_names = []; message_names = [] }) named raises,
      )
      refl
