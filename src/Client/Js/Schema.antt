-- ===== src/Client/Js/Schema.antt =====
-- `build_protobufjs_root_json`: the schema of the messages and enums, as protobufjs reads it.
use windrpc.Base.{ℕ, Bool, false, Option, none, some, List, [], ◌∷◌, ◌++◌, if◌then◌else◌}
use windrpc.Base.Text.{Str, codes, str_eq, str_mem, split}
use windrpc.Base.Result.{Result, ok, ◌>>=◌}
use windrpc.Spec.{ℤ, Field, Message, Member, EnumDef, Service, Spec}
use windrpc.Spec.Required.{required}
use windrpc.Proto.Resolve.{last_part}

-- `d[key] = value` in a dict with texts as keys: a key that is there keeps its place
unfoldable pub put_key {ℓ} : {V : Type ℓ} → Str → V → List (Str × V) → List (Str × V)
put_key key value [] = (key, value) ∷ []
put_key key value ((k, v) ∷ d) =
    let rest = put_key key value d in if str_eq k key then (k, value) ∷ d else (k, v) ∷ rest

-- `{"id": ..., "type": ...}`, with `"rule": "repeated"` or without
pub record FieldEntry : Type 0 where
  pub id : ℕ
  pub type_name : Str
  pub repeated : Bool

pub data Nested : Type 0 where
  values : List (Str × ℤ) → Nested
  fields : List (Str × FieldEntry) → Nested

-- `d.get(key, default)`
unfoldable pub or_default {ℓ} : {A : Type ℓ} → A → Option A → A
or_default d none = d
or_default d (some a) = a

-- `f_prop == 'repeated'`
is_repeated : Option Str → Bool
is_repeated none = false
is_repeated (some p) = str_eq p (codes "repeated")

field_entry : Field → FieldEntry
field_entry f = record {
  id = or_default 1 f.number;
  type_name = last_part (split b'.' (or_default (codes "bytes") f.type_name));
  repeated = is_repeated f.property;
}

fields_dict : List Field → List (Str × FieldEntry) → List (Str × FieldEntry)
unfolding field_entry is_repeated or_default
fields_dict [] d = d
fields_dict (f ∷ fs) d = fields_dict fs (put_key (or_default [] f.name) (field_entry f) d)

-- the values of the members of an enum, which are dicts; each needs its name and its value
unfoldable pub values_dict : List Member → List (Str × ℤ) → Result (List (Str × ℤ))
values_dict [] d = ok d
values_dict (m ∷ ms) d =
    required m.name >>= λ name. required m.value >>= λ value. values_dict ms (put_key name value d)

-- the schema, and the names of the enums and of the messages
pub record Root : Type 0 where
  pub nested : List (Str × Nested)
  pub enum_names : List Str
  pub message_names : List Str

-- `if name not in names: names.append(name)`
unfoldable pub append_new : Str → List Str → List Str
append_new name names = if str_mem name names then names else names ++ name ∷ []

-- an enum without a name, or with an empty one, is passed over
unfoldable pub add_enum : Option Str → List Member → Root → Result Root
add_enum none members root = ok root
add_enum (some []) members root = ok root
add_enum (some (c ∷ n)) members root = values_dict members [] >>= λ vs. ok (record root {
  nested = put_key (c ∷ n) (values vs) root.nested;
  enum_names = append_new (c ∷ n) root.enum_names;
})

unfoldable pub add_enums : List EnumDef → Root → Result Root
unfolding add_enum append_new
add_enums [] root = ok root
add_enums (e ∷ es) root = add_enum e.name e.members root >>= λ next. add_enums es next

add_message : Option Str → List Field → Root → Root
add_message none fs root = root
add_message (some []) fs root = root
add_message (some (c ∷ n)) fs root = record root {
  nested = put_key (c ∷ n) (fields (fields_dict fs [])) root.nested;
  message_names = append_new (c ∷ n) root.message_names;
}

unfoldable pub add_messages : List Message → Root → Root
unfolding add_message append_new fields_dict
add_messages [] root = root
add_messages (m ∷ ms) root = add_messages ms (add_message m.name m.fields root)

unfoldable pub add_service_messages : List Service → Root → Root
unfolding add_messages
add_service_messages [] root = root
add_service_messages (s ∷ ss) root = add_service_messages ss (add_messages s.messages root)

unfoldable pub build_protobufjs_root_json : Spec → Result Root
unfolding add_enums add_messages add_service_messages
build_protobufjs_root_json spec_data =
    add_enums spec_data.enums (record { nested = []; enum_names = []; message_names = [] })
    >>= λ root. ok (add_service_messages spec_data.services (add_messages spec_data.messages root))
