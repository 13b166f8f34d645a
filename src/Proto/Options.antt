-- ===== src/Proto/Options.antt =====
-- windrpc/proto/options_generator.py: the nanopb options of the fields. Of a field's own options the
-- model has the three that the program computes with.
pub mod Sizes
use windrpc.Base.{
  ℕ, Bool, true, false, ◌&&◌, ◌||◌, Option, none, some, List, [], ◌∷◌, ◌++◌, map, if◌then◌else◌,
}
use mathlib.Core.List.{flatten}
use windrpc.Base.Text.{Str, codes, str_eq, join}
use windrpc.Base.Result.{Result, ok, ◌>>=◌}
use windrpc.Spec.{Nanopb, Field, Oneof, Message, Service, Spec}
use windrpc.Spec.Required.{required}

-- the dict `config` of the specification
pub record Config : Type 0 where
  pub default_string_max_size : Option ℕ
  pub default_bytes_max_size : Option ℕ
  pub default_array_max_count : Option ℕ

-- `config.get(key, default)`
unfoldable pub config_or : Option ℕ → ℕ → ℕ
config_or none d = d
config_or (some n) d = n

-- `item.get(key) == text`
unfoldable pub is_text : Option Str → Str → Bool
is_text none t = false
is_text (some s) t = str_eq s t

unfoldable pub is_none : Option ℕ → Bool
is_none none = true
is_none (some n) = false

-- neither `max_size` nor `max_length` is given
unfoldable pub is_unlimited : Nanopb → Bool
unfolding is_none
is_unlimited o = is_none o.max_size && is_none o.max_length

-- the defaults of a text or a byte string
unfoldable pub limit_size : Config → Option Str → Nanopb → Nanopb
unfolding config_or is_text is_unlimited
limit_size config f_type o =
    if is_text f_type (codes "string") && is_unlimited o
    then record o { max_size = some (config_or config.default_string_max_size 64) }
    else if is_text f_type (codes "bytes") && is_unlimited o
    then record o { max_size = some (config_or config.default_bytes_max_size 64) }
    else o

-- the default of a repeated field
unfoldable pub limit_count : Config → Option Str → Nanopb → Nanopb
unfolding config_or is_text is_none
limit_count config f_prop o =
    if is_text f_prop (codes "repeated") && is_none o.max_count
    then record o { max_count = some (config_or config.default_array_max_count 16) }
    else o

-- `item_nanopb`, with its defaults
unfoldable pub with_defaults : Config → Field → Nanopb
unfolding limit_size limit_count
with_defaults config f = limit_count config f.property (limit_size config f.type_name f.nanopb)

-- the items of `item_nanopb`
items : Nanopb → List (Str × ℕ)
items o =
    given (codes "max_size") o.max_size
    ++ given (codes "max_length") o.max_length
    ++ given (codes "max_count") o.max_count
  where
    given : Str → Option ℕ → List (Str × ℕ)
    given key none = []
    given key (some n) = (key, n) ∷ []

-- a line `{target} {key}: {value}`
pub record OptionLine : Type 0 where
  pub target : Str
  pub key : Str
  pub value : ℕ

-- `".".join(name_parts)`
target_name : Str → Str → Str → Str → Str
target_name package_prefix section msg_name name = join (codes ".") (
    (package_prefix ++ codes ".windrpc")
    ∷ (if str_eq section (codes "types") then section else codes "service." ++ section)
    ∷ behind msg_name)
  where
    behind : Str → List Str
    behind [] = name ∷ []
    behind (c ∷ m) = (c ∷ m) ∷ name ∷ []

-- the name is read only where there are options
option_lines : Str → Str → Str → Option Str → List (Str × ℕ) → Result (List OptionLine)
unfolding target_name
option_lines package_prefix section msg_name name [] = ok []
option_lines package_prefix section msg_name name (o ∷ os) = required name >>= λ n. ok (
    map
      (λ (p : Str × ℕ). record {
        target = target_name package_prefix section msg_name n;
        key = p.0;
        value = p.1;
      })
      (o ∷ os))

unfoldable pub collect_options : Config → Str → Str → Str → Field → Result (List OptionLine)
unfolding option_lines items with_defaults
collect_options config package_prefix section msg_name f =
    option_lines package_prefix section msg_name f.name (items (with_defaults config f))

-- the loop over the fields of a message, whose name is read for each of them
unfoldable pub fields_options :
    Config → Str → Str → Option Str → List Field → Result (List OptionLine)
unfolding collect_options
fields_options config package_prefix section msg_name [] = ok []
fields_options config package_prefix section msg_name (f ∷ fs) = required msg_name >>= λ name.
    collect_options config package_prefix section name f >>= λ first.
    fields_options config package_prefix section msg_name fs >>= λ more. ok (first ++ more)

oneofs_fields : List Oneof → List Field
oneofs_fields [] = []
oneofs_fields (o ∷ os) = o.fields ++ oneofs_fields os

-- the messages of the section `types`, whose oneofs are not read
unfoldable pub types_options : Config → Str → List Message → Result (List OptionLine)
unfolding fields_options
types_options config package_prefix [] = ok []
types_options config package_prefix (m ∷ ms) =
    fields_options config package_prefix (codes "types") m.name m.fields >>= λ first.
    types_options config package_prefix ms >>= λ more. ok (first ++ more)

-- the messages of a service: first the fields, then those of the oneofs
unfoldable pub messages_options : Config → Str → Str → List Message → Result (List OptionLine)
unfolding fields_options oneofs_fields
messages_options config package_prefix section [] = ok []
messages_options config package_prefix section (m ∷ ms) =
    fields_options config package_prefix section m.name (m.fields ++ oneofs_fields m.oneofs)
    >>= λ first. messages_options config package_prefix section ms >>= λ more. ok (first ++ more)

-- what is appended to the lists of `options_by_file`, with their keys
unfoldable pub services_options :
    Config → Str → List Service → Result (List (Str × List OptionLine))
unfolding messages_options
services_options config package_prefix [] = ok []
services_options config package_prefix (s ∷ ss) = required s.name >>= λ svc_name.
    messages_options config package_prefix svc_name s.messages >>= λ first.
    services_options config package_prefix ss >>= λ more. ok ((svc_name, first) ∷ more)

unfoldable pub generate_options_files : Config → Str → Spec → Result (List (Str × List OptionLine))
unfolding types_options services_options
generate_options_files config package_prefix spec_data =
    types_options config package_prefix spec_data.messages >>= λ types.
    services_options config package_prefix spec_data.services >>= λ services.
    ok ((codes "types", types) ∷ (codes "windrpc", []) ∷ services)
