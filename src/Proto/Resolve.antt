-- ===== src/Proto/Resolve.antt =====
-- `resolve_type_name` and `generate_import_paths`: from a type of the specification to its full name
-- and the file that declares it.
pub mod Imports
pub mod Known
pub mod Shadow
use windrpc.Base.{Bool, false, Option, none, some, List, [], ◌∷◌, ◌++◌, map, if◌then◌else◌}
use windrpc.Base.Text.{Str, codes, str_eq, str_mem, lower, split, join}
use windrpc.Base.Result.{Result, ok, raise, key_error, ◌>>=◌}
use windrpc.Spec.{Spec}
use windrpc.Validator.Types.{common_types, service_types}

abbrev pub scalar_types : List Str
scalar_types = map codes (
    "double" ∷ "float" ∷ "int32" ∷ "int64" ∷ "uint32" ∷ "uint64" ∷ "sint32" ∷ "sint64" ∷ "fixed32"
    ∷ "fixed64" ∷ "sfixed32" ∷ "sfixed64" ∷ "bool" ∷ "string" ∷ "bytes" ∷ [])

-- the names that `get_all_types` stores under 'types'
unfoldable pub or_common : Spec → Str → Option (List Str) → Result (List Str)
or_common spec key (some names) = ok names
or_common spec key none =
    if str_eq key (codes "types") then ok (common_types spec) else raise key_error

-- `declared_all_types[key]` behind `get_all_types(spec_data)`: the entry of the last service of that
-- name stands, in place of the common types', too, if a service is called `types`
unfoldable pub declared_types : Spec → Str → Result (List Str)
unfolding or_common
declared_types spec key = or_common spec key (service_types spec.services key)

-- `parts[-2]`, if there are two parts or more
unfoldable pub qualifier : List Str → Option Str
qualifier [] = none
qualifier (p ∷ []) = none
qualifier (p ∷ q ∷ []) = some p
qualifier (p ∷ q ∷ r ∷ parts) = qualifier (q ∷ r ∷ parts)

-- `parts[-1]` of a list that `split` gave
unfoldable pub last_part : List Str → Str
last_part [] = []
last_part (p ∷ []) = p
last_part (p ∷ q ∷ parts) = last_part (q ∷ parts)

module _ (spec : Spec) (package_prefix : Str) where
  -- `current_service_name is not None and simple_name in declared_all_types[current_service_name]`
  unfoldable pub is_local : Option Str → Str → Result Bool
  is_local none simple_name = ok false
  is_local (some current) simple_name =
      declared_types spec current >>= λ names. ok (str_mem simple_name names)

  -- the type of another service; if it is not known, the name stays as it is
  unfoldable pub of_service : Option Str → Str → Str → Result Str
  of_service none simple_name type_name = ok (join (codes ".") (split b'.' type_name))
  of_service (some sub_package) simple_name type_name = declared_types spec sub_package >>= λ names.
      if str_mem simple_name names
      then ok (package_prefix ++ codes ".windrpc.service." ++ type_name)
      else ok (join (codes ".") (split b'.' type_name))

  unfoldable pub resolve_type_name : Str → Option Str → Result Str
  unfolding is_local of_service declared_types
  resolve_type_name type_name current =
      let parts = split b'.' type_name in
      let simple_name = last_part parts in
      if str_mem (lower type_name) scalar_types
      then ok (lower type_name)
      else (is_local current simple_name >>= λ here.
          if here
          then ok simple_name
          else (declared_types spec (codes "types") >>= λ names.
              if str_mem simple_name names
              then ok (package_prefix ++ codes ".windrpc.types." ++ simple_name)
              else of_service (qualifier parts) simple_name type_name))

-- `new_parts[-1] += …` on all parts but the last
unfoldable pub file_parts : List Str → List Str
file_parts [] = []
file_parts (p ∷ []) = []
file_parts (p ∷ q ∷ []) =
    (if str_eq p (codes "types") then p ++ codes "/types.proto" else p ++ codes ".proto") ∷ []
file_parts (p ∷ q ∷ r ∷ parts) = p ∷ file_parts (q ∷ r ∷ parts)

-- the line that imports a file
unfoldable pub import_path : List Str → Str
import_path parts = codes "import \"" ++ join (codes "/") parts ++ codes "\";"

-- one round of the loop: the imports, with that of the type if it has one that is not there
unfoldable pub add_import : List Str → List Str → List Str
add_import imports [] = imports
add_import imports (p ∷ parts) =
    let path = import_path (p ∷ parts) in
    if str_mem path imports then imports else imports ++ path ∷ []

unfoldable pub import_loop : List Str → List Str → List Str
unfolding add_import
import_loop imports [] = imports
import_loop imports (t ∷ type_names) =
    import_loop
      (if str_mem t scalar_types then imports else add_import imports (file_parts (split b'.' t)))
      type_names

unfoldable pub generate_import_paths : List Str → List Str
unfolding import_loop add_import
generate_import_paths type_names = import_loop [] type_names
