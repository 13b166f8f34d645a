-- ===== src/Validator/Whole.antt =====
-- `validate`: the whole check of a merged specification.
pub mod Sound
pub mod RequestIds
pub mod References
use windrpc.Base.{
  ℕ, Bool, true, false, not, ◌&&◌, ◌||◌, Option, none, some, List, [], ◌∷◌, ◌++◌, map,
  if◌then◌else◌,
}
use windrpc.Base.Text.{Str, codes, str_eq, str_mem}
use windrpc.Converter.{to_pascal_case}
use windrpc.Spec.{Message, EnumDef, Rpc, Service, Spec}
use windrpc.Validator.Fault.{
  Faults, fault_if, for_each, service, message, enum, service_named_types, conflicts_with_service,
  no_service,
}
use windrpc.Validator.Names.{validate_name}
use windrpc.Validator.Unique.{check_names, check_ids, check_normalized_names}
use windrpc.Validator.Types.{given_names, validate_fields}
use windrpc.Validator.Enums.{name_or_na, enum_errors, enum_warnings}
use windrpc.Validator.Rpcs.{service_id_faults, validate_rpc}

-- `errors` and `warnings`
pub record Report : Type 0 where
  pub errors : Faults
  pub warnings : Faults

-- `validate(package_name, 'service', …)`, if there is a package name that counts as true
unfoldable pub package_faults : Option Str → Faults
package_faults none = []
package_faults (some []) = []
package_faults (some (c ∷ p)) = validate_name (some (c ∷ p)) service

unfoldable pub service_names : Spec → List (Option Str)
service_names spec = map (λ (s : Service). s.name) spec.services

-- `{to_pascal_case(svc.get('name')) for svc in services if svc.get('name')}`
unfoldable pub normalized_names : List Str → List Str
normalized_names [] = []
normalized_names ([] ∷ names) = normalized_names names
normalized_names ((c ∷ n) ∷ names) = to_pascal_case (c ∷ n) ∷ normalized_names names

unfoldable pub normalized_service_names : Spec → List Str
unfolding normalized_names service_names given_names
normalized_service_names spec = normalized_names (given_names (service_names spec))

-- the definitions whose name is that of a service
conflicts : List Str → List Str → Faults
conflicts services [] = []
conflicts services (name ∷ names) =
    fault_if (str_mem (to_pascal_case name) services) (conflicts_with_service name)
    ++ conflicts services names

definition_names : List Message → List EnumDef → List Str
definition_names ms es =
    given_names (map (λ (m : Message). m.name) ms ++ map (λ (e : EnumDef). e.name) es)

-- `types.messages` and `types.enums`, or those of a service
unfoldable pub definition_faults : Bool → Spec → Option Str → List Message → List EnumDef → Faults
definition_faults strict spec current ms es =
    check_names (map (λ (m : Message). m.name) ms)
    ++ (check_normalized_names (map (λ (m : Message). m.name) ms)
        ++ (check_names (map (λ (e : EnumDef). e.name) es)
            ++ (check_normalized_names (map (λ (e : EnumDef). e.name) es)
                ++ (for_each
                      (λ (m : Message).
                        validate_name m.name message ++ validate_fields spec current m)
                      ms
                    ++ (for_each (λ (e : EnumDef). validate_name e.name enum) es
                        ++ for_each (enum_errors strict) es)))))

-- one round of `for svc in services`
unfoldable pub validate_service : Bool → Spec → Service → Faults
unfolding definition_faults
validate_service strict spec s =
    let name = name_or_na s.name in
    validate_name (some name) service
    ++ (service_id_faults name s.id
        ++ (definition_faults strict spec (some name) s.messages s.enums
            ++ (check_ids (map (λ (r : Rpc). r.id) s.rpcs)
                ++ (check_names (map (λ (r : Rpc). r.name) s.rpcs)
                    ++ for_each (validate_rpc spec name) s.rpcs))))

unfoldable pub none_given : List Service → Bool
none_given [] = true
none_given (s ∷ services) = false

-- `if 'Types' in normalized_service_names`, and the names that are taken by services
unfoldable pub name_faults : Spec → Faults
unfolding conflicts definition_names
name_faults spec =
    check_normalized_names (service_names spec)
    ++ (fault_if (str_mem (codes "Types") (normalized_service_names spec)) service_named_types
        ++ (conflicts (normalized_service_names spec) (definition_names spec.messages spec.enums)
            ++ for_each
                (λ (s : Service).
                  conflicts (normalized_service_names spec) (definition_names s.messages s.enums))
                spec.services))

unfoldable pub validate : Bool → Spec → Report
unfolding package_faults name_faults none_given service_names
validate strict spec = record {
  errors =
      package_faults spec.package_name
      ++ (name_faults spec
          ++ (definition_faults strict spec none spec.messages spec.enums
              ++ (fault_if (none_given spec.services) no_service
                  ++ (check_ids (map (λ (s : Service). s.id) spec.services)
                      ++ (check_names (service_names spec)
                          ++ for_each (validate_service strict spec) spec.services)))));
  warnings =
      for_each (enum_warnings strict) spec.enums
      ++ for_each (λ (s : Service). for_each (enum_warnings strict) s.enums) spec.services;
}
