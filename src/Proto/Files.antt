-- ===== src/Proto/Files.antt =====
-- `generate_types_proto` and `generate_service_proto`: the .proto files of the common types and of a
-- service, as data. Comments and `reserved` are not modelled.
mod Examples
pub mod SelfImport
pub mod Typed
use windrpc.Base.{
  ℕ, Bool, true, false, ◌||◌, Option, none, some, List, [], ◌∷◌, ◌++◌, map, if◌then◌else◌,
}
use windrpc.Base.Text.{Str, codes, str_eq, str_mem, lower}
use windrpc.Base.Result.{Result, ok, ◌>>=◌}
use windrpc.Base.Pieces.{strip}
use windrpc.Spec.{Scalar, Field, Oneof, Message, Rpc, Service, Spec, combined_id, event_id}
use windrpc.Spec.Required.{required, required_id, id_or_zero}
use windrpc.Converter.{to_pascal_case}
use windrpc.Validator.Rpcs.{
  RpcKind, request_only, request_response, notification, kind_of, upper_type,
}
use windrpc.Validator.Types.{oneof_fields}
use windrpc.Proto.Enums.{ProtoEnum, generate_enums_from_spec}
use windrpc.Proto.Resolve.{scalar_types, resolve_type_name, generate_import_paths}

-- `{label} {type} {name} = {number};`
pub record ProtoField : Type 0 where
  pub label : Str
  pub type_name : Str
  pub name : Str
  pub number : ℕ

pub record ProtoOneof : Type 0 where
  pub name : Str
  pub fields : List ProtoField

pub record ProtoMessage : Type 0 where
  pub name : Str
  pub oneofs : List ProtoOneof
  pub fields : List ProtoField

pub record ProtoFile : Type 0 where
  pub package_name : Str
  pub imports : List Str
  pub enums : List ProtoEnum
  pub messages : List ProtoMessage

-- `prop if prop in ["repeated", "optional"] else ""`
label_of : Option Str → Str
label_of none = []
label_of (some p) =
    if str_mem (strip p) (codes "repeated" ∷ codes "optional" ∷ []) then strip p else []

-- `format_field` of a field whose type has been resolved
unfoldable pub format_field : Field → Str → Result ProtoField
unfolding label_of
format_field f type_name = required f.name >>= λ name. required f.number >>= λ number.
    ok (record { label = label_of f.property; type_name = type_name; name = name; number = number })

module _ (spec_data : Spec) (package_prefix : Str) (current : Option Str) where
  unfoldable pub proto_field : Field → Result ProtoField
  unfolding format_field
  proto_field f = required f.type_name >>= λ type_name.
      resolve_type_name spec_data package_prefix type_name current >>= λ resolved.
      format_field f resolved

  unfoldable pub proto_fields : List Field → Result (List ProtoField)
  unfolding proto_field
  proto_fields [] = ok []
  proto_fields (f ∷ fs) = proto_field f >>= λ first. proto_fields fs >>= λ more. ok (first ∷ more)

  unfoldable pub proto_oneofs : List Oneof → Result (List ProtoOneof)
  unfolding proto_fields
  proto_oneofs [] = ok []
  proto_oneofs (o ∷ os) = required o.name >>= λ name. proto_fields o.fields >>= λ fields.
      proto_oneofs os >>= λ more. ok (record { name = name; fields = fields } ∷ more)

  unfoldable pub proto_message : Message → Result ProtoMessage
  unfolding proto_oneofs
  proto_message m = required m.name >>= λ name. proto_oneofs m.oneofs >>= λ oneofs.
      proto_fields m.fields >>= λ fields.
      ok (record { name = to_pascal_case name; oneofs = oneofs; fields = fields })

  unfoldable pub proto_messages : List Message → Result (List ProtoMessage)
  unfolding proto_message
  proto_messages [] = ok []
  proto_messages (m ∷ ms) =
      proto_message m >>= λ first. proto_messages ms >>= λ more. ok (first ∷ more)

-- what the loops append to `resolved_type_names`
unfoldable pub field_types : List ProtoField → List Str
field_types fs = map (λ (f : ProtoField). f.type_name) fs

unfoldable pub oneof_types : List ProtoOneof → List Str
unfolding field_types
oneof_types [] = []
oneof_types (o ∷ os) = field_types o.fields ++ oneof_types os

unfoldable pub message_types : List ProtoMessage → List Str
unfolding oneof_types field_types
message_types [] = []
message_types (m ∷ ms) = (oneof_types m.oneofs ++ field_types m.fields) ++ message_types ms

unfoldable pub generate_types_proto : Spec → Str → Result ProtoFile
unfolding proto_messages message_types
generate_types_proto spec_data package_prefix =
    generate_enums_from_spec spec_data.enums >>= λ enums.
    proto_messages spec_data package_prefix none spec_data.messages >>= λ messages. ok (record {
      package_name = package_prefix ++ codes ".windrpc.types";
      imports = generate_import_paths (message_types messages);
      enums = enums;
      messages = messages;
    })

-- the identifiers that the comment of a service's file shows, with the names of their requests and
-- events
unfoldable pub documented : ℕ → Str → ℕ → Str → List (Str × ℕ)
documented svc_id rpc_name rpc_id kind =
    if str_eq kind (codes "REQUEST_ONLY") || str_eq kind (codes "REQUEST_RESPONSE")
    then (rpc_name, combined_id svc_id rpc_id) ∷ []
    else if str_eq kind (codes "NOTIFICATION")
    then (codes "subscribe_" ++ rpc_name, combined_id svc_id rpc_id)
      ∷ (rpc_name, event_id svc_id rpc_id)
      ∷ []
    else []

unfoldable pub doc_lines : Option Scalar → List Rpc → Result (List (Str × ℕ))
unfolding documented
doc_lines svc_id [] = ok []
doc_lines svc_id (r ∷ rpcs) = required r.name >>= λ rpc_name. required_id r.id >>= λ rpc_id.
    id_or_zero svc_id >>= λ id. doc_lines svc_id rpcs >>= λ more.
    ok (documented id rpc_name rpc_id (upper_type r.rpc_type) ++ more)

-- `all_type_names`
unfoldable pub field_type_names : List Field → List (Option Str)
field_type_names fs = map (λ (f : Field). f.type_name) fs

unfoldable pub message_type_names : List Message → List (Option Str)
unfolding field_type_names
message_type_names [] = []
message_type_names (m ∷ ms) =
    (field_type_names m.fields ++ field_type_names (oneof_fields m.oneofs)) ++ message_type_names ms

unfoldable pub rpc_type_names : List Rpc → List (Option Str)
rpc_type_names [] = []
rpc_type_names (r ∷ rpcs) = r.command ∷ r.result ∷ r.event ∷ rpc_type_names rpcs

module _ (spec_data : Spec) (package_prefix service_name : Str) where
  abbrev resolved_name : Str → Result Str
  resolved_name type_name = resolve_type_name spec_data package_prefix type_name (some service_name)

  -- the loop over `filter(None, all_type_names)`
  unfoldable pub mentioned_types : List (Option Str) → Result (List Str)
  mentioned_types [] = ok []
  mentioned_types (none ∷ names) = mentioned_types names
  mentioned_types (some [] ∷ names) = mentioned_types names
  mentioned_types (some (c ∷ t) ∷ names) = elim (str_mem (lower (c ∷ t)) scalar_types) [
    | true ↦ mentioned_types names
    | false ↦ resolved_name (c ∷ t) >>= λ first. mentioned_types names >>= λ more. ok (first ∷ more)
  ]

  -- the types that an RPC's entries would have. The entries themselves, `command_rpcs`, `result_rpcs`
  -- and `event_rpcs`, are not written anywhere.
  unfoldable pub rpc_types : RpcKind → Rpc → Result (List Str)
  rpc_types request_only r =
      required r.command >>= λ command. resolved_name command >>= λ c. ok (c ∷ [])
  rpc_types request_response r = required r.command >>= λ command. resolved_name command >>= λ c.
      required r.result >>= λ result. resolved_name result >>= λ d. ok (c ∷ d ∷ [])
  rpc_types notification r =
      resolved_name (package_prefix ++ codes ".windrpc.types.Subscribe") >>= λ c.
      resolved_name (package_prefix ++ codes ".windrpc.types.Empty") >>= λ d.
      required r.event >>= λ event. resolved_name event >>= λ e. ok (c ∷ d ∷ e ∷ [])

  kind_types : Option RpcKind → Rpc → Result (List Str)
  unfolding rpc_types
  kind_types none r = ok []
  kind_types (some kind) r = rpc_types kind r

  unfoldable pub rpcs_types : List Rpc → Result (List Str)
  unfolding kind_types
  rpcs_types [] = ok []
  rpcs_types (r ∷ rpcs) = required r.id >>= λ rpc_id. required r.name >>= λ rpc_name.
      kind_types (kind_of (upper_type r.rpc_type)) r >>= λ first.
      rpcs_types rpcs >>= λ more. ok (first ++ more)

-- a service's file, and the identifiers in its comment
unfoldable pub generate_service_proto : Service → Spec → Str → Result (ProtoFile × List (Str × ℕ))
unfolding doc_lines mentioned_types message_type_names rpc_type_names proto_messages rpcs_types
    message_types
generate_service_proto service_spec spec_data package_prefix =
    required service_spec.name >>= λ service_name.
    doc_lines service_spec.id service_spec.rpcs >>= λ docs.
    mentioned_types spec_data package_prefix service_name
      (message_type_names service_spec.messages ++ rpc_type_names service_spec.rpcs)
    >>= λ mentioned. generate_enums_from_spec service_spec.enums >>= λ enums.
        proto_messages spec_data package_prefix (some service_name) service_spec.messages
        >>= λ messages.
            rpcs_types spec_data package_prefix service_name service_spec.rpcs >>= λ types. ok (
              record {
                package_name = package_prefix ++ codes ".windrpc.service." ++ service_name;
                imports = generate_import_paths (mentioned ++ message_types messages ++ types);
                enums = enums;
                messages = messages;
              },
              docs,
            )
