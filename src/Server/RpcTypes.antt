-- ===== src/Server/RpcTypes.antt =====
-- `_get_rpc_types`: the C types, field tables and tag of an RPC.
use windrpc.Base.{
  Bool, true, false, ◌||◌, Option, none, some, List, [], ◌∷◌, ◌++◌, map, ◌==◌, any, if◌then◌else◌,
}
use windrpc.Base.Text.{Str, codes, str_eq, str_mem, split, upper}
use windrpc.Base.Result.{Result, ok, raise, value_error, ◌>>=◌}
use windrpc.Spec.{Rpc}
use windrpc.Spec.Required.{required}

pub record RpcTypes : Type 0 where
  pub rpc_type : Str
  pub cmd_type : Str
  pub res_type : Str
  pub is_submsg : Bool
  pub res_fields : Str
  pub res_tag : Str
  pub cmd_raw_pkg : Option Str
  pub cmd_raw_msg : Option Str
  pub res_raw_pkg : Option Str
  pub res_raw_msg : Option Str

-- `package_name.replace('/', '_').replace('-', '_').replace('.', '_')`
unfoldable pub package_prefix : Str → Str
package_prefix = map (λ c. if (c == b'/') || ((c == b'-') || (c == b'.')) then b'_' else c)

-- `rpc.get('type', '').upper()`
unfoldable pub type_of : Rpc → Str
type_of r = upper (given_or [] r.rpc_type)
  where
    given_or : Str → Option Str → Str
    given_or d none = d
    given_or d (some t) = t

-- `rpc.get(key, 'types.Empty')`
unfoldable pub or_empty : Option Str → Str
or_empty none = codes "types.Empty"
or_empty (some t) = t

unfoldable pub is_empty : Str → Bool
is_empty t = str_mem t (map codes ("types.Empty" ∷ "Empty" ∷ []))

-- the list in the source, which has seven of the fifteen scalars
unfoldable pub is_number_or_bool : Str → Bool
is_number_or_bool t =
    str_mem t
      (map codes ("uint32" ∷ "int32" ∷ "bool" ∷ "uint64" ∷ "int64" ∷ "float" ∷ "double" ∷ []))

unfoldable pub has_dot : Str → Bool
has_dot = any (λ c. c == b'.')

-- `pkg, msg = parts`
unfoldable pub pair_of : List Str → Result (Str × Str)
pair_of (pkg ∷ msg ∷ []) = ok (pkg, msg)
pair_of [] = raise value_error
pair_of (pkg ∷ []) = raise value_error
pair_of (pkg ∷ msg ∷ more ∷ parts) = raise value_error

-- `rpc_{pkg}_{msg}_t`
unfoldable pub message_c_type : Str → Str → Str
message_c_type pkg msg = codes "rpc_" ++ pkg ++ codes "_" ++ msg ++ codes "_t"

-- the fields about the command, or about the result
pub record Part : Type 0 where
  pub c_type : Str
  pub is_submsg : Bool
  pub fields : Str
  pub tag : Str
  pub raw_pkg : Option Str
  pub raw_msg : Option Str

null : Str
null = codes "NULL"

unfoldable pub command_part : Str → Str → Result Part
unfolding is_empty is_number_or_bool has_dot pair_of message_c_type null
command_part service_name cmd =
    if is_empty cmd
    then ok (part (codes "void") (some (codes "types")) (some (codes "Empty")))
    else if has_dot cmd
    then (pair_of (split b'.' cmd) >>= λ p.
        ok (part (message_c_type p.0 p.1) (some p.0) (some p.1)))
    else if is_number_or_bool cmd
    then ok (part (cmd ++ codes "_t") none none)
    else ok (part (message_c_type service_name cmd) (some service_name) (some cmd))
  where
    part : Str → Option Str → Option Str → Part
    part t pkg msg = record {
      c_type = t;
      is_submsg = true;
      fields = null;
      tag = [];
      raw_pkg = pkg;
      raw_msg = msg;
    }

-- `WINDRPC_SERVICE_RESPONSE_RESULT_TAG({service_name}, {name})`
unfoldable pub result_tag : Str → Str → Str
result_tag service_name name =
    codes "WINDRPC_SERVICE_RESPONSE_RESULT_TAG(" ++ service_name ++ codes ", " ++ name ++ codes ")"

service_fields : Str → Str → Str
service_fields pkg msg =
    codes "WINDRPC_SERVICE_MSG_FIELDS(" ++ pkg ++ codes ", " ++ msg ++ codes ")"

fields_of : Str → Str → Str
fields_of pkg msg =
    if str_eq pkg (codes "types")
    then codes "WINDRPC_TYPES_MSG_FIELDS(" ++ msg ++ codes ")"
    else service_fields pkg msg

-- `{prefix}_windrpc_types_{msg}_fields`
unfoldable pub types_fields : Str → Str → Str
types_fields prefix msg = prefix ++ codes "_windrpc_types_" ++ msg ++ codes "_fields"

void_part : Str → Bool → Part
void_part prefix true = record {
  c_type = codes "void";
  is_submsg = false;
  fields = types_fields prefix (codes "Empty");
  tag = codes "0";
  raw_pkg = some (codes "types");
  raw_msg = some (codes "Empty");
}
void_part prefix false = record {
  c_type = codes "void";
  is_submsg = false;
  fields = null;
  tag = codes "0";
  raw_pkg = none;
  raw_msg = none;
}

message_part : Str → Str → Str → Str → Str → Part
message_part service_name name fields pkg msg = record {
  c_type = message_c_type pkg msg;
  is_submsg = true;
  fields = fields;
  tag = result_tag service_name name;
  raw_pkg = some pkg;
  raw_msg = some msg;
}

unfoldable pub result_part : Str → Str → Str → Rpc → Result Part
unfolding is_empty is_number_or_bool has_dot pair_of null result_tag service_fields fields_of
    void_part message_part
result_part prefix service_name rpc_type r =
    let res = or_empty r.result in
    if str_eq rpc_type (codes "REQUEST_ONLY") || is_empty res
    then ok (void_part prefix (is_empty res))
    else if is_number_or_bool res
    then (required r.name >>= λ name. ok (record {
      c_type = res ++ codes "_t";
      is_submsg = false;
      fields = null;
      tag = result_tag service_name name;
      raw_pkg = none;
      raw_msg = none;
    }))
    else if has_dot res
    then (pair_of (split b'.' res) >>= λ p.
        required r.name >>= λ name. ok (message_part service_name name (fields_of p.0 p.1) p.0 p.1))
    else (required r.name >>= λ name.
        ok (message_part service_name name (service_fields service_name res) service_name res))

-- `if rpc_type == 'NOTIFICATION'`: the command is a subscription, whose result is its status
notification_types : Str → Str → Str → Str → RpcTypes
notification_types prefix service_name rpc_type name = record {
  rpc_type = rpc_type;
  cmd_type = codes "rpc_types_Subscribe_t";
  res_type = codes "rpc_types_Status_t";
  is_submsg = true;
  res_fields = types_fields prefix (codes "Status");
  res_tag = result_tag service_name (codes "subscribe_" ++ name);
  cmd_raw_pkg = some (codes "types");
  cmd_raw_msg = some (codes "Subscribe");
  res_raw_pkg = some (codes "types");
  res_raw_msg = some (codes "Status");
}

types_from : Str → Part → Part → RpcTypes
types_from rpc_type cmd res = record {
  rpc_type = rpc_type;
  cmd_type = cmd.c_type;
  res_type = res.c_type;
  is_submsg = res.is_submsg;
  res_fields = res.fields;
  res_tag = res.tag;
  cmd_raw_pkg = cmd.raw_pkg;
  cmd_raw_msg = cmd.raw_msg;
  res_raw_pkg = res.raw_pkg;
  res_raw_msg = res.raw_msg;
}

unfoldable pub get_rpc_types : Rpc → Str → Str → Result RpcTypes
unfolding notification_types types_from
get_rpc_types r service_name package_name =
    let prefix = package_prefix package_name in
    command_part service_name (or_empty r.command) >>= λ cmd.
    result_part prefix service_name (type_of r) r >>= λ res.
    if str_eq (type_of r) (codes "NOTIFICATION")
    then (required r.name >>= λ name. ok (notification_types prefix service_name (type_of r) name))
    else ok (types_from (type_of r) cmd res)

-- a C type is `void`
unfoldable pub is_void : Str → Bool
is_void t = str_eq t (codes "void")
