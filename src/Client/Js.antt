-- ===== src/Client/Js.antt =====
-- windrpc/client/js.py: the classes of the JavaScript client, and the schema it loads.
mod Examples
pub mod Frames
pub mod Schema
pub mod Values
use mathlib.Core.List.{flatten}
use windrpc.Base.{
  ℕ, Bool, true, false, not, Option, none, some, List, [], ◌∷◌, ◌++◌, map, if◌then◌else◌,
}
use windrpc.Base.Text.{Str, codes, str_eq, str_mem, upper, lower, split}
use windrpc.Base.Result.{Result, ok, ◌>>=◌}
use windrpc.Converter.{capitalize, underscore}
use windrpc.Spec.{Rpc, Service, Spec}
use windrpc.Spec.Required.{required}
use windrpc.Proto.Resolve.{last_part}

-- the parts behind the first
camel_parts : List Str → Str
camel_parts [] = []
camel_parts (p ∷ ps) = lower p ++ flatten (map capitalize ps)

unfoldable pub to_camel : Str → Str
unfolding camel_parts
to_camel [] = []
to_camel (c ∷ s) = camel_parts (split underscore (c ∷ s))

-- `"".join(p.capitalize() for p in parts if p)`: the empty parts add nothing
unfoldable pub to_pascal : Str → Str
to_pascal s = flatten (map capitalize (split underscore s))

-- a method that builds a frame, and the one that sends it, which only a request with a response has
pub record Methods : Type 0 where
  pub build_name : Str
  pub send_name : Option Str
  pub encoder : Option Str
  pub constant : Str

-- `rpc.get('command') or rpc.get('request', '')`
command_reference : Option Str → Option Str → Str
command_reference (some (c ∷ t)) request = c ∷ t
command_reference (some []) none = []
command_reference (some []) (some t) = t
command_reference none none = []
command_reference none (some t) = t

-- `rpc.get('type', 'REQUEST_RESPONSE').upper()`
type_or_request : Option Str → Str
type_or_request none = codes "REQUEST_RESPONSE"
type_or_request (some t) = upper t

has_payload : Str → Bool
has_payload cmd_msg = not (str_mem (lower cmd_msg) (map codes ("empty" ∷ "" ∷ [])))

unfoldable pub rpc_methods : Str → Rpc → Result Methods
unfolding command_reference type_or_request has_payload
rpc_methods svc_name r = required r.name >>= λ rpc_name.
    (let cmd_msg = last_part (split b'.' (command_reference r.command r.request)) in
      ok (record {
        build_name = codes "build" ++ to_pascal rpc_name ++ codes "Frame";
        send_name =
            if str_eq (type_or_request r.rpc_type) (codes "REQUEST_RESPONSE")
            then some (codes "send" ++ to_pascal rpc_name)
            else none;
        encoder = if has_payload cmd_msg then some (codes "encode" ++ to_pascal cmd_msg) else none;
        constant = upper svc_name ++ codes "_" ++ upper rpc_name;
      }))
