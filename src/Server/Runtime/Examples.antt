-- ===== src/Server/Runtime/Examples.antt =====
-- A request to a fan, and one to an RPC that it does not have. The messages are bytes, and the application
-- answers with what it gets.
use windrpc.Base.{
  ℕ, ◌≤◌, ◌≡◌, ◌≢◌, refl, false, Option, none, some, [], ◌∷◌, ◌++◌, leb, arith, if◌then◌else◌,
  length, take, length-take-le,
}
use windrpc.Base.Text.{codes, str_eq, str_mem, upper}
use windrpc.Base.Result.{ok, ok_value, raise, runtime_error}
use windrpc.Spec.{pos, combined_id}
use windrpc.Spec.Required.{required, required_id}
use windrpc.Validator.Examples.{fan_spec}
use windrpc.Validator.Unique.{int_eq}
use windrpc.Client.Cobs.{Bytes}
use windrpc.Client.Frame.{pack_frame}
use windrpc.Client.Session.{init}
use windrpc.Client.Session.Request.{send_request}
use windrpc.Server.RpcTypes.{
  is_void, get_rpc_types, command_part, or_empty, result_part, type_of, types_fields,
  package_prefix,
}
use windrpc.Server.Dispatch.{HandlerEntry, find_flat_handler, has_response_type}
use windrpc.Server.Structs.{flat_tables, struct_name}
use windrpc.Server.Runtime.{
  Platform, Tables, decode_request, encode_response, flat_struct, is_given,
}
use windrpc.Server.Runtime.Answers.{StreamsFit, Succeeds, unknown_rpc}
use windrpc.Server.Runtime.RoundTrip.{
  raw_buffer, caller_gets, send_request-windrpc_process_packet, send_request-Fails,
}

abbrev or_none : Option Bytes → Bytes
or_none none = []
or_none (some m) = m

abbrev pub echo : Platform Bytes
echo = record {
  pb_decode = λ fields input. some input;
  pb_encode = λ fields m room. if leb (length m) room then some m else none;
  pb_encode_tag = λ room stream wire_type number. take room (stream ++ number ∷ []);
  pb_encode_svarint = λ room stream value. take room (stream ++ 0 ∷ []);
  pb_encode_string = λ room stream text. take room (stream ++ text);
  message_size = 64;
  zeroed = λ name. [];
  execute = λ name request res_given ctx. record {
    returned = pos 0;
    context = ctx;
    response = or_none request;
  };
}

pub echo-StreamsFit : StreamsFit echo
echo-StreamsFit = record {
  encoded = λ fields m room payload h. fits m room payload h;
  tag = λ room stream wire_type number h. length-take-le room (stream ++ number ∷ []);
  svarint = λ room stream value h. length-take-le room (stream ++ 0 ∷ []);
  string = λ room stream text h. length-take-le room (stream ++ text);
}
  where
    fits :
        (m : Bytes) (room : ℕ) (payload : Bytes)
        → ◌≡◌ {A = Option Bytes} (if leb (length m) room then some m else none) (some payload)
        → length payload ≤ room
    fits m room payload h = ground arith

abbrev fan_tables : Tables
fan_tables =
    ok_value (record { dispatch_table = []; req_structs = []; res_structs = [] })
      (flat_tables (codes "demo") fan_spec)

enable : Bytes
enable = 8 ∷ 1 ∷ []

subscribe_sent : (send_request (λ _. false) false 0 1794 enable init).returned ≡ ok (1, 0)
unfolding send_request pack_frame enable
subscribe_sent = refl

abbrev row_or : Option HandlerEntry → HandlerEntry
row_or (some e) = e
row_or none = record {
  rpc_id = 0;
  execute = [];
  has_response = false;
  req_fields = [];
  res_fields = [];
}

subscribe-Succeeds : Succeeds echo (raw_buffer 256) fan_tables 1794 enable enable
unfolding flat_tables ok_value required required_id get_rpc_types command_part or_empty result_part
    type_of upper str_eq str_mem find_flat_handler flat_struct decode_request encode_response int_eq
    has_response_type is_void struct_name is_given enable combined_id types_fields package_prefix
subscribe-Succeeds = record {
  handler = row_or (find_flat_handler 1794 fan_tables.dispatch_table);
  request = some enable;
  found = refl;
  decodes = refl;
  returned = refl;
  has_response = refl;
  encodes = refl;
}

low_subscribe : ◌≢◌ {A = ℕ} 1794 0
low_subscribe e = absurd (omega arith)

send_request-windrpc_process_packet_example :
    (packet : Bytes) × ((send_request (λ _. false) false 0 1794 enable init).sent ≡ packet ∷ [])
    × (caller_gets echo echo-StreamsFit 256
          (omega arith)
          (omega arith)
          fan_tables
          256
          (omega arith)
          []
          (λ _. false)
          0
          1794
          enable
          init
          none
          1
          0
          subscribe_sent
          packet
        ≡ some (ok (record { rpc_id = 1794; seq_id = 1; payload = enable })))
send_request-windrpc_process_packet_example =
    send_request-windrpc_process_packet echo echo-StreamsFit 256 (omega arith) (omega arith)
      fan_tables 256 (omega arith) [] (λ _. false) 0 1794 enable init none 1 0 subscribe_sent enable
      subscribe-Succeeds low_subscribe refl (unfold enable in omega arith)

unknown_sent : (send_request (λ _. false) false 0 1805 enable init).returned ≡ ok (1, 0)
unfolding send_request pack_frame enable
unknown_sent = refl

no_row : find_flat_handler 1805 fan_tables.dispatch_table ≡ none
unfolding flat_tables ok_value required required_id get_rpc_types command_part or_empty result_part
    type_of upper str_eq str_mem find_flat_handler has_response_type is_void struct_name combined_id
    types_fields package_prefix
no_row = refl

send_request-Fails_example :
    (packet : Bytes) × ((send_request (λ _. false) false 0 1805 enable init).sent ≡ packet ∷ [])
    × (caller_gets echo echo-StreamsFit 256
          (omega arith)
          (omega arith)
          fan_tables
          256
          (omega arith)
          []
          (λ _. false)
          0
          1805
          enable
          init
          none
          1
          0
          unknown_sent
          packet
        ≡ some (raise runtime_error))
send_request-Fails_example =
    send_request-Fails echo echo-StreamsFit 256 (omega arith) (omega arith) fan_tables 256
      (omega arith) [] (λ _. false) 0 1805 enable init none 1 0 unknown_sent (unknown_rpc no_row)
      (unfold enable in omega arith)
