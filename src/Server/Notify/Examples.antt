-- ===== src/Server/Notify/Examples.antt =====
-- The alarm of a fan.
use windrpc.Base.{◌≡◌, refl, true, some, [], ◌∷◌, arith, length}
use windrpc.Base.Text.{codes, str_eq, upper, split, extend}
use windrpc.Base.Result.{ok}
use windrpc.Spec.{event_id}
use windrpc.Spec.Required.{required, required_id, id_or_zero}
use windrpc.Validator.Examples.{fan_spec, fan_accepted}
use windrpc.Client.Cobs.{Bytes}
use windrpc.Client.Session.{init}
use windrpc.Client.Session.Receive.{receive_raw_datagram}
use windrpc.Server.RpcTypes.{type_of, has_dot, pair_of, types_fields, message_c_type}
use windrpc.Server.Enums.{is_notification}
use windrpc.Server.Runtime.Examples.{echo, echo-StreamsFit}
use windrpc.Server.Notify.{NotifyHelper, generate_notify_skeleton, windrpc_notify, event_type}
use windrpc.Server.Notify.Delivered.{windrpc_notify-receive_raw_datagram}

abbrev alarm : NotifyHelper
alarm = record {
  rpc_name = codes "alarm";
  c_type = codes "rpc_types_Empty_t";
  fields_macro = codes "demo_windrpc_types_Empty_fields";
  event_combined_id = 1922;
}

alarm_generated : generate_notify_skeleton (codes "demo") fan_spec ≡ ok (alarm ∷ [])
unfolding generate_notify_skeleton required required_id id_or_zero is_notification type_of upper
    str_eq event_type has_dot pair_of split extend types_fields message_c_type event_id
alarm_generated = refl

abbrev overheated : Bytes
overheated = 8 ∷ 3 ∷ []

windrpc_notify-receive_raw_datagram_example :
    ((receive_raw_datagram
        (some (λ frame. true))
        (windrpc_notify echo alarm (some overheated) (some 64)).tx_data
        init).client
      ≡ init)
    × ((receive_raw_datagram
          (some (λ frame. true))
          (windrpc_notify echo alarm (some overheated) (some 64)).tx_data
          init).notified
        ≡ record { rpc_id = 1922; seq_id = 0; payload = overheated } ∷ [])
    × ((windrpc_notify echo alarm (some overheated) (some 64)).bytes_written
        ≡ some (length (windrpc_notify echo alarm (some overheated) (some 64)).tx_data))
windrpc_notify-receive_raw_datagram_example =
    windrpc_notify-receive_raw_datagram true (codes "demo") fan_spec (alarm ∷ []) alarm echo
      overheated 64 overheated (some (λ frame. true)) init fan_accepted alarm_generated
      ([], [], refl) echo-StreamsFit (omega arith) (omega arith) refl
