-- ===== src/Server/Notify/Delivered.antt =====
-- An event that the server sends and the Python client receives.
use windrpc.Base.{
  ℕ, ◌-◌, ◌/◌, ◌%◌, ◌≤◌, ◌<◌, ◌≡◌, sym, ap, Bool, false, Option, none, some, List, [], ◌∷◌, ◌++◌,
  map, arith, ltb, if◌then◌else◌, length, All, All-append, Bool-cases, inl, inr,
}
use windrpc.Base.Text.{Str}
use windrpc.Base.Result.{ok, ok_value, bind-ok}
use windrpc.Spec.{pos, negsuc, Scalar, int, text, Rpc, Service, Spec, event_id}
use windrpc.Spec.Ids.{event_id_lem}
use windrpc.Spec.Required.{required, required_id, id_or_zero}
use windrpc.Validator.Whole.{validate}
use windrpc.Validator.Whole.RequestIds.{IsByte, All-right}
use windrpc.Validator.Unique.Distinct.{numbers}
use windrpc.Validator.Whole.Sound.{Numbered, numbers-cons, validate-services}
use windrpc.Client.Cobs.{Bytes}
use windrpc.Client.Frame.{pack_frame}
use windrpc.Client.Session.{WindRpcClient}
use windrpc.Client.Session.Receive.{Callback, receive_raw_datagram}
use windrpc.Client.Session.Answers.{given, datagram_event}
use windrpc.Server.Enums.{is_notification}
use windrpc.Server.Dispatch.Lookup.{All-left}
use windrpc.Server.Dispatch.Members.{With}
use windrpc.Server.Runtime.{Platform}
use windrpc.Server.Runtime.Answers.{StreamsFit}
use windrpc.Server.Notify.{
  NotifyHelper, event_parts, notify_helper, rpc_helpers, service_helpers, generate_notify_skeleton,
  notify_prefix, windrpc_notify,
}

-- bit 7 is set in the identifier, which fits 16 bits
abbrev IsEvent : NotifyHelper → Type 0
IsEvent h = (h.event_combined_id < 65536) × (h.event_combined_id / 128 % 2 ≡ 1)

abbrev AreBytes : List (Option Scalar) → Type 0
AreBytes ids = All IsByte (numbers ids)

nat_or : ℕ → ℕ → ℕ
nat_or d n = n

required_id-le : (id : Option Scalar) (n : ℕ) → AreBytes (id ∷ []) → required_id id ≡ ok n → n ≤ 255
unfolding required_id numbers ok_value
required_id-le none n b h = absurd (cc h)
required_id-le (some (text t)) n b h = absurd (cc h)
required_id-le (some (int (negsuc z))) n b h = absurd (cc h)
required_id-le (some (int (pos z))) n b h = omega (arith, b.0, ap (ok_value n) h)

id_or_zero-le : (id : Option Scalar) (n : ℕ) → AreBytes (id ∷ []) → id_or_zero id ≡ ok n → n ≤ 255
unfolding id_or_zero ok_value
id_or_zero-le none n b h = omega (arith, ap (ok_value n) h)
id_or_zero-le (some id) n b h = required_id-le (some id) n b h

event_id-IsEvent :
    (s r : ℕ) → s ≤ 255 → r ≤ 255 → (event_id s r < 65536) × (event_id s r / 128 % 2 ≡ 1)
event_id-IsEvent s r hs hr = ground (arith, event_id_lem s r)

notify_helper-IsEvent :
    (prefix svc_name : Str) (id : Option Scalar) (r : Rpc) (hs : List NotifyHelper)
    → AreBytes (id ∷ [])
    → AreBytes (r.id ∷ [])
    → notify_helper prefix svc_name id r ≡ ok hs
    → All IsEvent hs
unfolding notify_helper ok_value
notify_helper-IsEvent prefix svc_name id r hs bs br h =
    let (name, hn, h1) = bind-ok (required r.name) _ h in
    elim (Bool-cases (is_notification r)) [
      | inr other ↦ rw (sym (ap (ok_value hs) (rw other at h1))) tt
      | inl event ↦
          let h2 = rw event at h1 in
          let (rpc_id, hr, h3) = bind-ok (required_id r.id) _ h2 in
          let (svc_id, hi, h4) = bind-ok (id_or_zero id) _ h3 in
          let (parts, hp, h5) = bind-ok (event_parts svc_name r) _ h4 in
          rw (sym (ap (ok_value hs) h5)) (
            event_id-IsEvent svc_id rpc_id (id_or_zero-le id svc_id bs hi)
                (required_id-le r.id rpc_id br hr),
            tt,
          )
    ]

rpc_helpers-IsEvent :
    (prefix svc_name : Str) (id : Option Scalar) (rs : List Rpc) (hs : List NotifyHelper)
    → AreBytes (id ∷ [])
    → AreBytes (map (λ (r : Rpc). r.id) rs)
    → rpc_helpers prefix svc_name id rs ≡ ok hs
    → All IsEvent hs
unfolding rpc_helpers ok_value
rpc_helpers-IsEvent prefix svc_name id [] hs bs br h = rw (sym (ap (ok_value hs) h)) tt
rpc_helpers-IsEvent prefix svc_name id (r ∷ rs) hs bs br h =
    let (first, hf, h1) = bind-ok (notify_helper prefix svc_name id r) _ h in
    let (more, hm, h2) = bind-ok (rpc_helpers prefix svc_name id rs) _ h1 in
    let later : List (Option Scalar) = map (λ (q : Rpc). q.id) rs in
    let both : All IsByte (numbers (r.id ∷ []) ++ numbers later) =
      rw (sym (numbers-cons r.id later)) br in
    rw (sym (ap (ok_value hs) h2)) (
      All-append IsEvent first more
        (notify_helper-IsEvent prefix svc_name id r first bs
          (All-left IsByte (numbers (r.id ∷ [])) (numbers later) both) hf)
        (rpc_helpers-IsEvent prefix svc_name id rs more bs
          (All-right IsByte (numbers (r.id ∷ [])) (numbers later) both) hm))

service_helpers-IsEvent :
    (prefix : Str) (ss : List Service) (hs : List NotifyHelper)
    → All Numbered ss
    → service_helpers prefix ss ≡ ok hs
    → All IsEvent hs
unfolding service_helpers ok_value
service_helpers-IsEvent prefix [] hs n h = rw (sym (ap (ok_value hs) h)) tt
service_helpers-IsEvent prefix (s ∷ ss) hs n h =
    let (name, hn, h1) = bind-ok (required s.name) _ h in
    let (first, hf, h2) = bind-ok (rpc_helpers prefix name s.id s.rpcs) _ h1 in
    let (more, hm, h3) = bind-ok (service_helpers prefix ss) _ h2 in
    rw (sym (ap (ok_value hs) h3)) (
      All-append IsEvent first more
        (rpc_helpers-IsEvent prefix name s.id s.rpcs first n.0.0 n.0.1 hf)
        (service_helpers-IsEvent prefix ss more n.1 hm))

-- what a helper leaves in the buffer when it has encoded its event
notified-frame :
    {Msg : Type 0} (p : Platform Msg) (h : NotifyHelper) (m : Msg) (tx_size : ℕ) (payload : Bytes)
    → StreamsFit p
    → IsEvent h
    → 6 ≤ tx_size
    → tx_size < 65536
    → p.pb_encode h.fields_macro m (tx_size - 6) ≡ some payload
    → (pack_frame h.event_combined_id 0 payload
        ≡ ok (windrpc_notify p h (some m) (some tx_size)).tx_data)
      × ((windrpc_notify p h (some m) (some tx_size)).bytes_written
          ≡ some (length (windrpc_notify p h (some m) (some tx_size)).tx_data))
unfolding windrpc_notify pack_frame
notified-frame p h m tx_size payload fit event large small encoded =
    let room : ltb tx_size 6 ≡ false = ground arith in
    let id : h.event_combined_id % 65536 ≡ h.event_combined_id = omega arith in
    let short : length payload ≤ tx_size - 6 =
      fit.encoded h.fields_macro m (tx_size - 6) payload encoded in
    rw (room, encoded, id) (ground arith, ground arith)

-- An event of a notification in a specification without errors, once nanopb has encoded it, is a frame
-- that the Python client takes for a notification: it leaves the client as it is and goes to
-- `on_notification`, if there is one, with the event's identifier, the number 0 and the event.
pub windrpc_notify-receive_raw_datagram :
    {Msg : Type 0} (strict : Bool) (package_name : Str) (spec : Spec) (hs : List NotifyHelper)
    (h : NotifyHelper) (p : Platform Msg) (m : Msg) (tx_size : ℕ) (payload : Bytes) (cb : Callback)
    (c : WindRpcClient)
    → (validate strict spec).errors ≡ []
    → generate_notify_skeleton package_name spec ≡ ok hs
    → With h hs
    → StreamsFit p
    → 6 ≤ tx_size
    → tx_size < 65536
    → p.pb_encode h.fields_macro m (tx_size - 6) ≡ some payload
    → ((receive_raw_datagram cb (windrpc_notify p h (some m) (some tx_size)).tx_data c).client ≡ c)
      × ((receive_raw_datagram cb (windrpc_notify p h (some m) (some tx_size)).tx_data c).notified
          ≡ (if given cb
              then record { rpc_id = h.event_combined_id; seq_id = 0; payload = payload } ∷ []
              else []))
      × ((windrpc_notify p h (some m) (some tx_size)).bytes_written
          ≡ some (length (windrpc_notify p h (some m) (some tx_size)).tx_data))
unfolding generate_notify_skeleton
windrpc_notify-receive_raw_datagram strict package_name spec hs h p m tx_size payload cb c valid hg
      (before, after, there) fit large small encoded =
    let all : All IsEvent hs =
      service_helpers-IsEvent (notify_prefix package_name) spec.services hs
        (validate-services strict spec valid).1 hg in
    let event : IsEvent h = (All-right IsEvent before (h ∷ after) (rw there at all)).0 in
    let (packed, size) = notified-frame p h m tx_size payload fit event large small encoded in
    let (same, told) =
      datagram_event cb h.event_combined_id 0 payload
        (windrpc_notify p h (some m) (some tx_size)).tx_data packed c event.1 in
    (same, told, size)
