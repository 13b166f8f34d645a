-- ===== src/Client/Tables/Agree.antt =====
-- The JavaScript client, the C# client and the .proto file have the same identifiers.
use mathlib.Core.Bool.{◌&&◌}
use windrpc.Base.{
  map-append, ℕ, ◌≡◌, refl, ap, ◌∙◌, sym, List, [], ◌∷◌, ◌++◌, map, append_assoc, leb, Bool-cases,
  inl, inr,
}
use windrpc.Base.Text.{Str, codes, str_eq, upper, upper_char, is_lower}
use windrpc.Base.Result.{Result, ok, ◌>>=◌, Returns, Returns-bind, Returns-self}
use windrpc.Spec.{Rpc, Service, Spec, combined_id, combine_ids, event_id}
use windrpc.Spec.Required.{required, required_id}
use windrpc.Validator.Rpcs.{upper_type}
use windrpc.Proto.RpcIds.{
  rpc_id_entries, rpcs_id_entries, services_id_entries, generate_windrpc_proto,
}
use windrpc.Client.Tables.{
  Entry, rpcs_lines, services_lines, js_rpc_lines, js_rpc_ids, csharp_rpc_lines, csharp_rpc_ids,
}

-- an entry with a prefix at its name
abbrev pub prefixed : Str → Entry → Entry
prefixed prefix e = (prefix ++ e.0, e.1)

-- the tables of the .proto file, of the JavaScript client and of the C# client
abbrev Agree : List Entry → Result (List Entry) → Result (List Entry) → Type 0
Agree entries js csharp =
    (t : List Entry) × (js ≡ ok t)
    × (csharp ≡ ok (map (prefixed (codes "RPC_")) t))
    × (entries ≡ map (prefixed (codes "RPC_ID_")) t)

Agree-nil : Agree [] (ok []) (ok [])
Agree-nil = ([], refl, refl, refl)

-- a loop's round and the rounds behind it
Agree-append :
    (es fs : List Entry) (js csharp js' csharp' : Result (List Entry))
    → Agree es js csharp
    → Agree fs js' csharp'
    → Agree
        (es ++ fs)
        (js >>= λ first. js' >>= λ more. ok (first ++ more))
        (csharp >>= λ first. csharp' >>= λ more. ok (first ++ more))
Agree-append es fs js csharp js' csharp' (t, e, f, g) (t', e', f', g') = (
  t ++ t',
  rw (e, e') refl,
  rw (f, f') (ap (λ l. ok l) (sym (map-append (prefixed (codes "RPC_")) t t'))),
  rw (g, g') (sym (map-append (prefixed (codes "RPC_ID_")) t t')),
)

combine_ids-combined_id : (s r : ℕ) → Returns (λ id. id ≡ combined_id s r) (combine_ids s r)
unfolding combine_ids
combine_ids-combined_id s r = elim (Bool-cases (leb 0 s && leb s 0xff && leb 0 r && leb r 0xff)) [
  | inl fits ↦ rw fits refl
  | inr beyond ↦ rw beyond tt
]

-- the name of a subscription, put together in two ways
subscribed :
    (svc_name rpc_name : Str) (id : ℕ) (rest : List Entry)
    → ◌≡◌ {A = List Entry}
        ((
          codes "RPC_ID_" ++ upper svc_name ++ codes "_" ++ upper (codes "subscribe_" ++ rpc_name),
          id,
        )
          ∷ rest)
        ((codes "RPC_ID_" ++ (upper svc_name ++ codes "_SUBSCRIBE_" ++ upper rpc_name), id) ∷ rest)
unfolding upper upper_char is_lower
subscribed svc_name rpc_name id rest =
    ap {B = List Entry} (λ t. (codes "RPC_ID_" ++ t, id) ∷ rest)
      (append_assoc (upper svc_name) (codes "_") (codes "SUBSCRIBE_" ++ upper rpc_name)
        ∙ sym (append_assoc (upper svc_name) (codes "_SUBSCRIBE_") (upper rpc_name)))

rpc_Agree :
    (svc_name : Str) (svc_id : ℕ) (r : Rpc)
    → Returns
        (λ entries.
          Agree entries (js_rpc_lines svc_name svc_id r) (csharp_rpc_lines svc_name svc_id r))
        (rpc_id_entries svc_name svc_id r)
unfolding rpc_id_entries js_rpc_lines csharp_rpc_lines
rpc_Agree svc_name svc_id r =
    Returns-bind (λ n. required r.name ≡ ok n) Goal (required r.name) _
      (Returns-self (required r.name))
      (λ rpc_name hn.
        Returns-bind (λ i. required_id r.id ≡ ok i) Goal (required_id r.id) _
          (Returns-self (required_id r.id))
          (λ rpc_id hi.
            Returns-bind (λ id. id ≡ combined_id svc_id rpc_id) Goal (combine_ids svc_id rpc_id) _
              (combine_ids-combined_id svc_id rpc_id)
              (λ id hc. elim (Bool-cases (str_eq (upper_type r.rpc_type) (codes "NOTIFICATION"))) [
                | inl event ↦ (
                  (
                    upper svc_name ++ codes "_SUBSCRIBE_" ++ upper rpc_name,
                    combined_id svc_id rpc_id,
                  )
                      ∷ (upper svc_name ++ codes "_" ++ upper rpc_name, event_id svc_id rpc_id)
                      ∷ [],
                  rw (hn, hi, event) refl,
                  rw (hn, hi, event) refl,
                  rw (event, hc) (subscribed svc_name rpc_name (combined_id svc_id rpc_id) _),
                )
                | inr request ↦ (
                  (upper svc_name ++ codes "_" ++ upper rpc_name, combined_id svc_id rpc_id) ∷ [],
                  rw (hn, hi, request) refl,
                  rw (hn, hi, request) refl,
                  rw (request, hc) refl,
                )
              ])))
  where
    Goal : List Entry → Type 0
    Goal entries =
        Agree entries (js_rpc_lines svc_name svc_id r) (csharp_rpc_lines svc_name svc_id r)

rpcs_Agree :
    (svc_name : Str) (svc_id : ℕ) (rs : List Rpc)
    → Returns
        (λ entries.
          Agree entries
            (rpcs_lines js_rpc_lines svc_name svc_id rs)
            (rpcs_lines csharp_rpc_lines svc_name svc_id rs))
        (rpcs_id_entries svc_name svc_id rs)
unfolding rpcs_id_entries rpcs_lines
rpcs_Agree svc_name svc_id [] = Agree-nil
rpcs_Agree svc_name svc_id (r ∷ rs) =
    Returns-bind _ _ (rpc_id_entries svc_name svc_id r) _ (rpc_Agree svc_name svc_id r) (λ es h.
      Returns-bind _ _ (rpcs_id_entries svc_name svc_id rs) _ (rpcs_Agree svc_name svc_id rs)
        (λ fs hs.
          Agree-append es fs (js_rpc_lines svc_name svc_id r) (csharp_rpc_lines svc_name svc_id r)
            (rpcs_lines js_rpc_lines svc_name svc_id rs)
            (rpcs_lines csharp_rpc_lines svc_name svc_id rs) h hs))

services_Agree :
    (ss : List Service)
    → Returns
        (λ entries.
          Agree entries (services_lines js_rpc_lines ss) (services_lines csharp_rpc_lines ss))
        (services_id_entries ss)
unfolding services_id_entries services_lines
services_Agree [] = Agree-nil
services_Agree (s ∷ ss) =
    Returns-bind (λ n. required s.name ≡ ok n) _ (required s.name) _
      (Returns-self (required s.name))
      (λ n hn.
        Returns-bind (λ i. required_id s.id ≡ ok i) _ (required_id s.id) _
          (Returns-self (required_id s.id))
          (λ i hi.
            rw (hn, hi)
              (Returns-bind _ _ (rpcs_id_entries n i s.rpcs) _ (rpcs_Agree n i s.rpcs) (λ es h.
                Returns-bind _ _ (services_id_entries ss) _ (services_Agree ss) (λ fs hs.
                  Agree-append es fs (rpcs_lines js_rpc_lines n i s.rpcs)
                    (rpcs_lines csharp_rpc_lines n i s.rpcs) (services_lines js_rpc_lines ss)
                    (services_lines csharp_rpc_lines ss) h hs)))))

-- Where the .proto file is generated, the tables of the JavaScript and the C# client are too, and the
-- three have the same names, up to their prefixes, with the same identifiers in the same order.
pub js_rpc_ids-csharp_rpc_ids :
    (spec_data : Spec) (entries : List Entry)
    → generate_windrpc_proto spec_data ≡ ok entries
    → (t : List Entry) × (js_rpc_ids spec_data ≡ ok t)
      × (csharp_rpc_ids spec_data ≡ ok (map (prefixed (codes "RPC_")) t))
      × (entries ≡ (codes "RPC_ID_UNKNOWN", 0) ∷ map (prefixed (codes "RPC_ID_")) t)
unfolding generate_windrpc_proto js_rpc_ids csharp_rpc_ids
js_rpc_ids-csharp_rpc_ids spec_data entries h =
    let all : Returns Goal (generate_windrpc_proto spec_data) =
      Returns-bind _ Goal (services_id_entries spec_data.services) _
        (services_Agree spec_data.services)
        (λ es (t, e, f, g). (t, e, f, ap (λ l. (codes "RPC_ID_UNKNOWN", 0) ∷ l) g)) in
    (rw h at all)
  where
    Goal : List Entry → Type 0
    Goal es =
        (t : List Entry) × (js_rpc_ids spec_data ≡ ok t)
        × (csharp_rpc_ids spec_data ≡ ok (map (prefixed (codes "RPC_")) t))
        × (es ≡ (codes "RPC_ID_UNKNOWN", 0) ∷ map (prefixed (codes "RPC_ID_")) t)
