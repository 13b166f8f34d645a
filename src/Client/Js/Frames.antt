-- ===== src/Client/Js/Frames.antt =====
-- The frames that the JavaScript client builds, and the server's dispatch table.
use mathlib.Core.Path.{subst}
use windrpc.Base.{
  ℕ, ◌/◌, ◌%◌, ◌≡◌, ◌≢◌, ◌<◌, refl, sym, ap, ◌∙◌, ◌⊎◌, inl, inr, Bool, true, false, none, some,
  List, [], ◌∷◌, ◌++◌, arith, map, All, Apart, Bool-cases, if◌then◌else◌,
}
use windrpc.Base.Text.{Str, codes, str_eq, str_eq_refl, str_eq-ne, upper}
use windrpc.Base.Result.{ok, bind-ok, ok_value}
use windrpc.Spec.{int, pos, Rpc, Service, Spec, combined_id, event_id}
use windrpc.Spec.Ids.{event_ids_apart}
use windrpc.Spec.Required.{required, required_id}
use windrpc.Validator.Rpcs.{upper_type}
use windrpc.Validator.Whole.{validate}
use windrpc.Validator.Whole.RequestIds.{combined_ids}
use windrpc.Server.Dispatch.{HandlerEntry, dispatch_table, find_flat_handler}
use windrpc.Server.Dispatch.Rows.{ids, handled, is_common}
use windrpc.Server.Dispatch.Lookup.{find_flat_handler_lem, table-ids}
use windrpc.Server.Dispatch.Members.{
  With, With-append_left, With-append_right, combined_ids-With, row-With, find_flat_handler-none,
  LowNumbers, combined_ids-apart,
}
use windrpc.Client.Js.{Methods, rpc_methods}
use windrpc.Client.Tables.{Entry, rpcs_lines, services_lines, js_rpc_lines, js_rpc_ids, js_constant}

-- the constants of an RPC are in the table
rpcs_lines-With :
    (x : Entry) (svc_name : Str) (k : ℕ) (earlier later : List Rpc) (r : Rpc) (t own : List Entry)
    → rpcs_lines js_rpc_lines svc_name k (earlier ++ r ∷ later) ≡ ok t
    → js_rpc_lines svc_name k r ≡ ok own
    → With x own
    → With x t
unfolding rpcs_lines ok_value
rpcs_lines-With x svc_name k [] later r t own h e w =
    let (first, hf, h1) = bind-ok (js_rpc_lines svc_name k r) _ h in
    let (more, hm, h2) = bind-ok (rpcs_lines js_rpc_lines svc_name k later) _ h1 in
    let same : own ≡ first = ap (ok_value own) (sym e ∙ hf) in
    rw (sym (ap (ok_value t) h2), sym same) (With-append_right x own more w)
rpcs_lines-With x svc_name k (b ∷ earlier) later r t own h e w =
    let (first, hf, h1) = bind-ok (js_rpc_lines svc_name k b) _ h in
    let (more, hm, h2) = bind-ok (rpcs_lines js_rpc_lines svc_name k (earlier ++ r ∷ later)) _ h1 in
    rw (sym (ap (ok_value t) h2))
      (With-append_left x first more (rpcs_lines-With x svc_name k earlier later r more own hm e w))

services_lines-With :
    (x : Entry) (before after : List Service) (s : Service) (svc_name : Str) (k : ℕ)
    (earlier later : List Rpc) (r : Rpc) (t own : List Entry)
    → services_lines js_rpc_lines (before ++ s ∷ after) ≡ ok t
    → required s.name ≡ ok svc_name
    → required_id s.id ≡ ok k
    → s.rpcs ≡ earlier ++ r ∷ later
    → js_rpc_lines svc_name k r ≡ ok own
    → With x own
    → With x t
unfolding services_lines ok_value
services_lines-With x [] after s svc_name k earlier later r t own h hn hk split e w =
    let (first, hf, h1) =
      bind-ok (rpcs_lines js_rpc_lines svc_name k (earlier ++ r ∷ later)) _
        (rw (hn, hk, split) at h) in
    let (more, hm, h2) = bind-ok (services_lines js_rpc_lines after) _ h1 in
    rw (sym (ap (ok_value t) h2)) (
      With-append_right x first more
        (rpcs_lines-With x svc_name k earlier later r first own hf e w))
services_lines-With x (b ∷ before) after s svc_name k earlier later r t own h hn hk split e w =
    let (name, hb, h1) = bind-ok (required b.name) _ h in
    let (id, hi, h2) = bind-ok (required_id b.id) _ h1 in
    let (first, hf, h3) = bind-ok (rpcs_lines js_rpc_lines name id b.rpcs) _ h2 in
    let (more, hm, h4) = bind-ok (services_lines js_rpc_lines (before ++ s ∷ after)) _ h3 in
    rw (sym (ap (ok_value t) h4)) (
      With-append_left x first more (
        services_lines-With x before after s svc_name k earlier later r more own hm hn hk split e
          w))

-- the constant that the methods of an RPC use
methods_constant :
    (svc_name : Str) (r : Rpc) (rpc_name : Str) (ms : Methods)
    → r.name ≡ some rpc_name
    → rpc_methods svc_name r ≡ ok ms
    → ms.constant ≡ upper svc_name ++ codes "_" ++ upper rpc_name
unfolding rpc_methods required ok_value
methods_constant svc_name r rpc_name ms named h =
    ap (λ m. (ok_value ms m).constant) (sym (rw named at h))

-- the entry of the constant that an RPC's methods use
frame_id : Rpc → ℕ → ℕ → ℕ
frame_id r k n =
    if str_eq (upper_type r.rpc_type) (codes "NOTIFICATION") then event_id k n else combined_id k n

own-With :
    (svc_name : Str) (r : Rpc) (rpc_name : Str) (k n : ℕ)
    → r.name ≡ some rpc_name
    → r.id ≡ some (int (pos n))
    → (own : List Entry) × (js_rpc_lines svc_name k r ≡ ok own)
      × With {A = Entry} (upper svc_name ++ codes "_" ++ upper rpc_name, frame_id r k n) own
unfolding js_rpc_lines frame_id required required_id
own-With svc_name r rpc_name k n named number =
    elim (Bool-cases (str_eq (upper_type r.rpc_type) (codes "NOTIFICATION"))) [
      | inl event ↦ rw (named, number, event) (_, refl, (_ ∷ [], [], refl))
      | inr request ↦ rw (named, number, request) (_, refl, ([], [], refl))
    ]

abbrev pub constants : List Entry → List Str
constants = map (λ (x : Entry). x.0)

js_constant-none :
    (constant : Str) (entries : List Entry)
    → All (λ key. constant ≢ key) (constants entries)
    → js_constant constant entries ≡ none
unfolding js_constant
js_constant-none constant [] h = refl
js_constant-none constant ((key, id) ∷ entries) (ne, h) =
    let other : str_eq constant key ≡ false = str_eq-ne constant key ne in
    rw (js_constant-none constant entries h, other) refl

-- where no key comes twice, the object has each of its properties
js_constant-With :
    (constant : Str) (id : ℕ) (before after : List Entry)
    → Apart (constants (before ++ (constant, id) ∷ after))
    → js_constant constant (before ++ (constant, id) ∷ after) ≡ some id
unfolding js_constant
js_constant-With constant id [] after (h, rest) =
    rw (js_constant-none constant after h, str_eq_refl constant) refl
js_constant-With constant id (b ∷ before) after (h, rest) =
    rw (js_constant-With constant id before after rest) refl

js_constant-Apart :
    (constant : Str) (id : ℕ) (entries : List Entry)
    → Apart (constants entries)
    → With {A = Entry} (constant, id) entries
    → js_constant constant entries ≡ some id
js_constant-Apart constant id entries h (before, after, e) =
    rw e (js_constant-With constant id before after (subst (λ l. Apart (constants l)) e h))

-- an identifier with bit 7 clear is no event's
even-apart : (k n m : ℕ) → n < 128 → m / 128 % 2 ≡ 0 → m ≢ event_id k n
even-apart k n m small clear e = absurd (omega (arith, event_ids_apart k n 0 0 small))

-- In an accepted specification whose RPC numbers are below 128 and whose constants in the JavaScript
-- client are all different, for an RPC of a service that is not `common`: the frame that the JavaScript client builds for a request has an identifier whose row the
-- server finds, but the one that it builds for a notification has the identifier of the event, not of
-- the subscription, and the server finds no row.
pub rpc_methods-find_flat_handler :
    (strict : Bool) (package_name : Str) (spec : Spec) (table : List HandlerEntry) (t : List Entry)
    (before after : List Service) (s : Service) (earlier later : List Rpc) (r : Rpc)
    (svc_name rpc_name : Str) (k n : ℕ) (ms : Methods)
    → (validate strict spec).errors ≡ []
    → dispatch_table package_name spec ≡ ok table
    → js_rpc_ids spec ≡ ok t
    → Apart (constants t)
    → All LowNumbers spec.services
    → n < 128
    → spec.services ≡ before ++ s ∷ after
    → s.rpcs ≡ earlier ++ r ∷ later
    → s.name ≡ some svc_name
    → str_eq svc_name (codes "common") ≡ false
    → s.id ≡ some (int (pos k))
    → r.name ≡ some rpc_name
    → r.id ≡ some (int (pos n))
    → rpc_methods svc_name r ≡ ok ms
    → ((str_eq (upper_type r.rpc_type) (codes "NOTIFICATION") ≡ true)
        × (js_constant ms.constant t ≡ some (event_id k n))
        × (find_flat_handler (event_id k n) table ≡ none))
      ⊎ ((str_eq (upper_type r.rpc_type) (codes "NOTIFICATION") ≡ false)
          × (js_constant ms.constant t ≡ some (combined_id k n))
          × ((d : HandlerEntry) × (find_flat_handler (combined_id k n) table ≡ some d)
              × (d.rpc_id ≡ combined_id k n)))
unfolding js_rpc_ids frame_id
rpc_methods-find_flat_handler strict package_name spec table t before after s earlier later r
      svc_name rpc_name k n ms valid generated js once low small services rpcs named other own
      named_rpc number methods =
    let (lines, e, w) = own-With svc_name r rpc_name k n named_rpc number in
    let constant : ms.constant ≡ upper svc_name ++ codes "_" ++ upper rpc_name =
      methods_constant svc_name r rpc_name ms named_rpc methods in
    let entry : With {A = Entry} (ms.constant, frame_id r k n) t = rw constant (
      services_lines-With _ before after s svc_name k earlier later r t lines (rw services at js)
        (unfold required in rw named refl) (unfold required_id in rw own refl) rpcs e w) in
    let rows : ids table ≡ 0x0601 ∷ 0x0602 ∷ combined_ids (handled spec.services) =
      table-ids package_name spec table generated in
    elim (Bool-cases (str_eq (upper_type r.rpc_type) (codes "NOTIFICATION"))) [
      | inl event ↦ inl (
        event,
        js_constant-Apart ms.constant (event_id k n) t once (rw event at entry),
        find_flat_handler-none table (event_id k n) (
            rw rows (
              even-apart k n 0x0601 small (omega arith),
              (
                even-apart k n 0x0602 small (omega arith),
                combined_ids-apart k n spec.services small low,
              ),
            )),
      )
      | inr request ↦ inr (
        request,
        js_constant-Apart ms.constant (combined_id k n) t once (rw request at entry),
        row-With table table (combined_id k n)
            (rw (rows, services)
              (With-append_left (combined_id k n) (0x0601 ∷ 0x0602 ∷ [])
                (combined_ids (handled (before ++ s ∷ after)))
                (combined_ids-With k n before after s earlier later r
                  (unfold is_common in rw named other) own rpcs number)))
            (find_flat_handler_lem strict package_name spec table valid generated).1,
      )
    ]
