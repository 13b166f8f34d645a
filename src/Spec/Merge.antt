-- ===== src/Spec/Merge.antt =====
-- The request and response keys of an RPC, and the order of merged specifications.
use windrpc.Base.{◌≡◌, refl, sym, ◌∙◌, Option, none, some, arith}
use windrpc.Base.Text.{Str}
use windrpc.Spec.{Rpc, req_val, res_val, normalize_rpc, first_given, set_request, set_response}

requests :
    (r : Rpc) → ((normalize_rpc r).request ≡ req_val r) × ((normalize_rpc r).command ≡ req_val r)
unfolding normalize_rpc req_val res_val first_given
requests r = ground arith

responses :
    (r : Rpc) → ((normalize_rpc r).response ≡ res_val r) × ((normalize_rpc r).result ≡ res_val r)
unfolding normalize_rpc req_val res_val first_given
responses r = ground arith

-- After normalising, the request is found under both `request` and `command`, and the response under
-- both `response` and `result`: the value of the first alias that has one.
pub normalize_rpc_lem :
    (r : Rpc)
    → ((normalize_rpc r).request ≡ req_val r)
      × ((normalize_rpc r).command ≡ req_val r)
      × ((normalize_rpc r).response ≡ res_val r)
      × ((normalize_rpc r).result ≡ res_val r)
normalize_rpc_lem r = ((requests r).0, (requests r).1, (responses r).0, (responses r).1)

known_request : (r : Rpc) (v : Option Str) → r.request ≡ v → r.command ≡ v → set_request v r ≡ r
unfolding set_request
known_request r none e f = refl
known_request r (some v) e f = λ i. record r { request = sym e i; command = sym f i }

known_response : (r : Rpc) (v : Option Str) → r.response ≡ v → r.result ≡ v → set_response v r ≡ r
unfolding set_response
known_response r none e f = refl
known_response r (some v) e f = λ i. record r { response = sym e i; result = sym f i }

req_val-normalize_rpc : (r : Rpc) → req_val (normalize_rpc r) ≡ req_val r
unfolding normalize_rpc req_val res_val
req_val-normalize_rpc r = ground arith

res_val-normalize_rpc : (r : Rpc) → res_val (normalize_rpc r) ≡ res_val r
unfolding normalize_rpc req_val res_val
res_val-normalize_rpc r = ground arith

normalize_again : (r : Rpc) → set_response (res_val r) (set_request (req_val r) r) ≡ normalize_rpc r
unfolding normalize_rpc
normalize_again r = refl

-- Normalising an RPC twice is normalising it once.
pub normalize_rpc_idem : (r : Rpc) → normalize_rpc (normalize_rpc r) ≡ normalize_rpc r
normalize_rpc_idem r =
    let n : Rpc = normalize_rpc r in
    let found : ((n.request ≡ req_val r) × (n.command ≡ req_val r)) = requests r in
    let answer : ((n.response ≡ res_val r) × (n.result ≡ res_val r)) = responses r in
    sym (normalize_again n)
    ∙ rw (
      req_val-normalize_rpc r,
      res_val-normalize_rpc r,
      known_request n (req_val r) found.0 found.1,
      known_response n (res_val r) answer.0 answer.1,
    )
