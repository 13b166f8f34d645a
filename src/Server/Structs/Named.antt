-- ===== src/Server/Structs/Named.antt =====
-- The buffers of an RPC, by name.
use mathlib.Core.Path.{subst}
use windrpc.Base.{
  ℕ, ◌≡◌, refl, sym, ap, ◌∙◌, Bool, true, false, not, ◌||◌, some, List, [], ◌∷◌, ◌++◌, Bool-cases,
  ◌⊎◌, inl, inr,
}
use windrpc.Base.Text.{Str, codes, str_eq}
use windrpc.Base.Result.{Result, ok, ok_value, bind-ok}
use windrpc.Spec.{int, pos, Rpc, Service, Spec, combined_id}
use windrpc.Spec.Required.{required, required_id}
use windrpc.Validator.Whole.{validate}
use windrpc.Validator.Whole.References.{All-With}
use windrpc.Server.RpcTypes.{RpcTypes, is_void, get_rpc_types}
use windrpc.Server.Dispatch.{dispatch_table, has_response_type}
use windrpc.Server.Dispatch.Members.{With, With-append_left, With-append_right}
use windrpc.Server.Runtime.{Tables, flat_struct}
use windrpc.Server.Structs.{
  each_rpc, one_service, each_service, struct_case, struct_name, req_case, res_case, buffer_if,
  rpc_buffers, flat_buffers, req_structs, res_structs, flat_tables,
}
use windrpc.Server.Structs.Own.{flat_tables-found}

module _ {A : Type 0} (x : A) where
  -- what the loops collect for an RPC is in their result
  each_rpc-With :
      (call : Rpc → Result (List A)) (earlier later : List Rpc) (r : Rpc) (t own : List A)
      → each_rpc call (earlier ++ r ∷ later) ≡ ok t
      → call r ≡ ok own
      → With x own
      → With x t
  unfolding each_rpc ok_value
  each_rpc-With call [] later r t own h e w =
      let (first, hf, h1) = bind-ok (call r) _ h in
      let (more, hm, h2) = bind-ok (each_rpc call later) _ h1 in
      let same : own ≡ first = ap (ok_value own) (sym e ∙ hf) in
      rw (sym (ap (ok_value t) h2), sym same) (With-append_right x own more w)
  each_rpc-With call (b ∷ earlier) later r t own h e w =
      let (first, hf, h1) = bind-ok (call b) _ h in
      let (more, hm, h2) = bind-ok (each_rpc call (earlier ++ r ∷ later)) _ h1 in
      rw (sym (ap (ok_value t) h2))
        (With-append_left x first more (each_rpc-With call earlier later r more own hm e w))

  each_service-With :
      (call : Str → ℕ → Rpc → Result (List A)) (before after : List Service) (s : Service)
      (svc_name : Str) (k : ℕ) (earlier later : List Rpc) (r : Rpc) (t own : List A)
      → each_service call (before ++ s ∷ after) ≡ ok t
      → required s.name ≡ ok svc_name
      → str_eq svc_name (codes "common") ≡ false
      → required_id s.id ≡ ok k
      → s.rpcs ≡ earlier ++ r ∷ later
      → call svc_name k r ≡ ok own
      → With x own
      → With x t
  unfolding each_service one_service ok_value
  each_service-With call [] after s svc_name k earlier later r t own h hn other hk split e w =
      let (first, hf, h1) =
        bind-ok (each_rpc (call svc_name k) (earlier ++ r ∷ later)) _
          (rw (hn, other, hk, split) at h) in
      let (more, hm, h2) = bind-ok (each_service call after) _ h1 in
      rw (sym (ap (ok_value t) h2)) (
        With-append_right x first more
          (each_rpc-With (call svc_name k) earlier later r first own hf e w))
  each_service-With call (b ∷ before) after s svc_name k earlier later r t own h hn other hk split e
        w =
      let (name, hb, h1) = bind-ok (required b.name) _ h in
      let (first, hf, h2) = bind-ok (one_service call b name) _ h1 in
      let (more, hm, h3) = bind-ok (each_service call (before ++ s ∷ after)) _ h2 in
      rw (sym (ap (ok_value t) h3)) (
        With-append_left x first more (
          each_service-With call before after s svc_name k earlier later r more own hm hn other hk
            split e w))

in_services :
    {A : Type 0} (call : Str → ℕ → Rpc → Result (List A)) (ss split : List Service) (t : List A)
    → ss ≡ split
    → each_service call ss ≡ ok t
    → each_service call split ≡ ok t
in_services call ss split t e h = subst (λ l. each_service call l ≡ ok t) e h

-- a buffer with its name and its type, and the case that leads to it
abbrev pub HasBuffer : ℕ → Str → Str → List (Str × Str) → List (ℕ × Str) → Type 0
HasBuffer id c_type name buffers cases =
    (flat_struct id cases ≡ some name) × With {A = Str × Str} (c_type, name) buffers

module _ (strict : Bool) (package_name : Str) (spec : Spec) (t : Tables)
    (buffers : List (Str × Str)) (before after : List Service) (s : Service)
    (earlier later : List Rpc) (r : Rpc) (svc_name rpc_name : Str) (k n : ℕ) (info : RpcTypes)
    (valid : (validate strict spec).errors ≡ []) (generated : flat_tables package_name spec ≡ ok t)
    (declared : flat_buffers package_name spec ≡ ok buffers)
    (services : spec.services ≡ before ++ s ∷ after) (rpcs : s.rpcs ≡ earlier ++ r ∷ later)
    (named : s.name ≡ some svc_name) (other : str_eq svc_name (codes "common") ≡ false)
    (own : s.id ≡ some (int (pos k))) (named_rpc : r.name ≡ some rpc_name)
    (number : r.id ≡ some (int (pos n)))
    (types : get_rpc_types r svc_name package_name ≡ ok info) where
  abbrev req_name : Str
  req_name = codes "req_" ++ (svc_name ++ codes "_" ++ rpc_name)

  abbrev res_name : Str
  res_name = codes "res_" ++ (svc_name ++ codes "_" ++ rpc_name)

  name-ok : required s.name ≡ ok svc_name
  unfolding required
  name-ok = rw named refl

  id-ok : required_id s.id ≡ ok k
  unfolding required_id
  id-ok = rw own refl

  struct_case-ok :
      (side : Str)
      → struct_case false side svc_name k r
        ≡ ok ((combined_id k n, side ++ (svc_name ++ codes "_" ++ rpc_name)) ∷ [])
  unfolding struct_case struct_name required required_id
  struct_case-ok side = rw (named_rpc, number) refl

  req-With :
      is_void info.cmd_type ≡ false → With {A = ℕ × Str} (combined_id k n, req_name) t.req_structs
  unfolding flat_tables req_structs req_case ok_value
  req-With given =
      let (rows, table, h1) = bind-ok (dispatch_table package_name spec) _ generated in
      let (requests, hr, h2) = bind-ok (req_structs package_name spec) _ h1 in
      let (responses, hs, h3) = bind-ok (res_structs package_name spec) _ h2 in
      let (qs, hq, r1) = bind-ok (each_service (req_case package_name) spec.services) _ hr in
      rw (sym (ap (λ x. (ok_value t x).req_structs) h3), sym (ap (ok_value requests) r1))
        (With-append_left _
          ((0x0601, codes "req_common_empty") ∷ (0x0602, codes "req_common_empty") ∷ []) qs
          (each_service-With _ (req_case package_name) before after s svc_name k earlier later r qs
            _ (in_services (req_case package_name) spec.services _ qs services hq) name-ok other
            id-ok rpcs (rw (types, given) (struct_case-ok (codes "req_"))) ([], [], refl)))

  res-With :
      (not (has_response_type info) || is_void info.res_type) ≡ false
      → With {A = ℕ × Str} (combined_id k n, res_name) t.res_structs
  unfolding flat_tables res_structs res_case ok_value
  res-With given =
      let (rows, table, h1) = bind-ok (dispatch_table package_name spec) _ generated in
      let (requests, hr, h2) = bind-ok (req_structs package_name spec) _ h1 in
      let (responses, hs, h3) = bind-ok (res_structs package_name spec) _ h2 in
      let (ps, hp, s1) = bind-ok (each_service (res_case package_name) spec.services) _ hs in
      rw (sym (ap (λ x. (ok_value t x).res_structs) h3), sym (ap (ok_value responses) s1))
        (With-append_left _
          ((0x0601, codes "res_common_ping") ∷ (0x0602, codes "res_common_get_device_info") ∷ []) ps
          (each_service-With _ (res_case package_name) before after s svc_name k earlier later r ps
            _ (in_services (res_case package_name) spec.services _ ps services hp) name-ok other
            id-ok rpcs (rw (types, given) (struct_case-ok (codes "res_"))) ([], [], refl)))

  -- the buffers of the RPC are among those that are declared
  buffers-With :
      (x : Str × Str) (own_buffers : List (Str × Str))
      → rpc_buffers package_name svc_name k r ≡ ok own_buffers
      → With x own_buffers
      → With x buffers
  unfolding flat_buffers ok_value
  buffers-With x own_buffers h w =
      let (bs, hb, b1) =
        bind-ok (each_service (rpc_buffers package_name) spec.services) _ declared in
      rw (sym (ap (ok_value buffers) b1)) (
        With-append_left x
          ((codes "rpc_types_Empty_t", codes "req_common_empty")
            ∷ (codes "rpc_common_PingResponse_t", codes "res_common_ping")
            ∷ (codes "rpc_common_DeviceInfo_t", codes "res_common_get_device_info")
            ∷ [])
          bs
          (each_service-With x (rpc_buffers package_name) before after s svc_name k earlier later r
            bs own_buffers (in_services (rpc_buffers package_name) spec.services _ bs services hb)
            name-ok other id-ok rpcs h w))

  req_buffer :
      is_void info.cmd_type ≡ false → With {A = Str × Str} (info.cmd_type, req_name) buffers
  unfolding rpc_buffers buffer_if struct_name required
  req_buffer given =
      let res : List (Str × Str) = buffer_if (is_void info.res_type) info.res_type (res_name) in
      buffers-With (info.cmd_type, req_name) ((info.cmd_type, req_name) ∷ res)
        (rw (types, given, named_rpc) refl) ([], res, refl)

  res_buffer :
      is_void info.res_type ≡ false → With {A = Str × Str} (info.res_type, res_name) buffers
  unfolding rpc_buffers buffer_if struct_name required
  res_buffer given = elim (Bool-cases (is_void info.cmd_type)) [
    | inl nothing ↦
        buffers-With (info.res_type, res_name) ((info.res_type, res_name) ∷ [])
          (rw (types, given, nothing, named_rpc) refl) ([], [], refl)
    | inr something ↦
        buffers-With (info.res_type, res_name)
          ((info.cmd_type, req_name) ∷ (info.res_type, res_name) ∷ [])
          (rw (types, given, something, named_rpc) refl) ((info.cmd_type, req_name) ∷ [], [], refl)
  ]

  res_given :
      (not (has_response_type info) || is_void info.res_type) ≡ false
      → is_void info.res_type ≡ false
  res_given h = elim (Bool-cases (is_void info.res_type)) [
    | inl nothing ↦ elim (Bool-cases (has_response_type info)) [
      | inl answers ↦ absurd (cc (rw (nothing, answers) at h))
      | inr silent ↦ absurd (cc (rw (nothing, silent) at h))
    ]
    | inr something ↦ something
  ]

  -- In what is generated from a specification without errors, for an RPC of a service that is not
  -- `common`: unless its request is `void`, the RPC's identifier leads to the request buffer that is
  -- named after the service and the RPC, and that buffer is declared with the type of the request. The
  -- same holds of its response, if its kind has one.
  pub flat_struct-HasBuffer :
      ((is_void info.cmd_type ≡ true)
        ⊎ HasBuffer
            (combined_id k n)
            info.cmd_type
            (codes "req_" ++ (svc_name ++ codes "_" ++ rpc_name))
            buffers
            t.req_structs)
      × (((not (has_response_type info) || is_void info.res_type) ≡ true)
          ⊎ HasBuffer
              (combined_id k n)
              info.res_type
              (codes "res_" ++ (svc_name ++ codes "_" ++ rpc_name))
              buffers
              t.res_structs)
  flat_struct-HasBuffer =
      let (requests, responses) = flat_tables-found strict package_name spec t valid generated in
      (
        elim (Bool-cases (is_void info.cmd_type)) [
          | inl nothing ↦ inl nothing
          | inr given ↦ inr (
            All-With (λ d. flat_struct d.0 t.req_structs ≡ some d.1) _ t.req_structs requests
                (req-With given),
            req_buffer given,
          )
        ],
        elim (Bool-cases (not (has_response_type info) || is_void info.res_type)) [
          | inl nothing ↦ inl nothing
          | inr given ↦ inr (
            All-With (λ d. flat_struct d.0 t.res_structs ≡ some d.1) _ t.res_structs responses
                (res-With given),
            res_buffer (res_given given),
          )
        ],
      )
