-- ===== src/Server/Dispatch/Lookup.antt =====
-- Every row of the dispatch table of an accepted specification is found.
use windrpc.Base.{
  ℕ, ◌≡◌, ◌≢◌, refl, sym, ap, ◌∙◌, Bool, false, Option, none, some, List, [], ◌∷◌, ◌++◌, map, arith,
  All, All-append, Bool-cases, inl, inr,
}
use windrpc.Base.Text.{Str, codes, str_eq}
use windrpc.Base.Result.{ok, bind-ok, ok_value}
use windrpc.Spec.{Scalar, int, text, pos, negsuc, Service, Spec}
use windrpc.Validator.Enums.{name_or_na}
use windrpc.Validator.Rpcs.{service_id_faults}
use windrpc.Validator.Unique.Distinct.{Fresh, Distinct, numbers}
use windrpc.Validator.Whole.{validate}
use windrpc.Validator.Whole.RequestIds.{combined_ids, Settled, Apart, Apart-Fresh, All-right}
use windrpc.Validator.Whole.Sound.{Numbered, numbers-cons, services-Settled, validate-services}
use windrpc.Server.Dispatch.{HandlerEntry, services_rows, dispatch_table, find_flat_handler}
use windrpc.Server.Dispatch.Rows.{ids, handled, services_rows-ids, is_common}

abbrev service_ids : List Service → List ℕ
service_ids services = numbers (map (λ (s : Service). s.id) services)

pub All-left : {A : Type 0} (P : A → Type 0) (xs ys : List A) → All P (xs ++ ys) → All P xs
All-left P [] ys h = tt
All-left P (x ∷ xs) ys h = (h.0, All-left P xs ys h.1)

ids_split :
    (s : Service) (services : List Service)
    → service_ids (s ∷ services) ≡ numbers (s.id ∷ []) ++ service_ids services
ids_split s services = numbers-cons s.id (map (λ (t : Service). t.id) services)

-- what holds of every service number holds of those that are left
handled-All :
    (P : ℕ → Type 0) (services : List Service)
    → All P (service_ids services)
    → All P (service_ids (handled services))
unfolding handled
handled-All P [] h = h
handled-All P (s ∷ services) h =
    let own : List ℕ = numbers (s.id ∷ []) in
    let parts : All P (own ++ service_ids services) = rw (sym (ids_split s services)) h in
    let rest : All P (service_ids (handled services)) =
      handled-All P services (All-right P own (service_ids services) parts) in
    elim (Bool-cases (is_common s.name)) [
      | inl common ↦ rw common rest
      | inr other ↦
          rw (other, ids_split s (handled services))
            (All-append P own (service_ids (handled services))
              (All-left P own (service_ids services) parts) rest)
    ]

Distinct-replace :
    (own later later' : List ℕ)
    → ((n : ℕ) → Fresh n later → Fresh n later')
    → Distinct later'
    → Distinct (own ++ later)
    → Distinct (own ++ later')
Distinct-replace [] later later' f d h = d
Distinct-replace (n ∷ own) later later' f d h = (
  All-append (λ m. m ≢ n) own later' (All-left (λ m. m ≢ n) own later h.0)
      (f n (All-right (λ m. m ≢ n) own later h.0)),
  Distinct-replace own later later' f d h.1,
)

Distinct-right : (xs ys : List ℕ) → Distinct (xs ++ ys) → Distinct ys
Distinct-right [] ys d = d
Distinct-right (x ∷ xs) ys d = Distinct-right xs ys d.1

handled-Distinct :
    (services : List Service)
    → Distinct (service_ids services)
    → Distinct (service_ids (handled services))
unfolding handled
handled-Distinct [] d = d
handled-Distinct (s ∷ services) d =
    let own : List ℕ = numbers (s.id ∷ []) in
    let parts : Distinct (own ++ service_ids services) = rw (sym (ids_split s services)) d in
    let rest : Distinct (service_ids (handled services)) =
      handled-Distinct services (Distinct-right own (service_ids services) parts) in
    elim (Bool-cases (is_common s.name)) [
      | inl common ↦ rw common rest
      | inr other ↦
          rw (other, ids_split s (handled services))
            (Distinct-replace own (service_ids services) (service_ids (handled services))
              (λ n. handled-All (λ m. m ≢ n) services) rest parts)
    ]

handled-Numbered :
    (services : List Service) → All Numbered services → All Numbered (handled services)
unfolding handled
handled-Numbered [] h = h
handled-Numbered (s ∷ services) h =
    let rest : All Numbered (handled services) = handled-Numbered services h.1 in
    elim (Bool-cases (is_common s.name)) [
      | inl common ↦ rw common rest
      | inr other ↦ rw other (h.0, rest)
    ]

not_common :
    (name : Option Str) → is_common name ≡ false → str_eq (name_or_na name) (codes "common") ≡ false
unfolding is_common name_or_na str_eq
not_common none h = refl
not_common (some n) h = h

-- The numbers up to 6 are for `common`.
six_refused :
    (name : Str) (id : Option Scalar)
    → str_eq name (codes "common") ≡ false
    → service_id_faults name id ≡ []
    → Fresh 6 (numbers (id ∷ []))
unfolding service_id_faults numbers
six_refused name none other h = tt
six_refused name (some (text t)) other h = tt
six_refused name (some (int (negsuc n))) other h = tt
six_refused name (some (int (pos n))) other h = ground arith

handled-Fresh :
    (services : List Service) → All Numbered services → Fresh 6 (service_ids (handled services))
unfolding handled
handled-Fresh [] h = unfold numbers in tt
handled-Fresh (s ∷ services) h =
    let rest : Fresh 6 (service_ids (handled services)) = handled-Fresh services h.1 in
    elim (Bool-cases (is_common s.name)) [
      | inl common ↦ rw common rest
      | inr other ↦
          rw (other, ids_split s (handled services))
            (All-append (λ m. m ≢ 6) (numbers (s.id ∷ [])) (service_ids (handled services))
              (six_refused (name_or_na s.name) s.id (not_common s.name other) h.0.3) rest)
    ]

-- the identifiers of the table
pub table-ids :
    (package_name : Str) (spec : Spec) (table : List HandlerEntry)
    → dispatch_table package_name spec ≡ ok table
    → ids table ≡ 0x0601 ∷ 0x0602 ∷ combined_ids (handled spec.services)
unfolding dispatch_table ok_value
table-ids package_name spec table h =
    let (rows, hr, h1) = bind-ok (services_rows package_name spec.services) _ h in
    ap ids (ap (ok_value table) (sym h1))
    ∙ ap (λ l. 0x0601 ∷ 0x0602 ∷ l) (services_rows-ids package_name spec.services rows hr)

-- no two of them are the same
table-Distinct :
    (strict : Bool) (package_name : Str) (spec : Spec) (table : List HandlerEntry)
    → (validate strict spec).errors ≡ []
    → dispatch_table package_name spec ≡ ok table
    → Distinct (ids table)
table-Distinct strict package_name spec table valid h =
    let checks = validate-services strict spec valid in
    let settled : Settled (service_ids (handled spec.services))
        (combined_ids (handled spec.services)) =
      services-Settled (handled spec.services) (handled-Distinct spec.services checks.0)
        (handled-Numbered spec.services checks.1) in
    let apart : Apart 6 (combined_ids (handled spec.services)) =
      settled.2 6 (handled-Fresh spec.services checks.1) in
    rw (table-ids package_name spec table h) (
      ((λ e. absurd (omega arith)), Apart-Fresh 0x0601 _ apart),
      (Apart-Fresh 0x0602 _ apart, settled.0),
    )

rows_found :
    (e : HandlerEntry) (table es : List HandlerEntry)
    → Fresh e.rpc_id (ids es)
    → All (λ d. find_flat_handler d.rpc_id table ≡ some d) es
    → All (λ d. find_flat_handler d.rpc_id (e ∷ table) ≡ some d) es
unfolding find_flat_handler
rows_found e table [] f h = tt
rows_found e table (d ∷ es) f h = (ground (arith, f.0, h.0), rows_found e table es f.1 h.1)

every_row_found :
    (table : List HandlerEntry)
    → Distinct (ids table)
    → All (λ d. find_flat_handler d.rpc_id table ≡ some d) table
every_row_found [] d = tt
every_row_found (e ∷ table) d = (
  unfold find_flat_handler in ground arith,
  rows_found e table table d.0 (every_row_found table d.1),
)

-- In the dispatch table that is generated from a specification without errors, different rows have
-- different identifiers, and the search for the identifier of a row finds this row.
pub find_flat_handler_lem :
    (strict : Bool) (package_name : Str) (spec : Spec) (table : List HandlerEntry)
    → (validate strict spec).errors ≡ []
    → dispatch_table package_name spec ≡ ok table
    → Distinct (ids table) × All (λ d. find_flat_handler d.rpc_id table ≡ some d) table
find_flat_handler_lem strict package_name spec table valid h =
    let distinct = table-Distinct strict package_name spec table valid h in
    (distinct, every_row_found table distinct)
