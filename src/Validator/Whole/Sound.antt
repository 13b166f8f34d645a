-- ===== src/Validator/Whole/Sound.antt =====
-- What an accepted specification guarantees about identifiers.
use windrpc.Base.{
  ℕ, ◌≡◌, refl, sym, Bool, Option, none, some, List, [], ◌∷◌, ◌++◌, map, arith, All, All-append,
}
use windrpc.Base.Text.{Str}
use windrpc.Spec.{pos, negsuc, Scalar, int, text, Rpc, Service, Spec}
use windrpc.Validator.Fault.{Faults, fault_if, for_each, service, no_service}
use windrpc.Validator.Unique.{check_ids, check_names}
use windrpc.Validator.Names.{validate_name}
use windrpc.Validator.Unique.Distinct.{Distinct, numbers, append-eq-nil, check_ids-Distinct}
use windrpc.Validator.Enums.{name_or_na}
use windrpc.Validator.Rpcs.{service_id_faults, rpc_id_faults, validate_rpc}
use windrpc.Validator.Whole.RequestIds.{IsByte, IsRequestId, Settled, Settled-more, combined_ids}
use windrpc.Validator.Whole.{
  validate, validate_service, definition_faults, package_faults, name_faults, service_names,
  none_given,
}

pub for_each-nil {ℓ} :
    {A : Type ℓ} (check : A → Faults) (xs : List A)
    → for_each check xs ≡ []
    → All (λ x. check x ≡ []) xs
unfolding for_each
for_each-nil check [] h = tt
for_each-nil check (x ∷ xs) h =
    let both = append-eq-nil (check x) (for_each check xs) h in
    (both.0, for_each-nil check xs both.1)

rpc_id-IsByte : (id : Option Scalar) → rpc_id_faults id ≡ [] → All IsByte (numbers (id ∷ []))
unfolding rpc_id_faults numbers
rpc_id-IsByte none h = tt
rpc_id-IsByte (some (text t)) h = tt
rpc_id-IsByte (some (int (negsuc n))) h = tt
rpc_id-IsByte (some (int (pos n))) h = ground arith

service_id-IsByte :
    (name : Str) (id : Option Scalar)
    → service_id_faults name id ≡ []
    → All IsByte (numbers (id ∷ []))
unfolding service_id_faults numbers
service_id-IsByte name none h = tt
service_id-IsByte name (some (text t)) h = tt
service_id-IsByte name (some (int (negsuc n))) h = tt
service_id-IsByte name (some (int (pos n))) h = ground arith

pub numbers-cons :
    (id : Option Scalar) (ids : List (Option Scalar))
    → numbers (id ∷ ids) ≡ numbers (id ∷ []) ++ numbers ids
unfolding numbers
numbers-cons none ids = refl
numbers-cons (some (text t)) ids = refl
numbers-cons (some (int (negsuc n))) ids = refl
numbers-cons (some (int (pos n))) ids = refl

rpc-IsByte :
    (spec : Spec) (name : Str) (r : Rpc)
    → validate_rpc spec name r ≡ []
    → All IsByte (numbers (r.id ∷ []))
unfolding validate_rpc
rpc-IsByte spec name r h = rpc_id-IsByte r.id (append-eq-nil _ _ (append-eq-nil _ _ h).1).0

rpcs-IsByte :
    (spec : Spec) (name : Str) (rpcs : List Rpc)
    → All (λ r. validate_rpc spec name r ≡ []) rpcs
    → All IsByte (numbers (map (λ (r : Rpc). r.id) rpcs))
rpcs-IsByte spec name [] h = unfold numbers in tt
rpcs-IsByte spec name (r ∷ rpcs) h = rw (numbers-cons r.id (map (λ (r : Rpc). r.id) rpcs)) (
    All-append IsByte (numbers (r.id ∷ [])) (numbers (map (λ (r : Rpc). r.id) rpcs))
      (rpc-IsByte spec name r h.0) (rpcs-IsByte spec name rpcs h.1))

-- what the checks of one service show
abbrev pub Numbered : Service → Type 0
Numbered s =
    All IsByte (numbers (s.id ∷ []))
    × All IsByte (numbers (map (λ (r : Rpc). r.id) s.rpcs))
    × Distinct (numbers (map (λ (r : Rpc). r.id) s.rpcs))
    × (service_id_faults (name_or_na s.name) s.id ≡ [])

-- the second, the fourth and the sixth of six checks in a row
even_checks-nil :
    (a b c d e f : Faults)
    → a ++ (b ++ (c ++ (d ++ (e ++ f)))) ≡ []
    → (b ≡ []) × (d ≡ []) × (f ≡ [])
even_checks-nil a b c d e f h =
    let from_b = (append-eq-nil a (b ++ (c ++ (d ++ (e ++ f)))) h).1 in
    let at_b = append-eq-nil b (c ++ (d ++ (e ++ f))) from_b in
    let at_d = append-eq-nil d (e ++ f) (append-eq-nil c (d ++ (e ++ f)) at_b.1).1 in
    (at_b.0, at_d.0, (append-eq-nil e f at_d.1).1)

validate_service-Numbered :
    (strict : Bool) (spec : Spec) (s : Service) → validate_service strict spec s ≡ [] → Numbered s
unfolding validate_service
validate_service-Numbered strict spec s h =
    let name = name_or_na s.name in
    let checks : (service_id_faults name s.id ≡ [])
        × (check_ids (map (λ (r : Rpc). r.id) s.rpcs) ≡ [])
        × (for_each (validate_rpc spec name) s.rpcs ≡ []) =
      even_checks-nil (validate_name (some name) service) (service_id_faults name s.id)
        (definition_faults strict spec (some name) s.messages s.enums)
        (check_ids (map (λ (r : Rpc). r.id) s.rpcs))
        (check_names (map (λ (r : Rpc). r.name) s.rpcs)) (for_each (validate_rpc spec name) s.rpcs)
        h in
    (
      service_id-IsByte name s.id checks.0,
      rpcs-IsByte spec name s.rpcs (for_each-nil (validate_rpc spec name) s.rpcs checks.2),
      check_ids-Distinct (map (λ (r : Rpc). r.id) s.rpcs) checks.1,
      checks.0,
    )

services-Numbered :
    (strict : Bool) (spec : Spec) (services : List Service)
    → All (λ s. validate_service strict spec s ≡ []) services
    → All Numbered services
services-Numbered strict spec [] h = tt
services-Numbered strict spec (s ∷ services) h =
    (validate_service-Numbered strict spec s h.0, services-Numbered strict spec services h.1)

pub validate-services :
    (strict : Bool) (spec : Spec)
    → (validate strict spec).errors ≡ []
    → Distinct (numbers (map (λ (s : Service). s.id) spec.services)) × All Numbered spec.services
unfolding validate
validate-services strict spec h =
    let ids : List (Option Scalar) = map (λ (s : Service). s.id) spec.services in
    let names = name_faults spec in
    let definitions = definition_faults strict spec none spec.messages spec.enums in
    let given = fault_if (none_given spec.services) no_service in
    let unique = check_names (service_names spec) in
    let each = for_each (validate_service strict spec) spec.services in
    let rest : names ++ (definitions ++ (given ++ (check_ids ids ++ (unique ++ each)))) ≡ [] =
      (append-eq-nil (package_faults spec.package_name)
        (names ++ (definitions ++ (given ++ (check_ids ids ++ (unique ++ each))))) h).1 in
    let checks : (definitions ≡ []) × (check_ids ids ≡ []) × (each ≡ []) =
      even_checks-nil names definitions given (check_ids ids) unique each rest in
    (
      check_ids-Distinct ids checks.1,
      services-Numbered strict spec spec.services
          (for_each-nil (validate_service strict spec) spec.services checks.2),
    )

Distinct-right : (xs ys : List ℕ) → Distinct (xs ++ ys) → Distinct ys
Distinct-right [] ys d = d
Distinct-right (x ∷ xs) ys d = Distinct-right xs ys d.1

pub services-Settled :
    (services : List Service)
    → Distinct (numbers (map (λ (s : Service). s.id) services))
    → All Numbered services
    → Settled (numbers (map (λ (s : Service). s.id) services)) (combined_ids services)
unfolding combined_ids
services-Settled [] d h = unfold numbers in (tt, tt, λ s f. tt)
services-Settled (s ∷ services) d h =
    let own : List ℕ = numbers (s.id ∷ []) in
    let later : List ℕ = numbers (map (λ (s : Service). s.id) services) in
    let split : Distinct (own ++ later) =
      rw (sym (numbers-cons s.id (map (λ (s : Service). s.id) services))) d in
    let rest : Settled later (combined_ids services) =
      services-Settled services (Distinct-right own later split) h.1 in
    rw (numbers-cons s.id (map (λ (s : Service). s.id) services))
      (Settled-more own s.rpcs later (combined_ids services) split h.0.0 h.0.1 h.0.2 rest)

-- If a specification passes the check without an error, no two of its RPCs that have a number, in
-- services that have one, have the same 16-bit identifier, and every one of these is above 256 and
-- fits 16 bits.
pub combined_ids-Distinct :
    (strict : Bool) (spec : Spec)
    → (validate strict spec).errors ≡ []
    → Distinct (combined_ids spec.services) × All IsRequestId (combined_ids spec.services)
combined_ids-Distinct strict spec h =
    let checks = validate-services strict spec h in
    let ids : Settled (numbers (map (λ (s : Service). s.id) spec.services))
        (combined_ids spec.services) =
      services-Settled spec.services checks.0 checks.1 in
    (ids.0, ids.1)
