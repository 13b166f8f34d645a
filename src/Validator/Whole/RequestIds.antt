-- ===== src/Validator/Whole/RequestIds.antt =====
-- The 16-bit identifiers of the RPCs of a specification whose numbers are bytes and different.
use windrpc.Base.{
  ℕ, ◌/◌, ◌≤◌, ◌<◌, ◌≡◌, ◌≢◌, sym, ap, ◌∙◌, List, [], ◌∷◌, ◌++◌, map, arith, All, All-append,
}
use windrpc.Spec.{Rpc, Service, combined_id}
use windrpc.Spec.Ids.{combined_id_lem, combined_id-injective}
use windrpc.Validator.Unique.Distinct.{Fresh, Distinct, numbers}

-- the identifiers of a service's requests, for the service number `s`
unfoldable pub rpc_ids : ℕ → List ℕ → List ℕ
rpc_ids s [] = []
rpc_ids s (r ∷ rs) = combined_id s r ∷ rpc_ids s rs

unfoldable pub service_rpc_ids : List ℕ → List Rpc → List ℕ
service_rpc_ids [] rpcs = []
service_rpc_ids (s ∷ _) rpcs = rpc_ids s (numbers (map (λ (r : Rpc). r.id) rpcs))

-- the 16-bit identifiers of all RPCs whose service and own number are there
unfoldable pub combined_ids : List Service → List ℕ
combined_ids [] = []
combined_ids (s ∷ services) = service_rpc_ids (numbers (s.id ∷ [])) s.rpcs ++ combined_ids services

abbrev pub IsByte : ℕ → Type 0
IsByte n = (1 ≤ n) × (n ≤ 255)

-- a number of 16 bits that is above 256
abbrev pub IsRequestId : ℕ → Type 0
IsRequestId n = (256 < n) × (n < 65536)

combined-Fresh :
    (s r : ℕ) (rs : List ℕ)
    → IsByte r
    → All IsByte rs
    → Fresh r rs
    → Fresh (combined_id s r) (rpc_ids s rs)
unfolding rpc_ids
combined-Fresh s r [] h hs f = tt
combined-Fresh s r (r' ∷ rs) h hs f = (
  (λ e. f.0 (combined_id-injective s r' s r (omega arith) (omega arith) e).1),
  combined-Fresh s r rs h hs.1 f.1,
)

rpc_ids-Distinct : (s : ℕ) (rs : List ℕ) → All IsByte rs → Distinct rs → Distinct (rpc_ids s rs)
unfolding rpc_ids
rpc_ids-Distinct s [] h d = tt
rpc_ids-Distinct s (r ∷ rs) h d = (combined-Fresh s r rs h.0 h.1 d.0, rpc_ids-Distinct s rs h.1 d.1)

rpc_ids-All :
    (s : ℕ) (rs : List ℕ)
    → IsByte s
    → All IsByte rs
    → All (λ n. (n / 256 ≡ s) × IsRequestId n) (rpc_ids s rs)
unfolding rpc_ids
rpc_ids-All s [] h hs = tt
rpc_ids-All s (r ∷ rs) h hs = (omega (arith, combined_id_lem s r), rpc_ids-All s rs h hs.1)

pub All-right : {A : Type 0} (P : A → Type 0) (xs ys : List A) → All P (xs ++ ys) → All P ys
All-right P [] ys h = h
All-right P (x ∷ xs) ys h = All-right P xs ys h.1

-- no number of the list has the high byte `s`
abbrev pub Apart : ℕ → List ℕ → Type 0
Apart s = All (λ n. n / 256 ≢ s)

pub Apart-Fresh : (n : ℕ) (ns : List ℕ) → Apart (n / 256) ns → Fresh n ns
Apart-Fresh n [] h = tt
Apart-Fresh n (m ∷ ns) h = ((λ e. h.0 (ap (λ k. k / 256) e)), Apart-Fresh n ns h.1)

Distinct-append :
    (s : ℕ) (ns ms : List ℕ)
    → Distinct ns
    → All (λ n. (n / 256 ≡ s) × IsRequestId n) ns
    → Apart s ms
    → Distinct ms
    → Distinct (ns ++ ms)
Distinct-append s [] ms d h a e = e
Distinct-append s (n ∷ ns) ms d h a e = (
  All-append (λ m. m ≢ n) ns ms d.0 (Apart-Fresh n ms (rw h.0.0 a)),
  Distinct-append s ns ms d.1 h.1 a e,
)

high-Apart :
    (s t : ℕ) (ns : List ℕ) → t ≢ s → All (λ n. (n / 256 ≡ t) × IsRequestId n) ns → Apart s ns
high-Apart s t [] ne h = tt
high-Apart s t (n ∷ ns) ne h = ((λ e. ne (sym h.0.0 ∙ e)), high-Apart s t ns ne h.1)

weaken : (s : ℕ) (ns : List ℕ) → All (λ n. (n / 256 ≡ s) × IsRequestId n) ns → All IsRequestId ns
weaken s [] h = tt
weaken s (n ∷ ns) h = (h.0.1, weaken s ns h.1)

-- what holds of the identifiers of some services, whose numbers are `ids`
abbrev pub Settled : List ℕ → List ℕ → Type 0
Settled ids ns = Distinct ns × All IsRequestId ns × ((s : ℕ) → Fresh s ids → Apart s ns)

pub Settled-more :
    (ids : List ℕ) (rpcs : List Rpc) (later ns : List ℕ)
    → Distinct (ids ++ later)
    → All IsByte ids
    → All IsByte (numbers (map (λ (r : Rpc). r.id) rpcs))
    → Distinct (numbers (map (λ (r : Rpc). r.id) rpcs))
    → Settled later ns
    → Settled (ids ++ later) (service_rpc_ids ids rpcs ++ ns)
unfolding service_rpc_ids
Settled-more [] rpcs later ns d hi hr dr rest = rest
Settled-more (i ∷ ids) rpcs later ns d hi hr dr rest =
    let rs : List ℕ = numbers (map (λ (r : Rpc). r.id) rpcs) in
    let own : All (λ n. (n / 256 ≡ i) × IsRequestId n) (rpc_ids i rs) = rpc_ids-All i rs hi.0 hr in
    let apart : Apart i ns = rest.2 i (All-right (λ m. m ≢ i) ids later d.0) in
    (
      Distinct-append i (rpc_ids i rs) ns (rpc_ids-Distinct i rs hr dr) own apart rest.0,
      All-append IsRequestId (rpc_ids i rs) ns (weaken i (rpc_ids i rs) own) rest.1,
      λ s f.
          All-append (λ n. n / 256 ≢ s) (rpc_ids i rs) ns (high-Apart s i (rpc_ids i rs) f.0 own)
            (rest.2 s (All-right (λ m. m ≢ s) ids later f.1)),
    )
