-- ===== src/Validator/Unique/Distinct.antt =====
-- What it means that no identifier of a list is reported as a duplicate.
use windrpc.Base.{
  ℕ, ◌≡◌, ◌≢◌, refl, Bool, true, false, Option, none, some, List, [], ◌∷◌, ◌++◌, arith, any, All,
  Bool-cases, inl, inr,
}
use windrpc.Spec.{pos, negsuc, Scalar, int, text}
use windrpc.Validator.Fault.{Faults, fault_if, duplicate_id}
use windrpc.Validator.Unique.{scalar_eq, repeats, check_ids}

abbrev pub Fresh : ℕ → List ℕ → Type 0
Fresh n = All (λ m. m ≢ n)

abbrev pub Distinct : List ℕ → Type 0
Distinct [] = Unit
Distinct (n ∷ ns) = Fresh n ns × Distinct ns

-- the natural numbers among the values of a key
unfoldable pub numbers : List (Option Scalar) → List ℕ
numbers [] = []
numbers (none ∷ ids) = numbers ids
numbers (some (text t) ∷ ids) = numbers ids
numbers (some (int (negsuc n)) ∷ ids) = numbers ids
numbers (some (int (pos n)) ∷ ids) = n ∷ numbers ids

pub append-eq-nil {ℓ} : {A : Type ℓ} (xs ys : List A) → xs ++ ys ≡ [] → (xs ≡ []) × (ys ≡ [])
append-eq-nil [] ys h = (refl, h)
append-eq-nil (x ∷ xs) ys h = cc

-- `n` is among the values seen
abbrev Seen : ℕ → List Scalar → Type 0
Seen n seen = any (scalar_eq (int (pos n))) seen ≡ true

Seen-more : (n : ℕ) (v : Scalar) (seen : List Scalar) → Seen n seen → Seen n (v ∷ seen)
Seen-more n v seen h = elim (Bool-cases (scalar_eq (int (pos n)) v)) [
  | inl e ↦ rw e
  | inr e ↦ rw (e, h)
]

Seen-self : (n : ℕ) (seen : List Scalar) → Seen n (int (pos n) ∷ seen)
Seen-self n seen = unfold scalar_eq in ground arith

Seen-ne :
    (n m : ℕ) (seen : List Scalar)
    → any (scalar_eq (int (pos n))) seen ≡ false
    → Seen m seen
    → n ≢ m
Seen-ne n m seen h s e = cc (rw e at h)

pub fault_if-nil : (b : Bool) (f : windrpc.Validator.Fault.Fault) → fault_if b f ≡ [] → b ≡ false
fault_if-nil true f h = cc
fault_if-nil false f h = refl

repeats-Distinct :
    (seen : List Scalar) (ids : List (Option Scalar))
    → repeats scalar_eq duplicate_id seen ids ≡ []
    → Distinct (numbers ids) × ((n : ℕ) → Seen n seen → Fresh n (numbers ids))
unfolding repeats numbers
repeats-Distinct seen [] h = (tt, λ n s. tt)
repeats-Distinct seen (none ∷ ids) h = repeats-Distinct seen ids h
repeats-Distinct seen (some (text t) ∷ ids) h =
    let rest = repeats-Distinct (text t ∷ seen) ids (append-eq-nil _ _ h).1 in
    (rest.0, λ n s. rest.1 n (Seen-more n (text t) seen s))
repeats-Distinct seen (some (int (negsuc k)) ∷ ids) h =
    let rest = repeats-Distinct (int (negsuc k) ∷ seen) ids (append-eq-nil _ _ h).1 in
    (rest.0, λ n s. rest.1 n (Seen-more n (int (negsuc k)) seen s))
repeats-Distinct seen (some (int (pos k)) ∷ ids) h =
    let rest = repeats-Distinct (int (pos k) ∷ seen) ids (append-eq-nil _ _ h).1 in
    let new = fault_if-nil (any (scalar_eq (int (pos k))) seen) _ (append-eq-nil _ _ h).0 in
    (
      (rest.1 k (Seen-self k seen), rest.0),
      λ n s. (Seen-ne k n seen new s, rest.1 n (Seen-more n (int (pos k)) seen s)),
    )

-- The numbers of a list without a duplicate identifier are different.
pub check_ids-Distinct : (ids : List (Option Scalar)) → check_ids ids ≡ [] → Distinct (numbers ids)
check_ids-Distinct ids h = (repeats-Distinct [] ids (unfold check_ids in h)).0
