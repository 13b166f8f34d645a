-- ===== src/Proto/Generate/Apart.antt =====
-- No .proto file is opened twice.
use windrpc.Base.{
  Apart, ◌≡◌, ◌≢◌, refl, sym, ap, ◌∙◌, inl, inr, true, false, none, some, List, [], ◌∷◌, ◌++◌, All,
  All-append, Bool-cases, any, arith, Option, length, length-append, take,
}
use windrpc.Base.Text.{Str, str_eq, str_eq_refl}
use windrpc.Client.Frame.RoundTrip.{take-length-append}
use windrpc.Validator.Fault.{duplicate_name}
use windrpc.Validator.Unique.{repeats, check_names}
use windrpc.Validator.Unique.Distinct.{append-eq-nil, fault_if-nil}

pub Apart-left : {A : Type 0} (xs ys : List A) → Apart (xs ++ ys) → Apart xs
Apart-left [] ys h = tt
Apart-left {A} (x ∷ xs) ys h = (first xs h.0, Apart-left xs ys h.1)
  where
    first : (zs : List A) → All (λ y. x ≢ y) (zs ++ ys) → All (λ y. x ≢ y) zs
    first [] h = tt
    first (z ∷ zs) h = (h.0, first zs h.1)

pub Apart-last :
    {A : Type 0} (xs : List A) (y : A) → Apart xs → All (λ x. x ≢ y) xs → Apart (xs ++ y ∷ [])
Apart-last [] y h g = (tt, tt)
Apart-last {A} (x ∷ xs) y h g =
    (All-append (λ z. x ≢ z) xs (y ∷ []) h.0 (g.0, tt), Apart-last xs y h.1 g.1)

-- the names of the services in front of the first one without a name
unfoldable pub names_of : List (Option Str) → List Str
names_of [] = []
names_of (none ∷ names) = []
names_of (some n ∷ names) = n ∷ names_of names

Seen-ne :
    (n m : Str) (seen : List Str) → any (str_eq n) seen ≡ false → any (str_eq m) seen ≡ true → n ≢ m
Seen-ne n m seen h s e = cc (rw e at h)

repeats-Apart :
    (seen : List Str) (names : List (Option Str))
    → repeats str_eq duplicate_name seen names ≡ []
    → Apart (names_of names)
      × ((n : Str) → any (str_eq n) seen ≡ true → All (λ m. n ≢ m) (names_of names))
unfolding repeats names_of
repeats-Apart seen [] h = (tt, λ n s. tt)
repeats-Apart seen (none ∷ names) h = (tt, λ n s. tt)
repeats-Apart seen (some k ∷ names) h =
    let rest = repeats-Apart (k ∷ seen) names (append-eq-nil _ _ h).1 in
    let new = fault_if-nil (any (str_eq k) seen) _ (append-eq-nil _ _ h).0 in
    (
      (rest.1 k (rw (str_eq_refl k) refl), rest.0),
      λ n s. (
        λ e. Seen-ne k n seen new s (sym e),
        rest.1 n (elim (Bool-cases (str_eq n k)) [
          | inl same ↦ rw same refl
          | inr other ↦ rw (other, s) refl
        ]),
      ),
    )

pub check_names-Apart :
    (names : List (Option Str)) → check_names names ≡ [] → Apart (names_of names)
unfolding check_names
check_names-Apart names h = (repeats-Apart [] names h).0

pub append_cancel : (a b s : Str) → a ++ s ≡ b ++ s → a ≡ b
append_cancel a b s h =
    let same : length a ≡ length b =
      omega (arith, ap length h, length-append a s, length-append b s) in
    sym (take-length-append a s)
    ∙ ap (λ l. take (length a) l) h
    ∙ ap (λ k. take k (b ++ s)) same
    ∙ take-length-append b s
