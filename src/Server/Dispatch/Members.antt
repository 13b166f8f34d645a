-- ===== src/Server/Dispatch/Members.antt =====
-- Which identifiers have a row in the dispatch table.
use windrpc.Base.{
  ℕ, ◌≡◌, ◌≢◌, ◌<◌, refl, sym, ap, ◌∙◌, inl, inr, false, Option, none, some, List, [], ◌∷◌, ◌++◌,
  map, append_assoc, arith, All, All-append, Bool-cases,
}
use windrpc.Spec.{Scalar, int, pos, Rpc, Service, combined_id, event_id}
use windrpc.Spec.Ids.{event_ids_apart}
use windrpc.Validator.Unique.Distinct.{numbers}
use windrpc.Validator.Whole.RequestIds.{rpc_ids, service_rpc_ids, combined_ids}
use windrpc.Validator.Whole.Sound.{numbers-cons}
use windrpc.Server.Dispatch.{HandlerEntry, find_flat_handler}
use windrpc.Server.Dispatch.Rows.{ids, handled, is_common}

-- a list with an element in it
abbrev pub With : {A : Type 0} → A → List A → Type 0
With {A = A} x xs = (before : List A) × (after : List A) × (xs ≡ before ++ x ∷ after)

pub With-append_left : {A : Type 0} (x : A) (ys xs : List A) → With x xs → With x (ys ++ xs)
With-append_left x ys xs (b, a, e) =
    (ys ++ b, a, ap (λ l. ys ++ l) e ∙ sym (append_assoc ys b (x ∷ a)))

pub With-append_right : {A : Type 0} (x : A) (xs ys : List A) → With x xs → With x (xs ++ ys)
With-append_right x xs ys (b, a, e) = (b, a ++ ys, ap (λ l. l ++ ys) e ∙ append_assoc b (x ∷ a) ys)

-- the number of an RPC in the middle
numbers-With :
    (before after : List (Option Scalar)) (n : ℕ)
    → With n (numbers (before ++ some (int (pos n)) ∷ after))
numbers-With [] after n = ([], numbers after, unfold numbers in refl)
numbers-With (b ∷ before) after n = rw (numbers-cons b (before ++ some (int (pos n)) ∷ after)) (
    With-append_left n (numbers (b ∷ [])) (numbers (before ++ some (int (pos n)) ∷ after))
      (numbers-With before after n))

rpc_ids-With :
    (k n : ℕ) (before after : List ℕ) → With (combined_id k n) (rpc_ids k (before ++ n ∷ after))
unfolding rpc_ids
rpc_ids-With k n [] after = ([], rpc_ids k after, refl)
rpc_ids-With k n (m ∷ before) after =
    With-append_left (combined_id k n) (combined_id k m ∷ []) (rpc_ids k (before ++ n ∷ after))
      (rpc_ids-With k n before after)

map-split :
    (before after : List Rpc) (r : Rpc)
    → map (λ (q : Rpc). q.id) (before ++ r ∷ after)
      ≡ map (λ (q : Rpc). q.id) before ++ r.id ∷ map (λ (q : Rpc). q.id) after
map-split [] after r = refl
map-split (b ∷ before) after r = ap (λ l. b.id ∷ l) (map-split before after r)

service-With :
    (k n : ℕ) (id : Option Scalar) (rpcs earlier later : List Rpc) (r : Rpc)
    → id ≡ some (int (pos k))
    → rpcs ≡ earlier ++ r ∷ later
    → r.id ≡ some (int (pos n))
    → With (combined_id k n) (service_rpc_ids (numbers (id ∷ [])) rpcs)
unfolding service_rpc_ids numbers combined_id
service-With k n id rpcs earlier later r own split number =
    let (b, a, e) =
      numbers-With (map (λ (q : Rpc). q.id) earlier) (map (λ (q : Rpc). q.id) later) n in
    rw (own, split, map-split earlier later r, number, e) (rpc_ids-With k n b a)

-- the identifier of an RPC of a service that has rows
pub combined_ids-With :
    (k n : ℕ) (before after : List Service) (s : Service) (earlier later : List Rpc) (r : Rpc)
    → is_common s.name ≡ false
    → s.id ≡ some (int (pos k))
    → s.rpcs ≡ earlier ++ r ∷ later
    → r.id ≡ some (int (pos n))
    → With (combined_id k n) (combined_ids (handled (before ++ s ∷ after)))
unfolding combined_ids handled
combined_ids-With k n [] after s earlier later r other own split number = rw other (
    With-append_right (combined_id k n) (service_rpc_ids (numbers (s.id ∷ [])) s.rpcs)
      (combined_ids (handled after))
      (service-With k n s.id s.rpcs earlier later r own split number))
combined_ids-With k n (b ∷ before) after s earlier later r other own split number =
    let rest : With (combined_id k n) (combined_ids (handled (before ++ s ∷ after))) =
      combined_ids-With k n before after s earlier later r other own split number in
    elim (Bool-cases (is_common b.name)) [
      | inl common ↦ rw common rest
      | inr handled_too ↦ rw handled_too (
          With-append_left (combined_id k n) (service_rpc_ids (numbers (b.id ∷ [])) b.rpcs)
            (combined_ids (handled (before ++ s ∷ after))) rest)
    ]

-- a row with a given identifier
pub row-With :
    (table es : List HandlerEntry) (id : ℕ)
    → With id (ids es)
    → All (λ d. find_flat_handler d.rpc_id table ≡ some d) es
    → (d : HandlerEntry) × (find_flat_handler id table ≡ some d) × (d.rpc_id ≡ id)
row-With table [] id ([], a, e) h = absurd (cc e)
row-With table [] id (m ∷ b, a, e) h = absurd (cc e)
row-With table (d ∷ es) id ([], a, e) h =
    let same : d.rpc_id ≡ id = cc e in
    (d, ap (λ i. find_flat_handler i table) (sym same) ∙ h.0, same)
row-With table (d ∷ es) id (m ∷ b, a, e) h = row-With table es id (b, a, (cc e)) h.1

-- no row has the identifier
pub find_flat_handler-none :
    (table : List HandlerEntry) (id : ℕ)
    → All (λ m. m ≢ id) (ids table)
    → find_flat_handler id table ≡ none
unfolding find_flat_handler
find_flat_handler-none [] id h = refl
find_flat_handler-none (d ∷ table) id h = ground (arith, find_flat_handler-none table id h.1, h.0)

-- the numbers of the RPCs of a service leave bit 7 clear
abbrev pub LowNumbers : Service → Type 0
LowNumbers s = All (λ n. n < 128) (numbers (map (λ (r : Rpc). r.id) s.rpcs))

rpc_ids-apart :
    (k n k' : ℕ) (ns : List ℕ)
    → n < 128
    → All (λ m. m < 128) ns
    → All (λ m. m ≢ event_id k n) (rpc_ids k' ns)
unfolding rpc_ids
rpc_ids-apart k n k' [] low h = tt
rpc_ids-apart k n k' (m ∷ ns) low (hm, h) =
    ((λ e. (event_ids_apart k n k' m low hm).2 (sym e)), rpc_ids-apart k n k' ns low h)

service_rpc_ids-apart :
    (k n : ℕ) (ks : List ℕ) (s : Service)
    → n < 128
    → LowNumbers s
    → All (λ m. m ≢ event_id k n) (service_rpc_ids ks s.rpcs)
unfolding service_rpc_ids
service_rpc_ids-apart k n [] s low h = tt
service_rpc_ids-apart k n (k' ∷ ks) s low h =
    rpc_ids-apart k n k' (numbers (map (λ (r : Rpc). r.id) s.rpcs)) low h

-- no request has the identifier of an event
pub combined_ids-apart :
    (k n : ℕ) (ss : List Service)
    → n < 128
    → All LowNumbers ss
    → All (λ m. m ≢ event_id k n) (combined_ids (handled ss))
unfolding combined_ids handled
combined_ids-apart k n [] low h = tt
combined_ids-apart k n (s ∷ ss) low (hs, h) =
    let rest : All (λ m. m ≢ event_id k n) (combined_ids (handled ss)) =
      combined_ids-apart k n ss low h in
    elim (Bool-cases (is_common s.name)) [
      | inl common ↦ rw common rest
      | inr other ↦ rw other (
          All-append (λ m. m ≢ event_id k n) (service_rpc_ids (numbers (s.id ∷ [])) s.rpcs)
            (combined_ids (handled ss)) (service_rpc_ids-apart k n (numbers (s.id ∷ [])) s low hs)
            rest)
    ]
