-- ===== src/Client/Session/Laws.antt =====
-- What settling a request does to the dict of pending requests and to the futures.
use windrpc.Base.{
  ℕ, zero, suc, ◌<◌, ◌≡◌, ◌≢◌, refl, ap, none, some, List, [], ◌∷◌, ◌++◌, arith, ◌==◌,
  if◌then◌else◌, length, get_elem?,
}
use windrpc.Base.Dict.{get, get-pop}
use windrpc.Client.Session.{WindRpcClient, Future, waiting, settle, complete}

pub length-settle : (fut : ℕ) (o : Future) (fs : List Future) → length (settle fut o fs) ≡ length fs
unfolding settle
length-settle fut o [] = refl
length-settle zero o (waiting ∷ fs) = refl
length-settle zero o (f ∷ fs) = refl
length-settle (suc fut) o (f ∷ fs) = ap suc (length-settle fut o fs)

pub settle_self :
    (fut : ℕ) (o : Future) (fs : List Future)
    → get_elem? fs fut ≡ some waiting
    → get_elem? (settle fut o fs) fut ≡ some o
unfolding settle
settle_self fut o [] h = cc
settle_self zero o (waiting ∷ fs) h = refl
settle_self zero o (f ∷ fs) h = cc
settle_self (suc fut) o (f ∷ fs) h = settle_self fut o fs h

-- A future that does not wait keeps its outcome.
pub settle_done :
    (fut i : ℕ) (o f : Future) (fs : List Future)
    → get_elem? fs i ≡ some f
    → f ≢ waiting
    → get_elem? (settle fut o fs) i ≡ some f
unfolding settle
settle_done fut i o f [] h w = cc
settle_done zero zero o f (waiting ∷ fs) h w = absurd (w (cc))
settle_done zero zero o f (g ∷ fs) h w = h
settle_done zero (suc i) o f (waiting ∷ fs) h w = h
settle_done zero (suc i) o f (g ∷ fs) h w = h
settle_done (suc fut) zero o f (g ∷ fs) h w = h
settle_done (suc fut) (suc i) o f (g ∷ fs) h w = settle_done fut i o f fs h w

pub settle_ne :
    (fut i : ℕ) (o : Future) (fs : List Future)
    → fut ≢ i
    → get_elem? (settle fut o fs) i ≡ get_elem? fs i
unfolding settle
settle_ne fut i o [] h = refl
settle_ne zero zero o (f ∷ fs) h = absurd (h refl)
settle_ne zero (suc i) o (waiting ∷ fs) h = refl
settle_ne zero (suc i) o (f ∷ fs) h = refl
settle_ne (suc fut) zero o (f ∷ fs) h = refl
settle_ne (suc fut) (suc i) o (f ∷ fs) h = settle_ne fut i o fs (λ e. h (ap suc e))

pub get_elem?-append_last {ℓ} :
    {A : Type ℓ} (xs : List A) (a : A) → get_elem? (xs ++ a ∷ []) (length xs) ≡ some a
get_elem?-append_last [] a = refl
get_elem?-append_last (x ∷ xs) a = get_elem?-append_last xs a

pub get_elem?-append_left {ℓ} :
    {A : Type ℓ} (xs ys : List A) (i : ℕ) → i < length xs → get_elem? (xs ++ ys) i ≡ get_elem? xs i
get_elem?-append_left [] ys i h = absurd (omega arith)
get_elem?-append_left (x ∷ xs) ys zero h = refl
get_elem?-append_left (x ∷ xs) ys (suc i) h = get_elem?-append_left xs ys i (omega arith)

module _ (seq_id : ℕ) (o : Future) (c : WindRpcClient) where
  pub rx_buffer-complete : (complete seq_id o c).rx_buffer ≡ c.rx_buffer
  unfolding complete
  rx_buffer-complete = ground arith

  pub next_seq_id-complete : (complete seq_id o c).next_seq_id ≡ c.next_seq_id
  unfolding complete
  next_seq_id-complete = ground arith

  -- A completed sequence number is no longer pending, and the others are as before.
  pub get-complete :
      (j : ℕ)
      → get j (complete seq_id o c).pending_requests
        ≡ (if seq_id == j then none else get j c.pending_requests)
  unfolding complete
  get-complete j = ground (arith, get-pop seq_id j c.pending_requests)

  pub futures-complete :
      (fut time : ℕ)
      → get seq_id c.pending_requests ≡ some (fut, time)
      → (complete seq_id o c).futures ≡ settle fut o c.futures
  futures-complete fut time h = unfold complete in rw h

  pub complete_unknown : get seq_id c.pending_requests ≡ none → complete seq_id o c ≡ c
  complete_unknown h = unfold complete in rw h
