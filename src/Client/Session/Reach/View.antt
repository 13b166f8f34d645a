-- ===== src/Client/Session/Reach/View.antt =====
-- What the table of calls shows of a client.
use mathlib.Core.Path.{fun_ext}
use windrpc.Base.{
  ℕ, zero, suc, ◌<◌, ◌≡◌, refl, ap, Option, none, some, List, [], ◌∷◌, ◌++◌, arith, ◌==◌,
  if◌then◌else◌, length, get_elem?, ltb, ◌≤◌, Bool-cases, inl, inr,
}
use windrpc.Base.Dict.{get}
use windrpc.Base.Result.{Result}
use windrpc.Client.Frame.{WindRpcFrame}
use windrpc.Client.Session.{WindRpcClient, Future, waiting, resolved, failed, cancelled, settle}
use windrpc.Client.Session.Request.{await_future, outcome}
use windrpc.Client.Session.Reach.Abstract.{Calls, first, conclude}

-- the call of an entry
unfoldable pub call_in : Option (ℕ × ℕ) → Option ℕ
call_in none = none
call_in (some (fut, time)) = some fut

-- what the table of calls shows of a client
unfoldable pub view : WindRpcClient → Calls
unfolding call_in
view c = record {
  next_number = c.next_seq_id;
  call_of = λ s. call_in (get s c.pending_requests);
  outcome_of = λ i. await_future i c;
  issued = length c.futures;
}

-- a client that shows the same table
pub view-eq :
    (c : WindRpcClient) (a : Calls)
    → c.next_seq_id ≡ a.next_number
    → ((s : ℕ) → call_in (get s c.pending_requests) ≡ a.call_of s)
    → ((i : ℕ) → await_future i c ≡ a.outcome_of i)
    → length c.futures ≡ a.issued
    → view c ≡ a
unfolding view
view-eq c a number calls outcomes count = λ i. record {
  next_number = number i;
  call_of = fun_ext calls i;
  outcome_of = fun_ext outcomes i;
  issued = count i;
}

settle-outcome :
    (j i : ℕ) (o : Future) (result : Result WindRpcFrame) (fs : List Future)
    → outcome (some o) ≡ some result
    → j < length fs
    → outcome (get_elem? (settle j o fs) i)
      ≡ (if j == i then first (outcome (get_elem? fs j)) result else outcome (get_elem? fs i))
unfolding settle outcome
settle-outcome j i o result [] e h = absurd (omega arith)
settle-outcome zero zero o result (waiting ∷ fs) e h = e
settle-outcome zero zero o result (resolved frame ∷ fs) e h = refl
settle-outcome zero zero o result (failed ∷ fs) e h = refl
settle-outcome zero zero o result (cancelled ∷ fs) e h = refl
settle-outcome zero (suc i) o result (waiting ∷ fs) e h = ground arith
settle-outcome zero (suc i) o result (resolved frame ∷ fs) e h = ground arith
settle-outcome zero (suc i) o result (failed ∷ fs) e h = ground arith
settle-outcome zero (suc i) o result (cancelled ∷ fs) e h = ground arith
settle-outcome (suc j) zero o result (f ∷ fs) e h = ground arith
settle-outcome (suc j) (suc i) o result (f ∷ fs) e h =
    ground (arith, settle-outcome j i o result fs e)

settle_beyond : (j : ℕ) (o : Future) (fs : List Future) → length fs ≤ j → settle j o fs ≡ fs
unfolding settle
settle_beyond j o [] h = refl
settle_beyond zero o (f ∷ fs) h = absurd (omega arith)
settle_beyond (suc j) o (f ∷ fs) h = ap (λ l. f ∷ l) (settle_beyond j o fs (omega arith))

-- settling a future is concluding its call
pub settle-conclude :
    (j i : ℕ) (o : Future) (result : Result WindRpcFrame) (c d : WindRpcClient)
    → outcome (some o) ≡ some result
    → d.futures ≡ settle j o c.futures
    → await_future i d ≡ (conclude j result (view c)).outcome_of i
unfolding await_future view
settle-conclude j i o result c d e h = elim (Bool-cases (ltb j (length c.futures))) [
  | inl issued ↦ rw (h, issued, settle-outcome j i o result c.futures e (ground arith)) refl
  | inr beyond ↦ rw (h, beyond, settle_beyond j o c.futures (ground arith)) refl
]

pub outcome_new :
    (fs : List Future) (i : ℕ)
    → outcome (get_elem? (fs ++ waiting ∷ []) i) ≡ outcome (get_elem? fs i)
unfolding outcome
outcome_new [] zero = refl
outcome_new [] (suc i) = refl
outcome_new (f ∷ fs) zero = refl
outcome_new (f ∷ fs) (suc i) = outcome_new fs i
