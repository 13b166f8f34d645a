-- ===== src/Client/Session/Sequence.antt =====
-- The sequence numbers that `_get_next_seq_id` hands out.
use windrpc.Base.{ℕ, zero, suc, ◌+◌, ◌-◌, ◌%◌, ◌≤◌, ◌<◌, ◌≡◌, ◌≢◌, arith}
use windrpc.Client.Session.{WindRpcClient, get_next_seq_id}

-- the client behind `n` calls
pub calls_later : ℕ → WindRpcClient → WindRpcClient
calls_later zero c = c
calls_later (suc n) c = calls_later n (get_next_seq_id c).1

-- the number that the call behind `n` others gives
pub seq_id_of : ℕ → WindRpcClient → ℕ
seq_id_of n c = (get_next_seq_id (calls_later n c)).0

pub get_next_seq_id_range :
    (c : WindRpcClient)
    → 1 ≤ c.next_seq_id
    → c.next_seq_id ≤ 65535
    → (1 ≤ (get_next_seq_id c).1.next_seq_id) × ((get_next_seq_id c).1.next_seq_id ≤ 65535)
unfolding get_next_seq_id
get_next_seq_id_range c lo hi = omega arith

-- The numbers count up from the first, and start again from 1 behind 65535.
seq_id_of_lem :
    (n : ℕ) (c : WindRpcClient)
    → 1 ≤ c.next_seq_id
    → c.next_seq_id ≤ 65535
    → seq_id_of n c ≡ (c.next_seq_id - 1 + n) % 65535 + 1
seq_id_of_lem zero c lo hi = unfold seq_id_of calls_later get_next_seq_id in omega arith
seq_id_of_lem (suc n) c lo hi = shift (seq_id_of_lem n (get_next_seq_id c).1 range.0 range.1)
  where
    range : (1 ≤ (get_next_seq_id c).1.next_seq_id) × ((get_next_seq_id c).1.next_seq_id ≤ 65535)
    range = get_next_seq_id_range c lo hi

    shift :
        seq_id_of n (get_next_seq_id c).1 ≡ ((get_next_seq_id c).1.next_seq_id - 1 + n) % 65535 + 1
        → seq_id_of (suc n) c ≡ (c.next_seq_id - 1 + suc n) % 65535 + 1
    shift e = unfold seq_id_of calls_later get_next_seq_id in omega arith

-- From a client whose next number is between 1 and 65535, every number handed out is too (zero
-- stands for notifications), and any 65535 calls in a row hand out different numbers.
pub seq_ids_distinct :
    (c : WindRpcClient) (i j : ℕ)
    → 1 ≤ c.next_seq_id
    → c.next_seq_id ≤ 65535
    → i < j
    → j < i + 65535
    → (1 ≤ seq_id_of i c) × (seq_id_of i c ≤ 65535) × (seq_id_of i c ≢ seq_id_of j c)
seq_ids_distinct c i j lo hi lt near =
    omega (arith, seq_id_of_lem i c lo hi, seq_id_of_lem j c lo hi)
