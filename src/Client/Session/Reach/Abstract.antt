-- ===== src/Client/Session/Reach/Abstract.antt =====
-- What a client promises, without bytes, frames or buffers: a table of calls.
use Prim.Native.Nat.{bit_and}
use windrpc.Base.{ℕ, ◌+◌, ◌%◌, ◌≡◌, Option, none, some, List, [], ◌∷◌, ◌==◌, ltb, if◌then◌else◌}
use windrpc.Base.Result.{Result, ok, raise, runtime_error, cancelled_error}
use windrpc.Client.Frame.{WindRpcFrame}

-- the number of the next call, the call that a number stands for, the outcome of each call, and how
-- many there are
pub record Calls : Type 0 where
  pub next_number : ℕ
  pub call_of : ℕ → Option ℕ
  pub outcome_of : ℕ → Option (Result WindRpcFrame)
  pub issued : ℕ

abbrev pub update {ℓ} : {A : Type ℓ} → (ℕ → A) → ℕ → A → ℕ → A
update f k v j = if k == j then v else f j

-- An outcome is never replaced.
abbrev pub first : Option (Result WindRpcFrame) → Result WindRpcFrame → Option (Result WindRpcFrame)
first none result = some result
first (some known) result = some known

-- Only a call that was issued gets one.
abbrev pub conclude : ℕ → Result WindRpcFrame → Calls → Calls
conclude call result a = record a {
  outcome_of =
      if ltb call a.issued
      then update a.outcome_of call (first (a.outcome_of call) result)
      else a.outcome_of;
}

abbrev pub forget : ℕ → Calls → Calls
forget seq_id a = record a { call_of = update a.call_of seq_id none }

abbrev pub skip_number : Calls → Calls
skip_number a = record a { next_number = a.next_number % 65535 + 1 }

-- a new call, which has the next number and no outcome
abbrev pub issue : Calls → Calls
issue a = record {
  next_number = a.next_number % 65535 + 1;
  call_of = update a.call_of a.next_number (some a.issued);
  outcome_of = a.outcome_of;
  issued = a.issued + 1;
}

-- the call of the number, if there is one, gets its outcome and gives up the number
answer_found : Option ℕ → ℕ → Result WindRpcFrame → Calls → Calls
answer_found none seq_id result a = a
answer_found (some call) seq_id result a = forget seq_id (conclude call result a)

unfoldable pub answer : ℕ → Result WindRpcFrame → Calls → Calls
unfolding answer_found
answer seq_id result a = answer_found (a.call_of seq_id) seq_id result a

-- a frame that arrives: a system error, a response or an event
unfoldable pub take_frame : Option WindRpcFrame → Calls → Calls
unfolding answer
take_frame none a = a
take_frame (some frame) a =
    if frame.rpc_id == 0
    then answer frame.seq_id (raise runtime_error) a
    else if bit_and frame.rpc_id 0x80 == 0
    then answer frame.seq_id (ok frame) a
    else a

-- frames that arrive, the last one first
unfoldable pub take_frames : List (Option WindRpcFrame) → Calls → Calls
unfolding take_frame
take_frames [] a = a
take_frames (frame ∷ frames) a = take_frame frame (take_frames frames a)

-- what happens: a request is made, a datagram with a frame arrives, or with none, bytes of a stream
-- arrive, the time of a call with a number is up, or a caller is cancelled
pub data Operation : Type 0 where
  sends : Operation
  arrives : Option WindRpcFrame → Operation
  streams : Operation
  gives_up : (seq_id call : ℕ) → Operation
  drops : (call : ℕ) → Operation

-- what an operation may do to a table of calls
pub data Move (a b : Calls) : Operation → Type 0 where
  issued_call : b ≡ issue a → Move a b sends
  not_packed : b ≡ skip_number a → Move a b sends
  arrived : (frame : Option WindRpcFrame) → b ≡ take_frame frame a → Move a b (arrives frame)
  streamed : (frames : List (Option WindRpcFrame)) → b ≡ take_frames frames a → Move a b streams
  gave_up :
      (seq_id call : ℕ)
      → a.outcome_of call ≡ none
      → b ≡ forget seq_id (conclude call (raise cancelled_error) a)
      → Move a b (gives_up seq_id call)
  too_late :
      (seq_id call : ℕ) (result : Result WindRpcFrame)
      → a.outcome_of call ≡ some result
      → b ≡ a
      → Move a b (gives_up seq_id call)
  dropped : (call : ℕ) → b ≡ conclude call (raise cancelled_error) a → Move a b (drops call)

-- operations in a row, the last one first
pub data Moves (a : Calls) : List Operation → Calls → Type 0 where
  none_yet : Moves a [] a
  then_move :
      {os : List Operation} {b c : Calls} (o : Operation)
      → Moves a os b
      → Move b c o
      → Moves a (o ∷ os) c
