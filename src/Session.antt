-- ===== src/Session.antt =====
-- client_session_t of animate-platform/shared.h and send_ordered_response of
-- animate-platform/session.c. A session's descriptor fd_s2c is the list of the texts written to it;
-- disconnect_client closes it, and a write after that reaches nobody.
-- The response lock makes a call of send_ordered_response one step.
pub mod Order
pub mod Delivery
use pointerpro_animate.Base.{
  ℕ, zero, suc, ◌+◌, ◌-◌, ◌%◌, ◌^◌, Bool, true, false, Option, none, some, List, [], ◌∷◌, ◌++◌, ltb,
  leb, if◌then◌else◌, length, set, take, replicate, get_elem?,
}
use pointerpro_animate.Text.{Text}

-- `read_len` is the length of `read_buf`, and `pending_capacity` the length of `pending_responses`; `none` in it is NULL.
pub record Session : Type 0 where
  pub client_pid : ℕ
  pub username : Text
  pub active : Bool
  pub read_buf : Text
  pub next_ticket : ℕ
  pub pending_responses : List (Option Text)
  pub next_response_ticket : ℕ
  pub written : List Text

-- The session that the server's main loop makes for a new client. malloc leaves the user name as it
-- finds it: `garbage`.
unfoldable pub new_session : ℕ → Text → Session
new_session pid garbage = record {
  client_pid = pid;
  username = garbage;
  active = true;
  read_buf = [];
  next_ticket = 0;
  pending_responses = [];
  next_response_ticket = 0;
  written = [];
}

-- pending[i], and NULL beyond the capacity.
abbrev or_null : Option (Option Text) → Option Text
or_null none = none
or_null (some v) = v

unfoldable pub slot : List (Option Text) → ℕ → Option Text
slot pending i = or_null (get_elem? pending i)

-- realloc to `capacity` entries, the new ones set to NULL.
unfoldable pub resize : ℕ → List (Option Text) → List (Option Text)
resize capacity pending = take capacity pending ++ replicate (capacity - length pending) none

-- `size_t new_capacity = ticket + 8` is computed in uint32_t.
abbrev pub new_capacity : ℕ → ℕ
new_capacity ticket = (ticket + 8) % 2 ^ 32

-- The while loop: write and drop the responses that are next in order. next_response_ticket stays
-- below the capacity before it is raised, and the capacity below 2^32, so it does not wrap around.
-- The loop goes on as long as there are entries, so their number is fuel enough.
unfoldable pub flush : ℕ → Session → Session
unfolding slot
flush zero s = s
flush (suc fuel) s = elim (slot s.pending_responses s.next_response_ticket) [
  | none ↦ s
  | some current ↦ flush fuel (record s {
    pending_responses = set s.pending_responses s.next_response_ticket none;
    next_response_ticket = s.next_response_ticket + 1;
    written = if s.active then s.written ++ current ∷ [] else s.written;
  })
]

-- pending[ticket] = strdup(response) and the loop; `none` is a write beyond the array.
unfoldable pub store_and_flush : ℕ → Option Text → Session → Option Session
unfolding flush
store_and_flush ticket response s =
    if ltb ticket (length s.pending_responses)
    then some (
        flush (length s.pending_responses)
          (record s { pending_responses = set s.pending_responses ticket response }))
    else none

-- What the allocator answers in one call.
pub record Memory : Type 0 where
  pub realloc : Bool
  pub strdup : Bool

unfoldable pub duplicate : Memory → Text → Option Text
duplicate memory response = if memory.strdup then some response else none

unfoldable pub send_ordered_response : Memory → ℕ → Text → Session → Option Session
unfolding store_and_flush resize duplicate
send_ordered_response memory ticket response s =
    if leb (length s.pending_responses) ticket
    then if memory.realloc
      then store_and_flush ticket (duplicate memory response)
          (record s { pending_responses = resize (new_capacity ticket) s.pending_responses })
      else some s
    else store_and_flush ticket (duplicate memory response) s
