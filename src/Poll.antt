-- ===== src/Poll.antt =====
-- The array active_sessions in the main loop of animate-platform/animate_server.c: new clients, the
-- descriptors that poll watches and the handling of those that are readable; and
-- cleanup_inactive_sessions of animate-platform/session.c. A session is at an address; `none` is
-- undefined behaviour, such as an access to a session that is freed.
pub mod Compact
pub mod Cleanup
pub mod Stale
pub mod Reads
pub mod Rounds
pub mod Accept
pub mod Reach
pub mod Safe
pub mod Tasks
use pointerpro_animate.Base.{
  ℕ, zero, suc, ◌+◌, Bool, true, false, Option, none, some, List, [], ◌∷◌, ◌++◌, ◌==◌,
  if◌then◌else◌, length, take, set, get_elem?,
}
use pointerpro_animate.Text.{Text}
use pointerpro_animate.Session.{Session, new_session}
use pointerpro_animate.Input.{Request, on_readable, disconnect_client}

abbrev pub Heap : Type 0
Heap = ℕ → Option Session

-- `slots` is the memory of active_sessions, of which the first `count` entries are in use
-- (session_count).
pub record Table : Type 0 where
  pub slots : List ℕ
  pub count : ℕ
  pub sessions : Heap

abbrev pub write_to : ℕ → Option Session → Heap → Heap
write_to p v h q = if q == p then v else h q

-- The loop that fills session_indices: the positions of the active sessions, from position `i` on.
unfoldable pub monitored : Heap → ℕ → List ℕ → Option (List ℕ)
monitored h i [] = some []
monitored h i (p ∷ ps) = elim (h p) [
  | none ↦ none
  | some s ↦ elim (monitored h (suc i) ps) [
    | none ↦ none
    | some rest ↦ some (if s.active then i ∷ rest else rest)
  ]
]

-- What poll is asked to watch.
unfoldable pub session_indices : Table → Option (List ℕ)
unfolding monitored
session_indices t = monitored t.sessions 0 (take t.count t.slots)

-- The loop of cleanup_inactive_sessions, with the rounds left, i and write_idx.
unfoldable pub cleanup_loop : (rounds i write_idx : ℕ) → List ℕ → Heap → Option Table
cleanup_loop zero i write_idx slots h =
    some (record { slots = slots; count = write_idx; sessions = h })
cleanup_loop (suc rounds) i write_idx slots h = elim (get_elem? slots i) [
  | none ↦ none
  | some p ↦ elim (h p) [
    | none ↦ none
    | some s ↦ elim s.active [
      | true ↦ cleanup_loop rounds (suc i) (suc write_idx) (set slots write_idx p) h
      | false ↦ cleanup_loop rounds (suc i) write_idx slots (write_to p none h)
    ]
  ]
]

unfoldable pub cleanup_inactive_sessions : Table → Option Table
unfolding cleanup_loop
cleanup_inactive_sessions t = cleanup_loop t.count 0 0 t.slots t.sessions

-- The requests of the session at this address, as queue_push gets them.
unfoldable pub tagged : ℕ → List Request → List (ℕ × Request)
tagged p [] = []
tagged p (request ∷ requests) = (p, request) ∷ tagged p requests

-- The client's bytes, as read gives them for each session; `none` is a failure of read.
unfoldable pub read_client :
    (ℕ → Option Text) → (p : ℕ) → (session : Session) → Table → List (ℕ × Request) × Table
unfolding tagged
read_client bytes p session t = elim (bytes p) [
  | none ↦ ([], t)
  | some read ↦ (
    tagged p (on_readable read session).0,
    record t { sessions = write_to p (some (on_readable read session).1) t.sessions },
  )
]

-- The handling of a descriptor that poll found readable, where session_indices has `i`.
unfoldable pub handle_readable : (ℕ → Option Text) → ℕ → Table → Option (List (ℕ × Request) × Table)
handle_readable bytes i t = elim (get_elem? t.slots i) [
  | none ↦ none
  | some p ↦ elim (t.sessions p) [ none ↦ none | some s ↦ some (read_client bytes p s t) ]
]

-- The loop over the descriptors, of which poll found those of `ready` readable.
unfoldable pub handle_ready :
    (ready : ℕ → Bool)
    → (ℕ → Option Text)
    → (indices : List ℕ) → Table
    → Option (List (ℕ × Request) × Table)
unfolding handle_readable
handle_ready ready bytes [] t = some ([], t)
handle_ready ready bytes (i ∷ indices) t =
    elim (if ready i then handle_readable bytes i t else some ([], t)) [
      | none ↦ none
      | some (requests, t') ↦ elim (handle_ready ready bytes indices t') [
        | none ↦ none
        | some (later, u) ↦ some (requests ++ later, u)
      ]
    ]

-- A round of the main loop without a new client, with memory for the descriptors. While poll waits, and sessions_lock is free, the
-- workers change the table.
unfoldable pub poll_round :
    (ready : ℕ → Bool)
    → (ℕ → Option Text)
    → (workers : Table → Table) → Table
    → Option (List (ℕ × Request) × Table)
unfolding session_indices cleanup_inactive_sessions handle_ready
poll_round ready bytes workers t = elim (session_indices t) [
  | none ↦ none
  | some indices ↦
      if length indices == 0 then some ([], t) else elim (cleanup_inactive_sessions (workers t)) [
        | none ↦ none
        | some u ↦ handle_ready ready bytes indices u
      ]
]

-- The loop that disconnects the clients whose process does not exist any more.
unfoldable pub disconnect_dead : (ℕ → Bool) → List ℕ → Heap → Option Heap
disconnect_dead exists [] h = some h
disconnect_dead exists (p ∷ ps) h = elim (h p) [
  | none ↦ none
  | some s ↦
      disconnect_dead exists ps
        (if exists s.client_pid then h else write_to p (some (disconnect_client s)) h)
]

-- What a new client's request comes to: the session is in the array, or realloc or malloc has failed,
-- and sessions_lock is never given back.
pub data Accepted : Type 0 where
  accepted : Table → Accepted
  locked : Table → Accepted

-- realloc gives one entry more than there are sessions. `address` is where malloc puts the new
-- session.
unfoldable pub accept_client :
    (enlarged : Bool)
    → (address : Option ℕ) → (exists : ℕ → Bool) → (pid : ℕ) → (garbage : Text) → Table
    → Option Accepted
unfolding disconnect_dead
accept_client false address exists pid garbage t = some (locked t)
accept_client true address exists pid garbage t =
    elim (disconnect_dead exists (take t.count t.slots) t.sessions) [
      | none ↦ none
      | some h ↦ elim address [
        | none ↦ some (locked (record t { slots = take (t.count + 1) t.slots; sessions = h }))
        | some p ↦ some (
            accepted (record {
              slots = take t.count t.slots ++ p ∷ [];
              count = t.count + 1;
              sessions = write_to p (some (new_session pid garbage)) h;
            }))
      ]
    ]
