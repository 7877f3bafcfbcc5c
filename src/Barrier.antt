-- ===== src/Barrier.antt =====
-- handle_barrier of animate-platform/rpc_handlers.c: its run up to the wait, and threads that wait at
-- the barrier of one canvas. pthread_cond_wait gives up registry_lock, so a handler is two kinds of step:
-- the arrival, and each test of the loop after a wake.
pub mod Rounds
pub mod Stall
use pointerpro_animate.Base.{
  ℕ, zero, suc, ◌+◌, ◌≡◌, Bool, true, false, Option, none, some, List, [], ◌∷◌, ◌++◌, ltb, leb,
  if◌then◌else◌,
}
use pointerpro_animate.Text.{Text}
use pointerpro_animate.Session.{Session}
use pointerpro_animate.Registry.{
  CanvasNode, Registry, find_canvas_node, client_has_canvas_access, update_canvas_node,
}
use pointerpro_animate.Rpc.{
  Server, Result, ok, answer, crash, Handler, ◌>>=◌, ◌>>◌, value_error, success, respond,
  or_respond, ensure, get_registry, put_registry, next_argument, handle_argument,
}

-- The loop over active_sessions.
unfoldable pub expected_active_sharers : CanvasNode → List Session → ℕ
expected_active_sharers n [] = 0
expected_active_sharers n (s ∷ sessions) =
    let others = expected_active_sharers n sessions in
    if s.active
    then (if client_has_canvas_access n s.username then others + 1 else others)
    else others

-- An arrival: the count after it, and whether it completes the round and wakes all.
unfoldable pub arrive : (expected count : ℕ) → ℕ × Bool
arrive expected count = if leb expected (count + 1) then (0, true) else (count + 1, false)

-- The test of the loop: dynamic_wait_generation stays 1.
unfoldable pub must_wait : ℕ → Bool
must_wait count = ltb 0 count

-- Up to the broadcast (true) or the first wait (false).
unfoldable pub handle_barrier :
    {L : Type 0} → List Session → (username saveptr : Text) → Handler (Server L) Bool
unfolding arrive
handle_barrier sessions username saveptr = do
  (canvas_handle_str, rest) ← next_argument saveptr
  canvas_address ← or_respond (handle_argument canvas_handle_str) value_error
  r ← get_registry
  target_node ← or_respond (find_canvas_node canvas_address r.canvases) value_error
  ensure (client_has_canvas_access target_node username) value_error
  let arrived =
      arrive (expected_active_sharers target_node sessions) target_node.barrier_arrived_count
  put_registry (record r {
    canvases =
        update_canvas_node canvas_address (record target_node { barrier_arrived_count = arrived.0 })
          r.canvases;
  })
  ok arrived.1

-- A call of handle_barrier: its thread, and the number of rounds that were complete when it arrived.
pub record Caller : Type 0 where
  pub thread : ℕ
  pub round : ℕ

-- The barrier of a canvas: barrier_arrived_count, the callers that sleep on barrier_cond, those that
-- are awake and have yet to test, and those that have passed. `arrivals` counts all arrivals, and
-- `rounds` the complete rounds; the code keeps neither.
pub record Barrier : Type 0 where
  pub count : ℕ
  pub waiting : List Caller
  pub woken : List Caller
  pub passed : List Caller
  pub arrivals : ℕ
  pub rounds : ℕ

abbrev pub caller : ℕ → Barrier → Caller
caller t s = record { thread = t; round = s.rounds }

unfoldable pub start : Barrier
start = record { count = 0; waiting = []; woken = []; passed = []; arrivals = 0; rounds = 0 }

-- A step of a thread `t`, while `expected` users of the canvas are logged in. pthread_cond_broadcast
-- wakes all that sleep; a sleeping thread may wake for no reason, too.
pub data Step (expected : ℕ) : Barrier → Barrier → Type 0 where
  completes :
      {s : Barrier} (t : ℕ)
      → (arrive expected s.count).1 ≡ true
      → Step expected s (record {
        count = (arrive expected s.count).0;
        waiting = [];
        woken = s.woken ++ s.waiting;
        passed = caller t s ∷ s.passed;
        arrivals = s.arrivals + 1;
        rounds = s.rounds + 1;
      })
  sleeps :
      {s : Barrier} (t : ℕ)
      → (arrive expected s.count).1 ≡ false
      → Step expected s (record s {
        count = (arrive expected s.count).0;
        waiting = caller t s ∷ s.waiting;
        arrivals = s.arrivals + 1;
      })
  passes :
      {s : Barrier} (before : List Caller) (t : Caller) (others : List Caller)
      → s.woken ≡ before ++ t ∷ others
      → must_wait s.count ≡ false
      → Step expected s (record s { woken = before ++ others; passed = t ∷ s.passed })
  sleeps_again :
      {s : Barrier} (before : List Caller) (t : Caller) (others : List Caller)
      → s.woken ≡ before ++ t ∷ others
      → must_wait s.count ≡ true
      → Step expected s (record s { woken = before ++ others; waiting = t ∷ s.waiting })
  wakes :
      {s : Barrier} (before : List Caller) (t : Caller) (others : List Caller)
      → s.waiting ≡ before ++ t ∷ others
      → Step expected s (record s { waiting = before ++ others; woken = t ∷ s.woken })

-- Any number of steps.
pub data Steps (expected : ℕ) : Barrier → Barrier → Type 0 where
  done : {s : Barrier} → Steps expected s s
  next : {s t u : Barrier} → Steps expected s t → Step expected t u → Steps expected s u
