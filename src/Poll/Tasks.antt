-- ===== src/Poll/Tasks.antt =====
-- The tasks of worker_thread_routine, each with a pointer to its session, on the table of sessions.
use pointerpro_animate.Base.{ℕ, ◌≡◌, refl, false, Option, none, some, List, ◌∷◌, ◌++◌, length}
use pointerpro_animate.Text.{Text}
use pointerpro_animate.Session.{Session, Memory}
use pointerpro_animate.Library.{Library}
use pointerpro_animate.Input.{Request}
use pointerpro_animate.Rpc.{Server}
use pointerpro_animate.Dispatch.{Environment, Context, worker_round}
use pointerpro_animate.Poll.{Table, write_to, cleanup_inactive_sessions}
use pointerpro_animate.Poll.Compact.{IsTable, cleaned, cleanup_run}
use pointerpro_animate.Poll.Stale.{freed_inactive}
use pointerpro_animate.Poll.Reads.{Written, write-Written}
use pointerpro_animate.Poll.Reach.{Reached, works, write-alive}

module _ (a : Library) where
  -- A round of a worker that has this task from the queue, with the address of the session.
  unfoldable pub worker_task :
      Environment
      → Memory
      → (task : ℕ × Request) → Table
      → Server a.State
      → Option (Table × Server a.State)
  unfolding worker_round
  worker_task env m (p, (command_line, ticket)) t server = elim (t.sessions p) [
    | none ↦ none
    | some s ↦
        elim (worker_round a env m command_line ticket (record { session = s; server = server })) [
          | none ↦ none
          | some c ↦ some (record t { sessions = write_to p (some c.session) t.sessions }, c.server)
        ]
  ]

module _ (a : Library) (env : Environment) (m : Memory) (p : ℕ) (command_line : Text) (ticket : ℕ)
    (t : Table) (server : Server a.State) where
  task_run :
      (s : Session) (c : Context a.State)
      → t.sessions p ≡ some s
      → worker_round a env m command_line ticket (record { session = s; server = server }) ≡ some c
      → worker_task a env m (p, (command_line, ticket)) t server
        ≡ some (record t { sessions = write_to p (some c.session) t.sessions }, c.server)
  unfolding worker_task
  task_run s c held run = rw (worker_task, held, run) refl

  task_freed : t.sessions p ≡ none → worker_task a env m (p, (command_line, ticket)) t server ≡ none
  unfolding worker_task
  task_freed gone = rw (worker_task, gone) refl

-- In a state that the table reaches, a worker's task names a session that is not freed, and the round
-- of the worker on this session ends. Then the task is done: the session is left as the round leaves
-- it, every other session is as before, and the table is again in a state that it reaches.
pub worker_task-Reached :
    (a : Library) (env : Environment) (m : Memory) (p : ℕ) (command_line : Text) (ticket : ℕ)
    (t : Table) (server : Server a.State) (s : Session) (c : Context a.State)
    → Reached t
    → t.sessions p ≡ some s
    → worker_round a env m command_line ticket (record { session = s; server = server }) ≡ some c
    → (t' : Table) × (worker_task a env m (p, (command_line, ticket)) t server
        ≡ some (t', c.server))
      × Reached t'
      × Written t.sessions p c.session t'.sessions
worker_task-Reached a env m p command_line ticket t server s c reached held run = (
  record t { sessions = write_to p (some c.session) t.sessions },
  task_run a env m p command_line ticket t server s c held run,
  works reached
      (record { same_slots = refl; same_count = refl; alive = write-alive t.sessions p c.session }),
  write-Written t.sessions p c.session,
)

-- Sessions stand in active_sessions at distinct addresses, and the one at the address `p` has become
-- inactive while a task in the queue still names it. Then cleanup_inactive_sessions frees it, and
-- the behaviour of the worker that takes the task is undefined, whatever the command and the state
-- of the server.
pub worker_task_freed :
    (a : Library) (env : Environment) (m : Memory) (request : Request) (u : Table)
    (server : Server a.State) (pre : List ℕ) (p : ℕ) (post : List ℕ) (us : List Session)
    (s : Session) (ws : List Session)
    → length us ≡ length pre
    → IsTable u (pre ++ p ∷ post) (us ++ s ∷ ws)
    → s.active ≡ false
    → (u' : Table) × (cleanup_inactive_sessions u ≡ some u')
      × (worker_task a env m (p, request) u' server ≡ none)
worker_task_freed a env m (command_line, ticket) u server pre p post us s ws same v inactive =
    let u' : Table = cleaned u (pre ++ p ∷ post) (us ++ s ∷ ws) in
    (
      u',
      cleanup_run u (pre ++ p ∷ post) (us ++ s ∷ ws) v,
      task_freed a env m p command_line ticket u' server
          (freed_inactive pre p post us s ws u.sessions same inactive),
    )
