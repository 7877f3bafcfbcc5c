-- ===== src/Dispatch.antt =====
-- process_rpc_command and a round of worker_thread_routine of animate-platform/animate_server.c.
pub mod Faults
pub mod Handlers
pub mod Answers
pub mod Videos
pub mod Ends
pub mod Safe
pub mod Outbox
pub mod Worker
use pointerpro_animate.Base.{
  ℕ, Bool, true, false, ◌||◌, Option, none, some, List, [], ◌∷◌, ◌==◌, if◌then◌else◌,
}
use pointerpro_animate.Text.{Text, codes, same, strtok, without_newline}
use pointerpro_animate.Session.{Session, Memory, send_ordered_response}
use pointerpro_animate.Library.{Library}
use pointerpro_animate.Rpc.{
  Server, Result, ok, answer, crash, Handler, ◌>>=◌, ◌>>◌, rpc_failed, success, respond,
}
use pointerpro_animate.Rpc.Canvas.{handle_create_canvas, handle_destroy_canvas, handle_share_canvas}
use pointerpro_animate.Rpc.Sprite.{
  handle_create_rectangle, handle_create_circle, handle_create_sprite, handle_destroy_sprite,
}
use pointerpro_animate.Rpc.Placement.{
  handle_place_sprite, handle_set_animation_params, handle_placement_up, handle_placement_down,
  handle_placement_top, handle_placement_bottom, handle_destroy_placement,
}
use pointerpro_animate.Users.{valid_authorised_username, handle_login}
use pointerpro_animate.Barrier.{handle_barrier}
use pointerpro_animate.Generate.{Host, handle_generate}
use pointerpro_animate.Input.{disconnect_client}

-- What a command finds: whether there is memory, users.txt, the sessions, and the host.
pub record Environment : Type 0 where
  pub memory : Bool
  pub users : Option Text
  pub sessions : List Session
  pub host : Host

-- What a command changes: the session that it comes from, and the server.
pub record Context (L : Type 0) : Type 0 where
  pub session : Session
  pub server : Server L

unfoldable pub on_server : {L A : Type 0} → Handler (Server L) A → Handler (Context L) A
on_server m c = elim (m c.server) [
  | ok x s ↦ ok x (record c { server = s })
  | answer t k s ↦ answer t k (record c { server = s })
  | crash ↦ crash
]

-- handle_login, whose status 1 becomes 2.
unfoldable pub on_session : {L A : Type 0} → Handler Session A → Handler (Context L) A
on_session m c = elim (m c.session) [
  | ok x s ↦ ok x (record c { session = s })
  | answer t k s ↦ answer t (if k == 1 then 2 else 0) (record c { session = s })
  | crash ↦ crash
]

unfoldable pub is_forbidden : Text → Bool
is_forbidden cmd =
    same cmd (codes "set_animation_function")
    || same cmd (codes "frame_size_bytes")
    || same cmd (codes "generate_frame")

module _ (a : Library) where
  -- The commands that only the server's state serves. `ok` means that the thread sleeps at the barrier,
  -- where `pointerpro_animate.Barrier` goes on.
  unfoldable pub serve :
      Environment → (username cmd saveptr : Text) → Handler (Server a.State) (Unit {0})
  serve env username cmd saveptr =
      if same cmd (codes "create_canvas")
      then handle_create_canvas a env.memory username saveptr
      else if same cmd (codes "create_rectangle")
      then handle_create_rectangle a env.memory username saveptr
      else if same cmd (codes "create_circle")
      then handle_create_circle a env.memory username saveptr
      else if same cmd (codes "set_animation_params")
      then handle_set_animation_params a username saveptr
      else if same cmd (codes "create_sprite")
      then handle_create_sprite a env.memory username saveptr
      else if same cmd (codes "destroy_sprite")
      then handle_destroy_sprite a username saveptr
      else if same cmd (codes "place_sprite")
      then handle_place_sprite a env.memory username saveptr
      else if same cmd (codes "destroy_canvas")
      then handle_destroy_canvas a username saveptr
      else if same cmd (codes "placement_up")
      then handle_placement_up a username saveptr
      else if same cmd (codes "placement_down")
      then handle_placement_down a username saveptr
      else if same cmd (codes "placement_top")
      then handle_placement_top a username saveptr
      else if same cmd (codes "placement_bottom")
      then handle_placement_bottom a username saveptr
      else if same cmd (codes "destroy_placement")
      then handle_destroy_placement a username saveptr
      else if same cmd (codes "generate")
      then handle_generate a env.host username saveptr
      else if same cmd (codes "share_canvas")
      then handle_share_canvas a env.memory (valid_authorised_username env.users) username saveptr
      else if same cmd (codes "barrier")
      then (handle_barrier env.sessions username saveptr >>= λ woken.
          if woken then respond success else (λ s. ok tt s))
      else if same cmd (codes "Disconnect")
      then (λ s. answer success 1 s)
      else respond rpc_failed

  unfoldable pub dispatch : Environment → Option Text × Text → Handler (Context a.State) (Unit {0})
  unfolding serve is_forbidden on_server on_session
  dispatch env (none, saveptr) c = answer rpc_failed 0 c
  dispatch env (some cmd, saveptr) c =
      if is_forbidden cmd
      then answer rpc_failed 0 c
      else if same cmd (codes "Login")
      then on_session (handle_login env.users saveptr) c
      else on_server (serve env c.session.username cmd saveptr) c

  unfoldable pub process_rpc_command : Environment → Text → Handler (Context a.State) (Unit {0})
  unfolding dispatch without_newline
  process_rpc_command env command_line = dispatch env (strtok (without_newline command_line))

  -- The response is sent, and a status above 0 disconnects the client. While the thread sleeps at a
  -- barrier nothing is sent; it goes on as with `answer success 0` when it has passed.
  unfoldable pub finish :
      Memory → ℕ → Result (Context a.State) (Unit {0}) → Option (Context a.State)
  finish m ticket (ok x c) = some c
  finish m ticket crash = none
  finish m ticket (answer t k c) = elim (send_ordered_response m ticket t c.session) [
    | none ↦ none
    | some s ↦ some (record c { session = if k == 0 then s else disconnect_client s })
  ]

  -- A round of a worker with this task; `none` is undefined behaviour.
  unfoldable pub worker_round :
      Environment
      → Memory
      → (command_line : Text) (ticket : ℕ) → Context a.State
      → Option (Context a.State)
  unfolding finish process_rpc_command
  worker_round env m command_line ticket c =
      finish m ticket (process_rpc_command env command_line c)
