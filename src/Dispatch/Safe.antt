-- ===== src/Dispatch/Safe.antt =====
-- The states that a server reaches, and the next command there.
use pointerpro_animate.Base.{◌≡◌, ℕ, true, []}
use pointerpro_animate.Text.{Text}
use pointerpro_animate.Session.{Session}
use pointerpro_animate.Library.{Library}
use pointerpro_animate.Rpc.{Server, ok, answer}
use pointerpro_animate.Dispatch.{Environment, Context, process_rpc_command}
use pointerpro_animate.Dispatch.Ends.{Ends}

-- The states of a server that has started and has served any number of commands, each in an
-- environment with memory: they have answered, or their threads sleep at a barrier.
pub data Reachable (a : Library) : Server a.State → Type 0 where
  starts :
      (l : a.State)
      → Reachable a (record {
        library = l;
        registry = record { canvases = []; sprites = []; placements = [] };
        outputs = [];
      })
  serves :
      {s : Server a.State} {response : Text} {status : ℕ} {c : Context a.State} (env : Environment)
      (command_line : Text) (session : Session)
      → env.memory ≡ true
      → Reachable a s
      → process_rpc_command a env command_line (record { session = session; server = s })
        ≡ answer response status c
      → Reachable a c.server
  sleeps :
      {s : Server a.State} {x : Unit {0}} {c : Context a.State} (env : Environment)
      (command_line : Text) (session : Session)
      → env.memory ≡ true
      → Reachable a s
      → process_rpc_command a env command_line (record { session = session; server = s }) ≡ ok x c
      → Reachable a c.server
