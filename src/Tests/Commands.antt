-- ===== src/Tests/Commands.antt =====
-- A server on which user "alice" has created a canvas, and its sessions.
use pointerpro_animate.Base.{◌≡◌, refl, true, none, [], ◌∷◌}
use pointerpro_animate.Text.{Text, codes}
use pointerpro_animate.Session.{Session, new_session}
use pointerpro_animate.Rpc.{Server, answer, success_handle}
use pointerpro_animate.Rpc.Canvas.{new_canvas_node}
use pointerpro_animate.Dispatch.{Environment, process_rpc_command}
use pointerpro_animate.Dispatch.Ends.{Ends}
use pointerpro_animate.Tests.Servers.{counter, alice}
use pointerpro_animate.Tests.Videos.{host}

abbrev pub environment : Environment
environment = record { memory = true; users = none; sessions = []; host = host }

abbrev pub session : Session
session = new_session 17 alice

abbrev pub before : Server counter.State
before = record {
  library = (5, []);
  registry = record { canvases = []; sprites = []; placements = [] };
  outputs = [];
}

abbrev pub after : Server counter.State
after = record {
  library = (6, 5 ∷ []);
  registry = record { canvases = new_canvas_node 5 alice ∷ []; sprites = []; placements = [] };
  outputs = [];
}

pub created :
    process_rpc_command counter environment
      (codes "create_canvas 4 3 0")
      (record { session = session; server = before })
    ≡ answer (success_handle 5) 0 (record { session = session; server = after })
unfolding process_rpc_command pointerpro_animate.Rpc.Canvas.handle_create_canvas
    pointerpro_animate.Rpc.commands pointerpro_animate.Text.strtok pointerpro_animate.Text.same
    pointerpro_animate.Rpc.positive pointerpro_animate.Rpc.nonnegative
    pointerpro_animate.Text.strtol pointerpro_animate.Text.print_ulong new_session
created = refl
