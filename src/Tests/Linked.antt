-- ===== src/Tests/Linked.antt =====
-- The canvas of Tests/Layers.antt on the server, where it belongs to user "alice".
use pointerpro_animate.Base.{◌≡◌, refl, true, none, [], ◌∷◌, arith}
use pointerpro_animate.Text.{codes}
use pointerpro_animate.Session.{new_session}
use pointerpro_animate.Registry.{validate_placement_access}
use pointerpro_animate.Rpc.Canvas.{new_canvas_node}
use pointerpro_animate.Dispatch.{Context}
use pointerpro_animate.Animate.{Store}
use pointerpro_animate.Animate.Spec.{raise, lower, to_top, to_bottom}
use pointerpro_animate.Linked.{Outside}
use pointerpro_animate.Linked.Layers.{Orders, process_rpc_command-Orders}
use pointerpro_animate.Tests.Servers.{alice}
use pointerpro_animate.Tests.Commands.{environment}
use pointerpro_animate.Tests.Layers.{shown, layers, shown-IsCanvas}

abbrev outside : Outside
outside = record {
  malloc = λ s. 50;
  most = λ s. 10;
  create_sprite = λ filename s. none;
  create_rectangle = λ width height color filled s. none;
  create_circle = λ radius color filled s. none;
  destroy_sprite = λ i s. none;
  generate_frame = λ canvas frame frame_rate buf s. none;
}

abbrev context : Context Store
context = record {
  session = new_session 17 alice;
  server = record {
    library = shown;
    registry = record {
      canvases = new_canvas_node 10 alice ∷ [];
      sprites = [];
      placements = record { placement_handle = 2; canvas_handle = 10 } ∷ [];
    };
    outputs = [];
  };
}

access : validate_placement_access 2 context.session.username context.server.registry ≡ true
unfolding validate_placement_access new_session pointerpro_animate.Registry.find_placement_node
    pointerpro_animate.Registry.find_canvas_node
    pointerpro_animate.Registry.client_has_canvas_access pointerpro_animate.Text.same
access = refl

process_rpc_command-Orders_example :
    Orders outside environment (codes "placement_up") 2 context 10 layers (raise 2 layers)
    × Orders outside environment (codes "placement_down") 2 context 10 layers (lower 2 layers)
    × Orders outside environment (codes "placement_top") 2 context 10 layers (to_top 2 layers)
    × Orders outside environment (codes "placement_bottom") 2 context 10 layers (to_bottom 2 layers)
process_rpc_command-Orders_example =
    process_rpc_command-Orders outside environment context 10 2 layers (omega arith) (omega arith)
      access shown-IsCanvas refl (λ e. ground arith)
