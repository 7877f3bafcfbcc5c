-- ===== src/Tests/Handles.antt =====
-- User "alice" creates a canvas and destroys it by the handle in the answer.
use pointerpro_animate.Base.{◌≡◌, refl, true, some, [], ◌∷◌, arith}
use pointerpro_animate.Text.{Text, codes, strtok, strtol, print_ulong}
use pointerpro_animate.Registry.{canvas_node_delete}
use pointerpro_animate.Rpc.{Server, answer, success, success_handle, positive, nonnegative}
use pointerpro_animate.Rpc.Canvas.{handle_create_canvas, handle_destroy_canvas}
use pointerpro_animate.Rpc.Handles.{create_canvas-destroy_canvas}
use pointerpro_animate.Tests.Servers.{counter, alice, server}

abbrev size_arguments : Text
size_arguments = codes "4 3 255"

width_token : strtok size_arguments ≡ (some (codes "4"), codes "3 255")
unfolding strtok
width_token = refl

height_token : strtok (codes "3 255") ≡ (some (codes "3"), codes "255")
unfolding strtok
height_token = refl

color_token : strtok (codes "255") ≡ (some (codes "255"), [])
unfolding strtok
color_token = refl

four : positive (codes "4") ≡ some 4
unfolding positive strtol
four = refl

three_high : positive (codes "3") ≡ some 3
unfolding positive strtol
three_high = refl

blue : nonnegative (codes "255") ≡ some 255
unfolding nonnegative strtol
blue = refl

create_canvas-destroy_canvas_example :
    (t : Server counter.State) × (u : Server counter.State) × (handle_create_canvas counter true
        alice size_arguments server
      ≡ answer (success_handle 9) 0 t)
    × (handle_destroy_canvas counter alice (print_ulong 9) t ≡ answer success 0 u)
    × (u.library ≡ (10, 5 ∷ []))
    × (u.registry.canvases ≡ server.registry.canvases)
    × (u.registry.sprites ≡ server.registry.sprites)
    × (u.registry.placements ≡ canvas_node_delete 9 server.registry.placements)
create_canvas-destroy_canvas_example =
    create_canvas-destroy_canvas counter server alice size_arguments (codes "4") (codes "3 255")
      (codes "3") (codes "255") (codes "255") [] 4 3 255 9 (10, 9 ∷ 5 ∷ []) width_token height_token
      color_token four three_high blue refl (omega arith) (10, 5 ∷ []) (omega arith) (omega arith)
      refl
