-- ===== src/Tests/Handlers.antt =====
-- The commands on canvases on the server of Tests/Servers.antt.
use pointerpro_animate.Base.{ℕ, ◌≡◌, ◌≢◌, refl, Bool, true, false, none, some, [], arith}
use pointerpro_animate.Text.{Text, codes, same, strtok}
use pointerpro_animate.Registry.{
  CanvasNode, PlacementNode, find_canvas_node, find_placement_node, client_has_canvas_access,
}
use pointerpro_animate.Rpc.{
  Server, answer, crash, success, internal_error, handle_argument, positive,
}
use pointerpro_animate.Rpc.After.{After}
use pointerpro_animate.Rpc.Nodes.{IsValid}
use pointerpro_animate.Rpc.Room.{AllHaveMemory, handle_share_canvas-AllHaveMemory}
use pointerpro_animate.Rpc.Canvas.{new_canvas_node, handle_destroy_canvas, handle_share_canvas}
use pointerpro_animate.Rpc.Sharing.{SameButCanvases, share_canvas_overflow}
use pointerpro_animate.Rpc.Leaving.{destroy_canvas-last, owner_destroys_twice, destroy_canvas_twice}
use pointerpro_animate.Rpc.Placement.{
  handle_placement_up, handle_placement_down, handle_placement_top, handle_placement_bottom,
  handle_destroy_placement, handle_set_animation_params,
}
use pointerpro_animate.Rpc.Access.{Guarded, MayChange, placement_handlers-Guarded}
use pointerpro_animate.Tests.Servers.{
  alice, alice_last_access, alice_owns, bob, bob_shares, carol, counter, five, five_handle,
  five_token, is_alone, is_found, last_alone, last_node, last_node-NodeIsValid, server, server_with,
  shared_node, shared_node-NodeIsValid,
}

destroy_canvas-last_example :
    (t : Server counter.State) × (handle_destroy_canvas counter alice five (server_with last_node)
      ≡ answer success 0 t)
    × (t.library ≡ (9, []))
    × (find_canvas_node 5 t.registry.canvases ≡ none)
    × ((p : ℕ) (q : PlacementNode)
        → find_placement_node p t.registry.placements ≡ some q
        → q.canvas_handle ≢ 5)
    × ((k : ℕ)
        → k ≢ 5
        → find_canvas_node k t.registry.canvases
          ≡ find_canvas_node k (server_with last_node).registry.canvases)
destroy_canvas-last_example =
    destroy_canvas-last counter (server_with last_node) 5 alice five five [] last_node five_token
      five_handle (is_found last_node refl) last_node-NodeIsValid (9, []) last_alone
      alice_last_access refl refl

owner_destroys_twice_example :
    (t : Server counter.State) × (u : Server counter.State) × (m : CanvasNode)
    × (handle_destroy_canvas counter alice five server ≡ answer success 0 t)
    × (find_canvas_node 5 t.registry.canvases ≡ some m)
    × (client_has_canvas_access m bob ≡ true)
    × (handle_destroy_canvas counter alice five t ≡ answer success 0 u)
    × (u.library ≡ (9, []))
    × (find_canvas_node 5 u.registry.canvases ≡ none)
owner_destroys_twice_example =
    owner_destroys_twice counter server 5 alice five five [] shared_node five_token five_handle
      (is_found shared_node refl) shared_node-NodeIsValid bob (9, []) alice_owns refl bob_shares
      is_alone refl

destroy_canvas_twice_example :
    (t : Server counter.State) × (handle_destroy_canvas counter alice five (server_with last_node)
      ≡ answer success 0 t)
    × ((other : Text) → handle_destroy_canvas counter other five t ≡ crash)
destroy_canvas_twice_example =
    destroy_canvas_twice counter (server_with last_node) 5 alice five five [] last_node five_token
      five_handle (is_found last_node refl) last_node-NodeIsValid (9, []) last_alone
      alice_last_access refl refl refl

abbrev everybody : Text → Bool
everybody name = true

abbrev five_carol : Text
five_carol = codes "5 carol"

five_carol_token : strtok five_carol ≡ (some five, carol)
unfolding strtok
five_carol_token = refl

carol_token : strtok carol ≡ (some carol, [])
unfolding strtok
carol_token = refl

-- The node of a new canvas of alice.
abbrev new_node : CanvasNode
new_node = new_canvas_node 5 alice

alice_new_access : client_has_canvas_access new_node alice ≡ true
unfolding client_has_canvas_access same
alice_new_access = refl

carol_no_new_access : client_has_canvas_access new_node carol ≡ false
unfolding client_has_canvas_access same
carol_no_new_access = refl

share_canvas_overflow_example :
    (t : Server counter.State) × (m : CanvasNode) × (handle_share_canvas counter false everybody
        alice five_carol
        (server_with new_node)
      ≡ answer internal_error 0 t)
    × (find_canvas_node 5 t.registry.canvases ≡ some m)
    × ((v : Text) → client_has_canvas_access m v ≡ client_has_canvas_access new_node v)
    × SameButCanvases (server_with new_node) t
    × ((memory : Bool) → handle_share_canvas counter memory everybody alice five_carol t ≡ crash)
share_canvas_overflow_example =
    share_canvas_overflow counter (server_with new_node) 5 alice five_carol five carol carol []
      everybody new_node five_carol_token carol_token refl (omega arith) five_handle
      (is_found new_node refl) alice_new_access carol_no_new_access refl refl

abbrev seven : Text
seven = codes "7"

placement_handlers-Guarded_example :
    Guarded server
      (MayChange handle_argument server carol seven)
      (handle_placement_up counter carol seven)
    × Guarded server
        (MayChange handle_argument server carol seven)
        (handle_placement_down counter carol seven)
    × Guarded server
        (MayChange handle_argument server carol seven)
        (handle_placement_top counter carol seven)
    × Guarded server
        (MayChange handle_argument server carol seven)
        (handle_placement_bottom counter carol seven)
    × Guarded server
        (MayChange handle_argument server carol seven)
        (handle_destroy_placement counter carol seven)
    × Guarded server
        (MayChange positive server carol seven)
        (handle_set_animation_params counter carol seven)
placement_handlers-Guarded_example = placement_handlers-Guarded counter server carol seven

server-IsValid : IsValid server.registry
server-IsValid = (shared_node-NodeIsValid, tt)

server-AllHaveMemory : AllHaveMemory server.registry
server-AllHaveMemory = ((shared_node-NodeIsValid, refl), tt)

handle_share_canvas-AllHaveMemory_example :
    After AllHaveMemory ⊥ (handle_share_canvas counter true everybody alice five_carol server)
handle_share_canvas-AllHaveMemory_example =
    handle_share_canvas-AllHaveMemory counter everybody alice five_carol server server-AllHaveMemory
