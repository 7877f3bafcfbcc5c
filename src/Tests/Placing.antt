-- ===== src/Tests/Placing.antt =====
-- User "alice" creates the sprite 9 and places her sprite 6 on the canvas 5.
use pointerpro_animate.Base.{ℕ, ◌≡◌, ◌≢◌, refl, true, some, [], ◌∷◌, arith}
use pointerpro_animate.Base.Int.{pos, negsuc}
use pointerpro_animate.Text.{Text, codes, same, strtok, strtol}
use pointerpro_animate.Registry.{
  SpriteNode, find_sprite_node, client_has_canvas_access, validate_placement_access,
  validate_sprite_access,
}
use pointerpro_animate.Rpc.{Server, answer, success_handle, handle_argument, long_argument}
use pointerpro_animate.Rpc.Sprite.{register_sprite}
use pointerpro_animate.Rpc.Placement.{handle_place_sprite}
use pointerpro_animate.Rpc.Placing.{register_sprite-grants, place_sprite-grants}
use pointerpro_animate.Tests.Servers.{
  counter, alice, five, five_handle, server, shared_node, is_found, alice_access, alice_owns,
}

register_sprite-grants_example :
    (t : Server counter.State) × (register_sprite counter true alice 9 server
      ≡ answer (success_handle 9) 0 t)
    × ((v : Text) → validate_sprite_access 9 v t.registry ≡ same alice v)
    × ((k : ℕ) (v : Text)
        → k ≢ 9
        → validate_sprite_access k v t.registry ≡ validate_sprite_access k v server.registry)
    × (t.library ≡ server.library)
    × (t.registry.canvases ≡ server.registry.canvases)
    × (t.registry.placements ≡ server.registry.placements)
    × (t.outputs ≡ server.outputs)
register_sprite-grants_example =
    register_sprite-grants counter server alice 9 (omega arith) (omega arith)

abbrev six : Text
six = codes "6"

abbrev arguments : Text
arguments = codes "5 6 -2 3"

abbrev ball : SpriteNode
ball = record { sprite_handle = 6; owner_username = alice }

abbrev with_ball : Server counter.State
with_ball = record server { registry = record server.registry { sprites = ball ∷ [] } }

first_token : strtok arguments ≡ (some five, codes "6 -2 3")
unfolding strtok
first_token = refl

second_token : strtok (codes "6 -2 3") ≡ (some six, codes "-2 3")
unfolding strtok
second_token = refl

third_token : strtok (codes "-2 3") ≡ (some (codes "-2"), codes "3")
unfolding strtok
third_token = refl

fourth_token : strtok (codes "3") ≡ (some (codes "3"), [])
unfolding strtok
fourth_token = refl

six_handle : handle_argument six ≡ some 6
unfolding handle_argument pointerpro_animate.Text.strtoull
six_handle = refl

minus_two : long_argument (codes "-2") ≡ some (negsuc 1)
unfolding long_argument strtol
minus_two = refl

three : long_argument (codes "3") ≡ some (pos 3)
unfolding long_argument strtol
three = refl

ball_found : find_sprite_node 6 (ball ∷ []) ≡ some ball
unfolding find_sprite_node
ball_found = refl

place_sprite-grants_example :
    (t : Server counter.State) × (handle_place_sprite counter true alice arguments with_ball
      ≡ answer (success_handle 9) 0 t)
    × (t.library ≡ (10, 5 ∷ []))
    × ((v : Text)
        → validate_placement_access 9 v t.registry ≡ client_has_canvas_access shared_node v)
    × ((q : ℕ) (v : Text)
        → q ≢ 9
        → validate_placement_access q v t.registry
          ≡ validate_placement_access q v with_ball.registry)
    × (t.registry.canvases ≡ with_ball.registry.canvases)
    × (t.registry.sprites ≡ with_ball.registry.sprites)
    × (t.outputs ≡ with_ball.outputs)
place_sprite-grants_example =
    place_sprite-grants counter with_ball alice arguments five (codes "6 -2 3") six (codes "-2 3")
      (codes "-2") (codes "3") (codes "3") [] 5 6 (negsuc 1) (pos 3) shared_node ball first_token
      second_token third_token fourth_token five_handle six_handle minus_two three
      (is_found shared_node refl) ball_found 9 (10, 5 ∷ []) alice_access alice_owns refl
      (omega arith)
