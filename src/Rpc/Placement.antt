-- ===== src/Rpc/Placement.antt =====
-- The handlers that place sprites and change placements.
use pointerpro_animate.Base.{ℕ, Bool, not, ◌∷◌, ◌==◌, if◌then◌else◌}
use pointerpro_animate.Text.{Text, same}
use pointerpro_animate.Registry.{
  find_canvas_node, find_sprite_node, client_has_canvas_access, validate_placement_access,
  unlink_placement_node,
}
use pointerpro_animate.Library.{Library}
use pointerpro_animate.Rpc.{
  Server, ok, Handler, ◌>>=◌, ◌>>◌, value_error, internal_error, success, success_handle, respond,
  or_respond, ensure, call, get_registry, put_registry, next_argument, long_argument, positive,
  handle_argument,
}

module _ (a : Library) where
  unfoldable pub handle_place_sprite :
      Bool → (username saveptr : Text) → Handler (Server a.State) (Unit {0})
  handle_place_sprite memory username saveptr = do
    (canvas_handle_str, rest) ← next_argument saveptr
    (sprite_handle_str, rest) ← next_argument rest
    (x_str, rest) ← next_argument rest
    (y_str, rest) ← next_argument rest
    canvas_address ← or_respond (handle_argument canvas_handle_str) value_error
    sprite_address ← or_respond (handle_argument sprite_handle_str) value_error
    x ← or_respond (long_argument x_str) value_error
    y ← or_respond (long_argument y_str) value_error
    r ← get_registry
    canvas_node ← or_respond (find_canvas_node canvas_address r.canvases) value_error
    ensure (client_has_canvas_access canvas_node username) value_error
    sprite_node ← or_respond (find_sprite_node sprite_address r.sprites) value_error
    ensure (same sprite_node.owner_username username) value_error
    new_placement ← call (a.place_sprite canvas_address sprite_address x y)
    ensure (not (new_placement == 0)) internal_error
    if memory
        then (do
          put_registry (record r {
            placements =
                record { placement_handle = new_placement; canvas_handle = canvas_address }
                ∷ r.placements;
          })
          respond (success_handle new_placement))
        else (do call (a.destroy_placement new_placement); respond internal_error)

  unfoldable pub handle_set_animation_params :
      (username saveptr : Text) → Handler (Server a.State) (Unit {0})
  handle_set_animation_params username saveptr = do
    (placement_handle_str, rest) ← next_argument saveptr
    (velocity_x_str, rest) ← next_argument rest
    (velocity_y_str, rest) ← next_argument rest
    (acceleration_x_str, rest) ← next_argument rest
    (acceleration_y_str, rest) ← next_argument rest
    placement_address ← or_respond (positive placement_handle_str) value_error
    velocity_x ← or_respond (long_argument velocity_x_str) value_error
    velocity_y ← or_respond (long_argument velocity_y_str) value_error
    acceleration_x ← or_respond (long_argument acceleration_x_str) value_error
    acceleration_y ← or_respond (long_argument acceleration_y_str) value_error
    r ← get_registry
    ensure (validate_placement_access placement_address username r) value_error
    call (
        a.set_animation_params placement_address velocity_x velocity_y acceleration_x
          acceleration_y)
    respond success

  -- The text that the handlers of a placement share up to their call of the library.
  unfoldable pub placement_argument : (username saveptr : Text) → Handler (Server a.State) ℕ
  placement_argument username saveptr = do
    (placement_handle_str, rest) ← next_argument saveptr
    placement_address ← or_respond (handle_argument placement_handle_str) value_error
    r ← get_registry
    ensure (validate_placement_access placement_address username r) value_error
    ok placement_address

  unfoldable pub handle_placement_up :
      (username saveptr : Text) → Handler (Server a.State) (Unit {0})
  unfolding placement_argument
  handle_placement_up username saveptr = do
    placement_address ← placement_argument username saveptr
    call (a.placement_up placement_address)
    respond success

  unfoldable pub handle_placement_down :
      (username saveptr : Text) → Handler (Server a.State) (Unit {0})
  unfolding placement_argument
  handle_placement_down username saveptr = do
    placement_address ← placement_argument username saveptr
    call (a.placement_down placement_address)
    respond success

  unfoldable pub handle_placement_top :
      (username saveptr : Text) → Handler (Server a.State) (Unit {0})
  unfolding placement_argument
  handle_placement_top username saveptr = do
    placement_address ← placement_argument username saveptr
    call (a.placement_top placement_address)
    respond success

  unfoldable pub handle_placement_bottom :
      (username saveptr : Text) → Handler (Server a.State) (Unit {0})
  unfolding placement_argument
  handle_placement_bottom username saveptr = do
    placement_address ← placement_argument username saveptr
    call (a.placement_bottom placement_address)
    respond success

  unfoldable pub handle_destroy_placement :
      (username saveptr : Text) → Handler (Server a.State) (Unit {0})
  unfolding placement_argument
  handle_destroy_placement username saveptr = do
    placement_address ← placement_argument username saveptr
    call (a.destroy_placement placement_address)
    r ← get_registry
    put_registry (record r { placements = unlink_placement_node placement_address r.placements })
    respond success
