-- ===== src/Rpc/Sprite.antt =====
-- handle_create_rectangle, handle_create_circle, handle_create_sprite and handle_destroy_sprite.
use pointerpro_animate.Base.{ℕ, Bool, not, ◌∷◌, ◌==◌, if◌then◌else◌}
use pointerpro_animate.Text.{Text, codes}
use pointerpro_animate.Registry.{SpriteNode, validate_sprite_access, unlink_sprite_node}
use pointerpro_animate.Library.{Library}
use pointerpro_animate.Rpc.{
  Server, Handler, ◌>>=◌, ◌>>◌, line, value_error, internal_error, success_handle, respond,
  or_respond, ensure, call, get_registry, put_registry, next_argument, positive, nonnegative, flag,
  handle_argument, copy_username, to_color,
}

abbrev pub new_sprite_node : ℕ → Text → SpriteNode
new_sprite_node handle username = record {
  sprite_handle = handle;
  owner_username = copy_username username;
}

module _ (a : Library) where
  -- The end that the three handlers that create a sprite share, word for word.
  unfoldable pub register_sprite : Bool → Text → ℕ → Handler (Server a.State) (Unit {0})
  register_sprite memory username new_sprite = do
    ensure (not (new_sprite == 0)) internal_error
    if memory
        then (do
          r ← get_registry
          put_registry (record r { sprites = new_sprite_node new_sprite username ∷ r.sprites })
          respond (success_handle new_sprite))
        else (do _ ← call (a.destroy_sprite new_sprite); respond internal_error)

  unfoldable pub handle_create_rectangle :
      Bool → (username saveptr : Text) → Handler (Server a.State) (Unit {0})
  unfolding register_sprite
  handle_create_rectangle memory username saveptr = do
    (width_str, rest) ← next_argument saveptr
    (height_str, rest) ← next_argument rest
    (color_str, rest) ← next_argument rest
    (filled_str, rest) ← next_argument rest
    width ← or_respond (positive width_str) value_error
    height ← or_respond (positive height_str) value_error
    color ← or_respond (nonnegative color_str) value_error
    filled ← or_respond (flag filled_str) value_error
    new_sprite ← call (a.create_rectangle width height (to_color color) filled)
    register_sprite memory username new_sprite

  unfoldable pub handle_create_circle :
      Bool → (username saveptr : Text) → Handler (Server a.State) (Unit {0})
  unfolding register_sprite
  handle_create_circle memory username saveptr = do
    (radius_str, rest) ← next_argument saveptr
    (color_str, rest) ← next_argument rest
    (filled_str, rest) ← next_argument rest
    radius ← or_respond (positive radius_str) value_error
    color ← or_respond (nonnegative color_str) value_error
    filled ← or_respond (flag filled_str) value_error
    new_sprite ← call (a.create_circle radius (to_color color) filled)
    register_sprite memory username new_sprite

  unfoldable pub handle_create_sprite :
      Bool → (username saveptr : Text) → Handler (Server a.State) (Unit {0})
  unfolding register_sprite
  handle_create_sprite memory username saveptr = do
    (file_str, rest) ← next_argument saveptr
    new_sprite ← call (a.create_sprite file_str)
    register_sprite memory username new_sprite

  -- animate_destroy_sprite returns true where it fails: the sprite is still in use.
  unfoldable pub handle_destroy_sprite :
      (username saveptr : Text) → Handler (Server a.State) (Unit {0})
  handle_destroy_sprite username saveptr = do
    (sprite_handle_str, rest) ← next_argument saveptr
    sprite_address ← or_respond (handle_argument sprite_handle_str) value_error
    r ← get_registry
    ensure (validate_sprite_access sprite_address username r) value_error
    failed ← call (a.destroy_sprite sprite_address)
    if failed then respond (line (codes "0 1")) else (do
      put_registry (record r { sprites = unlink_sprite_node sprite_address r.sprites })
      respond (line (codes "0 0")))
