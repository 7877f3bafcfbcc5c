-- ===== src/Rpc/Placing.antt =====
-- What the handlers that create sprites and place them register, and for whom.
use pointerpro_animate.Base.{ℕ, ◌≤◌, ◌≡◌, ◌≢◌, refl, ap, true, some, ◌∷◌, arith, length, take-all}
use pointerpro_animate.Base.Int.{ℤ}
use pointerpro_animate.Text.{Text, same, strtok}
use pointerpro_animate.Registry.{
  CanvasNode, SpriteNode, find_canvas_node, find_sprite_node, client_has_canvas_access,
  validate_placement_access, validate_sprite_access,
}
use pointerpro_animate.Library.{Library}
use pointerpro_animate.Rpc.{
  Server, answer, commands, success_handle, handle_argument, long_argument, copy_username,
}
use pointerpro_animate.Rpc.Sprite.{register_sprite, new_sprite_node}
use pointerpro_animate.Rpc.Placement.{handle_place_sprite}

-- A sprite that a user with a name of at most 32 characters has created, at an address other than
-- NULL and with memory for its node, is registered: the answer names it, exactly this user has
-- access to it, the access to other sprites stays, and so does all else.
pub register_sprite-grants :
    (a : Library) (s : Server a.State) (username : Text) (new_sprite : ℕ)
    → length username ≤ 32
    → new_sprite ≢ 0
    → (t : Server a.State) × (register_sprite a true username new_sprite s
        ≡ answer (success_handle new_sprite) 0 t)
      × ((v : Text) → validate_sprite_access new_sprite v t.registry ≡ same username v)
      × ((k : ℕ) (v : Text)
          → k ≢ new_sprite
          → validate_sprite_access k v t.registry ≡ validate_sprite_access k v s.registry)
      × (t.library ≡ s.library)
      × (t.registry.canvases ≡ s.registry.canvases)
      × (t.registry.placements ≡ s.registry.placements)
      × (t.outputs ≡ s.outputs)
unfolding register_sprite commands validate_sprite_access find_sprite_node
register_sprite-grants a s username new_sprite short ne =
    let whole : copy_username username ≡ username = take-all 32 username short in
    (
      record s {
        registry = record s.registry {
          sprites = new_sprite_node new_sprite username ∷ s.registry.sprites;
        };
      },
      ground arith,
      λ v. ground (arith, whole, ap (λ u. same u v) whole),
      λ k v other. ground arith,
      refl,
      refl,
      refl,
      refl,
    )

module _ (a : Library) (s : Server a.State)
    (username saveptr text rest text' rest' x_text x_rest y_text y_rest : Text) (canvas sprite : ℕ)
    (x y : ℤ) (n : CanvasNode) (i : SpriteNode) (canvas_token : strtok saveptr ≡ (some text, rest))
    (sprite_token : strtok rest ≡ (some text', rest'))
    (x_token : strtok rest' ≡ (some x_text, x_rest))
    (y_token : strtok x_rest ≡ (some y_text, y_rest))
    (canvas_handle : handle_argument text ≡ some canvas)
    (sprite_handle : handle_argument text' ≡ some sprite) (x_value : long_argument x_text ≡ some x)
    (y_value : long_argument y_text ≡ some y)
    (canvas_found : find_canvas_node canvas s.registry.canvases ≡ some n)
    (sprite_found : find_sprite_node sprite s.registry.sprites ≡ some i) where
  -- With arguments that are well formed and handles that are registered, the owner of a sprite
  -- places it on a canvas with access to that: when the library places it at `p`, which is not
  -- NULL, and there is memory for the node, the handler answers "0" with `p`; exactly those with
  -- access to the canvas have access to the placement, the access to other placements stays, and
  -- so do the lists of canvases and sprites.
  pub place_sprite-grants :
      (p : ℕ) (l : a.State)
      → client_has_canvas_access n username ≡ true
      → same i.owner_username username ≡ true
      → a.place_sprite canvas sprite x y s.library ≡ some (p, l)
      → p ≢ 0
      → (t : Server a.State) × (handle_place_sprite a true username saveptr s
          ≡ answer (success_handle p) 0 t)
        × (t.library ≡ l)
        × ((v : Text) → validate_placement_access p v t.registry ≡ client_has_canvas_access n v)
        × ((q : ℕ) (v : Text)
            → q ≢ p
            → validate_placement_access q v t.registry ≡ validate_placement_access q v s.registry)
        × (t.registry.canvases ≡ s.registry.canvases)
        × (t.registry.sprites ≡ s.registry.sprites)
        × (t.outputs ≡ s.outputs)
  unfolding handle_place_sprite commands validate_placement_access
  place_sprite-grants p l access owner run ne = (
    record s {
      library = l;
      registry = record s.registry {
        placements =
            record { placement_handle = p; canvas_handle = canvas } ∷ s.registry.placements;
      };
    },
    ground arith,
    refl,
    λ v. ground arith,
    λ q v other. ground arith,
    refl,
    refl,
    refl,
  )
