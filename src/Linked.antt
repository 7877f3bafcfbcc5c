-- ===== src/Linked.antt =====
-- The server linked with libanimate/animate.c: the functions that libanimate/animate.h declares, where
-- animate.c has them, as the interface that the handlers take.
pub mod Layers
use mathlib.Core.Option
use pointerpro_animate.Base.{ℕ, Bool, Option, none, some}
use pointerpro_animate.Text.{Text}
use pointerpro_animate.Library.{Library}
use pointerpro_animate.Animate.{Ptr, Store, Canvas}
use pointerpro_animate.Animate.Layers.{
  create_canvas, destroy_canvas, place_sprite, placement_up, placement_down, placement_top,
  placement_bottom, destroy_placement, set_animation_params, frame_size_bytes,
}

-- What animate.c relies on: the address that malloc gives next, a bound on the placements of a
-- canvas, the sprites, which are not in the repository, and the frames as bytes.
pub record Outside : Type 0 where
  pub malloc : Store → Ptr
  pub most : Store → ℕ
  pub create_sprite : Text → Store → Option (ℕ × Store)
  pub create_rectangle : (width height color : ℕ) → Bool → Store → Option (ℕ × Store)
  pub create_circle : (radius color : ℕ) → Bool → Store → Option (ℕ × Store)
  pub destroy_sprite : ℕ → Store → Option (Bool × Store)
  pub generate_frame : (canvas frame frame_rate : ℕ) → (buf : Text) → Store → Option Text

abbrev field : (Canvas → ℕ) → Ptr → Store → Option ℕ
field f c s = Option.map f (s.canvases c)

abbrev pub linked : Outside → Library
linked o = record {
  State = Store;
  create_canvas =
      λ height width background_color s. create_canvas (o.malloc s) height width background_color s;
  destroy_canvas = λ c s. destroy_canvas (o.most s) c s;
  create_sprite = o.create_sprite;
  create_rectangle = o.create_rectangle;
  create_circle = o.create_circle;
  destroy_sprite = o.destroy_sprite;
  place_sprite = λ c i x y s. place_sprite (o.malloc s) c i x y s;
  placement_up = placement_up;
  placement_down = placement_down;
  placement_top = placement_top;
  placement_bottom = placement_bottom;
  destroy_placement = destroy_placement;
  set_animation_params = set_animation_params;
  frame_size_bytes = λ c s. Option.map (λ r. r.0) (frame_size_bytes c s);
  generate_frame = o.generate_frame;
  width = field (λ c. c.width);
  height = field (λ c. c.height);
}
