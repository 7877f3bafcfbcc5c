-- ===== src/Library.antt =====
-- The functions of libanimate/animate.h that the server calls, as an interface: the handlers of the
-- server take it as a parameter. `none` is undefined behaviour. Sprites are created and destroyed by
-- code that is not in the repository. `width` and `height` are the fields of struct canvas.
use pointerpro_animate.Base.{ℕ, Bool, Option}
use pointerpro_animate.Base.Int.{ℤ}
use pointerpro_animate.Text.{Text}

pub record Library : Type 1 where
  pub State : Type 0
  pub create_canvas : (height width background_color : ℕ) → State → Option (ℕ × State)
  pub destroy_canvas : ℕ → State → Option (Unit {0} × State)
  pub create_sprite : Text → State → Option (ℕ × State)
  pub create_rectangle : (width height color : ℕ) → Bool → State → Option (ℕ × State)
  pub create_circle : (radius color : ℕ) → Bool → State → Option (ℕ × State)
  pub destroy_sprite : ℕ → State → Option (Bool × State)
  pub place_sprite : (canvas sprite : ℕ) → ℤ → ℤ → State → Option (ℕ × State)
  pub placement_up : ℕ → State → Option (Unit {0} × State)
  pub placement_down : ℕ → State → Option (Unit {0} × State)
  pub placement_top : ℕ → State → Option (Unit {0} × State)
  pub placement_bottom : ℕ → State → Option (Unit {0} × State)
  pub destroy_placement : ℕ → State → Option (Unit {0} × State)
  pub set_animation_params : ℕ → (vx vy ax ay : ℤ) → State → Option (Unit {0} × State)
  pub frame_size_bytes : ℕ → State → Option ℕ
  pub generate_frame : (canvas frame frame_rate : ℕ) → (buf : Text) → State → Option Text
  pub width : ℕ → State → Option ℕ
  pub height : ℕ → State → Option ℕ
