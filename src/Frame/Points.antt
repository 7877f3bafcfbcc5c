-- ===== src/Frame/Points.antt =====
-- What draw_pixel does to each pixel.
use pointerpro_animate.Base.{
  ℕ, ◌+◌, ◌*◌, ◌/◌, ◌%◌, ◌^◌, ◌≤◌, ◌<◌, ◌≡◌, true, false, ◌||◌, Option, none, some, arith, leb,
  ◌==◌, if◌then◌else◌, get_elem?, length,
}
use native.Mathlib.Nat.{mod-eq_of_lt}
use pointerpro_animate.Base.Int.{ℤ, pos}
use pointerpro_animate.Animate.{Sprite, Canvas, size_mod}
use pointerpro_animate.Frame.{
  Buffer, ssize_max, as_ssize, add_ssize, store, outside, opaque, draw_pixel,
}
use pointerpro_animate.Frame.Paint.{Effect}
use pointerpro_animate.Frame.Pixels.{at_offset}

-- The colour of a pixel of a sprite, if it is not transparent.
abbrev pub sprite_color : Sprite → ℕ → ℕ → Option ℕ
sprite_color sprite y x = elim (get_elem? sprite.pixels (y * sprite.width + x)) [
  | none ↦ none
  | some pixel ↦ if pixel / 2 ^ 24 == 0 then none else some (opaque pixel)
]

-- The effect of a sprite at a position: its pixel that comes to lie there, if it is opaque.
abbrev pub sprite_effect : Sprite → ℤ → ℤ → Effect
sprite_effect sprite px py x y =
    at_offset sprite.height 0 py y
      λ sy. at_offset sprite.width 0 px x λ sx. sprite_color sprite sy sx

-- The pixels of the sprite are there, and a size_t counts them.
pub record IsSprite (sprite : Sprite) : Type 0 where
  pub allocated : sprite.width * sprite.height ≤ length sprite.pixels
  pub countable : sprite.width * sprite.height < size_mod

-- A ssize_t holds the sides of the canvas, a size_t its area.
pub record IsFrame (canvas : Canvas) : Type 0 where
  pub wide : canvas.width < ssize_max
  pub high : canvas.height < ssize_max
  pub countable : canvas.width * canvas.height < size_mod

pub outside-leb : (c n : ℕ) → n < ssize_max → outside (pos c) (as_ssize n) ≡ leb n c
unfolding as_ssize
outside-leb c n small = ground arith

module _ (canvas : Canvas) (sprite : Sprite) (px py : ℤ) (sy sx : ℕ) where
  pub off_canvas :
      (x y : ℤ) (buf : Buffer)
      → add_ssize px (as_ssize sx) ≡ some x
      → add_ssize py (as_ssize sy) ≡ some y
      → (outside x (as_ssize canvas.width) || outside y (as_ssize canvas.height)) ≡ true
      → draw_pixel canvas sprite px py sy sx buf ≡ some buf
  unfolding draw_pixel
  off_canvas x y buf ex ey out = ground arith

  pub transparent :
      (x y : ℤ) (pixel : ℕ) (buf : Buffer)
      → add_ssize px (as_ssize sx) ≡ some x
      → add_ssize py (as_ssize sy) ≡ some y
      → (outside x (as_ssize canvas.width) || outside y (as_ssize canvas.height)) ≡ false
      → get_elem? sprite.pixels (sy * sprite.width + sx) ≡ some pixel
      → sy * sprite.width + sx < size_mod
      → (pixel / 2 ^ 24 == 0) ≡ true
      → draw_pixel canvas sprite px py sy sx buf ≡ some buf
  unfolding draw_pixel
  transparent x y pixel buf ex ey on there small clear =
      let same : (sy * sprite.width + sx) % size_mod ≡ sy * sprite.width + sx =
        mod-eq_of_lt small in
      ground arith

  pub drawn :
      (x y pixel : ℕ) (buf : Buffer)
      → add_ssize px (as_ssize sx) ≡ some (pos x)
      → add_ssize py (as_ssize sy) ≡ some (pos y)
      → outside (pos x) (as_ssize canvas.width) ≡ false
      → outside (pos y) (as_ssize canvas.height) ≡ false
      → get_elem? sprite.pixels (sy * sprite.width + sx) ≡ some pixel
      → sy * sprite.width + sx < size_mod
      → (pixel / 2 ^ 24 == 0) ≡ false
      → y * canvas.width + x < size_mod
      → draw_pixel canvas sprite px py sy sx buf ≡ store (y * canvas.width + x) (opaque pixel) buf
  unfolding draw_pixel
  drawn x y pixel buf ex ey ix iy there small clear index =
      let same : (sy * sprite.width + sx) % size_mod ≡ sy * sprite.width + sx =
        mod-eq_of_lt small in
      let same' : (y * canvas.width + x) % size_mod ≡ y * canvas.width + x = mod-eq_of_lt index in
      ground arith
