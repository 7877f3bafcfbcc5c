-- ===== src/Frame.antt =====
-- animate_generate_frame of libanimate/animate.c. The arithmetic on `double` is an argument; what it
-- computes is not. Memory is the heap of Animate.antt, and the frame buffer a list of pixels. `none`
-- is undefined behaviour: an access outside a structure, or a signed result out of range.
pub mod Paint
pub mod Pixels
pub mod Points
pub mod Sprites
pub mod Fill
pub mod Turns
pub mod Topmost
use pointerpro_animate.Base.{
  ℕ, zero, suc, ◌+◌, ◌-◌, ◌*◌, ◌/◌, ◌%◌, ◌^◌, Bool, true, false, ◌||◌, Option, none, some, List,
  ltb, leb, ◌==◌, if◌then◌else◌, length, set, get_elem?,
}
use pointerpro_animate.Base.Int.{ℤ, pos, negsuc, ◌+ℤ◌}
use pointerpro_animate.Animate.{Ptr, null, Sprite, Placement, Canvas, Store, at, size_mod}

-- The operations on `double`: the conversions from size_t and ssize_t, 0.5, +, -, *, /, the test
-- `>= 0`, and the conversion to ssize_t, which is undefined out of range.
pub record Doubles : Type 1 where
  pub Double : Type 0
  pub of_size : ℕ → Double
  pub of_long : ℤ → Double
  pub half : Double
  pub add : Double → Double → Double
  pub sub : Double → Double → Double
  pub mul : Double → Double → Double
  pub div : Double → Double → Double
  pub nonnegative : Double → Bool
  pub to_long : Double → Option ℤ

abbrev pub Buffer : Type 0
Buffer = List ℕ

abbrev pub ssize_max : ℕ
ssize_max = 2 ^ 63

-- (ssize_t) of a size_t
unfoldable pub as_ssize : ℕ → ℤ
as_ssize n = if ltb n ssize_max then pos n else negsuc (size_mod - n - 1)

abbrev pub in_ssize : ℤ → Bool
in_ssize (pos n) = ltb n ssize_max
in_ssize (negsuc n) = ltb n ssize_max

-- The sum of two ssize_t.
unfoldable pub add_ssize : ℤ → ℤ → Option ℤ
add_ssize a b = if in_ssize (a +ℤ b) then some (a +ℤ b) else none

-- (color & RGB_MASK) | (MAX_ALPHA << ALPHA_SHIFT); the shift leaves the int's range, and is taken to give
-- its bits.
abbrev pub opaque : ℕ → ℕ
opaque color = color % 2 ^ 24 + 255 * 2 ^ 24

-- frame_buf[i] = color
unfoldable pub store : ℕ → ℕ → Buffer → Option Buffer
store i color buf = if ltb i (length buf) then some (set buf i color) else none

-- for (i = first; i < first + count; i++)
unfoldable pub for_up : ℕ → ℕ → (ℕ → Buffer → Option Buffer) → Buffer → Option Buffer
for_up zero first body buf = some buf
for_up (suc count) first body buf = elim (body first buf) [
  | none ↦ none
  | some buf' ↦ for_up count (suc first) body buf'
]

-- (canvas_x < 0) and (canvas_x >= limit)
abbrev pub outside : ℤ → ℤ → Bool
outside (negsuc n) limit = true
outside (pos n) (negsuc k) = true
outside (pos n) (pos k) = leb k n

abbrev pub index_of : ℤ → ℕ
index_of (pos n) = n
index_of (negsuc n) = size_mod - n - 1

-- The body of the loop over sprite_x. The index of a pixel on the canvas is computed in size_t.
unfoldable pub draw_pixel : Canvas → Sprite → ℤ → ℤ → ℕ → ℕ → Buffer → Option Buffer
unfolding add_ssize as_ssize store
draw_pixel canvas sprite position_x position_y sprite_y sprite_x buf =
    elim (add_ssize position_x (as_ssize sprite_x)) [
      | none ↦ none
      | some canvas_x ↦ elim (add_ssize position_y (as_ssize sprite_y)) [
        | none ↦ none
        | some canvas_y ↦
            if outside canvas_x (as_ssize canvas.width) || outside canvas_y (as_ssize canvas.height)
            then some buf
            else elim (get_elem? sprite.pixels ((sprite_y * sprite.width + sprite_x) % size_mod)) [
              | none ↦ none
              | some pixel ↦
                  if pixel / 2 ^ 24 == 0
                  then some buf
                  else store ((index_of canvas_y * canvas.width + index_of canvas_x) % size_mod)
                      (opaque pixel) buf
            ]
      ]
    ]

-- The two loops over the pixels of a sprite.
unfoldable pub draw_sprite : Canvas → Sprite → ℤ → ℤ → Buffer → Option Buffer
unfolding for_up draw_pixel
draw_sprite canvas sprite position_x position_y = for_up sprite.height 0 λ sprite_y.
    for_up sprite.width 0
      λ sprite_x. draw_pixel canvas sprite position_x position_y sprite_y sprite_x

module _ (d : Doubles) where
  -- (double)v * time + 0.5 * (double)a * time * time
  unfoldable pub displacement : (v a : ℤ) → d.Double → d.Double
  displacement v a time =
      d.add (d.mul (d.of_long v) time) (d.mul (d.mul (d.mul d.half (d.of_long a)) time) time)

  -- To the nearest integer, halves away from zero.
  unfoldable pub rounded : d.Double → Option ℤ
  rounded x = if d.nonnegative x then d.to_long (d.add x d.half) else d.to_long (d.sub x d.half)

  -- placement->x + rounded_dx, and so for y.
  unfoldable pub position : (x v a : ℤ) → d.Double → Option ℤ
  unfolding displacement rounded add_ssize
  position x v a time = elim (rounded (displacement v a time)) [
    | none ↦ none
    | some dx ↦ add_ssize x dx
  ]

  -- The body of the loop over the placements.
  unfoldable pub draw_placement : Store → Canvas → d.Double → Placement → Buffer → Option Buffer
  unfolding position draw_sprite
  draw_placement s canvas time p buf = at p.sprite s.sprites λ sprite.
      elim (position p.x p.vx p.ax time) [
        | none ↦ none
        | some position_x ↦ elim (position p.y p.vy p.ay time) [
          | none ↦ none
          | some position_y ↦ draw_sprite canvas sprite position_x position_y buf
        ]
      ]

  -- The while loop, from the tail of the canvas to its head, on fuel; running out of it is a fault too.
  unfoldable pub draw_layers : ℕ → Store → Canvas → d.Double → Ptr → Buffer → Option Buffer
  unfolding draw_placement
  draw_layers zero s canvas time placement buf = none
  draw_layers (suc fuel) s canvas time placement buf =
      let round : Option Buffer = elim (s.placements placement) [
        | none ↦ none
        | some p ↦ elim (draw_placement s canvas time p buf) [
          | none ↦ none
          | some buf' ↦ draw_layers fuel s canvas time p.previous buf'
        ]
      ] in
      if placement == null then some buf else round

  -- `none` as the buffer is NULL.
  unfoldable pub generate_frame :
      ℕ → Store → Ptr → (frame frame_rate : ℕ) → Option Buffer → Option (Option Buffer)
  unfolding for_up store draw_layers
  generate_frame fuel s canvas frame frame_rate none = some none
  generate_frame fuel s canvas frame frame_rate (some buf) =
      if canvas == null
      then some (some buf)
      else at canvas s.canvases λ c.
        if frame_rate == 0
        then some (some buf)
        else elim (for_up ((c.width * c.height) % size_mod) 0
            (λ i. store i (opaque c.background_color)) buf) [
              | none ↦ none
              | some filled ↦
                  elim (draw_layers fuel s c (d.div (d.of_size frame) (d.of_size frame_rate)) c.tail
                    filled) [ none ↦ none | some drawn ↦ some (some drawn) ]
            ]
