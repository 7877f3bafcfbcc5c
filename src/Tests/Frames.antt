-- ===== src/Tests/Frames.antt =====
-- A frame of the canvas with three layers, with whole numbers for `double`.
use pointerpro_animate.Base.{
  ℕ, ◌+◌, ◌*◌, ◌<◌, ◌≡◌, refl, sym, subst, true, none, some, [], ◌∷◌, arith, ◌==◌, if◌then◌else◌,
  length, get_elem?, replicate,
}
use pointerpro_animate.Base.Int.{ℤ, pos, negsuc, ◌+ℤ◌, pos_part, neg_part, sub_ℕ}
use pointerpro_animate.Animate.{Ptr, Sprite, Placement, Store}
use pointerpro_animate.Animate.Focus.{has, IsCanvas}
use pointerpro_animate.Frame.{Doubles, Buffer, opaque, generate_frame, position}
use pointerpro_animate.Frame.Paint.{over}
use pointerpro_animate.Frame.Points.{IsSprite, IsFrame}
use pointerpro_animate.Frame.Topmost.{generate_frame-topmost}
use pointerpro_animate.Frame.Turns.{IsShown, topmost}
use pointerpro_animate.Tests.Layers.{layer, board, shown, layers, node}

abbrev times : ℤ → ℤ → ℤ
times a b =
    sub_ℕ (pos_part a * pos_part b + neg_part a * neg_part b)
      (pos_part a * neg_part b + neg_part a * pos_part b)

abbrev whole_numbers : Doubles
whole_numbers = record {
  Double = ℤ;
  of_size = pos;
  of_long = λ a. a;
  half = pos 0;
  add = λ a b. a +ℤ b;
  sub = λ a b. a +ℤ times (negsuc 0) b;
  mul = times;
  div = λ a b. a;
  nonnegative = λ a. neg_part a == 0;
  to_long = λ a. some a;
}

abbrev tall : Sprite
tall = record { width = 1; height = 2; pixels = 7 ∷ 4278190335 ∷ []; placement_count = 3 }

abbrev picture : Store
picture = record shown { sprites = λ i. if i == 20 then some tall else none }

abbrev picture_canvas : IsCanvas picture 10 layers
picture_canvas = record {
  canvas = board;
  holds = refl;
  ne_null = omega arith;
  has_head = refl;
  has_tail = refl;
  chain = (
    node 1 0 2 refl (omega arith),
    (node 2 1 3 refl (omega arith), (node 3 2 0 refl (omega arith), tt)),
  );
  distinct = (refl, (refl, (refl, tt)));
}

tall-IsSprite : IsSprite tall
tall-IsSprite = record { allocated = omega arith; countable = omega arith }

board-IsFrame : IsFrame board
board-IsFrame = record { wide = omega arith; high = omega arith; countable = omega arith }

layer-IsShown : (previous next : Ptr) → IsShown whole_numbers picture (pos 6) (layer previous next)
unfolding position ◌+ℤ◌
layer-IsShown previous next = record {
  sprite = tall;
  has_sprite = refl;
  ne_null = omega arith;
  valid = tall-IsSprite;
  left = pos 3;
  has_left = refl;
  fits_width = omega arith;
  top = negsuc 1;
  has_top = refl;
  fits_height = (omega arith, omega arith);
}

is_layer : (a : Ptr) (p : Placement) → picture.placements a ≡ some p → p ≡ layer p.previous p.next
is_layer a p e = ground arith

picture-IsShown :
    (a : Ptr) (p : Placement)
    → has a layers ≡ true
    → picture.placements a ≡ some p
    → IsShown whole_numbers picture (pos 6) p
picture-IsShown a p i e =
    subst (IsShown whole_numbers picture (pos 6)) (sym (is_layer a p e))
      (layer-IsShown p.previous p.next)

generate_frame-topmost_example :
    (out : Buffer) × (generate_frame whole_numbers 4 picture 10 6 1 (some (replicate 16 0))
      ≡ some (some out))
    × (length out ≡ 16)
    × ((x y : ℕ)
        → x < 4
        → y < 4
        → get_elem? out (y * 4 + x)
          ≡ over (topmost whole_numbers picture (pos 6) layers x y) (some (opaque 0)))
generate_frame-topmost_example =
    generate_frame-topmost whole_numbers picture 10 layers 4 6 1 (replicate 16 0) picture_canvas
      board-IsFrame (omega arith) (omega arith) (omega arith) picture-IsShown
