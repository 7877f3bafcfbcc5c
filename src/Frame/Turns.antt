-- ===== src/Frame/Turns.antt =====
-- The layers of a canvas from below, and what they draw at a pixel.
use pointerpro_animate.Base.{
  ℕ, ◌+◌, ◌≡◌, ◌≢◌, refl, ◌∙◌, true, none, some, List, [], ◌∷◌, arith, if◌then◌else◌, length,
}
use pointerpro_animate.Base.Int.{ℤ}
use pointerpro_animate.Animate.{Ptr, null, Sprite, Placement, Store}
use pointerpro_animate.Animate.Focus.{Heap, first, end, last, Below, Above, has, unfocus}
use pointerpro_animate.Frame.{Doubles, position}
use pointerpro_animate.Frame.Paint.{over, over_assoc, Effect}
use pointerpro_animate.Frame.Pixels.{Fits}
use pointerpro_animate.Frame.Points.{IsSprite, sprite_effect}

-- From the bottom to the top.
abbrev pub turn : List Ptr → List Ptr → List Ptr
turn [] us = us
turn (x ∷ xs) us = turn xs (x ∷ us)

pub unfocus-turn : (xs us : List Ptr) → unfocus (turn xs us) [] ≡ unfocus us xs
unfocus-turn [] us = refl
unfocus-turn (x ∷ xs) us = unfocus-turn xs (x ∷ us)

pub turn-Above :
    (h : Heap) (c : Ptr) (xs us : List Ptr)
    → Above h c (first xs) us
    → Below h c (first us) xs
    → Above h c null (turn xs us)
turn-Above h c [] us above below = above
turn-Above h c (x ∷ xs) us above (n, below) = turn-Above h c xs (x ∷ us) (n, above) below

first-turn : (x : Ptr) (xs us : List Ptr) → first (turn xs (x ∷ us)) ≡ end x xs
first-turn x [] us = refl
first-turn x (y ∷ xs) us = first-turn y xs (x ∷ us)

pub first-turn-last : (xs : List Ptr) → first (turn xs []) ≡ last xs
first-turn-last [] = refl
first-turn-last (x ∷ xs) = first-turn x xs []

pub length-turn : (xs us : List Ptr) → length (turn xs us) ≡ length xs + length us
length-turn [] us = omega arith
length-turn (x ∷ xs) us = omega (arith, length-turn xs (x ∷ us))

has-turn : (a : Ptr) (xs us : List Ptr) → has a us ≡ true → has a (turn xs us) ≡ true
has-turn a [] us h = h
has-turn a (x ∷ xs) us h = has-turn a xs (x ∷ us) (ground arith)

pub turn-has :
    (a : Ptr) (xs us : List Ptr)
    → has a (turn xs us) ≡ true
    → (if has a us then true else has a xs) ≡ true
turn-has a [] us h = rw h
turn-has a (x ∷ xs) us h = ground (arith, turn-has a xs (x ∷ us))

module _ (d : Doubles) (s : Store) (time : d.Double) where
  -- The colour that a placement gives to a pixel of the canvas, if it is opaque there: that of the
  -- pixel of its sprite, moved to the placement's position at the time.
  abbrev pub placement_color : Placement → Effect
  placement_color p x y = elim (s.sprites p.sprite) [
    | none ↦ none
    | some sprite ↦ elim (position d p.x p.vx p.ax time) [
      | none ↦ none
      | some px ↦ elim (position d p.y p.vy p.ay time) [
        | none ↦ none
        | some py ↦ sprite_effect sprite px py x y
      ]
    ]
  ]

  abbrev pub layer_color : Ptr → Effect
  layer_color a x y = elim (s.placements a) [ none ↦ none | some p ↦ placement_color p x y ]

  -- The first colour of the layers, from the top.
  abbrev pub topmost : List Ptr → Effect
  topmost [] x y = none
  topmost (a ∷ xs) x y = over (layer_color a x y) (topmost xs x y)

  abbrev pub upward : List Ptr → Effect
  upward [] x y = none
  upward (a ∷ us) x y = over (upward us x y) (layer_color a x y)

  pub topmost-unfocus :
      (us ds : List Ptr) (x y : ℕ)
      → topmost (unfocus us ds) x y ≡ over (upward us x y) (topmost ds x y)
  topmost-unfocus [] ds x y = refl
  topmost-unfocus (a ∷ us) ds x y =
      topmost-unfocus us (a ∷ ds) x y
      ∙ over_assoc (upward us x y) (layer_color a x y) (topmost ds x y)

  -- A placement's sprite is there, and its position is defined and in range.
  pub record IsShown (p : Placement) : Type 0 where
    pub sprite : Sprite
    pub has_sprite : s.sprites p.sprite ≡ some sprite
    pub ne_null : p.sprite ≢ null
    pub valid : IsSprite sprite
    pub left : ℤ
    pub has_left : position d p.x p.vx p.ax time ≡ some left
    pub fits_width : Fits left sprite.width
    pub top : ℤ
    pub has_top : position d p.y p.vy p.ay time ≡ some top
    pub fits_height : Fits top sprite.height
