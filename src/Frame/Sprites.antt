-- ===== src/Frame/Sprites.antt =====
-- The effect of drawing one sprite.
use pointerpro_animate.Base.{
  ℕ, zero, suc, ◌+◌, ◌*◌, ◌/◌, ◌^◌, ◌<◌, ◌≡◌, refl, ap, ap₂, ◌∙◌, true, false, ◌||◌, Option, none,
  some, arith, leb, ◌==◌, if◌then◌else◌, get_elem?, get_elem?-inside, Bool-cases, inl, inr,
}
use pointerpro_animate.Base.Int.{ℤ, pos}
use pointerpro_animate.Animate.{Sprite, Canvas, size_mod}
use pointerpro_animate.Frame.{as_ssize, add_ssize, store, outside, opaque, draw_pixel, draw_sprite}
use pointerpro_animate.Frame.Paint.{
  over, Effect, Draws, no_effect, store-Draws, change_effect, same_drawing, over_up, for_up-Draws,
  index_in_range,
}
use pointerpro_animate.Frame.Pixels.{
  hits, at_offset, over_up-hits, Fits, Lands, inside, before, lands,
}
use pointerpro_animate.Frame.Points.{
  IsFrame, IsSprite, drawn, off_canvas, outside-leb, sprite_color, sprite_effect, transparent,
}

module _ (canvas : Canvas) (sprite : Sprite) (frame : IsFrame canvas)
    (valid : IsSprite sprite) where
  abbrev w : ℕ
  w = canvas.width

  abbrev h : ℕ
  h = canvas.height

  -- The pixel of a sprite that stands somewhere.
  there :
      (sy sx : ℕ)
      → sx < sprite.width
      → sy < sprite.height
      → (pixel : ℕ) × (get_elem? sprite.pixels (sy * sprite.width + sx) ≡ some pixel)
  there sy sx hx hy =
      get_elem?-inside sprite.pixels (sy * sprite.width + sx)
        (omega (arith, index_in_range sx sy sprite.width sprite.height hx hy, valid.allocated))

  pixel_effect : ℤ → ℤ → ℕ → ℕ → Effect
  pixel_effect px py sy sx x y =
      if hits py sy y then (if hits px sx x then sprite_color sprite sy sx else none) else none

  off_effect :
      (px py : ℤ) (sy sx c c' x y : ℕ)
      → hits px sx x ≡ (x == c)
      → hits py sy y ≡ (y == c')
      → x < w
      → y < h
      → (leb w c || leb h c') ≡ true
      → none ≡ pixel_effect px py sy sx x y
  unfolding pixel_effect
  off_effect px py sy sx c c' x y hit hit' ix iy out = rw (hit, hit') (ground arith)

  clear_effect :
      (px py : ℤ) (sy sx c c' x y pixel : ℕ)
      → hits px sx x ≡ (x == c)
      → hits py sy y ≡ (y == c')
      → get_elem? sprite.pixels (sy * sprite.width + sx) ≡ some pixel
      → (pixel / 2 ^ 24 == 0) ≡ true
      → none ≡ pixel_effect px py sy sx x y
  unfolding pixel_effect
  clear_effect px py sy sx c c' x y pixel hit hit' stands clear = ground arith

  solid_effect :
      (px py : ℤ) (sy sx c c' x y pixel : ℕ)
      → hits px sx x ≡ (x == c)
      → hits py sy y ≡ (y == c')
      → get_elem? sprite.pixels (sy * sprite.width + sx) ≡ some pixel
      → (pixel / 2 ^ 24 == 0) ≡ false
      → (if x == c then (if y == c' then some (opaque pixel) else none) else none)
        ≡ pixel_effect px py sy sx x y
  unfolding pixel_effect
  solid_effect px py sy sx c c' x y pixel hit hit' stands solid = ground arith

  on_canvas :
      (px py : ℤ) (sy sx : ℕ)
      → sx < sprite.width
      → sy < sprite.height
      → (c c' : ℕ) → add_ssize px (as_ssize sx) ≡ some (pos c)
      → ((x : ℕ) → hits px sx x ≡ (x == c))
      → add_ssize py (as_ssize sy) ≡ some (pos c')
      → ((y : ℕ) → hits py sy y ≡ (y == c'))
      → c < w
      → c' < h
      → Draws w h (draw_pixel canvas sprite px py sy sx) (pixel_effect px py sy sx)
  unfolding pixel_effect
  on_canvas px py sy sx hx hy c c' e hit e' hit' ic ic' =
      let (pixel, stands) = there sy sx hx hy in
      let small : sy * sprite.width + sx < size_mod =
        omega (arith, index_in_range sx sy sprite.width sprite.height hx hy, valid.countable) in
      let index : c' * w + c < size_mod =
        omega (arith, index_in_range c c' w h ic ic', frame.countable) in
      elim (Bool-cases (pixel / 2 ^ 24 == 0)) [
        | inl clear ↦
            same_drawing w h _ some _
              (λ b.
                transparent canvas sprite px py sy sx _ _ pixel b e e'
                  (ground (arith, outside-leb c w frame.wide, outside-leb c' h frame.high)) stands
                  small clear)
              (change_effect w h some (λ x y. none) _
                (λ x y ix iy. clear_effect px py sy sx c c' x y pixel (hit x) (hit' y) stands clear)
                (no_effect w h))
        | inr solid ↦
            same_drawing w h _ _ _
              (λ b.
                drawn canvas sprite px py sy sx c c' pixel b e e'
                  (ground (arith, outside-leb c w frame.wide))
                  (ground (arith, outside-leb c' h frame.high)) stands small solid index)
              (change_effect w h (store (c' * w + c) (opaque pixel)) _ _
                (λ x y ix iy. solid_effect px py sy sx c c' x y pixel (hit x) (hit' y) stands solid)
                (store-Draws w h c c' (opaque pixel) ic ic'))
      ]

  pixel-Draws :
      (px py : ℤ) (sy sx : ℕ)
      → sx < sprite.width
      → sy < sprite.height
      → Lands px sx
      → Lands py sy
      → Draws w h (draw_pixel canvas sprite px py sy sx) (pixel_effect px py sy sx)
  unfolding pixel_effect
  pixel-Draws px py sy sx hx hy (before k e miss) (before k' e' miss') =
      same_drawing w h _ some _ (λ b. off_canvas canvas sprite px py sy sx _ _ b e e' refl)
        (change_effect w h some (λ x y. none) _ (λ x y ix iy. rw (miss' y) refl) (no_effect w h))
  pixel-Draws px py sy sx hx hy (before k e miss) (inside c e' hit) =
      same_drawing w h _ some _ (λ b. off_canvas canvas sprite px py sy sx _ _ b e e' refl)
        (change_effect w h some (λ x y. none) _ (λ x y ix iy. ground (arith, miss x))
          (no_effect w h))
  pixel-Draws px py sy sx hx hy (inside c e hit) (before k' e' miss') =
      same_drawing w h _ some _
        (λ b. off_canvas canvas sprite px py sy sx _ _ b e e' (ground arith))
        (change_effect w h some (λ x y. none) _ (λ x y ix iy. rw (miss' y) refl) (no_effect w h))
  pixel-Draws px py sy sx hx hy (inside c e hit) (inside c' e' hit') =
      let wide = outside-leb c w frame.wide in
      let high = outside-leb c' h frame.high in
      elim (Bool-cases (outside (pos c) (as_ssize w) || outside (pos c') (as_ssize h))) [
        | inl out ↦
            same_drawing w h _ some _ (λ b. off_canvas canvas sprite px py sy sx _ _ b e e' out)
              (change_effect w h some (λ x y. none) _
                (λ x y ix iy. off_effect px py sy sx c c' x y (hit x) (hit' y) ix iy (ground arith))
                (no_effect w h))
        | inr on ↦ on_canvas px py sy sx hx hy c c' e hit e' hit' (ground arith) (ground arith)
      ]

  row_effect :
      (px py : ℤ) (sy n i x y : ℕ)
      → over_up n i (λ sx. pixel_effect px py sy sx x y) ≡ (
          if hits py sy y
          then over_up n i (λ s. if hits px s x then sprite_color sprite sy s else none)
          else none)
  unfolding pixel_effect
  row_effect px py sy zero i x y = ground arith
  row_effect px py sy (suc n) i x y = ground (arith, row_effect px py sy n (suc i) x y)

  rows_effect :
      (px py : ℤ) (n i x y : ℕ)
      → over_up n i (λ sy. over_up sprite.width 0 (λ sx. pixel_effect px py sy sx x y))
        ≡ over_up n i (λ sy.
          if hits py sy y
          then at_offset sprite.width 0 px x (λ sx. sprite_color sprite sy sx)
          else none)
  rows_effect px py zero i x y = refl
  rows_effect px py (suc n) i x y = ap₂ over (rows_effect px py n (suc i) x y) (
      row_effect px py i sprite.width 0 x y
      ∙ ap (λ (c : Option ℕ). if hits py i y then c else none)
          (over_up-hits sprite.width 0 px (sprite_color sprite i) x))

  pub draw_sprite-Draws :
      (px py : ℤ)
      → Fits px sprite.width
      → Fits py sprite.height
      → Draws w h (draw_sprite canvas sprite px py) (sprite_effect sprite px py)
  unfolding draw_sprite
  draw_sprite-Draws px py fits fits' =
      change_effect w h _
        (λ x y.
          over_up sprite.height 0 λ sy. over_up sprite.width 0 λ sx. pixel_effect px py sy sx x y)
        (sprite_effect sprite px py)
        (λ x y hx hy.
          rows_effect px py sprite.height 0 x y
          ∙ over_up-hits sprite.height 0 py
              (λ sy. at_offset sprite.width 0 px x (λ sx. sprite_color sprite sy sx)) y)
        (for_up-Draws w h sprite.height 0 _ _ λ sy lo hi.
          for_up-Draws w h sprite.width 0 _ _ λ sx lo' hi'.
            pixel-Draws px py sy sx (omega arith) (omega arith)
              (lands px sx sprite.width fits (omega arith))
              (lands py sy sprite.height fits' (omega arith)))
