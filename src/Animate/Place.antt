-- ===== src/Animate/Place.antt =====
-- animate_place_sprite on a well-formed canvas.
use mathlib.Core.Option
use pointerpro_animate.Base.{◌≡◌, refl, ◌≢◌, false, none, some, List, ◌∷◌, arith, ◌+◌, ◌%◌}
use pointerpro_animate.Animate.{
  Ptr, null, Placement, Canvas, Store, put_placement, put_canvas, put_sprite, update, Sprite,
  size_mod,
}
use pointerpro_animate.Animate.Layers.{place_sprite, new_placement}
use pointerpro_animate.Animate.Focus.{first, has, IsCanvas}
use pointerpro_animate.Animate.Apart.{free_out, not_first}
use pointerpro_animate.Animate.Relink.{
  with_previous, tail_if, Neighbour, neighbour_below, body, frame,
}
use pointerpro_animate.Base.Int.{ℤ}
use pointerpro_animate.Animate.Push.{Pushed, Pushed-IsCanvas}

module _ (s : Store) (c i p h : Ptr) (x y : ℤ) (nh : Placement) (cv : Canvas) (sp : Sprite) where
  abbrev count_more : Sprite
  count_more = record sp { placement_count = (sp.placement_count + 1) % size_mod }

  abbrev placed : Placement
  placed = new_placement c i x y

  abbrev place_store : Store
  place_store = with_previous h nh p (
      put_placement p (some (record placed { next = h })) (
        tail_if h c (record cv { head = p }) p
          (put_canvas c (some (record cv { head = p }))
            (put_placement p (some placed) (put_sprite i (some count_more) s)))))

  module _ (free : s.placements p ≡ none) (hc : s.canvases c ≡ some cv) (hi : s.sprites i ≡ some sp)
      (hh : Neighbour s.placements h nh) (p0 : p ≢ null) (c0 : c ≢ null) (i0 : i ≢ null) where
    place_run : cv.head ≡ h → place_sprite p c i x y s ≡ some (p, place_store)
    unfolding place_sprite
    place_run e = ground arith

    place-Pushed : Pushed s place_store c p h (record placed { next = h }) nh cv
    place-Pushed = record {
      new_p = ground arith;
      p_canvas = refl;
      p_previous = refl;
      p_next = refl;
      new_h = λ ne. ground arith;
      elsewhere = λ x xp xh. ground arith;
      new_c = ground arith;
    }

    place_sprites : place_store.sprites ≡ update s.sprites i (some count_more)
    place_sprites = ground arith

    place_other_canvases : (k : Ptr) → k ≢ c → place_store.canvases k ≡ s.canvases k
    place_other_canvases k ne = ground arith

    place_bodies :
        (a : Ptr)
        → a ≢ p
        → Option.map body (place_store.placements a) ≡ Option.map body (s.placements a)
    place_bodies a ne = ground arith

    place_frames :
        (k : Ptr) → Option.map frame (place_store.canvases k) ≡ Option.map frame (s.canvases k)
    place_frames k = ground arith

-- A sprite that is allocated and is placed on a well-formed canvas, at an address that is free and not
-- NULL, comes on top of its layers, at rest and at the
-- given place, at the fresh address; the sprite counts one placement more. All else stays: the
-- other canvases, the size and background of this one, the placements on this canvas but for their
-- links, all other placements, and the other sprites.
pub place_sprite-cons :
    (s : Store) (c i p : Ptr) (x y : ℤ) (xs : List Ptr) (sp : Sprite)
    → IsCanvas s c xs
    → s.placements p ≡ none
    → p ≢ null
    → s.sprites i ≡ some sp
    → i ≢ null
    → (t : Store) × (place_sprite p c i x y s ≡ some (p, t))
      × IsCanvas t c (p ∷ xs)
      × (t.placements p ≡ some (record (new_placement c i x y) { next = first xs }))
      × (t.sprites
          ≡ update s.sprites i
              (some (record sp { placement_count = (sp.placement_count + 1) % size_mod })))
      × ((k : Ptr) → k ≢ c → t.canvases k ≡ s.canvases k)
      × ((k : Ptr) → Option.map frame (t.canvases k) ≡ Option.map frame (s.canvases k))
      × ((a : Ptr) → a ≢ p → Option.map body (t.placements a) ≡ Option.map body (s.placements a))
      × ((a : Ptr) → a ≢ p → has a xs ≡ false → t.placements a ≡ s.placements a)
place_sprite-cons s c i p x y xs sp v free p0 hi i0 =
    let (nh, hh) = neighbour_below s.placements c null xs (new_placement c i x y) v.chain in
    let h : Ptr = first xs in
    let w = place-Pushed s c i p h x y nh v.canvas sp free v.holds hi hh p0 v.ne_null i0 in
    (
      place_store s c i p h x y nh v.canvas sp,
      place_run s c i p h x y nh v.canvas sp free v.holds hi hh p0 v.ne_null i0 v.has_head,
      Pushed-IsCanvas s _ c p _ nh p0 xs v (free_out s.placements c null p xs v.chain free) hh w,
      w.new_p,
      place_sprites s c i p h x y nh v.canvas sp free v.holds hi hh p0 v.ne_null i0,
      place_other_canvases s c i p h x y nh v.canvas sp free v.holds hi hh p0 v.ne_null i0,
      place_frames s c i p h x y nh v.canvas sp free v.holds hi hh p0 v.ne_null i0,
      place_bodies s c i p h x y nh v.canvas sp free v.holds hi hh p0 v.ne_null i0,
      λ a ne out. w.elsewhere a ne (not_first a xs out),
    )
