-- ===== src/Animate/Up.antt =====
-- animate_placement_up on a well-formed canvas.
use mathlib.Core.Option
use pointerpro_animate.Base.{◌≡◌, refl, ◌≢◌, some, List, [], ◌∷◌, arith, ◌==◌, if◌then◌else◌}
use pointerpro_animate.Animate.{Ptr, null, Placement, Canvas, Store, put_placement}
use pointerpro_animate.Animate.Layers.{placement_up}
use pointerpro_animate.Animate.Focus.{first, unfocus, IsFocus}
use pointerpro_animate.Animate.Relink.{
  with_next, with_previous, head_if, tail_if, body, frame, Relinked,
}
use pointerpro_animate.Animate.Swap.{Row, Swapped, focus-Row, swapped-IsFocus}

module _ (s : Store) (c u a b d : Ptr) (nu na nb nd : Placement) (cv : Canvas) where
  -- The writes of the code, for whichever neighbours there are.
  abbrev up_store : Store
  up_store = with_next u nu b (
      put_placement b (some (record nb { next = a; previous = u })) (
        put_placement a (some (record na { next = d; previous = b })) (
          put_placement b (some (record nb { next = a })) (
            with_previous d nd a (
              put_placement a (some (record na { next = d })) (
                head_if u c (record cv { tail = if d == null then a else cv.tail }) b
                  (tail_if d c cv a s)))))))

  module _ (r : Row s c u a b d nu na nb nd cv) where
    up_run : placement_up b s ≡ some (tt, up_store)
    unfolding placement_up
    up_run = ground arith

    up_elsewhere :
        (x : Ptr)
        → x ≢ a
        → x ≢ b
        → (x ≡ u → x ≡ null)
        → (x ≡ d → x ≡ null)
        → up_store.placements x ≡ s.placements x
    up_elsewhere x xa xb xu xd = ground arith

    up_bodies :
        (x : Ptr) → Option.map body (up_store.placements x) ≡ Option.map body (s.placements x)
    up_bodies x = ground arith

    up_frames : (k : Ptr) → Option.map frame (up_store.canvases k) ≡ Option.map frame (s.canvases k)
    up_frames k = ground arith

    up-Swapped : Swapped s up_store c u a b d nu na nb nd cv
    up-Swapped = record {
      new_a = ground arith;
      new_b = ground arith;
      new_u = λ ne. ground arith;
      new_d = λ ne. ground arith;
      elsewhere = up_elsewhere;
      bodies = up_bodies;
      new_c = ground arith;
      other_canvases = λ k ne. ground arith;
      frames = up_frames;
      same_sprites = ground arith;
    }

-- Seen from `b`, with `a` the next above it: the two change places.
pub up-IsFocus :
    (s : Store) (c a b : Ptr) (us ds : List Ptr)
    → IsFocus s c (a ∷ us) b ds
    → (t : Store) × (placement_up b s ≡ some (tt, t))
      × IsFocus t c us b (a ∷ ds)
      × Relinked c (unfocus us (a ∷ b ∷ ds)) s t
up-IsFocus s c a b us ds v =
    let (nu, nd, r) = focus-Row s c a b us ds v in
    let na = v.above.0.node in
    let nb = v.here.node in
    let w = up-Swapped s c (first us) a b (first ds) nu na nb nd v.canvas r in
    let (focused, relinked) = swapped-IsFocus s c a b us ds _ nu na nb nd v.canvas r w v refl in
    (_, up_run s c (first us) a b (first ds) nu na nb nd v.canvas r, focused, relinked)

-- The top layer stays where it is.
pub up_top :
    (s : Store) (c p : Ptr) (ds : List Ptr) → IsFocus s c [] p ds → placement_up p s ≡ some (tt, s)
unfolding placement_up
up_top s c p ds v = run v.here.node v.here.holds v.here.ne_null v.here.has_previous
  where
    run :
        (n : Placement)
        → s.placements p ≡ some n
        → p ≢ null
        → n.previous ≡ null
        → placement_up p s ≡ some (tt, s)
    run n h ne e = ground arith
