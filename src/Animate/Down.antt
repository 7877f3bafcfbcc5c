-- ===== src/Animate/Down.antt =====
-- animate_placement_down on a well-formed canvas.
use mathlib.Core.Option
use pointerpro_animate.Base.{◌≡◌, refl, ◌≢◌, none, some, List, [], ◌∷◌, arith, ◌==◌, if◌then◌else◌}
use pointerpro_animate.Animate.{Ptr, null, Placement, Canvas, Store, put_placement}
use pointerpro_animate.Animate.Layers.{placement_down}
use pointerpro_animate.Animate.Focus.{first, unfocus, IsFocus}
use pointerpro_animate.Animate.Relink.{
  with_next, with_previous, head_if, tail_if, body, frame, Relinked,
}
use pointerpro_animate.Animate.Swap.{Row, Swapped, focus-Row, swapped-IsFocus}

module _ (s : Store) (c u a b d : Ptr) (nu na nb nd : Placement) (cv : Canvas) where
  -- The writes of the code, for whichever neighbours there are.
  abbrev down_store : Store
  down_store = with_previous d nd a (
      put_placement a (some (record na { previous = b; next = d })) (
        put_placement b (some (record nb { previous = u; next = a })) (
          put_placement a (some (record na { previous = b })) (
            put_placement b (some (record nb { previous = u })) (
              with_next u nu b (
                tail_if d c (record cv { head = if u == null then b else cv.head }) a
                  (head_if u c cv b s)))))))

  module _ (r : Row s c u a b d nu na nb nd cv) where
    down_run : placement_down a s ≡ some (tt, down_store)
    unfolding placement_down
    down_run = ground arith

    down_elsewhere :
        (x : Ptr)
        → x ≢ a
        → x ≢ b
        → (x ≡ u → x ≡ null)
        → (x ≡ d → x ≡ null)
        → down_store.placements x ≡ s.placements x
    down_elsewhere x xa xb xu xd = ground arith

    down_bodies :
        (x : Ptr) → Option.map body (down_store.placements x) ≡ Option.map body (s.placements x)
    down_bodies x = ground arith

    down_frames :
        (k : Ptr) → Option.map frame (down_store.canvases k) ≡ Option.map frame (s.canvases k)
    down_frames k = ground arith

    down-Swapped : Swapped s down_store c u a b d nu na nb nd cv
    down-Swapped = record {
      new_a = ground arith;
      new_b = ground arith;
      new_u = λ ne. ground arith;
      new_d = λ ne. ground arith;
      elsewhere = down_elsewhere;
      bodies = down_bodies;
      new_c = ground arith;
      other_canvases = λ k ne. ground arith;
      frames = down_frames;
      same_sprites = ground arith;
    }

-- Seen from `a`, with `b` the next below it: the two change places. What the code does when there is
-- a layer below.
pub down-IsFocus :
    (s : Store) (c a b : Ptr) (us ds : List Ptr)
    → IsFocus s c (a ∷ us) b ds
    → (t : Store) × (placement_down a s ≡ some (tt, t))
      × IsFocus t c us b (a ∷ ds)
      × Relinked c (unfocus us (a ∷ b ∷ ds)) s t
down-IsFocus s c a b us ds v =
    let (nu, nd, r) = focus-Row s c a b us ds v in
    let na = v.above.0.node in
    let nb = v.here.node in
    let w = down-Swapped s c (first us) a b (first ds) nu na nb nd v.canvas r in
    let (focused, relinked) = swapped-IsFocus s c a b us ds _ nu na nb nd v.canvas r w v refl in
    (_, down_run s c (first us) a b (first ds) nu na nb nd v.canvas r, focused, relinked)

-- The bottom layer, with another above it, stays where it is.
pub down_bottom :
    (s : Store) (c a b : Ptr) (us : List Ptr)
    → IsFocus s c (a ∷ us) b []
    → placement_down b s ≡ some (tt, s)
unfolding placement_down
down_bottom s c a b us v =
    run v.here.node v.here.holds v.here.ne_null v.above.0.ne_null v.here.has_previous
      v.here.has_next
  where
    run :
        (n : Placement)
        → s.placements b ≡ some n
        → b ≢ null
        → a ≢ null
        → n.previous ≡ a
        → n.next ≡ null
        → placement_down b s ≡ some (tt, s)
    run n h ne an e d = ground arith

-- A canvas with one placement: the code takes it for the head of a longer list, and writes to the
-- `previous` of NULL.
pub down_single : (s : Store) (c p : Ptr) → IsFocus s c [] p [] → placement_down p s ≡ none
unfolding placement_down
down_single s c p v =
    run v.here.node v.here.holds v.here.ne_null v.here.has_previous v.here.has_next
  where
    run :
        (n : Placement)
        → s.placements p ≡ some n
        → p ≢ null
        → n.previous ≡ null
        → n.next ≡ null
        → placement_down p s ≡ none
    run n h ne e d = ground arith
