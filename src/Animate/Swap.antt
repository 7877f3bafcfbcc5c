-- ===== src/Animate/Swap.antt =====
-- Two neighbouring layers change places: what the writes of animate_placement_up and
-- animate_placement_down come to.
use mathlib.Core.Option
use pointerpro_animate.Base.{
  ◌≡◌, refl, subst, ◌≢◌, true, false, some, List, [], ◌∷◌, arith, ◌==◌, if◌then◌else◌,
}
use pointerpro_animate.Animate.{Ptr, null, Placement, Canvas, Store}
use pointerpro_animate.Animate.Focus.{
  Node, first, end, Below, Above, has, Distinct, unfocus, IsFocus,
}
use pointerpro_animate.Animate.Apart.{
  first-ne, ne_of_has, first-first, flip_apart, not_first, out-cons, cons-out, head-has, apart-tail,
  apart-cons, out-unfocus,
}
use pointerpro_animate.Animate.Relink.{
  Neighbour, neighbour_above, neighbour_below, turn-Above, turn-Below, body, frame, Relinked,
  no_first_above, no_first_below,
}

-- The placements `u`, `a`, `b`, `d` follow one another, `u` or `d` may be NULL, and `s` holds them.
pub record Row (s : Store) (c u a b d : Ptr) (nu na nb nd : Placement) (cv : Canvas) : Type 0 where
  pub at_a : s.placements a ≡ some na
  pub at_b : s.placements b ≡ some nb
  pub at_c : s.canvases c ≡ some cv
  pub at_u : Neighbour s.placements u nu
  pub at_d : Neighbour s.placements d nd
  pub a_ne : a ≢ null
  pub b_ne : b ≢ null
  pub c_ne : c ≢ null
  pub ba : b ≢ a
  pub ua : u ≢ a
  pub ub : u ≢ b
  pub da : d ≢ a
  pub db : d ≢ b
  pub ud : u ≡ d → u ≡ null
  pub a_canvas : na.canvas ≡ c
  pub a_previous : na.previous ≡ u
  pub a_next : na.next ≡ b
  pub b_canvas : nb.canvas ≡ c
  pub b_previous : nb.previous ≡ a
  pub b_next : nb.next ≡ d

-- In `t` they stand as `u`, `b`, `a`, `d`.
pub record Swapped (s t : Store) (c u a b d : Ptr) (nu na nb nd : Placement) (cv : Canvas)
    : Type 0 where
  pub new_a : t.placements a ≡ some (record na { next = d; previous = b })
  pub new_b : t.placements b ≡ some (record nb { next = a; previous = u })
  pub new_u : u ≢ null → t.placements u ≡ some (record nu { next = b })
  pub new_d : d ≢ null → t.placements d ≡ some (record nd { previous = a })
  pub elsewhere :
      (x : Ptr)
      → x ≢ a
      → x ≢ b
      → (x ≡ u → x ≡ null)
      → (x ≡ d → x ≡ null)
      → t.placements x ≡ s.placements x
  pub bodies : (x : Ptr) → Option.map body (t.placements x) ≡ Option.map body (s.placements x)
  pub new_c :
      t.canvases c
      ≡ some (record cv {
        head = if u == null then b else cv.head;
        tail = if d == null then a else cv.tail;
      })
  pub other_canvases : (k : Ptr) → k ≢ c → t.canvases k ≡ s.canvases k
  pub frames : (k : Ptr) → Option.map frame (t.canvases k) ≡ Option.map frame (s.canvases k)
  pub same_sprites : t.sprites ≡ s.sprites

swapped_head :
    (a b : Ptr) (us : List Ptr) (old : Ptr)
    → old ≡ end a us
    → ((first us ≡ null) → us ≡ [])
    → (if first us == null then b else old) ≡ end b us
swapped_head a b [] old e ne = refl
swapped_head a b (u ∷ us) old e ne = ground (arith, ne)

module _ (s : Store) (c a b : Ptr) (us ds : List Ptr) where
  -- The row in the middle of a canvas.
  pub focus-Row :
      (v : IsFocus s c (a ∷ us) b ds)
      → (nu : Placement) × (nd : Placement) × Row s c
          (first us)
          a
          b
          (first ds)
          nu
          v.above.0.node
          v.here.node
          nd
          v.canvas
  focus-Row v =
      let n = v.here in
      let m = v.above.0 in
      let (nu, hu) = neighbour_above s.placements c a us n.node v.above.1 in
      let (nd, hd) = neighbour_below s.placements c b ds n.node v.below in
      let (ba, bus) = out-cons b a us v.out_above in
      let aus : has a us ≡ false = v.distinct_above.0 in
      let ads : has a ds ≡ false = v.apart a (head-has a us) in
      (
        nu,
        nd,
        record {
          at_a = m.holds;
          at_b = n.holds;
          at_c = v.holds;
          at_u = hu;
          at_d = hd;
          a_ne = m.ne_null;
          b_ne = n.ne_null;
          c_ne = v.ne_null;
          ba = ba;
          ua = first-ne a us m.ne_null aus;
          ub = first-ne b us n.ne_null bus;
          da = first-ne a ds m.ne_null ads;
          db = first-ne b ds n.ne_null v.out_below;
          ud = first-first us ds (apart-tail a us ds v.apart);
          a_canvas = m.on_canvas;
          a_previous = m.has_previous;
          a_next = m.has_next;
          b_canvas = n.on_canvas;
          b_previous = n.has_previous;
          b_next = n.has_next;
        },
      )

  module _ (t : Store) (nu na nb nd : Placement) (cv : Canvas)
      (r : Row s c (first us) a b (first ds) nu na nb nd cv)
      (w : Swapped s t c (first us) a b (first ds) nu na nb nd cv) where
    -- What is above keeps its shape below its first.
    swapped-Above :
        Distinct us
        → Above s.placements c a us
        → has a us ≡ false
        → has b us ≡ false
        → ((x : Ptr) → has x us ≡ true → has x ds ≡ false)
        → Above t.placements c b us
    swapped-Above distinct v aus bus apart =
        turn-Above c a b us nu distinct v r.at_u
          (λ x i ne.
            w.elsewhere x (ne_of_has x a us i aus) (ne_of_has x b us i bus) (λ e. absurd (ne e))
              (λ e. not_first x ds (apart x i) e))
          w.new_u

    swapped-Below :
        Distinct ds
        → Below s.placements c b ds
        → has a ds ≡ false
        → has b ds ≡ false
        → ((x : Ptr) → has x ds ≡ true → has x us ≡ false)
        → Below t.placements c a ds
    swapped-Below distinct v ads bds away =
        turn-Below c b a ds nd distinct v r.at_d
          (λ x i ne.
            w.elsewhere x (ne_of_has x a ds i ads) (ne_of_has x b ds i bds)
              (λ e. not_first x us (away x i) e) (λ e. absurd (ne e)))
          w.new_d

    swapped-Relinked : Relinked c (unfocus us (a ∷ b ∷ ds)) s t
    swapped-Relinked = record {
      outside = λ x out.
          let (ous, oys) = out-unfocus x us (a ∷ b ∷ ds) out in
          let (xa, ozs) = out-cons x a (b ∷ ds) oys in
          let (xb, ods) = out-cons x b ds ozs in
          w.elsewhere x xa xb (not_first x us ous) (not_first x ds ods);
      bodies = w.bodies;
      other_canvases = w.other_canvases;
      frames = w.frames;
      same_sprites = w.same_sprites;
    }

    swapped-a : Node t.placements c a b (first ds)
    swapped-a = record {
      node = record na { next = first ds; previous = b };
      holds = w.new_a;
      ne_null = r.a_ne;
      on_canvas = r.a_canvas;
      has_previous = refl;
      has_next = refl;
    }

    swapped-b : Node t.placements c b (first us) a
    swapped-b = record {
      node = record nb { next = a; previous = first us };
      holds = w.new_b;
      ne_null = r.b_ne;
      on_canvas = r.b_canvas;
      has_previous = refl;
      has_next = refl;
    }

    -- The canvas with the two layers in their new places.
    pub swapped-IsFocus :
        (v : IsFocus s c (a ∷ us) b ds)
        → v.canvas ≡ cv
        → IsFocus t c us b (a ∷ ds) × Relinked c (unfocus us (a ∷ b ∷ ds)) s t
    swapped-IsFocus v e =
        let aus : has a us ≡ false = v.distinct_above.0 in
        let (ba, bus) = out-cons b a us v.out_above in
        let ads : has a ds ≡ false = v.apart a (head-has a us) in
        let apart = apart-tail a us ds v.apart in
        (
          record {
            canvas = record cv {
              head = if first us == null then b else cv.head;
              tail = if first ds == null then a else cv.tail;
            };
            holds = w.new_c;
            ne_null = v.ne_null;
            has_head =
                swapped_head a b us cv.head (subst (λ k. k.head ≡ end a us) e v.has_head)
                  (no_first_above s.placements c a us v.above.1);
            has_tail =
                swapped_head b a ds cv.tail (subst (λ k. k.tail ≡ end b ds) e v.has_tail)
                  (no_first_below s.placements c b ds v.below);
            above = swapped-Above v.distinct_above.1 v.above.1 aus bus apart;
            here = swapped-b;
            below = (
              swapped-a,
              swapped-Below v.distinct_below v.below ads v.out_below (flip_apart us ds apart),
            );
            distinct_above = v.distinct_above.1;
            distinct_below = (ads, v.distinct_below);
            out_above = bus;
            out_below = cons-out b a ds ba v.out_below;
            apart = apart-cons a us ds aus apart;
          },
          swapped-Relinked,
        )
