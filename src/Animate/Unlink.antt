-- ===== src/Animate/Unlink.antt =====
-- A placement leaves the list of its canvas: its neighbours are joined.
use pointerpro_animate.Base.{◌≡◌, refl, sym, ◌≢◌, some, List, [], ◌∷◌, arith, ◌==◌, if◌then◌else◌}
use pointerpro_animate.Animate.{Ptr, null, Placement, Canvas, Store}
use pointerpro_animate.Animate.Focus.{
  Heap, first, end, Below, Above, unfocus, IsCanvas, IsFocus, first-unfocus, last-unfocus,
  Distinct-unfocus, unfocus_chain, last,
}
use pointerpro_animate.Animate.Apart.{ne_of_has, flip_apart, not_first}
use pointerpro_animate.Animate.Relink.{
  Neighbour, turn-Above, turn-Below, no_first_above, no_first_below,
}

-- In `t` the neighbours `u` and `d` of `p`, of which each may be NULL, know one another.
pub record Unlinked (s t : Store) (c u p d : Ptr) (nu nd : Placement) (cv : Canvas) : Type 0 where
  pub new_u : u ≢ null → t.placements u ≡ some (record nu { next = d })
  pub new_d : d ≢ null → t.placements d ≡ some (record nd { previous = u })
  pub elsewhere :
      (x : Ptr) → x ≢ p → (x ≡ u → x ≡ null) → (x ≡ d → x ≡ null) → t.placements x ≡ s.placements x
  pub new_c :
      t.canvases c
      ≡ some (record cv {
        head = if u == null then d else cv.head;
        tail = if d == null then u else cv.tail;
      })
  pub other_canvases : (k : Ptr) → k ≢ c → t.canvases k ≡ s.canvases k

unlinked_end :
    (p : Ptr) (us ds : List Ptr) (old : Ptr)
    → old ≡ end p us
    → (first us ≡ null → us ≡ [])
    → (if first us == null then first ds else old) ≡ first (unfocus us ds)
unlinked_end p [] ds old e ne = refl
unlinked_end p (u ∷ us) ds old e ne = ground (arith, ne, first-unfocus us u ds)

unlinked_tail :
    (p : Ptr) (us ds : List Ptr) (old : Ptr)
    → old ≡ end p ds
    → (first ds ≡ null → ds ≡ [])
    → (if first ds == null then first us else old) ≡ last (unfocus us ds)
unlinked_tail p [] [] old e ne = refl
unlinked_tail p (u ∷ us) [] old e ne = sym (last-unfocus us u [])
unlinked_tail p [] (d ∷ ds) old e ne = ground (arith, ne)
unlinked_tail p (u ∷ us) (d ∷ ds) old e ne = ground (arith, ne, last-unfocus us u (d ∷ ds))

-- Two chains that know one another are one.
joined_chain :
    (h : Heap) (c : Ptr) (us ds : List Ptr)
    → Above h c (first ds) us
    → Below h c (first us) ds
    → Below h c null (unfocus us ds)
joined_chain h c [] ds above below = below
joined_chain h c (u ∷ us) ds (n, above) below = unfocus_chain us u ds above n below

module _ (s t : Store) (c p : Ptr) (us ds : List Ptr) (nu nd : Placement) (v : IsFocus s c us p ds)
    (hu : Neighbour s.placements (first us) nu) (hd : Neighbour s.placements (first ds) nd)
    (w : Unlinked s t c (first us) p (first ds) nu nd v.canvas) where
  unlinked-Above : Above t.placements c (first ds) us
  unlinked-Above =
      turn-Above c p (first ds) us nu v.distinct_above v.above hu
        (λ x i ne.
          w.elsewhere x (ne_of_has x p us i v.out_above) (λ e. absurd (ne e))
            (λ e. not_first x ds (v.apart x i) e))
        w.new_u

  unlinked-Below : Below t.placements c (first us) ds
  unlinked-Below =
      turn-Below c p (first us) ds nd v.distinct_below v.below hd
        (λ x i ne.
          w.elsewhere x (ne_of_has x p ds i v.out_below)
            (λ e. not_first x us (flip_apart us ds v.apart x i) e) (λ e. absurd (ne e)))
        w.new_d

  -- The canvas without the placement.
  pub unlinked-IsCanvas : IsCanvas t c (unfocus us ds)
  unlinked-IsCanvas = record {
    canvas = _;
    holds = w.new_c;
    ne_null = v.ne_null;
    has_head =
        unlinked_end p us ds v.canvas.head v.has_head (no_first_above s.placements c p us v.above);
    has_tail =
        unlinked_tail p us ds v.canvas.tail v.has_tail (no_first_below s.placements c p ds v.below);
    chain = joined_chain t.placements c us ds unlinked-Above unlinked-Below;
    distinct = Distinct-unfocus us ds (v.distinct_above, v.distinct_below, v.apart);
  }
