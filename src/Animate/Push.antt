-- ===== src/Animate/Push.antt =====
-- A placement comes to the top or to the bottom of a canvas.
use pointerpro_animate.Base.{
  ◌≡◌, refl, ◌≢◌, false, some, List, [], ◌∷◌, ◌++◌, arith, ◌==◌, if◌then◌else◌,
}
use pointerpro_animate.Animate.{Ptr, null, Placement, Canvas, Store}
use pointerpro_animate.Animate.Focus.{
  Heap, first, end, Below, Above, has, unfocus, IsCanvas, unfocused, first-unfocus, last-unfocus,
  unfocus-Parts, focus_chain, last,
}
use pointerpro_animate.Animate.Apart.{ne_of_has, out-unfocus}
use pointerpro_animate.Animate.Relink.{
  Neighbour, turn-Above, turn-Below, no_first_above, no_first_below,
}

-- In `t` the placement `p` stands in front of `h`, the former head or NULL.
pub record Pushed (s t : Store) (c p h : Ptr) (np nh : Placement) (cv : Canvas) : Type 0 where
  pub new_p : t.placements p ≡ some np
  pub p_canvas : np.canvas ≡ c
  pub p_previous : np.previous ≡ null
  pub p_next : np.next ≡ h
  pub new_h : h ≢ null → t.placements h ≡ some (record nh { previous = p })
  pub elsewhere : (x : Ptr) → x ≢ p → (x ≡ h → x ≡ null) → t.placements x ≡ s.placements x
  pub new_c : t.canvases c ≡ some (record cv { head = p; tail = if h == null then p else cv.tail })

-- In `t` the placement `p` stands behind `e`, the former tail or NULL.
pub record Appended (s t : Store) (c p e : Ptr) (np ne : Placement) (cv : Canvas) : Type 0 where
  pub new_p : t.placements p ≡ some np
  pub p_canvas : np.canvas ≡ c
  pub p_previous : np.previous ≡ e
  pub p_next : np.next ≡ null
  pub new_e : e ≢ null → t.placements e ≡ some (record ne { next = p })
  pub elsewhere : (x : Ptr) → x ≢ p → (x ≡ e → x ≡ null) → t.placements x ≡ s.placements x
  pub new_c : t.canvases c ≡ some (record cv { tail = p; head = if e == null then p else cv.head })

pushed_tail :
    (p : Ptr) (xs : List Ptr) (old : Ptr)
    → old ≡ last xs
    → (first xs ≡ null → xs ≡ [])
    → (if first xs == null then p else old) ≡ end p xs
pushed_tail p [] old e ne = refl
pushed_tail p (x ∷ xs) old e ne = ground (arith, ne)

-- The list turned round: what stands above its end.
abbrev pub rise : List Ptr → List Ptr → List Ptr
rise us [] = us
rise us (d ∷ ds) = rise (d ∷ us) ds

pub unfocus-rise : (us ds ys : List Ptr) → unfocus (rise us ds) ys ≡ unfocus us (ds ++ ys)
unfocus-rise us [] ys = refl
unfocus-rise us (d ∷ ds) ys = unfocus-rise (d ∷ us) ds ys

pub chain-Above :
    (h : Heap) (c : Ptr) (zs : List Ptr) → Below h c null (unfocus zs []) → Above h c null zs
chain-Above h c [] v = tt
chain-Above h c (z ∷ zs) v = let (above, n, below) = focus_chain zs z [] v in (n, above)

appended_head :
    (p : Ptr) (zs : List Ptr) (old : Ptr)
    → old ≡ first (unfocus zs [])
    → (first zs ≡ null → zs ≡ [])
    → (if first zs == null then p else old) ≡ end p zs
appended_head p [] old e ne = refl
appended_head p (z ∷ zs) old e ne = ground (arith, ne, first-unfocus zs z [])

pub first-rise : (zs : List Ptr) → last (unfocus zs []) ≡ first zs
first-rise [] = refl
first-rise (z ∷ zs) = last-unfocus zs z []

module _ (s t : Store) (c p : Ptr) (np other : Placement) (out : p ≢ null) where
  pub Pushed-IsCanvas :
      (xs : List Ptr)
      → (v : IsCanvas s c xs) → has p xs ≡ false
      → Neighbour s.placements (first xs) other
      → Pushed s t c p (first xs) np other v.canvas
      → IsCanvas t c (p ∷ xs)
  Pushed-IsCanvas xs v pxs h w = record {
    canvas = _;
    holds = w.new_c;
    ne_null = v.ne_null;
    has_head = refl;
    has_tail =
        pushed_tail p xs v.canvas.tail v.has_tail (no_first_below s.placements c null xs v.chain);
    chain = (
      record {
        node = np;
        holds = w.new_p;
        ne_null = out;
        on_canvas = w.p_canvas;
        has_previous = w.p_previous;
        has_next = w.p_next;
      },
      turn-Below c null p xs other v.distinct v.chain h
          (λ x i ne. w.elsewhere x (ne_of_has x p xs i pxs) (λ e. absurd (ne e))) w.new_h,
    );
    distinct = (pxs, v.distinct);
  }

  pub Appended-IsCanvas :
      (zs : List Ptr)
      → (v : IsCanvas s c (unfocus zs [])) → has p (unfocus zs []) ≡ false
      → Neighbour s.placements (first zs) other
      → Appended s t c p (first zs) np other v.canvas
      → IsCanvas t c (unfocus zs (p ∷ []))
  Appended-IsCanvas zs v pxs h w =
      let above = chain-Above s.placements c zs v.chain in
      let (distinct, nothing, apart) = unfocus-Parts zs [] v.distinct in
      let (pzs, none_below) = out-unfocus p zs [] pxs in
      unfocused (record {
        canvas = _;
        holds = w.new_c;
        ne_null = v.ne_null;
        has_head =
            appended_head p zs v.canvas.head v.has_head
              (no_first_above s.placements c null zs above);
        has_tail = refl;
        above =
            turn-Above c null p zs other distinct above h
              (λ x i ne. w.elsewhere x (ne_of_has x p zs i pzs) (λ e. absurd (ne e))) w.new_e;
        here = record {
          node = np;
          holds = w.new_p;
          ne_null = out;
          on_canvas = w.p_canvas;
          has_previous = w.p_previous;
          has_next = w.p_next;
        };
        below = tt;
        distinct_above = distinct;
        distinct_below = tt;
        out_above = pzs;
        out_below = refl;
        apart = λ x i. refl;
      })
