-- ===== src/Animate/Bottom.antt =====
-- animate_placement_bottom on a well-formed canvas.
use mathlib.Core.Option
use mathlib.Core.List.{append-nil}
use pointerpro_animate.Base.{
  ◌≡◌, refl, sym, ap, subst, ◌≢◌, inr, true, false, ◌∙◌, some, List, [], ◌∷◌, ◌++◌, arith,
}
use pointerpro_animate.Animate.{Ptr, null, Placement, Canvas, Store, put_placement, put_canvas}
use pointerpro_animate.Animate.Layers.{placement_bottom, link_bottom}
use pointerpro_animate.Animate.Focus.{first, has, unfocus, IsCanvas, IsFocus, last-unfocus, last}
use pointerpro_animate.Animate.Apart.{
  first-ne, first-first, not_first, out-cons, cons-out, head-has, out-unfocus, unfocus-out,
  unfocus-has_below, first_above, has-unfocus_nil,
}
use pointerpro_animate.Animate.Relink.{
  with_next, head_if, Neighbour, neighbour_above, body, frame, Relinked,
}
use pointerpro_animate.Animate.Unlink.{Unlinked, unlinked-IsCanvas}
use pointerpro_animate.Animate.Push.{
  Appended, Appended-IsCanvas, rise, unfocus-rise, first-rise, chain-Above,
}

-- A placement with a neighbour `d` below it, and `u` or NULL above it.
module _ (s : Store) (c u p d e : Ptr) (nu np nd : Placement) (cv : Canvas) where
  -- The placement is out of the list, and the tail is not changed yet.
  abbrev out_store : Store
  out_store =
      put_placement d (some (record nd { previous = u })) (with_next u nu d (head_if u c cv d s))

  module _ (hd : s.placements d ≡ some nd) (hp : s.placements p ≡ some np)
      (hc : s.canvases c ≡ some cv) (hu : Neighbour s.placements u nu) (d0 : d ≢ null)
      (p0 : p ≢ null) (c0 : c ≢ null) (up : u ≢ p) (dp : d ≢ p) (ud : u ≡ d → u ≡ null) where
    bottom_run :
        np.canvas ≡ c
        → np.previous ≡ u
        → np.next ≡ d
        → cv.tail ≡ e
        → p ≢ e
        → placement_bottom p s ≡ link_bottom p c e out_store
    unfolding placement_bottom
    bottom_run e1 e2 e3 e4 ne = ground arith

    out-Unlinked : Unlinked s out_store c u p d nu nd cv
    out-Unlinked = record {
      new_u = λ ne. ground arith;
      new_d = λ ne. ground arith;
      elsewhere = λ x xp xu xd. ground arith;
      new_c = ground arith;
      other_canvases = λ k ne. ground arith;
    }

    out_same : out_store.placements p ≡ some np
    out_same = ground arith

    out_bodies :
        (x : Ptr) → Option.map body (out_store.placements x) ≡ Option.map body (s.placements x)
    out_bodies x = ground arith

    out_frames :
        (k : Ptr) → Option.map frame (out_store.canvases k) ≡ Option.map frame (s.canvases k)
    out_frames k = ground arith

    out_sprites : out_store.sprites ≡ s.sprites
    out_sprites = ground arith

-- A placement that is out of the list comes behind the tail `e`.
module _ (s : Store) (c p e : Ptr) (np ne : Placement) (cv : Canvas) where
  abbrev in_store : Store
  in_store = put_placement e (some (record ne { next = p })) (
      put_placement p (some (record np { previous = e; next = null })) (
        put_placement p (some (record np { previous = e }))
          (put_canvas c (some (record cv { tail = p })) s)))

  module _ (hp : s.placements p ≡ some np) (he : s.placements e ≡ some ne)
      (hc : s.canvases c ≡ some cv) (p0 : p ≢ null) (e0 : e ≢ null) (c0 : c ≢ null) (pe : e ≢ p)
      (on : np.canvas ≡ c) where
    in_run : link_bottom p c e s ≡ some (tt, in_store)
    unfolding link_bottom
    in_run = ground arith

    in-Appended : Appended s in_store c p e (record np { previous = e; next = null }) ne cv
    in-Appended = record {
      new_p = ground arith;
      p_canvas = on;
      p_previous = refl;
      p_next = refl;
      new_e = λ z. ground arith;
      elsewhere = λ x xp xe. ground arith;
      new_c = ground arith;
    }

    in_bodies :
        (x : Ptr) → Option.map body (in_store.placements x) ≡ Option.map body (s.placements x)
    in_bodies x = ground arith

    in_frames : (k : Ptr) → Option.map frame (in_store.canvases k) ≡ Option.map frame (s.canvases k)
    in_frames k = ground arith

    in_other_canvases : (k : Ptr) → k ≢ c → in_store.canvases k ≡ s.canvases k
    in_other_canvases k z = ground arith

module _ (s : Store) (c p d : Ptr) (us ds : List Ptr) (v : IsFocus s c us p (d ∷ ds)) where
  abbrev rest : List Ptr
  rest = unfocus us (d ∷ ds)

  -- The others from the bottom up.
  abbrev risen : List Ptr
  risen = rise us (d ∷ ds)

  rest-risen : unfocus risen [] ≡ rest
  rest-risen = unfocus-rise us (d ∷ ds) [] ∙ ap (λ l. unfocus us (d ∷ l)) (append-nil ds)

  out_rest : has p (unfocus risen []) ≡ false
  out_rest = rw rest-risen (unfocus-out p us (d ∷ ds) v.out_above v.out_below)

  abbrev above : (nu : Placement) × Neighbour s.placements (first us) nu
  above = neighbour_above s.placements c p us v.here.node v.above

  abbrev nd : Placement
  nd = v.below.0.node

  up_ne : first us ≢ p
  up_ne = first-ne p us v.here.ne_null v.out_above

  dp_ne : d ≢ p
  dp_ne = first-ne p (d ∷ ds) v.here.ne_null v.out_below

  apart_ne : first us ≡ d → first us ≡ null
  apart_ne = first-first us (d ∷ ds) v.apart

  abbrev middle : Store
  middle = out_store s c (first us) p d (first risen) above.0 v.here.node nd v.canvas

  middle-Unlinked : Unlinked s middle c (first us) p d above.0 nd v.canvas
  middle-Unlinked =
      out-Unlinked s c (first us) p d (first risen) above.0 v.here.node nd v.canvas v.below.0.holds
        v.here.holds v.holds above.1 v.below.0.ne_null v.here.ne_null v.ne_null up_ne dp_ne apart_ne

  middle-IsCanvas : IsCanvas middle c (unfocus risen [])
  middle-IsCanvas = subst (IsCanvas middle c) (sym rest-risen) (
      unlinked-IsCanvas s middle c p us (d ∷ ds) above.0 nd v above.1
        (inr (v.below.0.ne_null, v.below.0.holds)) middle-Unlinked)

  -- Seen from `p`, with `d` the next below it: it comes behind all others.
  pub bottom_focus :
      (t : Store) × (placement_bottom p s ≡ some (tt, t))
      × IsCanvas t c (unfocus us (d ∷ (ds ++ p ∷ [])))
      × Relinked c (unfocus us (p ∷ d ∷ ds)) s t
  bottom_focus =
      let n = v.here in
      let m = v.below.0 in
      let (nu, hu) = above in
      let e : Ptr = first risen in
      let v1 : IsCanvas middle c (unfocus risen []) = middle-IsCanvas in
      let w1 = middle-Unlinked in
      let in_risen : has d risen ≡ true =
        has-unfocus_nil d risen (rw rest-risen (unfocus-has_below d us (d ∷ ds) (head-has d ds))) in
      let (ne, e0, he) =
        first_above middle.placements c null d risen
          (chain-Above middle.placements c risen v1.chain) in_risen in
      let same_p : middle.placements p ≡ some n.node =
        out_same s c (first us) p d e nu n.node nd v.canvas m.holds n.holds v.holds hu m.ne_null
          n.ne_null v.ne_null up_ne dp_ne apart_ne in
      let (out_risen, _) = out-unfocus p risen [] out_rest in
      let pe : e ≢ p = first-ne p risen n.ne_null out_risen in
      let w2 =
        in-Appended middle c p e n.node ne v1.canvas same_p he v1.holds n.ne_null e0 v.ne_null pe
          n.on_canvas in
      let t : Store = in_store middle c p e n.node ne v1.canvas in
      let tail : v.canvas.tail ≡ e =
        v.has_tail ∙ sym (last-unfocus us d ds) ∙ ap last (sym rest-risen) ∙ first-rise risen in
      (
        t,
        bottom_run s c (first us) p d e nu n.node nd v.canvas m.holds n.holds v.holds hu m.ne_null
              n.ne_null v.ne_null up_ne dp_ne apart_ne n.on_canvas n.has_previous n.has_next tail
              (λ z. pe (sym z))
            ∙ in_run middle c p e n.node ne v1.canvas same_p he v1.holds n.ne_null e0 v.ne_null pe
                n.on_canvas,
        subst (IsCanvas t c) (unfocus-rise us (d ∷ ds) (p ∷ []))
            (Appended-IsCanvas middle t c p _ ne n.ne_null risen v1 out_rest (inr (e0, he)) w2),
        record {
          outside = λ x out.
              let (ous, oys) = out-unfocus x us (p ∷ d ∷ ds) out in
              let (xp, ozs) = out-cons x p (d ∷ ds) oys in
              let (xd, ods) = out-cons x d ds ozs in
              let (oris, _) =
                out-unfocus x risen []
                  (rw rest-risen (unfocus-out x us (d ∷ ds) ous (cons-out x d ds xd ods))) in
              w2.elsewhere x xp (not_first x risen oris)
              ∙ w1.elsewhere x xp (not_first x us ous) (λ z. absurd (xd z));
          bodies = λ x.
              in_bodies middle c p e n.node ne v1.canvas same_p he v1.holds n.ne_null e0 v.ne_null
                pe n.on_canvas x
              ∙ out_bodies s c (first us) p d e nu n.node nd v.canvas m.holds n.holds v.holds hu
                  m.ne_null n.ne_null v.ne_null up_ne dp_ne apart_ne x;
          other_canvases = λ k z.
              in_other_canvases middle c p e n.node ne v1.canvas same_p he v1.holds n.ne_null e0
                v.ne_null pe n.on_canvas k z
              ∙ w1.other_canvases k z;
          frames = λ k.
              in_frames middle c p e n.node ne v1.canvas same_p he v1.holds n.ne_null e0 v.ne_null
                pe n.on_canvas k
              ∙ out_frames s c (first us) p d e nu n.node nd v.canvas m.holds n.holds v.holds hu
                  m.ne_null n.ne_null v.ne_null up_ne dp_ne apart_ne k;
          same_sprites =
              out_sprites s c (first us) p d e nu n.node nd v.canvas m.holds n.holds v.holds hu
                m.ne_null n.ne_null v.ne_null up_ne dp_ne apart_ne;
        },
      )

-- The bottom layer stays where it is.
pub bottom_bottom :
    (s : Store) (c p : Ptr) (us : List Ptr)
    → IsFocus s c us p []
    → placement_bottom p s ≡ some (tt, s)
unfolding placement_bottom
bottom_bottom s c p us v =
    run v.here.node v.canvas v.here.holds v.here.ne_null v.here.on_canvas v.ne_null v.holds
      v.has_tail
  where
    run :
        (n : Placement) (k : Canvas)
        → s.placements p ≡ some n
        → p ≢ null
        → n.canvas ≡ c
        → c ≢ null
        → s.canvases c ≡ some k
        → k.tail ≡ p
        → placement_bottom p s ≡ some (tt, s)
    run n k h ne e cne hc eh = ground arith
