-- ===== src/Animate/Top.antt =====
-- animate_placement_top on a well-formed canvas.
use mathlib.Core.Option
use pointerpro_animate.Base.{◌≡◌, refl, sym, ◌≢◌, inr, false, ◌∙◌, some, List, [], ◌∷◌, arith}
use pointerpro_animate.Animate.{Ptr, null, Placement, Canvas, Store, put_placement, put_canvas}
use pointerpro_animate.Animate.Layers.{placement_top, link_top}
use pointerpro_animate.Animate.Focus.{first, has, unfocus, IsCanvas, IsFocus, first-unfocus}
use pointerpro_animate.Animate.Apart.{
  first-ne, first-first, not_first, out-cons, cons-out, head-has, out-unfocus, unfocus-out,
  unfocus-has_below, first_holds,
}
use pointerpro_animate.Animate.Relink.{
  with_previous, tail_if, Neighbour, neighbour_below, body, frame, Relinked,
}
use pointerpro_animate.Animate.Unlink.{Unlinked, unlinked-IsCanvas}
use pointerpro_animate.Animate.Push.{Pushed, Pushed-IsCanvas}

-- A placement with a neighbour `u` above it, and `d` or NULL below it.
module _ (s : Store) (c u p d h : Ptr) (nu np nd : Placement) (cv : Canvas) where
  -- The placement is out of the list, and the head is not changed yet.
  abbrev pub out_store : Store
  out_store =
      with_previous d nd u (put_placement u (some (record nu { next = d })) (tail_if d c cv u s))

  module _ (hu : s.placements u ≡ some nu) (hp : s.placements p ≡ some np)
      (hc : s.canvases c ≡ some cv) (hd : Neighbour s.placements d nd) (u0 : u ≢ null)
      (p0 : p ≢ null) (c0 : c ≢ null) (up : u ≢ p) (dp : d ≢ p) (ud : u ≡ d → u ≡ null) where
    top_run :
        np.canvas ≡ c
        → np.previous ≡ u
        → np.next ≡ d
        → cv.head ≡ h
        → p ≢ h
        → placement_top p s ≡ link_top p c h out_store
    unfolding placement_top
    top_run e1 e2 e3 e4 ne = ground arith

    pub out-Unlinked : Unlinked s out_store c u p d nu nd cv
    out-Unlinked = record {
      new_u = λ ne. ground arith;
      new_d = λ ne. ground arith;
      elsewhere = λ x xp xu xd. ground arith;
      new_c = ground arith;
      other_canvases = λ k ne. ground arith;
    }

    pub out_same : out_store.placements p ≡ some np
    out_same = ground arith

    pub out_bodies :
        (x : Ptr) → Option.map body (out_store.placements x) ≡ Option.map body (s.placements x)
    out_bodies x = ground arith

    out_frames :
        (k : Ptr) → Option.map frame (out_store.canvases k) ≡ Option.map frame (s.canvases k)
    out_frames k = ground arith

    pub out_sprites : out_store.sprites ≡ s.sprites
    out_sprites = ground arith

-- A placement that is out of the list comes in front of the head `h`.
module _ (s : Store) (c p h : Ptr) (np nh : Placement) (cv : Canvas) where
  abbrev in_store : Store
  in_store = put_placement h (some (record nh { previous = p })) (
      put_placement p (some (record np { next = h; previous = null })) (
        put_placement p (some (record np { next = h }))
          (put_canvas c (some (record cv { head = p })) s)))

  module _ (hp : s.placements p ≡ some np) (hh : s.placements h ≡ some nh)
      (hc : s.canvases c ≡ some cv) (p0 : p ≢ null) (h0 : h ≢ null) (c0 : c ≢ null) (ph : h ≢ p)
      (on : np.canvas ≡ c) where
    in_run : link_top p c h s ≡ some (tt, in_store)
    unfolding link_top
    in_run = ground arith

    in-Pushed : Pushed s in_store c p h (record np { next = h; previous = null }) nh cv
    in-Pushed = record {
      new_p = ground arith;
      p_canvas = on;
      p_previous = refl;
      p_next = refl;
      new_h = λ ne. ground arith;
      elsewhere = λ x xp xh. ground arith;
      new_c = ground arith;
    }

    in_bodies :
        (x : Ptr) → Option.map body (in_store.placements x) ≡ Option.map body (s.placements x)
    in_bodies x = ground arith

    in_frames : (k : Ptr) → Option.map frame (in_store.canvases k) ≡ Option.map frame (s.canvases k)
    in_frames k = ground arith

    in_other_canvases : (k : Ptr) → k ≢ c → in_store.canvases k ≡ s.canvases k
    in_other_canvases k ne = ground arith

module _ (s : Store) (c p a : Ptr) (us ds : List Ptr) (v : IsFocus s c (a ∷ us) p ds) where
  abbrev rest : List Ptr
  rest = unfocus us (a ∷ ds)

  out_rest : has p rest ≡ false
  out_rest = unfocus-out p (a ∷ us) ds v.out_above v.out_below

  abbrev na : Placement
  na = v.above.0.node

  abbrev below : (nd : Placement) × Neighbour s.placements (first ds) nd
  below = neighbour_below s.placements c p ds v.here.node v.below

  up_ne : a ≢ p
  up_ne = first-ne p (a ∷ us) v.here.ne_null v.out_above

  dp_ne : first ds ≢ p
  dp_ne = first-ne p ds v.here.ne_null v.out_below

  apart_ne : a ≡ first ds → a ≡ null
  apart_ne = first-first (a ∷ us) ds v.apart

  abbrev middle : Store
  middle = out_store s c a p (first ds) (first rest) na v.here.node below.0 v.canvas

  middle-Unlinked : Unlinked s middle c a p (first ds) na below.0 v.canvas
  middle-Unlinked =
      out-Unlinked s c a p (first ds) (first rest) na v.here.node below.0 v.canvas v.above.0.holds
        v.here.holds v.holds below.1 v.above.0.ne_null v.here.ne_null v.ne_null up_ne dp_ne apart_ne

  middle-IsCanvas : IsCanvas middle c rest
  middle-IsCanvas =
      unlinked-IsCanvas s middle c p (a ∷ us) ds na below.0 v
        (inr (v.above.0.ne_null, v.above.0.holds)) below.1 middle-Unlinked

  -- Seen from `p`, with `a` the next above it: it comes in front of all others.
  pub top_focus :
      (t : Store) × (placement_top p s ≡ some (tt, t))
      × IsCanvas t c (p ∷ rest)
      × Relinked c (unfocus us (a ∷ p ∷ ds)) s t
  top_focus =
      let n = v.here in
      let m = v.above.0 in
      let (nd, hd) = below in
      let h : Ptr = first rest in
      let v1 : IsCanvas middle c rest = middle-IsCanvas in
      let w1 = middle-Unlinked in
      let (nh, h0, hh) =
        first_holds middle.placements c null a rest v1.chain
          (unfocus-has_below a us (a ∷ ds) (head-has a ds)) in
      let same_p : middle.placements p ≡ some n.node =
        out_same s c a p (first ds) h na n.node nd v.canvas m.holds n.holds v.holds hd m.ne_null
          n.ne_null v.ne_null up_ne dp_ne apart_ne in
      let hp : h ≢ p = first-ne p rest n.ne_null out_rest in
      let w2 =
        in-Pushed middle c p h n.node nh v1.canvas same_p hh v1.holds n.ne_null h0 v.ne_null hp
          n.on_canvas in
      let t : Store = in_store middle c p h n.node nh v1.canvas in
      (
        t,
        top_run s c a p (first ds) h na n.node nd v.canvas m.holds n.holds v.holds hd m.ne_null
              n.ne_null v.ne_null up_ne dp_ne apart_ne n.on_canvas n.has_previous n.has_next
              (v.has_head ∙ sym (first-unfocus us a ds)) (λ e. hp (sym e))
            ∙ in_run middle c p h n.node nh v1.canvas same_p hh v1.holds n.ne_null h0 v.ne_null hp
                n.on_canvas,
        Pushed-IsCanvas middle t c p _ nh n.ne_null rest v1 out_rest (inr (h0, hh)) w2,
        record {
          outside = λ x out.
              let (ous, oys) = out-unfocus x us (a ∷ p ∷ ds) out in
              let (xa, ozs) = out-cons x a (p ∷ ds) oys in
              let (xp, ods) = out-cons x p ds ozs in
              w2.elsewhere x xp
                (not_first x rest (unfocus-out x us (a ∷ ds) ous (cons-out x a ds xa ods)))
              ∙ w1.elsewhere x xp (λ e. absurd (xa e)) (not_first x ds ods);
          bodies = λ x.
              in_bodies middle c p h n.node nh v1.canvas same_p hh v1.holds n.ne_null h0 v.ne_null
                hp n.on_canvas x
              ∙ out_bodies s c a p (first ds) h na n.node nd v.canvas m.holds n.holds v.holds hd
                  m.ne_null n.ne_null v.ne_null up_ne dp_ne apart_ne x;
          other_canvases = λ k ne.
              in_other_canvases middle c p h n.node nh v1.canvas same_p hh v1.holds n.ne_null h0
                v.ne_null hp n.on_canvas k ne
              ∙ w1.other_canvases k ne;
          frames = λ k.
              in_frames middle c p h n.node nh v1.canvas same_p hh v1.holds n.ne_null h0 v.ne_null
                hp n.on_canvas k
              ∙ out_frames s c a p (first ds) h na n.node nd v.canvas m.holds n.holds v.holds hd
                  m.ne_null n.ne_null v.ne_null up_ne dp_ne apart_ne k;
          same_sprites =
              out_sprites s c a p (first ds) h na n.node nd v.canvas m.holds n.holds v.holds hd
                m.ne_null n.ne_null v.ne_null up_ne dp_ne apart_ne;
        },
      )

-- The top layer stays where it is.
pub top_top :
    (s : Store) (c p : Ptr) (ds : List Ptr) → IsFocus s c [] p ds → placement_top p s ≡ some (tt, s)
unfolding placement_top
top_top s c p ds v =
    run v.here.node v.canvas v.here.holds v.here.ne_null v.here.on_canvas v.ne_null v.holds
      v.has_head
  where
    run :
        (n : Placement) (k : Canvas)
        → s.placements p ≡ some n
        → p ≢ null
        → n.canvas ≡ c
        → c ≢ null
        → s.canvases c ≡ some k
        → k.head ≡ p
        → placement_top p s ≡ some (tt, s)
    run n k h ne e cne hc eh = ground arith
