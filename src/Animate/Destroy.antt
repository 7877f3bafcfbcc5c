-- ===== src/Animate/Destroy.antt =====
-- animate_destroy_placement on a well-formed canvas.
use mathlib.Core.Option
use pointerpro_animate.Base.{
  ◌≡◌, ◌≢◌, false, none, some, List, ◌∷◌, arith, ◌==◌, ◌+◌, ◌-◌, ◌%◌, if◌then◌else◌,
}
use pointerpro_animate.Animate.{
  Ptr, null, Placement, Canvas, Store, put_placement, put_sprite, update, Sprite, size_mod,
}
use pointerpro_animate.Animate.Layers.{destroy_placement, unlink}
use pointerpro_animate.Animate.Focus.{first, has, unfocus, IsCanvas, IsFocus}
use pointerpro_animate.Animate.Apart.{first-ne, first-first, not_first, out-cons, out-unfocus}
use pointerpro_animate.Animate.Relink.{
  with_next, with_previous, head_if, tail_if, Neighbour, neighbour_above, neighbour_below, body,
}
use pointerpro_animate.Animate.Unlink.{Unlinked, unlinked-IsCanvas}

-- The writes to the neighbours and the ends of the list.
module _ (s : Store) (c u d : Ptr) (nu nd : Placement) (cv : Canvas) where
  abbrev unlink_store : Store
  unlink_store = with_previous d nd u (
      with_next u nu d (
        tail_if d c (record cv { head = if u == null then d else cv.head }) u (head_if u c cv d s)))

  unlink_run :
      s.canvases c ≡ some cv
      → Neighbour s.placements u nu
      → Neighbour s.placements d nd
      → c ≢ null
      → (u ≡ d → u ≡ null)
      → unlink c u d s ≡ some (tt, unlink_store)
  unfolding unlink
  unlink_run hc hu hd c0 ud = ground arith

module _ (s : Store) (c u p d : Ptr) (nu np nd : Placement) (cv : Canvas) (sp : Sprite) where
  abbrev uncounted : Store
  uncounted =
      put_sprite np.sprite
        (some (record sp { placement_count = (sp.placement_count + size_mod - 1) % size_mod })) s

  abbrev destroy_store : Store
  destroy_store = put_placement p none (unlink_store uncounted c u d nu nd cv)

  module _ (hp : s.placements p ≡ some np) (hc : s.canvases c ≡ some cv)
      (hs : s.sprites np.sprite ≡ some sp) (hu : Neighbour s.placements u nu)
      (hd : Neighbour s.placements d nd) (p0 : p ≢ null) (c0 : c ≢ null) (s0 : np.sprite ≢ null)
      (up : u ≢ p) (dp : d ≢ p) (ud : u ≡ d → u ≡ null) where
    unlink-uncounted : unlink c u d uncounted ≡ some (tt, unlink_store uncounted c u d nu nd cv)
    unlink-uncounted = unlink_run uncounted c u d nu nd cv hc hu hd c0 ud

    still_there : (unlink_store uncounted c u d nu nd cv).placements p ≡ some np
    still_there = ground arith

    destroy-Unlinked : Unlinked s destroy_store c u p d nu nd cv
    destroy-Unlinked = record {
      new_u = λ ne. ground arith;
      new_d = λ ne. ground arith;
      elsewhere = λ x xp xu xd. ground arith;
      new_c = ground arith;
      other_canvases = λ k ne. ground arith;
    }

    destroy_gone : destroy_store.placements p ≡ none
    destroy_gone = ground arith

    destroy_sprites :
        destroy_store.sprites
        ≡ update s.sprites np.sprite
            (some (record sp { placement_count = (sp.placement_count + size_mod - 1) % size_mod }))
    destroy_sprites = ground arith

    destroy_bodies :
        (x : Ptr)
        → x ≢ p
        → Option.map body (destroy_store.placements x) ≡ Option.map body (s.placements x)
    destroy_bodies x ne = ground arith

  -- The code reaches the four cases with the count taken down, and frees the node behind them.
  destroy_steps :
      (t : Store)
      → s.placements p ≡ some np
      → s.sprites np.sprite ≡ some sp
      → p ≢ null
      → c ≢ null
      → np.sprite ≢ null
      → np.canvas ≡ c
      → np.previous ≡ u
      → np.next ≡ d
      → unlink c u d uncounted ≡ some (tt, t)
      → t.placements p ≡ some np
      → destroy_placement p s ≡ some (tt, put_placement p none t)
  unfolding destroy_placement
  destroy_steps t hp hs p0 c0 s0 e1 e2 e3 run there = ground arith

-- Seen from `p`: it goes from the list and from the heap, and its sprite counts one placement less.
pub destroy_focus :
    (s : Store) (c p : Ptr) (us ds : List Ptr) (v : IsFocus s c us p ds) (sp : Sprite)
    → s.sprites v.here.node.sprite ≡ some sp
    → v.here.node.sprite ≢ null
    → (t : Store) × (destroy_placement p s ≡ some (tt, t))
      × IsCanvas t c (unfocus us ds)
      × (t.placements p ≡ none)
      × (t.sprites
          ≡ update s.sprites v.here.node.sprite (
              some
                (record sp { placement_count = (sp.placement_count + size_mod - 1) % size_mod })))
      × ((k : Ptr) → k ≢ c → t.canvases k ≡ s.canvases k)
      × ((x : Ptr) → has x (unfocus us (p ∷ ds)) ≡ false → t.placements x ≡ s.placements x)
      × ((x : Ptr) → x ≢ p → Option.map body (t.placements x) ≡ Option.map body (s.placements x))
destroy_focus s c p us ds v sp hs s0 =
    let n = v.here in
    let np = n.node in
    let (nu, hu) = neighbour_above s.placements c p us np v.above in
    let (nd, hd) = neighbour_below s.placements c p ds np v.below in
    let u : Ptr = first us in
    let d : Ptr = first ds in
    let up = first-ne p us n.ne_null v.out_above in
    let dp = first-ne p ds n.ne_null v.out_below in
    let ud = first-first us ds v.apart in
    let w =
      destroy-Unlinked s c u p d nu np nd v.canvas sp n.holds v.holds hs hu hd n.ne_null v.ne_null
        s0 up dp ud in
    (
      destroy_store s c u p d nu np nd v.canvas sp,
      destroy_steps s c u p d nu np nd v.canvas sp _ n.holds hs n.ne_null v.ne_null s0 n.on_canvas
          n.has_previous n.has_next
          (unlink-uncounted s c u p d nu np nd v.canvas sp n.holds v.holds hs hu hd n.ne_null
            v.ne_null s0 up dp ud)
          (still_there s c u p d nu np nd v.canvas sp n.holds v.holds hs hu hd n.ne_null v.ne_null
            s0 up dp ud),
      unlinked-IsCanvas s _ c p us ds nu nd v hu hd w,
      destroy_gone s c u p d nu np nd v.canvas sp n.holds v.holds hs hu hd n.ne_null v.ne_null s0 up
          dp ud,
      destroy_sprites s c u p d nu np nd v.canvas sp n.holds v.holds hs hu hd n.ne_null v.ne_null s0
          up dp ud,
      w.other_canvases,
      λ x out.
          let (ous, oys) = out-unfocus x us (p ∷ ds) out in
          let (xp, ods) = out-cons x p ds oys in
          w.elsewhere x xp (not_first x us ous) (not_first x ds ods),
      destroy_bodies s c u p d nu np nd v.canvas sp n.holds v.holds hs hu hd n.ne_null v.ne_null s0
          up dp ud,
    )
