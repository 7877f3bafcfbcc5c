-- ===== src/Animate/Relink.antt =====
-- What the operations on layers have in common: the change of a neighbour's link, and what an
-- operation leaves alone.
use mathlib.Core.Option
use pointerpro_animate.Base.{
  ◌≡◌, refl, ◌≢◌, ◌⊎◌, inl, inr, true, false, some, List, [], ◌∷◌, arith, ◌==◌, if◌then◌else◌,
}
use pointerpro_animate.Animate.{Ptr, null, Placement, Canvas, Store, put_placement, put_canvas}
use pointerpro_animate.Animate.Focus.{
  Heap, first, Below, Above, has, Distinct, frame-Below, frame-Above,
}

-- The node at `p`, which is NULL or a neighbour, with another link.
abbrev pub with_next : Ptr → Placement → Ptr → Store → Store
with_next p n q s = if p == null then s else put_placement p (some (record n { next = q })) s

abbrev pub with_previous : Ptr → Placement → Ptr → Store → Store
with_previous p n q s =
    if p == null then s else put_placement p (some (record n { previous = q })) s

-- The canvas `c` with another end of its list, if `test` is NULL.
abbrev pub head_if : Ptr → Ptr → Canvas → Ptr → Store → Store
head_if test c n p s = if test == null then put_canvas c (some (record n { head = p })) s else s

abbrev pub tail_if : Ptr → Ptr → Canvas → Ptr → Store → Store
tail_if test c n p s = if test == null then put_canvas c (some (record n { tail = p })) s else s

-- `p` is NULL, or `n` stands there.
abbrev pub Neighbour : Heap → Ptr → Placement → Type 0
Neighbour h p n = (p ≡ null) ⊎ ((p ≢ null) × (h p ≡ some n))

pub neighbour_above :
    (h : Heap) (c next : Ptr) (us : List Ptr) (default : Placement)
    → Above h c next us
    → (n : Placement) × Neighbour h (first us) n
neighbour_above h c next [] default v = (default, inl refl)
neighbour_above h c next (u ∷ us) default (n, v) = (n.node, inr (n.ne_null, n.holds))

pub neighbour_below :
    (h : Heap) (c previous : Ptr) (ds : List Ptr) (default : Placement)
    → Below h c previous ds
    → (n : Placement) × Neighbour h (first ds) n
neighbour_below h c previous [] default v = (default, inl refl)
neighbour_below h c previous (d ∷ ds) default (n, v) = (n.node, inr (n.ne_null, n.holds))

module _ {h g : Heap} (c : Ptr) where
  -- Only the first of a chain knows what stands before it.
  pub turn-Above :
      (old new : Ptr) (us : List Ptr) (nu : Placement)
      → Distinct us
      → Above h c old us
      → Neighbour h (first us) nu
      → ((a : Ptr) → has a us ≡ true → a ≢ first us → g a ≡ h a)
      → (first us ≢ null → g (first us) ≡ some (record nu { next = new }))
      → Above g c new us
  turn-Above old new [] nu d v at same changed = tt
  turn-Above old new (u ∷ us) nu d (n, v) at same changed = (
    record {
      node = record nu { next = new };
      holds = changed n.ne_null;
      ne_null = n.ne_null;
      on_canvas = ground (arith, n.on_canvas, n.holds, n.ne_null);
      has_previous = ground (arith, n.has_previous, n.holds, n.ne_null);
      has_next = refl;
    },
    frame-Above c u us (λ a i. ground (arith, same a)) v,
  )

  pub turn-Below :
      (old new : Ptr) (ds : List Ptr) (nd : Placement)
      → Distinct ds
      → Below h c old ds
      → Neighbour h (first ds) nd
      → ((a : Ptr) → has a ds ≡ true → a ≢ first ds → g a ≡ h a)
      → (first ds ≢ null → g (first ds) ≡ some (record nd { previous = new }))
      → Below g c new ds
  turn-Below old new [] nd d v at same changed = tt
  turn-Below old new (x ∷ ds) nd d (n, v) at same changed = (
    record {
      node = record nd { previous = new };
      holds = changed n.ne_null;
      ne_null = n.ne_null;
      on_canvas = ground (arith, n.on_canvas, n.holds, n.ne_null);
      has_previous = refl;
      has_next = ground (arith, n.has_next, n.holds, n.ne_null);
    },
    frame-Below c x ds (λ a i. ground (arith, same a)) v,
  )

pub no_first_above :
    (h : Heap) (c next : Ptr) (us : List Ptr) → Above h c next us → first us ≡ null → us ≡ []
no_first_above h c next [] v e = refl
no_first_above h c next (u ∷ us) (n, v) e = absurd (n.ne_null e)

pub no_first_below :
    (h : Heap) (c previous : Ptr) (ds : List Ptr)
    → Below h c previous ds
    → first ds ≡ null
    → ds ≡ []
no_first_below h c previous [] v e = refl
no_first_below h c previous (d ∷ ds) (n, v) e = absurd (n.ne_null e)

-- A placement less its two links.
abbrev pub body : Placement → Placement
body n = record n { next = null; previous = null }

-- A canvas less the ends of its list.
abbrev pub frame : Canvas → Canvas
frame n = record n { head = null; tail = null }

-- From `s` to `t` nothing changes but links among the placements `xs` and the ends of the list in
-- the canvas `c`.
pub record Relinked (c : Ptr) (xs : List Ptr) (s t : Store) : Type 0 where
  pub outside : (a : Ptr) → has a xs ≡ false → t.placements a ≡ s.placements a
  pub bodies : (a : Ptr) → Option.map body (t.placements a) ≡ Option.map body (s.placements a)
  pub other_canvases : (k : Ptr) → k ≢ c → t.canvases k ≡ s.canvases k
  pub frames : (k : Ptr) → Option.map frame (t.canvases k) ≡ Option.map frame (s.canvases k)
  pub same_sprites : t.sprites ≡ s.sprites
