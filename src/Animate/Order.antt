-- ===== src/Animate/Order.antt =====
-- The operations on layers of libanimate/animate.c refine those on a list.
use mathlib.Core.Option
use pointerpro_animate.Base.{
  ◌%◌, ◌+◌, ◌-◌, ◌≡◌, ◌≢◌, refl, sym, subst, ◌∙◌, true, false, none, some, List, [], ◌∷◌,
}
use pointerpro_animate.Animate.{Ptr, null, Store, M, Sprite, Placement, update, size_mod}
use pointerpro_animate.Animate.Layers.{
  placement_up, placement_down, placement_top, placement_bottom, destroy_placement,
}
use pointerpro_animate.Animate.Focus.{has, unfocus, find_focus, IsCanvas, focus, unfocused}
use pointerpro_animate.Animate.Apart.{out-cons}
use pointerpro_animate.Animate.Relink.{Relinked, body}
use pointerpro_animate.Animate.Spec.{
  raise, lower, remove, to_top, to_bottom, remove-unfocus, append-unfocus, raise-unfocus,
  raise_here, raise_absent, lower-unfocus, lower_here, lower_last, remove_here,
}
use pointerpro_animate.Animate.Up.{up-IsFocus, up_top}
use pointerpro_animate.Animate.Down.{down-IsFocus, down_bottom, down_single}
use pointerpro_animate.Animate.Top.{top_focus, top_top}
use pointerpro_animate.Animate.Bottom.{bottom_focus, bottom_bottom}
use pointerpro_animate.Animate.Destroy.{destroy_focus}

-- The operation takes the layers of `c` from `xs` to `ys` and changes nothing else.
abbrev pub Reorders : M (Unit {0}) → Store → Ptr → List Ptr → List Ptr → Type 0
Reorders op s c xs ys = (t : Store) × (op s ≡ some (tt, t)) × IsCanvas t c ys × Relinked c xs s t

stays :
    (op : M (Unit {0})) (s : Store) (c : Ptr) (xs : List Ptr)
    → op s ≡ some (tt, s)
    → IsCanvas s c xs
    → Reorders op s c xs xs
stays op s c xs run v = (
  s,
  run,
  v,
  record {
    outside = λ a out. refl;
    bodies = λ a. refl;
    other_canvases = λ k ne. refl;
    frames = λ k. refl;
    same_sprites = refl;
  },
)

module _ (s : Store) (c p : Ptr) where
  up_at :
      (us ds : List Ptr)
      → IsCanvas s c (unfocus us (p ∷ ds))
      → Reorders (placement_up p) s c (unfocus us (p ∷ ds)) (raise p (unfocus us (p ∷ ds)))
  up_at [] ds v =
      let f = focus {us = []} v in
      rw (raise_absent p p ds f.out_below)
        (stays (placement_up p) s c (p ∷ ds) (up_top s c p ds f) v)
  up_at (a ∷ us) ds v =
      let f = focus {us = a ∷ us} v in
      let (t, run, g, r) = up-IsFocus s c a p us ds f in
      let (pa, pus) = out-cons p a us f.out_above in
      rw (raise-unfocus p us a (p ∷ ds) pus (λ e. pa (sym e)), raise_here p a ds)
        (t, run, unfocused g, r)

  down_at :
      (us ds : List Ptr)
      → unfocus us (p ∷ ds) ≢ p ∷ []
      → IsCanvas s c (unfocus us (p ∷ ds))
      → Reorders (placement_down p) s c (unfocus us (p ∷ ds)) (lower p (unfocus us (p ∷ ds)))
  down_at [] [] several v = absurd (several refl)
  down_at (a ∷ us) [] several v =
      let f = focus {us = a ∷ us} v in
      rw (lower-unfocus p (a ∷ us) p [] f.out_above, lower_last p)
        (stays (placement_down p) s c (unfocus us (a ∷ p ∷ [])) (down_bottom s c a p us f) v)
  down_at us (b ∷ ds) several v =
      let (t, run, g, r) = down-IsFocus s c p b us ds (focus {us = p ∷ us} v) in
      let f = focus {us = us} v in
      rw (lower-unfocus p us p (b ∷ ds) f.out_above, lower_here p b ds) (t, run, unfocused g, r)

  top_at :
      (us ds : List Ptr)
      → IsCanvas s c (unfocus us (p ∷ ds))
      → Reorders (placement_top p) s c (unfocus us (p ∷ ds)) (to_top p (unfocus us (p ∷ ds)))
  unfolding to_top
  top_at [] ds v =
      rw (remove_here p ds)
        (stays (placement_top p) s c (p ∷ ds) (top_top s c p ds (focus {us = []} v)) v)
  top_at (a ∷ us) ds v =
      let f = focus {us = a ∷ us} v in
      let (t, run, g, r) = top_focus s c p a us ds f in
      rw (remove-unfocus p (a ∷ us) (p ∷ ds) f.out_above, remove_here p ds) (t, run, g, r)

  bottom_at :
      (us ds : List Ptr)
      → IsCanvas s c (unfocus us (p ∷ ds))
      → Reorders (placement_bottom p) s c (unfocus us (p ∷ ds)) (to_bottom p (unfocus us (p ∷ ds)))
  unfolding to_bottom
  bottom_at us [] v =
      let f = focus {us = us} v in
      rw (remove-unfocus p us (p ∷ []) f.out_above, remove_here p [], append-unfocus us [] (p ∷ []))
        (stays (placement_bottom p) s c (unfocus us (p ∷ [])) (bottom_bottom s c p us f) v)
  bottom_at us (b ∷ ds) v =
      let f = focus {us = us} v in
      let (t, run, g, r) = bottom_focus s c p b us ds f in
      rw
        (
          remove-unfocus p us (p ∷ b ∷ ds) f.out_above,
          remove_here p (b ∷ ds),
          append-unfocus us (b ∷ ds) (p ∷ []),
        )
        (t, run, g, r)

module _ (s : Store) (c p : Ptr) (xs : List Ptr) (v : IsCanvas s c xs) (on : has p xs ≡ true) where
  -- On a well-formed canvas animate_placement_up of one of its placements runs without a fault, and
  -- takes the layers to the list in which the placement has changed places with the one above it
  -- (or to the same list, if it is on top). Nothing but links on this canvas changes.
  pub placement_up-raise : Reorders (placement_up p) s c xs (raise p xs)
  placement_up-raise =
      let (us, ds, e) = find_focus p [] xs on in
      subst (λ l. Reorders (placement_up p) s c l (raise p l)) (sym e)
        (up_at s c p us ds (subst (IsCanvas s c) e v))

  -- On a well-formed canvas with a second placement animate_placement_down runs without a fault, and
  -- takes the layers to the list in which the placement has changed places with the one below it
  -- (or to the same list, if it is at the bottom). Nothing but links on this canvas changes.
  pub placement_down-lower : xs ≢ p ∷ [] → Reorders (placement_down p) s c xs (lower p xs)
  placement_down-lower several =
      let (us, ds, e) = find_focus p [] xs on in
      subst (λ l. Reorders (placement_down p) s c l (lower p l)) (sym e)
        (down_at s c p us ds (λ z. several (e ∙ z)) (subst (IsCanvas s c) e v))

  -- animate_placement_top of a placement on a well-formed canvas runs without a fault and puts it in
  -- front of the others, whose order stays. Nothing but links on this canvas changes.
  pub placement_top-to_top : Reorders (placement_top p) s c xs (to_top p xs)
  placement_top-to_top =
      let (us, ds, e) = find_focus p [] xs on in
      subst (λ l. Reorders (placement_top p) s c l (to_top p l)) (sym e)
        (top_at s c p us ds (subst (IsCanvas s c) e v))

  -- animate_placement_bottom of a placement on a well-formed canvas runs without a fault and puts it
  -- behind the others, whose order stays. Nothing but links on this canvas changes.
  pub placement_bottom-to_bottom : Reorders (placement_bottom p) s c xs (to_bottom p xs)
  placement_bottom-to_bottom =
      let (us, ds, e) = find_focus p [] xs on in
      subst (λ l. Reorders (placement_bottom p) s c l (to_bottom p l)) (sym e)
        (bottom_at s c p us ds (subst (IsCanvas s c) e v))

-- When a well-formed canvas has a single placement, animate_placement_down of it accesses memory
-- through NULL.
pub placement_down_single :
    (s : Store) (c p : Ptr) → IsCanvas s c (p ∷ []) → placement_down p s ≡ none
placement_down_single s c p v = down_single s c p (focus {us = []} v)

-- What animate_destroy_placement of `p`, a placement of the sprite `sp` at `i`, comes to.
abbrev pub Destroys : Store → Ptr → Ptr → Ptr → Sprite → List Ptr → List Ptr → Type 0
Destroys s c p i sp xs ys =
    (t : Store) × (destroy_placement p s ≡ some (tt, t))
    × IsCanvas t c ys
    × (t.placements p ≡ none)
    × (t.sprites
        ≡ update s.sprites i
            (some (record sp { placement_count = (sp.placement_count + size_mod - 1) % size_mod })))
    × ((k : Ptr) → k ≢ c → t.canvases k ≡ s.canvases k)
    × ((x : Ptr) → has x xs ≡ false → t.placements x ≡ s.placements x)
    × ((x : Ptr) → x ≢ p → Option.map body (t.placements x) ≡ Option.map body (s.placements x))

destroy_at :
    (s : Store) (c p : Ptr) (us ds : List Ptr) (n : Placement) (sp : Sprite)
    → IsCanvas s c (unfocus us (p ∷ ds))
    → s.placements p ≡ some n
    → s.sprites n.sprite ≡ some sp
    → n.sprite ≢ null
    → Destroys s c p n.sprite sp (unfocus us (p ∷ ds)) (remove p (unfocus us (p ∷ ds)))
destroy_at s c p us ds n sp v hp hs s0 =
    let f = focus {us = us} v in
    let same : f.here.node ≡ n = cc (f.here.holds, hp) in
    let run = destroy_focus s c p us ds f sp in
    rw (remove-unfocus p us (p ∷ ds) f.out_above, remove_here p ds)
      (subst
        (λ k.
          s.sprites k.sprite ≡ some sp
          → k.sprite ≢ null
          → Destroys s c p k.sprite sp (unfocus us (p ∷ ds)) (unfocus us ds))
        same run hs s0)

-- animate_destroy_placement of a placement on a well-formed canvas, whose sprite is allocated, runs without a fault: the others
-- stay in their order, the placement is freed, and its sprite counts one placement less; other
-- canvases, other placements but for their links, and what is not on the canvas stay as they are.
pub destroy_placement-remove :
    (s : Store) (c p : Ptr) (xs : List Ptr) (n : Placement) (sp : Sprite)
    → IsCanvas s c xs
    → has p xs ≡ true
    → s.placements p ≡ some n
    → s.sprites n.sprite ≡ some sp
    → n.sprite ≢ null
    → Destroys s c p n.sprite sp xs (remove p xs)
destroy_placement-remove s c p xs n sp v on hp hs s0 =
    let (us, ds, e) = find_focus p [] xs on in
    subst (λ l. Destroys s c p n.sprite sp l (remove p l)) (sym e)
      (destroy_at s c p us ds n sp (subst (IsCanvas s c) e v) hp hs s0)
