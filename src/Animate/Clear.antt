-- ===== src/Animate/Clear.antt =====
-- animate_destroy_canvas: the loop over the placements, which ends and frees them all.
use mathlib.Core.Option
use pointerpro_animate.Base.{
  ℕ, zero, suc, ◌+◌, ◌-◌, ◌%◌, ◌<◌, ◌≤◌, ◌≡◌, ◌≢◌, refl, sym, ap, subst, ◌∙◌, true, false, Option,
  none, some, List, [], ◌∷◌, arith, ◌==◌, if◌then◌else◌, length, Bool-cases, inl, inr,
}
use pointerpro_animate.Animate.{
  Ptr, null, Store, Canvas, Sprite, Placement, size_mod, put_placement, put_sprite, put_canvas,
}
use pointerpro_animate.Animate.Layers.{destroy_loop, destroy_canvas}
use pointerpro_animate.Animate.Focus.{Heap, has, first, Below, frame-Below, Distinct, IsCanvas}
use pointerpro_animate.Animate.Apart.{ne_of_has}

-- The sprite of each of the placements is allocated.
abbrev pub HasSprites : Store → List Ptr → Type 0
HasSprites s xs =
    (a : Ptr) (n : Placement)
    → has a xs ≡ true
    → s.placements a ≡ some n
    → (n.sprite ≢ null) × ((sp : Sprite) × (s.sprites n.sprite ≡ some sp))

-- How many of the placements are of the sprite `i`.
abbrev of_sprite : Ptr → Option Placement → ℕ
of_sprite i none = 0
of_sprite i (some n) = if n.sprite == i then 1 else 0

abbrev pub uses : Heap → Ptr → List Ptr → ℕ
uses h i [] = 0
uses h i (x ∷ xs) = of_sprite i (h x) + uses h i xs

-- The sprite when its count has been taken down so many times, modulo 2^64.
abbrev pub counted_down : ℕ → Sprite → Sprite
counted_down zero sp = sp
counted_down (suc n) sp =
    counted_down n (record sp { placement_count = (sp.placement_count + size_mod - 1) % size_mod })

-- All of `xs` is freed, and each sprite counts as many placements less.
pub record Freed (s t : Store) (xs : List Ptr) : Type 0 where
  pub gone : (a : Ptr) → t.placements a ≡ (if has a xs then none else s.placements a)
  pub same_canvases : t.canvases ≡ s.canvases
  pub downs :
      (i : Ptr) → t.sprites i ≡ Option.map (counted_down (uses s.placements i xs)) (s.sprites i)
  pub counts :
      (i : Ptr) (sp : Sprite)
      → s.sprites i ≡ some sp
      → uses s.placements i xs ≤ sp.placement_count
      → sp.placement_count < size_mod
      → t.sprites i
        ≡ some (record sp { placement_count = sp.placement_count - uses s.placements i xs })

uses-frame :
    (h g : Heap) (i : Ptr) (xs : List Ptr)
    → ((a : Ptr) → has a xs ≡ true → g a ≡ h a)
    → uses g i xs ≡ uses h i xs
uses-frame h g i [] same = refl
uses-frame h g i (x ∷ xs) same =
    rw (same x (ground arith), uses-frame h g i xs (λ a j. same a (ground arith)))

module _ (s : Store) (x : Ptr) (n : Placement) (sp : Sprite) where
  abbrev round : Store
  round = put_placement x none (
      put_sprite n.sprite
        (some (record sp { placement_count = (sp.placement_count + size_mod - 1) % size_mod })) s)

  loop_step :
      (fuel : ℕ)
      → s.placements x ≡ some n
      → x ≢ null
      → s.sprites n.sprite ≡ some sp
      → n.sprite ≢ null
      → destroy_loop (suc fuel) x s ≡ destroy_loop fuel n.next round
  unfolding destroy_loop
  loop_step fuel hx x0 hs s0 = ground arith

  round_count :
      (i : Ptr) (sq : Sprite) (more : ℕ)
      → s.sprites n.sprite ≡ some sp
      → s.sprites i ≡ some sq
      → of_sprite i (some n) + more ≤ sq.placement_count
      → sq.placement_count < size_mod
      → (sr : Sprite) × (round.sprites i ≡ some sr)
        × (sr ≡ record sq { placement_count = sq.placement_count - of_sprite i (some n) })
  round_count i sq more hs hi enough small = (
    record sq { placement_count = sq.placement_count - of_sprite i (some n) },
    ground arith,
    refl,
  )

  round_down :
      (i : Ptr) (m : ℕ)
      → s.sprites n.sprite ≡ some sp
      → Option.map (counted_down m) (round.sprites i)
        ≡ Option.map (counted_down (of_sprite i (some n) + m)) (s.sprites i)
  round_down i m hs = elim (Bool-cases (n.sprite == i)) [
    | inl e ↦
        let more : of_sprite i (some n) + m ≡ suc m = ground arith in
        let here : s.sprites i ≡ some sp = ground arith in
        let there : round.sprites i
            ≡ some
                (record sp { placement_count = (sp.placement_count + size_mod - 1) % size_mod }) =
          ground arith in
        ap (Option.map (counted_down m)) there
        ∙ ap (λ k. Option.map (counted_down k) (some sp)) (sym more)
        ∙ ap (Option.map (counted_down (of_sprite i (some n) + m))) (sym here)
    | inr e ↦
        let more : of_sprite i (some n) + m ≡ m = ground arith in
        let same : round.sprites i ≡ s.sprites i = ground arith in
        ap (Option.map (counted_down m)) same
        ∙ ap (λ k. Option.map (counted_down k) (s.sprites i)) (sym more)
  ]

  round_sprite :
      (i : Ptr) (sq : Sprite) → s.sprites i ≡ some sq → (sr : Sprite) × (round.sprites i ≡ some sr)
  round_sprite i sq hi = elim (Bool-cases (i == n.sprite)) [
    | inl e ↦ (record sp { placement_count = (sp.placement_count + size_mod - 1) % size_mod }, rw e)
    | inr e ↦ (sq, rw e hi)
  ]

  round-HasSprites :
      (xs : List Ptr) → has x xs ≡ false → HasSprites s (x ∷ xs) → HasSprites round xs
  round-HasSprites xs out v a k i ha =
      let ne : a ≢ x = ne_of_has a x xs i out in
      let (k0, sq) = v a k (ground arith) (ground arith) in (k0, round_sprite k.sprite sq.0 sq.1)

round_same :
    (s : Store) (x a : Ptr) (n : Placement) (sp : Sprite)
    → a ≢ x
    → (round s x n sp).placements a ≡ s.placements a
round_same s x a n sp ne = ground arith

counts_cons :
    (o m : ℕ) (sq sr : Sprite)
    → sr ≡ record sq { placement_count = sq.placement_count - o }
    → (q : Option Sprite) → o + m ≤ sq.placement_count
    → sq.placement_count < size_mod
    → (m ≤ sr.placement_count
        → sr.placement_count < size_mod
        → q ≡ some (record sr { placement_count = sr.placement_count - m }))
    → q ≡ some (record sq { placement_count = sq.placement_count - (o + m) })
counts_cons o m sq sr er q enough small rest =
    let count : sr.placement_count ≡ sq.placement_count - o = ground arith in
    rest (omega arith) (omega arith) ∙ ground arith

-- One more placement freed.
Freed-cons :
    (s t : Store) (x : Ptr) (xs : List Ptr) (n : Placement) (sp : Sprite)
    → s.placements x ≡ some n
    → s.sprites n.sprite ≡ some sp
    → has x xs ≡ false
    → Freed (round s x n sp) t xs
    → Freed s t (x ∷ xs)
Freed-cons s t x xs n sp hx hs out f =
    let r : Store = round s x n sp in
    let frame : (i : Ptr) → uses r.placements i xs ≡ uses s.placements i xs = λ i.
      uses-frame s.placements r.placements i xs
        (λ a j. round_same s x a n sp (ne_of_has a x xs j out)) in
    record {
      gone = λ a. ground (arith, f.gone a);
      same_canvases = f.same_canvases;
      downs = λ i.
          f.downs i
          ∙ ap (λ m. Option.map (counted_down m) (r.sprites i)) (frame i)
          ∙ round_down s x n sp i (uses s.placements i xs) hs
          ∙ ap
              (λ o.
                Option.map (counted_down (of_sprite i o + uses s.placements i xs)) (s.sprites i))
              (sym hx);
      counts = λ i sq hi enough small.
          let enough' : of_sprite i (some n) + uses s.placements i xs ≤ sq.placement_count =
            subst (λ o. of_sprite i o + uses s.placements i xs ≤ sq.placement_count) hx enough in
          let (sr, hr, er) =
            round_count s x n sp i sq (uses s.placements i xs) hs hi enough' small in
          subst
            (λ o.
              t.sprites i
              ≡ some (record sq {
                placement_count = sq.placement_count - (of_sprite i o + uses s.placements i xs);
              }))
            (sym hx)
            (counts_cons (of_sprite i (some n)) (uses s.placements i xs) sq sr er (t.sprites i)
              enough' small
              (λ below smaller.
                subst
                  (λ m. t.sprites i ≡ some (record sr { placement_count = sr.placement_count - m }))
                  (frame i) (f.counts i sr hr (rw (frame i) below) smaller)));
    }

canvas_run :
    (s : Store) (c : Ptr) (t : Store) (cv : Canvas) (fuel : ℕ)
    → c ≢ null
    → s.canvases c ≡ some cv
    → destroy_loop fuel cv.head s ≡ some (tt, t)
    → t.canvases c ≡ some cv
    → destroy_canvas fuel c s ≡ some (tt, put_canvas c none t)
unfolding destroy_canvas
canvas_run s c t cv fuel c0 hc run there = ground arith

map_same : (o : Option Sprite) → o ≡ Option.map (counted_down 0) o
map_same none = refl
map_same (some sp) = refl

-- With more rounds than placements the loop ends, and has freed them all.
destroy_loop-Freed :
    (fuel : ℕ) (s : Store) (c previous : Ptr) (xs : List Ptr)
    → Below s.placements c previous xs
    → Distinct xs
    → HasSprites s xs
    → length xs < fuel
    → (t : Store) × (destroy_loop fuel (first xs) s ≡ some (tt, t)) × Freed s t xs
unfolding destroy_loop
destroy_loop-Freed zero s c previous xs v d hs enough = absurd (omega arith)
destroy_loop-Freed (suc fuel) s c previous [] v d hs enough = (
  s,
  refl,
  record {
    gone = λ a. refl;
    same_canvases = refl;
    downs = λ i. map_same (s.sprites i);
    counts = λ i sp hi e small. ground arith;
  },
)
destroy_loop-Freed (suc fuel) s c previous (x ∷ xs) (n, v) (out, d) hs enough =
    let (s0, sp) = hs x n.node (ground arith) n.holds in
    let r : Store = round s x n.node sp.0 in
    let rest =
      destroy_loop-Freed fuel r c x xs
        (frame-Below c x xs (λ a i. round_same s x a n.node sp.0 (ne_of_has a x xs i out)) v) d
        (round-HasSprites s x n.node sp.0 xs out hs) (omega arith) in
    (
      rest.0,
      loop_step s x n.node sp.0 fuel n.holds n.ne_null sp.1 s0
          ∙ ap (λ q. destroy_loop fuel q r) n.has_next
          ∙ rest.1,
      Freed-cons s rest.0 x xs n.node sp.0 n.holds sp.1 out rest.2,
    )

-- animate_destroy_canvas of a well-formed canvas whose placements' sprites are allocated: given more
-- rounds than placements its loop ends and runs without a fault; the canvas and all its placements
-- are freed and no other structure is, and each sprite's count is taken down, modulo 2^64, once for
-- each of its placements on the canvas: a count below 2^64 that is no less than these is that many
-- less after it.
pub destroy_canvas-Freed :
    (s : Store) (c : Ptr) (xs : List Ptr) (fuel : ℕ)
    → IsCanvas s c xs
    → HasSprites s xs
    → length xs < fuel
    → (t : Store) × (destroy_canvas fuel c s ≡ some (tt, t))
      × ((a : Ptr) → t.placements a ≡ (if has a xs then none else s.placements a))
      × ((k : Ptr) → t.canvases k ≡ (if k == c then none else s.canvases k))
      × ((i : Ptr) → t.sprites i ≡ Option.map (counted_down (uses s.placements i xs)) (s.sprites i))
      × ((i : Ptr) (sp : Sprite)
          → s.sprites i ≡ some sp
          → uses s.placements i xs ≤ sp.placement_count
          → sp.placement_count < size_mod
          → t.sprites i
            ≡ some (record sp { placement_count = sp.placement_count - uses s.placements i xs }))
destroy_canvas-Freed s c xs fuel v hs enough =
    let (t, run, f) = destroy_loop-Freed fuel s c null xs v.chain v.distinct hs enough in
    (
      put_canvas c none t,
      canvas_run s c t v.canvas fuel v.ne_null v.holds
          (ap (λ p. destroy_loop fuel p s) v.has_head ∙ run)
          (ap (λ (g : Ptr → Option Canvas). g c) f.same_canvases ∙ v.holds),
      f.gone,
      λ k. ap (λ (g : Ptr → Option Canvas). if k == c then none else g k) f.same_canvases,
      f.downs,
      f.counts,
    )
