-- ===== src/Frame/Topmost.antt =====
-- The layers of a canvas in a frame, as animate_generate_frame draws them.
use pointerpro_animate.Base.{
  ℕ, zero, suc, ◌+◌, ◌*◌, ◌%◌, ◌≤◌, ◌<◌, ◌≡◌, ◌≢◌, refl, sym, ap, subst, ◌∙◌, true, none, some,
  List, [], ◌∷◌, arith, length, get_elem?,
}
use native.Mathlib.Nat.{mod-eq_of_lt}
use pointerpro_animate.Animate.{Ptr, null, Placement, Canvas, Store, size_mod}
use pointerpro_animate.Animate.Focus.{first, Above, has, IsCanvas}
use pointerpro_animate.Frame.{
  Doubles, Buffer, store, for_up, opaque, draw_sprite, draw_placement, draw_layers, generate_frame,
}
use pointerpro_animate.Frame.Paint.{
  over, over-none, Draws, no_effect, change_effect, seq-Draws, same_drawing, index_in_range,
}
use pointerpro_animate.Frame.Fill.{fill_lem}
use pointerpro_animate.Frame.Sprites.{draw_sprite-Draws}
use pointerpro_animate.Frame.Points.{IsFrame, sprite_effect}
use pointerpro_animate.Frame.Turns.{
  IsShown, first-turn-last, layer_color, length-turn, placement_color, topmost, topmost-unfocus,
  turn, turn-Above, turn-has, unfocus-turn, upward,
}

module _ (d : Doubles) (s : Store) (time : d.Double) (canvas : Canvas) (frame : IsFrame canvas)
    (c : Ptr) where
  abbrev w : ℕ
  w = canvas.width

  abbrev h : ℕ
  h = canvas.height

  placement_run :
      (p : Placement) (shown : IsShown d s time p) (b : Buffer)
      → draw_placement d s canvas time p b ≡ draw_sprite canvas shown.sprite shown.left shown.top b
  unfolding draw_placement
  placement_run p shown b =
      ground (arith, shown.has_sprite, shown.ne_null, shown.has_left, shown.has_top)

  placement_effect :
      (p : Placement) (shown : IsShown d s time p) (x y : ℕ)
      → sprite_effect shown.sprite shown.left shown.top x y ≡ placement_color d s time p x y
  placement_effect p shown x y =
      sym (rw (placement_color, shown.has_sprite, shown.has_left, shown.has_top) refl)

  placement-Draws :
      (a : Ptr) (p : Placement)
      → s.placements a ≡ some p
      → IsShown d s time p
      → Draws w h (draw_placement d s canvas time p) (layer_color d s time a)
  placement-Draws a p stands shown = same_drawing w h _ _ _ (placement_run p shown) (
      change_effect w h _ _ _
        (λ x y hx hy. placement_effect p shown x y ∙ sym (rw (layer_color, stands) refl))
        (draw_sprite-Draws canvas shown.sprite frame shown.valid shown.left shown.top
          shown.fits_width shown.fits_height))

  round_run :
      (fuel : ℕ) (a : Ptr) (p : Placement) (b : Buffer)
      → s.placements a ≡ some p
      → a ≢ null
      → draw_layers d (suc fuel) s canvas time a b ≡ elim (draw_placement d s canvas time p b) [
        | none ↦ none
        | some b' ↦ draw_layers d fuel s canvas time p.previous b'
      ]
  unfolding draw_layers
  round_run fuel a p b stands ne = ground arith

  end_run : (fuel : ℕ) (b : Buffer) → draw_layers d (suc fuel) s canvas time null b ≡ some b
  unfolding draw_layers
  end_run fuel b = refl

  -- With more rounds than placements the loop ends, and has drawn one over the other.
  draw_layers-Draws :
      (fuel : ℕ) (us : List Ptr) (next : Ptr)
      → Above s.placements c next us
      → ((a : Ptr) (p : Placement) → has a us ≡ true → s.placements a ≡ some p → IsShown d s time p)
      → length us < fuel
      → Draws w h (draw_layers d fuel s canvas time (first us)) (upward d s time us)
  draw_layers-Draws zero us next above shown enough = absurd (omega arith)
  draw_layers-Draws (suc fuel) [] next above shown enough =
      same_drawing w h _ _ _ (end_run fuel) (no_effect w h)
  draw_layers-Draws (suc fuel) (a ∷ us) next (n, above) shown enough =
      same_drawing w h _ _ _ (λ b. round_run fuel a n.node b n.holds n.ne_null)
        (seq-Draws w h _ _ _ _
          (placement-Draws a n.node n.holds (shown a n.node (ground arith) n.holds))
          (subst (λ q. Draws w h (draw_layers d fuel s canvas time q) (upward d s time us))
            (sym n.has_previous)
            (draw_layers-Draws fuel us a above (λ b p i. shown b p (ground arith)) (omega arith))))

colors :
    (d : Doubles) (s : Store) (time : d.Double) (xs : List Ptr) (x y : ℕ)
    → upward d s time (turn xs []) x y ≡ topmost d s time xs x y
colors d s time xs x y =
    over-none (upward d s time (turn xs []) x y)
    ∙ sym (topmost-unfocus d s time (turn xs []) [] x y)
    ∙ ap (λ l. topmost d s time l x y) (unfocus-turn xs [])

frame_run :
    (d : Doubles) (s : Store) (c : Ptr) (fuel frame frame_rate : ℕ) (buf : Buffer) (canvas : Canvas)
    (filled drawn : Buffer)
    → c ≢ null
    → s.canvases c ≡ some canvas
    → frame_rate ≢ 0
    → canvas.width * canvas.height < size_mod
    → for_up (canvas.width * canvas.height) 0 (λ i. store i (opaque canvas.background_color)) buf
      ≡ some filled
    → draw_layers d fuel s canvas
        (d.div (d.of_size frame) (d.of_size frame_rate))
        canvas.tail
        filled
      ≡ some drawn
    → generate_frame d fuel s c frame frame_rate (some buf) ≡ some (some drawn)
unfolding generate_frame
frame_run d s c fuel frame frame_rate buf canvas filled drawn c0 there rate small fill draw =
    let same : (canvas.width * canvas.height) % size_mod ≡ canvas.width * canvas.height =
      mod-eq_of_lt small in
    ground arith

-- A frame is drawn without a fault, given more rounds than the canvas has placements: on a well-formed
-- canvas whose sides and area are in range, at a frame rate other than 0, with a buffer that is large
-- enough, and when each placement has an allocated sprite and a position that is in range, the buffer
-- keeps its length, and each of its pixels shows the topmost placement that is opaque there, or else
-- the background, in an opaque colour. This holds of any arithmetic of `double`.
pub generate_frame-topmost :
    (d : Doubles) (s : Store) (c : Ptr) (xs : List Ptr) (fuel frame frame_rate : ℕ) (buf : Buffer)
    (v : IsCanvas s c xs)
    → IsFrame v.canvas
    → frame_rate ≢ 0
    → v.canvas.width * v.canvas.height ≤ length buf
    → length xs < fuel
    → ((a : Ptr) (p : Placement)
        → has a xs ≡ true
        → s.placements a ≡ some p
        → IsShown d s (d.div (d.of_size frame) (d.of_size frame_rate)) p)
    → (out : Buffer) × (generate_frame d fuel s c frame frame_rate (some buf) ≡ some (some out))
      × (length out ≡ length buf)
      × ((x y : ℕ)
          → x < v.canvas.width
          → y < v.canvas.height
          → get_elem? out (y * v.canvas.width + x)
            ≡ over
                (topmost d s (d.div (d.of_size frame) (d.of_size frame_rate)) xs x y)
                (some (opaque v.canvas.background_color)))
generate_frame-topmost d s c xs fuel frame frame_rate buf v range rate large enough shown =
    let time = d.div (d.of_size frame) (d.of_size frame_rate) in
    let area = v.canvas.width * v.canvas.height in
    let (filled, fill_run, fill_length, before, bg) =
      fill_lem area 0 (opaque v.canvas.background_color) buf (omega (arith, large)) in
    let us = turn xs [] in
    let p =
      draw_layers-Draws d s time v.canvas range c fuel us null
        (turn-Above s.placements c xs [] tt v.chain) (λ a q i. shown a q (turn-has a xs [] i))
        (omega (arith, length-turn xs [])) filled (omega (arith, large, fill_length)) in
    (
      p.drawn,
      frame_run d s c fuel frame frame_rate buf v.canvas filled p.drawn v.ne_null v.holds rate
          range.countable fill_run
          (subst (λ a. draw_layers d fuel s v.canvas time a filled ≡ some p.drawn)
            (first-turn-last xs ∙ sym v.has_tail) p.runs),
      p.same_length ∙ fill_length,
      λ x y hx hy.
          p.pixels x y hx hy
          ∙ ap (over (upward d s time us x y)) (
              bg (y * v.canvas.width + x) (omega arith)
                (omega (arith, index_in_range x y v.canvas.width v.canvas.height hx hy)))
          ∙ ap (λ e. over e (some (opaque v.canvas.background_color))) (colors d s time xs x y),
    )
