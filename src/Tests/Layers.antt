-- ===== src/Tests/Layers.antt =====
-- A canvas with three placements of one sprite, and each operation of libanimate/animate.c on it.
use mathlib.Core.Option
use pointerpro_animate.Base.{
  ◌-◌, ◌%◌, ◌<◌, ◌≤◌, ◌≡◌, ◌≢◌, refl, false, none, some, List, [], ◌∷◌, arith, ◌==◌, if◌then◌else◌,
}
use pointerpro_animate.Base.Int.{pos, negsuc}
use pointerpro_animate.Animate.{Ptr, null, Store, Sprite, Placement, Canvas, update, size_mod}
use pointerpro_animate.Animate.Layers.{
  new_placement, place_sprite, placement_up, placement_down, destroy_canvas,
}
use pointerpro_animate.Animate.Focus.{has, IsCanvas, Node}
use pointerpro_animate.Animate.Relink.{body, frame}
use pointerpro_animate.Animate.Spec.{raise, remove}
use pointerpro_animate.Animate.Order.{
  Reorders, Destroys, placement_up-raise, placement_down_single, destroy_placement-remove,
}
use pointerpro_animate.Animate.Place.{place_sprite-cons}
use pointerpro_animate.Animate.Clear.{HasSprites, counted_down, uses, destroy_canvas-Freed}

abbrev pub layer : Ptr → Ptr → Placement
layer previous next = record (new_placement 10 20 (pos 3) (negsuc 1)) {
  previous = previous;
  next = next;
}

abbrev square : Sprite
square = record { width = 1; height = 1; pixels = 7 ∷ []; placement_count = 3 }

abbrev pub board : Canvas
board = record { width = 4; height = 4; background_color = 0; head = 1; tail = 3 }

abbrev pub shown : Store
shown = record {
  sprites = λ i. if i == 20 then some square else none;
  placements = λ p.
      if p == 1
      then some (layer 0 2)
      else if p == 2
      then some (layer 1 3)
      else if p == 3
      then some (layer 2 0)
      else none;
  canvases = λ c. if c == 10 then some board else none;
}

abbrev pub layers : List Ptr
layers = 1 ∷ 2 ∷ 3 ∷ []

pub node :
    (p previous next : Ptr)
    → shown.placements p ≡ some (layer previous next)
    → p ≢ null
    → Node shown.placements 10 p previous next
node p previous next h p0 = record {
  node = layer previous next;
  holds = h;
  ne_null = p0;
  on_canvas = refl;
  has_previous = refl;
  has_next = refl;
}

pub shown-IsCanvas : IsCanvas shown 10 layers
shown-IsCanvas = record {
  canvas = board;
  holds = refl;
  ne_null = omega arith;
  has_head = refl;
  has_tail = refl;
  chain = (
    node 1 0 2 refl (omega arith),
    (node 2 1 3 refl (omega arith), (node 3 2 0 refl (omega arith), tt)),
  );
  distinct = (refl, (refl, (refl, tt)));
}

abbrev alone : Store
alone = record {
  sprites = λ i. if i == 20 then some square else none;
  placements = λ p. if p == 1 then some (layer 0 0) else none;
  canvases = λ c. if c == 10 then some (record board { tail = 1 }) else none;
}

alone-IsCanvas : IsCanvas alone 10 (1 ∷ [])
alone-IsCanvas = record {
  canvas = record board { tail = 1 };
  holds = refl;
  ne_null = omega arith;
  has_head = refl;
  has_tail = refl;
  chain = (
    record {
      node = layer 0 0;
      holds = refl;
      ne_null = omega arith;
      on_canvas = refl;
      has_previous = refl;
      has_next = refl;
    },
    tt,
  );
  distinct = (refl, tt);
}

shown-HasSprites : HasSprites shown layers
shown-HasSprites a n h e = (ground arith, (square, ground arith))

placement_up-raise_example : Reorders (placement_up 3) shown 10 layers (raise 3 layers)
placement_up-raise_example = placement_up-raise shown 10 3 layers shown-IsCanvas refl

placement_down_single_example : placement_down 1 alone ≡ none
placement_down_single_example = placement_down_single alone 10 1 alone-IsCanvas

destroy_placement-remove_example : Destroys shown 10 2 20 square layers (remove 2 layers)
destroy_placement-remove_example =
    destroy_placement-remove shown 10 2 layers (layer 1 3) square shown-IsCanvas refl refl refl
      (omega arith)

place_sprite-cons_example :
    (t : Store) × (place_sprite 4 10 20 (pos 5) (pos 6) shown ≡ some (4, t))
    × IsCanvas t 10 (4 ∷ layers)
    × (t.placements 4 ≡ some (record (new_placement 10 20 (pos 5) (pos 6)) { next = 1 }))
    × (t.sprites
        ≡ update shown.sprites 20 (some (record square { placement_count = 4 % size_mod })))
    × ((k : Ptr) → k ≢ 10 → t.canvases k ≡ shown.canvases k)
    × ((k : Ptr) → Option.map frame (t.canvases k) ≡ Option.map frame (shown.canvases k))
    × ((a : Ptr) → a ≢ 4 → Option.map body (t.placements a) ≡ Option.map body (shown.placements a))
    × ((a : Ptr) → a ≢ 4 → has a layers ≡ false → t.placements a ≡ shown.placements a)
place_sprite-cons_example =
    place_sprite-cons shown 10 20 4 (pos 5) (pos 6) layers square shown-IsCanvas refl (omega arith)
      refl (omega arith)

destroy_canvas-Freed_example :
    (t : Store) × (destroy_canvas 4 10 shown ≡ some (tt, t))
    × ((a : Ptr) → t.placements a ≡ (if has a layers then none else shown.placements a))
    × ((k : Ptr) → t.canvases k ≡ (if k == 10 then none else shown.canvases k))
    × ((i : Ptr)
        → t.sprites i
          ≡ Option.map (counted_down (uses shown.placements i layers)) (shown.sprites i))
    × ((i : Ptr) (sp : Sprite)
        → shown.sprites i ≡ some sp
        → uses shown.placements i layers ≤ sp.placement_count
        → sp.placement_count < size_mod
        → t.sprites i
          ≡ some
              (record sp { placement_count = sp.placement_count - uses shown.placements i layers }))
destroy_canvas-Freed_example =
    destroy_canvas-Freed shown 10 layers 4 shown-IsCanvas shown-HasSprites (omega arith)
