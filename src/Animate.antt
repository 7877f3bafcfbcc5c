-- ===== src/Animate.antt =====
-- The structures of libanimate/types.h on an explicit heap, and the accesses of libanimate/animate.c
-- to them. An address is a number and NULL is 0.
pub mod Layers
pub mod Focus
pub mod Apart
pub mod Relink
pub mod Swap
pub mod Up
pub mod Down
pub mod Unlink
pub mod Push
pub mod Top
pub mod Bottom
pub mod Destroy
pub mod Place
pub mod Spec
pub mod Order
pub mod Clear
use mathlib.Core.Option
use pointerpro_animate.Base.{
  ℕ, ◌+◌, ◌-◌, ◌%◌, ◌^◌, Bool, true, false, Option, none, some, List, ◌==◌, if◌then◌else◌,
}
use pointerpro_animate.Base.Int.{ℤ}

abbrev pub Ptr : Type 0
Ptr = ℕ

abbrev pub null : Ptr
null = 0

-- struct sprite
pub record Sprite : Type 0 where
  pub width : ℕ
  pub height : ℕ
  pub pixels : List ℕ
  pub placement_count : ℕ

-- struct sprite_placement
pub record Placement : Type 0 where
  pub sprite : Ptr
  pub canvas : Ptr
  pub x : ℤ
  pub y : ℤ
  pub vx : ℤ
  pub vy : ℤ
  pub ax : ℤ
  pub ay : ℤ
  pub next : Ptr
  pub previous : Ptr

-- struct canvas
pub record Canvas : Type 0 where
  pub width : ℕ
  pub height : ℕ
  pub background_color : ℕ
  pub head : Ptr
  pub tail : Ptr

-- The allocated structures by their addresses.
pub record Store : Type 0 where
  pub sprites : Ptr → Option Sprite
  pub placements : Ptr → Option Placement
  pub canvases : Ptr → Option Canvas

-- `none` is undefined behaviour: an access through NULL or to what is not allocated.
abbrev pub M : Type 0 → Type 0
M A = Store → Option (A × Store)

abbrev pub pure : {A : Type 0} → A → M A
pure a s = some (a, s)

infixl 5 ◌>>=◌ ◌>>◌
abbrev pub ◌>>=◌ : {A B : Type 0} → M A → (A → M B) → M B
◌>>=◌ m f s = elim (m s) [ none ↦ none | some (a, s') ↦ f a s' ]

abbrev pub ◌>>◌ : {B : Type 0} → M (Unit {0}) → M B → M B
m >> k = m >>= λ _. k

abbrev pub update {ℓ} : {A : Type ℓ} → (Ptr → A) → Ptr → A → Ptr → A
update f p v q = if q == p then v else f q

-- An access to `p` that gets the structure that stands there.
abbrev pub at {ℓ κ} : {A : Type ℓ} {B : Type κ} → Ptr → (Ptr → Option A) → (A → Option B) → Option B
at p f k = if p == null then none else elim (f p) [ none ↦ none | some n ↦ k n ]

abbrev pub put_placement : Ptr → Option Placement → Store → Store
put_placement p n s = record s { placements = update s.placements p n }

abbrev pub put_canvas : Ptr → Option Canvas → Store → Store
put_canvas c n s = record s { canvases = update s.canvases c n }

abbrev pub put_sprite : Ptr → Option Sprite → Store → Store
put_sprite p n s = record s { sprites = update s.sprites p n }

unfoldable pub load_placement : Ptr → M Placement
load_placement p s = at p s.placements λ n. some (n, s)

unfoldable pub load_canvas : Ptr → M Canvas
load_canvas c s = at c s.canvases λ n. some (n, s)

unfoldable pub load_sprite : Ptr → M Sprite
load_sprite p s = at p s.sprites λ n. some (n, s)

-- p->next = q and p->previous = q
unfoldable pub set_next : Ptr → Ptr → M (Unit {0})
set_next p q s = at p s.placements λ n. some (tt, put_placement p (some (record n { next = q })) s)

unfoldable pub set_previous : Ptr → Ptr → M (Unit {0})
set_previous p q s =
    at p s.placements λ n. some (tt, put_placement p (some (record n { previous = q })) s)

-- c->head = p and c->tail = p
unfoldable pub set_head : Ptr → Ptr → M (Unit {0})
set_head c p s = at c s.canvases λ n. some (tt, put_canvas c (some (record n { head = p })) s)

unfoldable pub set_tail : Ptr → Ptr → M (Unit {0})
set_tail c p s = at c s.canvases λ n. some (tt, put_canvas c (some (record n { tail = p })) s)

abbrev pub size_mod : ℕ
size_mod = 2 ^ 64

-- sprite->placement_count++ and --, which wrap around as a size_t does.
unfoldable pub count_up : Ptr → M (Unit {0})
count_up p s = at p s.sprites λ n.
    some (
      tt,
      put_sprite p (some (record n { placement_count = (n.placement_count + 1) % size_mod })) s,
    )

unfoldable pub count_down : Ptr → M (Unit {0})
count_down p s = at p s.sprites λ n. some (
  tt,
  put_sprite p (some (record n { placement_count = (n.placement_count + size_mod - 1) % size_mod }))
      s,
)

unfoldable pub free_placement : Ptr → M (Unit {0})
free_placement p s = at p s.placements λ n. some (tt, put_placement p none s)

unfoldable pub free_canvas : Ptr → M (Unit {0})
free_canvas c s = at c s.canvases λ n. some (tt, put_canvas c none s)
