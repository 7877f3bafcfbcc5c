-- ===== src/Frame/Paint.antt =====
-- What a drawing does to the pixels of a buffer: for each place a colour or nothing.
use pointerpro_animate.Base.{
  ℕ, zero, suc, ◌+◌, ◌*◌, ◌≤◌, ◌<◌, ◌≡◌, ◌≢◌, refl, ap, ◌∙◌, Option, none, some, arith, ◌==◌,
  if◌then◌else◌, length, set, get_elem?, length-set, get_elem?-set_self, get_elem?-set_ne, lt→ltb,
}
use pointerpro_animate.Frame.{Buffer, store, for_up}

-- The later colour, if there is one.
abbrev pub over {ℓ} : {A : Type ℓ} → Option A → Option A → Option A
over none old = old
over (some c) old = some c

pub over_assoc {ℓ} : {A : Type ℓ} (a b c : Option A) → over a (over b c) ≡ over (over a b) c
over_assoc none b c = refl
over_assoc (some x) b c = refl

pub over-none {ℓ} : {A : Type ℓ} (a : Option A) → a ≡ over a none
over-none none = refl
over-none (some x) = refl

-- A colour or nothing for each column and row.
abbrev pub Effect : Type 0
Effect = ℕ → ℕ → Option ℕ

-- On a canvas of width `w` and height `h` the drawing runs on this buffer, and has this effect.
pub record Paints (w h : ℕ) (op : Buffer → Option Buffer) (e : Effect) (buf : Buffer) : Type 0 where
  pub drawn : Buffer
  pub runs : op buf ≡ some drawn
  pub same_length : length drawn ≡ length buf
  pub pixels :
      (x y : ℕ)
      → x < w
      → y < h
      → get_elem? drawn (y * w + x) ≡ over (e x y) (get_elem? buf (y * w + x))

-- It does so on every buffer that is large enough.
abbrev pub Draws : ℕ → ℕ → (Buffer → Option Buffer) → Effect → Type 0
Draws w h op e = (buf : Buffer) → w * h ≤ length buf → Paints w h op e buf

pub no_effect : (w h : ℕ) → Draws w h some (λ x y. none)
no_effect w h buf large = record {
  drawn = buf;
  runs = refl;
  same_length = refl;
  pixels = λ x y hx hy. refl;
}

pub row_apart : (w y y' x x' : ℕ) → x < w → x' < w → y < y' → y * w + x ≢ y' * w + x'
row_apart w y y' x x' hx hx' hy e =
    let row : (y + 1) * w ≤ y' * w = grind arith in omega (arith, row, e)

pub index_in_range : (x y w h : ℕ) → x < w → y < h → y * w + x < w * h
index_in_range x y w h hx hy = grind arith

-- One pixel.
pub store-Draws :
    (w h x y color : ℕ)
    → x < w
    → y < h
    → Draws w h
        (store (y * w + x) color)
        (λ x' y'. if x' == x then (if y' == y then some color else none) else none)
unfolding store
store-Draws w h x y color hx hy buf large =
    let inside : y * w + x < length buf = omega (arith, index_in_range x y w h hx hy) in
    record {
      drawn = set buf (y * w + x) color;
      runs = rw (lt→ltb _ _ inside);
      same_length = length-set buf (y * w + x) color;
      pixels = λ x' y' hx' hy'. ground (
        arith,
        get_elem?-set_self buf (y * w + x) color inside,
        get_elem?-set_ne buf (y * w + x) (y' * w + x') color,
        row_apart w y y' x x' hx hx',
        row_apart w y' y x' x hx' hx,
      );
    }

-- The last colour of a loop.
abbrev pub over_up : ℕ → ℕ → (ℕ → Option ℕ) → Option ℕ
over_up zero first e = none
over_up (suc count) first e = over (over_up count (suc first) e) (e first)

module _ (w h : ℕ) where
  -- A drawing with another description of its effect.
  pub change_effect :
      (op : Buffer → Option Buffer) (e e' : Effect)
      → ((x y : ℕ) → x < w → y < h → e x y ≡ e' x y)
      → Draws w h op e
      → Draws w h op e'
  change_effect op e e' same draws buf large =
      let p = draws buf large in
      record {
        drawn = p.drawn;
        runs = p.runs;
        same_length = p.same_length;
        pixels = λ x y hx hy.
            p.pixels x y hx hy ∙ ap (λ c. over c (get_elem? buf (y * w + x))) (same x y hx hy);
      }

  pub same_drawing :
      (op op' : Buffer → Option Buffer) (e : Effect)
      → ((b : Buffer) → op b ≡ op' b)
      → Draws w h op' e
      → Draws w h op e
  same_drawing op op' e same draws buf large =
      let p = draws buf large in
      record {
        drawn = p.drawn;
        runs = same buf ∙ p.runs;
        same_length = p.same_length;
        pixels = p.pixels;
      }

  -- One drawing after another.
  pub seq-Draws :
      (op op' : Buffer → Option Buffer) (e e' : Effect)
      → Draws w h op e
      → Draws w h op' e'
      → Draws w h
          (λ b. elim (op b) [ none ↦ none | some b' ↦ op' b' ])
          (λ x y. over (e' x y) (e x y))
  seq-Draws op op' e e' first second buf large =
      let p = first buf large in
      let q = second p.drawn (omega (arith, p.same_length, large)) in
      record {
        drawn = q.drawn;
        runs = rw p.runs q.runs;
        same_length = q.same_length ∙ p.same_length;
        pixels = λ x y hx hy.
            q.pixels x y hx hy
            ∙ ap (over (e' x y)) (p.pixels x y hx hy)
            ∙ over_assoc (e' x y) (e x y) (get_elem? buf (y * w + x));
      }

  pub for_up-Draws :
      (count first : ℕ) (body : ℕ → Buffer → Option Buffer) (e : ℕ → Effect)
      → ((i : ℕ) → first ≤ i → i < first + count → Draws w h (body i) (e i))
      → Draws w h (for_up count first body) (λ x y. over_up count first (λ i. e i x y))
  unfolding for_up
  for_up-Draws zero first body e each = no_effect w h
  for_up-Draws (suc count) first body e each =
      seq-Draws (body first) (for_up count (suc first) body) (e first)
        (λ x y. over_up count (suc first) (λ i. e i x y)) (each first (omega arith) (omega arith))
        (for_up-Draws count (suc first) body e (λ i lo hi. each i (omega arith) (omega arith)))
