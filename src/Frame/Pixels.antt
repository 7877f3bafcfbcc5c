-- ===== src/Frame/Pixels.antt =====
-- The place of a sprite's pixel on the canvas.
use pointerpro_animate.Base.{
  ℕ, zero, suc, ◌+◌, ◌-◌, ◌≤◌, ◌<◌, ◌≡◌, ap, Bool, false, ◌&&◌, Option, none, some, arith, ltb, leb,
  ◌==◌, if◌then◌else◌, Bool-cases, inl, inr,
}
use pointerpro_animate.Base.Int.{ℤ, pos, negsuc, ◌+ℤ◌}
use pointerpro_animate.Frame.{ssize_max, as_ssize, add_ssize}
use pointerpro_animate.Frame.Paint.{over_up}

-- position + s == x
abbrev pub hits : ℤ → ℕ → ℕ → Bool
hits (pos k) s x = k + s == x
hits (negsuc k) s x = s == x + k + 1

-- The s with position + s == x, if there is one.
abbrev pub offset : ℤ → ℕ → Option ℕ
offset (pos k) x = if leb k x then some (x - k) else none
offset (negsuc k) x = some (x + k + 1)

-- What stands at the offset, if it is in the range.
abbrev pub at_offset : ℕ → ℕ → ℤ → ℕ → (ℕ → Option ℕ) → Option ℕ
at_offset count first p x g = elim (offset p x) [
  | none ↦ none
  | some s ↦ if leb first s && ltb s (first + count) then g s else none
]

-- A loop over the columns that paints where the column hits.
pub over_up-hits :
    (count first : ℕ) (p : ℤ) (g : ℕ → Option ℕ) (x : ℕ)
    → over_up count first (λ s. if hits p s x then g s else none) ≡ at_offset count first p x g
over_up-hits zero first (pos k) g x = ground arith
over_up-hits zero first (negsuc k) g x = ground arith
over_up-hits (suc count) first (pos k) g x =
    ground (arith, over_up-hits count (suc first) (pos k) g x, ap g)
over_up-hits (suc count) first (negsuc k) g x =
    ground (arith, over_up-hits count (suc first) (negsuc k) g x, ap g)

-- The columns p, ..., p + n - 1 are in the range of ssize_t, and n is.
abbrev pub Fits : ℤ → ℕ → Type 0
Fits (pos k) n = k + n ≤ ssize_max
Fits (negsuc k) n = (k < ssize_max) × (n ≤ ssize_max)

-- Where the pixel s of a sprite at p comes to lie.
pub data Lands (p : ℤ) (s : ℕ) : Type 0 where
  inside :
      (c : ℕ)
      → add_ssize p (as_ssize s) ≡ some (pos c)
      → ((x : ℕ) → hits p s x ≡ (x == c))
      → Lands p s
  before :
      (k : ℕ)
      → add_ssize p (as_ssize s) ≡ some (negsuc k)
      → ((x : ℕ) → hits p s x ≡ false)
      → Lands p s

pub lands : (p : ℤ) (s n : ℕ) → Fits p n → s < n → Lands p s
unfolding add_ssize as_ssize ◌+ℤ◌
lands (pos k) s n fits h = inside (k + s) (ground arith) (λ x. ground arith)
lands (negsuc k) s n (fits, small) h = elim (Bool-cases (ltb k s)) [
  | inl e ↦ inside (s - k - 1) (ground arith) (λ x. ground arith)
  | inr e ↦ before (k - s) (ground arith) (λ x. ground arith)
]
