-- ===== src/Frame/Fill.antt =====
-- The loop that fills the background.
use pointerpro_animate.Base.{
  ℕ, zero, suc, ◌+◌, ◌≤◌, ◌<◌, ◌≡◌, refl, ap, ◌∙◌, some, arith, ◌==◌, length, set, get_elem?,
  length-set, get_elem?-set_self, get_elem?-set_ne, lt→ltb, Bool-cases, inl, inr,
}
use pointerpro_animate.Frame.{Buffer, store, for_up}

fill_step :
    (count i color : ℕ) (buf : Buffer)
    → i < length buf
    → for_up (suc count) i (λ k. store k color) buf
      ≡ for_up count (suc i) (λ k. store k color) (set buf i color)
unfolding for_up store
fill_step count i color buf inside = ground (arith, lt→ltb i (length buf) inside)

-- It changes the pixels in its range, and no others.
pub fill_lem :
    (count i color : ℕ) (buf : Buffer)
    → i + count ≤ length buf
    → (out : Buffer) × (for_up count i (λ k. store k color) buf ≡ some out)
      × (length out ≡ length buf)
      × ((k : ℕ) → k < i → get_elem? out k ≡ get_elem? buf k)
      × ((k : ℕ) → i ≤ k → k < i + count → get_elem? out k ≡ some color)
unfolding for_up
fill_lem zero i color buf fits = (buf, refl, refl, λ k h. refl, λ k lo hi. absurd (omega arith))
fill_lem (suc count) i color buf fits =
    let b : Buffer = set buf i color in
    let inside : i < length buf = omega arith in
    let (out, run, len, before, filled) =
      fill_lem count (suc i) color b (omega (arith, length-set buf i color)) in
    (
      out,
      fill_step count i color buf inside ∙ run,
      len ∙ length-set buf i color,
      λ k h. before k (omega arith) ∙ get_elem?-set_ne buf i k color (λ e. omega arith),
      λ k lo hi. elim (Bool-cases (k == i)) [
        | inl e ↦
            before k (ground arith)
            ∙ ap (get_elem? b) (ground arith)
            ∙ get_elem?-set_self buf i color inside
        | inr e ↦ filled k (ground arith) (omega arith)
      ],
    )
