-- ===== src/Text/RoundTrip.antt =====
-- A number that is printed is read back: sprintf("%lu"), strtok_r and strtoull.
use pointerpro_animate.Base.{
  ℕ, zero, suc, ◌+◌, ◌≤◌, length, ◌*◌, ◌/◌, ◌%◌, ◌^◌, ◌<◌, ◌≡◌, refl, ap, ◌∙◌, true, false, some,
  [], ◌∷◌, arith, ltb, Bool-cases, inl, inr,
}
use pointerpro_animate.Base.Int.{ℤ, pos}
use pointerpro_animate.Text.{
  Text, break_space, strtok, skip_white, digits, starts_digit, sign, to_long, to_ullong, strtol,
  strtoull, decimal, print_ulong,
}

-- All numbers of that many digits and one.
abbrev limit : ℕ → ℕ
limit zero = 10
limit (suc fuel) = limit fuel * 10

last_digit :
    (acc n : ℕ) (tail : Text) → digits acc ((48 + n % 10) ∷ tail) ≡ digits (acc * 10 + n % 10) tail
unfolding digits
last_digit acc n tail = ground arith

pub digits-decimal :
    (fuel n : ℕ) (tail : Text) → n < limit fuel → digits 0 (decimal fuel n tail) ≡ digits n tail
unfolding decimal
digits-decimal zero n tail h = last_digit 0 n tail ∙ ap (λ k. digits k tail) (omega arith)
digits-decimal (suc fuel) n tail h = elim (Bool-cases (ltb n 10)) [
  | inl small ↦ rw small (
      ap (λ d. digits 0 ((48 + d) ∷ tail)) (ground arith)
      ∙ last_digit 0 n tail
      ∙ ap (λ k. digits k tail) (ground arith))
  | inr large ↦ rw large (
      digits-decimal fuel (n / 10) ((48 + n % 10) ∷ tail) (omega arith)
      ∙ last_digit (n / 10) n tail
      ∙ ap (λ k. digits k tail) (omega arith))
]

pub starts_digit-decimal : (fuel n : ℕ) (tail : Text) → starts_digit (decimal fuel n tail) ≡ true
unfolding decimal starts_digit
starts_digit-decimal zero n tail = ground arith
starts_digit-decimal (suc fuel) n tail =
    ground (arith, starts_digit-decimal fuel (n / 10) ((48 + n % 10) ∷ tail))

pub skip_white_digit : (s : Text) → starts_digit s ≡ true → skip_white s ≡ s
unfolding skip_white starts_digit
skip_white_digit [] h = refl
skip_white_digit (c ∷ s) h = ground arith

pub sign_digit : (s : Text) → starts_digit s ≡ true → sign s ≡ (false, s)
unfolding sign starts_digit
sign_digit [] h = refl
sign_digit (c ∷ s) h = ground arith

pub strtoull-print_ulong : (n : ℕ) → n < 2 ^ 64 → strtoull (print_ulong n) ≡ (n, [])
unfolding strtoull print_ulong
strtoull-print_ulong n h =
    let s : Text = decimal 19 n [] in
    let d = starts_digit-decimal 19 n [] in
    let whole : digits 0 s ≡ (n, []) =
      digits-decimal 19 n [] (omega arith) ∙ unfold digits in refl in
    rw (skip_white_digit s d, sign_digit s d, whole, d) (unfold to_ullong in ground arith)

long_of : (n : ℕ) → n < 2 ^ 63 → to_long false n ≡ pos n
unfolding to_long
long_of n small = ground arith

pub strtol-print_ulong : (n : ℕ) → n < 2 ^ 63 → strtol (print_ulong n) ≡ (pos n, [])
unfolding strtol print_ulong
strtol-print_ulong n h =
    let s : Text = decimal 19 n [] in
    let d = starts_digit-decimal 19 n [] in
    let whole : digits 0 s ≡ (n, []) =
      digits-decimal 19 n [] (omega arith) ∙ unfold digits in refl in
    rw (skip_white_digit s d, sign_digit s d, whole, d) (ap (λ (z : ℤ). (z, [])) (long_of n h))

pub print_ulong-starts_digit : (n : ℕ) → starts_digit (print_ulong n) ≡ true
unfolding print_ulong
print_ulong-starts_digit n = starts_digit-decimal 19 n []

pub length-starts_digit : (s : Text) → starts_digit s ≡ true → 1 ≤ length s
unfolding starts_digit
length-starts_digit [] d = absurd cc
length-starts_digit (c ∷ s) d = omega arith

break_space-decimal :
    (fuel n : ℕ) (tail : Text)
    → break_space tail ≡ (tail, [])
    → break_space (decimal fuel n tail) ≡ (decimal fuel n tail, [])
unfolding decimal break_space
break_space-decimal zero n tail h = ground arith
break_space-decimal (suc fuel) n tail h =
    let next : break_space ((48 + n % 10) ∷ tail) ≡ ((48 + n % 10) ∷ tail, []) = ground arith in
    ground (arith, break_space-decimal fuel (n / 10) ((48 + n % 10) ∷ tail) next)

token_of_plain :
    (s : Text) → starts_digit s ≡ true → break_space s ≡ (s, []) → strtok s ≡ (some s, [])
unfolding strtok starts_digit
token_of_plain [] h e = absurd (cc)
token_of_plain (c ∷ s) h e = ground (arith, e)

pub strtok-print_ulong : (n : ℕ) → strtok (print_ulong n) ≡ (some (print_ulong n), [])
unfolding print_ulong break_space
strtok-print_ulong n =
    token_of_plain (decimal 19 n []) (starts_digit-decimal 19 n [])
      (break_space-decimal 19 n [] refl)
