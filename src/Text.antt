-- ===== src/Text.antt =====
-- The C strings of the server: byte lists without the closing NUL, and the calls of the C library
-- that animate-platform/rpc_handlers.c and session.c make on them (strcmp, strtok_r, strtol,
-- strtoull, sprintf of an unsigned long).
pub mod RoundTrip
use Prim.Native.Char.{code}
use Prim.Native.String.{String}
use pointerpro_animate.Base.{
  ℕ, zero, suc, ◌+◌, ◌-◌, ◌*◌, ◌/◌, ◌%◌, ◌^◌, ◌≡◌, refl, Bool, true, false, ◌&&◌, ◌||◌, Option,
  none, some, List, [], ◌∷◌, arith, ltb, leb, ◌==◌, if◌then◌else◌,
}
use pointerpro_animate.Base.Int.{ℤ, pos, negsuc}

abbrev pub Text : Type 0
Text = List ℕ

-- The bytes of an ASCII literal.
abbrev pub codes : String → Text
codes String.[] = []
codes (String.◌∷◌ c s) = code c ∷ codes s

-- strcmp(a, b) == 0
unfoldable pub same : Text → Text → Bool
same [] [] = true
same [] (y ∷ ys) = false
same (x ∷ xs) [] = false
same (x ∷ xs) (y ∷ ys) = (x == y) && same xs ys

pub same_refl : (a : Text) → same a a ≡ true
unfolding same
same_refl [] = refl
same_refl (x ∷ xs) = ground (arith, same_refl xs)

pub same-eq : (a b : Text) → same a b ≡ true → a ≡ b
unfolding same
same-eq [] [] h = refl
same-eq [] (y ∷ ys) h = cc
same-eq (x ∷ xs) [] h = cc
same-eq (x ∷ xs) (y ∷ ys) h = ground (arith, same-eq xs ys)

pub same-sym : (a b : Text) → same a b ≡ same b a
unfolding same
same-sym [] [] = refl
same-sym [] (y ∷ ys) = refl
same-sym (x ∷ xs) [] = refl
same-sym (x ∷ xs) (y ∷ ys) = ground (arith, same-sym xs ys)

abbrev space : ℕ
space = 32

-- The leading delimiters dropped.
unfoldable pub skip_spaces : Text → Text
skip_spaces [] = []
skip_spaces (c ∷ s) = if c == space then skip_spaces s else c ∷ s

-- The bytes up to the next delimiter, and what stands behind it.
unfoldable pub break_space : Text → Text × Text
break_space [] = ([], [])
break_space (c ∷ s) = if c == space then ([], s) else (c ∷ (break_space s).0, (break_space s).1)

unfoldable pub token_of : Text → Option Text × Text
unfolding break_space
token_of [] = (none, [])
token_of (c ∷ s) = (some (break_space (c ∷ s)).0, (break_space (c ∷ s)).1)

-- strtok_r(NULL, " ", &saveptr): the next token, or none for NULL, and the new saveptr.
unfoldable pub strtok : Text → Option Text × Text
unfolding skip_spaces token_of
strtok s = token_of (skip_spaces s)

-- isspace
unfoldable pub is_space : ℕ → Bool
is_space c = (c == space) || (leb 9 c && leb c 13)

unfoldable pub is_digit : ℕ → Bool
is_digit c = leb b'0' c && leb c b'9'

unfoldable pub skip_white : Text → Text
unfolding is_space
skip_white [] = []
skip_white (c ∷ s) = if is_space c then skip_white s else c ∷ s

-- The value of the leading digits and the rest.
unfoldable pub digits : ℕ → Text → ℕ × Text
unfolding is_digit
digits acc [] = (acc, [])
digits acc (c ∷ s) = if is_digit c then digits (acc * 10 + (c - 48)) s else (acc, c ∷ s)

unfoldable pub starts_digit : Text → Bool
unfolding is_digit
starts_digit [] = false
starts_digit (c ∷ s) = is_digit c

-- An optional sign: whether it is a minus, and the rest.
unfoldable pub sign : Text → Bool × Text
sign [] = (false, [])
sign (c ∷ s) = if c == b'-' then (true, s) else if c == b'+' then (false, s) else (false, c ∷ s)

abbrev pub long_max : ℕ
long_max = 2 ^ 63 - 1

abbrev pub ullong_max : ℕ
ullong_max = 2 ^ 64 - 1

-- A `long` of this sign and magnitude, held at the type's bounds.
unfoldable pub to_long : Bool → ℕ → ℤ
to_long false n = if leb n long_max then pos n else pos long_max
to_long true zero = pos 0
to_long true (suc n) = if leb n long_max then negsuc n else negsuc long_max

-- An `unsigned long long` of this sign and magnitude: too large is ULLONG_MAX, a minus negates
-- modulo 2^64.
unfoldable pub to_ullong : Bool → ℕ → ℕ
to_ullong minus n =
    if ltb ullong_max n then ullong_max else if minus then (2 ^ 64 - n) % 2 ^ 64 else n

-- strtol(s, &end, 10): the value, and the text at `end`.
unfoldable pub strtol : Text → ℤ × Text
unfolding skip_white sign digits starts_digit to_long
strtol s =
    let (minus, body) = sign (skip_white s) in
    let (n, rest) = digits 0 body in
    if starts_digit body then (to_long minus n, rest) else (pos 0, s)

-- strtoull(s, &end, 10)
unfoldable pub strtoull : Text → ℕ × Text
unfolding skip_white sign digits starts_digit to_ullong
strtoull s =
    let (minus, body) = sign (skip_white s) in
    let (n, rest) = digits 0 body in if starts_digit body then (to_ullong minus n, rest) else (0, s)

-- The decimal digits of n in front of `tail`; `fuel` bounds their number less one.
unfoldable pub decimal : ℕ → ℕ → Text → Text
decimal zero n tail = (48 + n % 10) ∷ tail
decimal (suc fuel) n tail =
    let rest = decimal fuel (n / 10) ((48 + n % 10) ∷ tail) in
    if ltb n 10 then (48 + n) ∷ tail else rest

-- "%lu": a 64-bit number has at most twenty digits.
unfoldable pub print_ulong : ℕ → Text
unfolding decimal
print_ulong n = decimal 19 n []

-- A closing newline is overwritten by NUL.
unfoldable pub without_newline : Text → Text
without_newline [] = []
without_newline (c ∷ []) = if c == 10 then [] else c ∷ []
without_newline (c ∷ d ∷ s) = c ∷ without_newline (d ∷ s)
