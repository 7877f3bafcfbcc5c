-- ===== src/Rpc.antt =====
-- The common parts of the handlers in animate-platform/rpc_handlers.c: the state that they change,
-- the early return with a response, and the reading of arguments. A handler runs alone: its critical
-- sections are not interleaved with those of another.
pub mod After
pub mod Canvas
pub mod Nodes
pub mod Room
pub mod Sharing
pub mod Release
pub mod Leaving
pub mod Access
pub mod Handles
pub mod Sprite
pub mod Placement
pub mod Placing
use pointerpro_animate.Base.{
  ℕ, zero, suc, ◌%◌, ◌^◌, Bool, true, false, ◌||◌, ◌&&◌, not, Option, none, some, List, [], ◌∷◌,
  ◌++◌, ◌==◌, if◌then◌else◌, take,
}
use pointerpro_animate.Base.Int.{ℤ, pos, negsuc}
use pointerpro_animate.Text.{Text, codes, strtok, strtol, strtoull, print_ulong}
use pointerpro_animate.Registry.{Registry}

-- What the server does to the host's files and to the shell.
pub data Output : Type 0 where
  opened : (path : Text) → Output
  wrote : (bytes : Text) → Output
  ran : (command : Text) → Output

-- The library's state, the global lists, and the outputs so far, the oldest first.
pub record Server (L : Type 0) : Type 0 where
  pub library : L
  pub registry : Registry
  pub outputs : List Output

-- `answer` is a return from the handler with its response and its status; `crash` is undefined
-- behaviour.
pub data Result (S A : Type 0) : Type 0 where
  ok : A → S → Result S A
  answer : Text → ℕ → S → Result S A
  crash : Result S A

abbrev pub Handler : Type 0 → Type 0 → Type 0
Handler S A = S → Result S A

infixl 5 ◌>>=◌ ◌>>◌
unfoldable pub ◌>>=◌ : {S A B : Type 0} → Handler S A → (A → Handler S B) → Handler S B
◌>>=◌ m f s = elim (m s) [ ok a s' ↦ f a s' | answer t k s' ↦ answer t k s' | crash ↦ crash ]

abbrev pub ◌>>◌ : {S B : Type 0} → Handler S (Unit {0}) → Handler S B → Handler S B
m >> k = m >>= λ _. k

-- A response line.
abbrev pub line : Text → Text
line t = t ++ 10 ∷ []

abbrev pub rpc_failed : Text
rpc_failed = line (codes "-1")

abbrev pub value_error : Text
value_error = line (codes "-2")

abbrev pub internal_error : Text
internal_error = line (codes "-3")

abbrev pub success : Text
success = line (codes "0")

-- "0 %lu\n"
abbrev pub success_handle : ℕ → Text
success_handle handle = line (codes "0 " ++ print_ulong handle)

module _ {S A : Type 0} where
  -- strcpy(response_out, t); return 0;
  unfoldable pub respond : Text → Handler S A
  respond t s = answer t 0 s

  -- A value, or the response where there is none.
  unfoldable pub or_respond : Option A → Text → Handler S A
  or_respond none t s = answer t 0 s
  or_respond (some a) t s = ok a s

unfoldable pub ensure : {S : Type 0} → Bool → Text → Handler S (Unit {0})
ensure true t s = ok tt s
ensure false t s = answer t 0 s

-- A call of the library.
unfoldable pub call : {L A : Type 0} → (L → Option (A × L)) → Handler (Server L) A
call f s = elim (f s.library) [ none ↦ crash | some (a, l) ↦ ok a (record s { library = l }) ]

-- A call of the library that only reads.
unfoldable pub read : {L A : Type 0} → (L → Option A) → Handler (Server L) A
read f s = elim (f s.library) [ none ↦ crash | some a ↦ ok a s ]

unfoldable pub output : {L : Type 0} → Output → Handler (Server L) (Unit {0})
output o s = ok tt (record s { outputs = s.outputs ++ o ∷ [] })

unfoldable pub get_registry : {L : Type 0} → Handler (Server L) Registry
get_registry s = ok s.registry s

unfoldable pub put_registry : {L : Type 0} → Registry → Handler (Server L) (Unit {0})
put_registry r s = ok tt (record s { registry = r })

-- strtok_r(NULL, " ", &saveptr), and the return that the handlers make after their calls of strtok_r
-- if one of them gave NULL: between those calls and that test nothing is changed.
unfoldable pub next_argument : {S : Type 0} → Text → Handler S (Text × Text)
next_argument saveptr s =
    let (token, rest) = strtok saveptr in
    elim token [ none ↦ answer rpc_failed 0 s | some t ↦ ok (t, rest) s ]

-- The commands above: a proof that runs a handler names this.
unfoldable pub commands : Unit {0}
unfolding ◌>>=◌ respond or_respond ensure call read output get_registry put_registry next_argument
commands = tt

abbrev pub whole {ℓ} : {A : Type ℓ} → A × Text → Option A
whole (a, []) = some a
whole (a, c ∷ rest) = none

-- strtol and strtoull with the test `*endptr != '\0'`.
unfoldable pub long_argument : Text → Option ℤ
long_argument t = whole (strtol t)

unfoldable pub ullong_argument : Text → Option ℕ
ullong_argument t = whole (strtoull t)

abbrev pub positive_value : ℤ → Option ℕ
positive_value (pos zero) = none
positive_value (pos (suc n)) = some (suc n)
positive_value (negsuc n) = none

abbrev pub nonnegative_value : ℤ → Option ℕ
nonnegative_value (pos n) = some n
nonnegative_value (negsuc n) = none

abbrev pub flag_value : ℤ → Option Bool
flag_value (pos n) = if n == 0 then some false else if n == 1 then some true else none
flag_value (negsuc n) = none

abbrev pub nonzero_value : ℕ → Option ℕ
nonzero_value zero = none
nonzero_value (suc n) = some (suc n)

-- A long that must be positive, one that must not be negative, one that must be 0 or 1, and an
-- unsigned long long that must not be 0.
unfoldable pub positive : Text → Option ℕ
unfolding long_argument
positive t = elim (long_argument t) [ none ↦ none | some v ↦ positive_value v ]

unfoldable pub nonnegative : Text → Option ℕ
unfolding long_argument
nonnegative t = elim (long_argument t) [ none ↦ none | some v ↦ nonnegative_value v ]

unfoldable pub flag : Text → Option Bool
unfolding long_argument
flag t = elim (long_argument t) [ none ↦ none | some v ↦ flag_value v ]

unfoldable pub handle_argument : Text → Option ℕ
unfolding ullong_argument
handle_argument t = elim (ullong_argument t) [ none ↦ none | some v ↦ nonzero_value v ]

-- strncpy into a buffer of MAX_USERNAME_LEN + 1 bytes, and the closing NUL.
abbrev pub copy_username : Text → Text
copy_username = take 32

-- (color_t)
abbrev pub to_color : ℕ → ℕ
to_color n = n % 2 ^ 32
