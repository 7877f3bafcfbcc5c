-- ===== src/Users.antt =====
-- The file users.txt: valid_authorised_username of animate-platform/session.c and handle_login of
-- animate-platform/rpc_handlers.c, with the calls of the C library that they read it by (fgets and
-- sscanf). The file is its bytes, none of them NUL, or nothing if it cannot be opened.
pub mod Agree
pub mod Scan
pub mod Print
use pointerpro_animate.Base.{
  ℕ, zero, suc, ◌+◌, ◌-◌, ◌%◌, ◌^◌, Bool, true, false, Option, none, some, List, [], ◌∷◌, ◌++◌, ltb,
  leb, ◌==◌, if◌then◌else◌, length,
}
use pointerpro_animate.Base.Int.{ℤ, pos, negsuc}
use pointerpro_animate.Text.{
  Text, codes, same, strtok, is_space, skip_white, strtol, starts_digit, sign, print_ulong,
}
use pointerpro_animate.Session.{Session}
use pointerpro_animate.Rpc.{
  Result, answer, crash, Handler, ◌>>=◌, ◌>>◌, ok, line, value_error, internal_error, or_respond,
  ensure, copy_username,
}

-- fgets into a buffer with room for `room` bytes: a line with its newline, or what fits of it, and
-- the rest of the file.
unfoldable pub fgets : ℕ → Text → Text × Text
fgets zero file = ([], file)
fgets (suc room) [] = ([], [])
fgets (suc room) (c ∷ file) =
    let rest = fgets room file in if c == 10 then (10 ∷ [], file) else (c ∷ rest.0, rest.1)

-- "%63s" with `most` for 63: after white space, the bytes up to the next white space.
unfoldable pub word : ℕ → Text → Text × Text
unfolding is_space
word zero s = ([], s)
word (suc most) [] = ([], [])
word (suc most) (c ∷ s) =
    let rest = word most s in if is_space c then ([], c ∷ s) else (c ∷ rest.0, rest.1)

-- The low 32 bits of a long, as an int.
abbrev pub signed32 : ℕ → ℤ
signed32 m = if ltb m (2 ^ 31) then pos m else negsuc (2 ^ 32 - m - 1)

abbrev pub to_int : ℤ → ℤ
to_int (pos n) = signed32 (n % 2 ^ 32)
to_int (negsuc n) = signed32 (2 ^ 32 - 1 - n % 2 ^ 32)

-- "%d": strtol, and the conversion to int, as glibc has it.
unfoldable pub scan_int : Text → Option ℤ
unfolding skip_white sign starts_digit strtol
scan_int s = if starts_digit (sign (skip_white s)).1 then some (to_int (strtol s).0) else none

unfoldable pub with_balance : Text × Text → Option (Text × ℤ)
with_balance (user, rest) =
    if length user == 0
    then none
    else elim (scan_int rest) [ none ↦ none | some balance ↦ some (user, balance) ]

-- sscanf(line, "%s %d", current_user, &balance) == 2
unfoldable pub scan_user : ℕ → Text → Option (Text × ℤ)
scan_user most s = with_balance (word most (skip_white s))

abbrev pub is_positive : ℤ → Bool
is_positive (pos n) = ltb 0 n
is_positive (negsuc n) = false

-- A round of the loop of valid_authorised_username with this line, and what the later rounds find.
unfoldable pub user_round : (username text : Text) → Option ℤ → Option ℤ
user_round username text later = if length text == 0 then none else elim (scan_user 63 text) [
  | none ↦ later
  | some (user, balance) ↦ if same user username then some balance else later
]

-- The loop: the balance in the first line with this user. A round reads at least one byte, so the
-- length of the file is fuel enough.
unfoldable pub find_user : ℕ → Text → Text → Option ℤ
find_user zero username file = none
find_user (suc fuel) username file =
    user_round username (fgets 255 file).0 (find_user fuel username (fgets 255 file).1)

unfoldable pub valid_authorised_username : Option Text → Text → Bool
valid_authorised_username none username = false
valid_authorised_username (some file) username = elim (find_user (length file) username file) [
  | none ↦ false
  | some balance ↦ is_positive balance
]

-- The same in handle_login, whose "%s" has no bound: `none` is a write behind the 64 bytes of
-- current_user.
unfoldable pub login_round : (username text : Text) → Option (Option ℤ) → Option (Option ℤ)
login_round username text later =
    if length text == 0
    then some none
    else if leb 64 (length (word (length text) (skip_white text)).0)
    then none
    else elim (scan_user (length text) text) [
      | none ↦ later
      | some (user, balance) ↦ if same user username then some (some balance) else later
    ]

unfoldable pub find_login : ℕ → Text → Text → Option (Option ℤ)
find_login zero username file = some none
find_login (suc fuel) username file =
    login_round username (fgets 255 file).0 (find_login fuel username (fgets 255 file).1)

abbrev pub rejected_balance : Text
rejected_balance = line (codes "Reject BALANCE")

abbrev pub rejected_unauthorised : Text
rejected_unauthorised = line (codes "Reject UNAUTHORISED")

-- The answer to what the loop has found.
unfoldable pub login_answer : Option (Option ℤ) → Handler Session (Unit {0})
login_answer none s = crash
login_answer (some none) s = answer rejected_unauthorised 1 s
login_answer (some (some (pos zero))) s = answer rejected_balance 1 s
login_answer (some (some (pos (suc n)))) s = answer (line (print_ulong (suc n))) 0 s
login_answer (some (some (negsuc n))) s = answer rejected_balance 1 s

unfoldable pub handle_login : Option Text → Text → Handler Session (Unit {0})
unfolding login_answer
handle_login file saveptr = do
  username ← or_respond (strtok saveptr).0 value_error
  ensure (leb (length username) 32) value_error
  (λ s. ok tt (record s { username = copy_username username }))
  elim file [
    | none ↦ λ s. answer internal_error 1 s
    | some content ↦ login_answer (find_login (length content) username content)
  ]
