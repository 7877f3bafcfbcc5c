-- ===== src/Users/Scan.antt =====
-- Lines of users.txt as they are printed, and what fgets and sscanf read of them.
use pointerpro_animate.Base.{
  ℕ, zero, suc, ◌+◌, ◌/◌, ◌%◌, ◌^◌, ◌≤◌, ◌<◌, ◌≡◌, refl, ap, sym, ◌∙◌, Bool, true, false, Option,
  none, some, List, [], ◌∷◌, ◌++◌, arith, ◌==◌, if◌then◌else◌, length, length-append,
}
use pointerpro_animate.Base.Int.{ℤ, pos}
use pointerpro_animate.Text.{
  Text, same, is_space, is_digit, skip_white, digits, strtol, to_long, decimal, print_ulong,
  without_newline,
}
use pointerpro_animate.Text.RoundTrip.{
  digits-decimal, starts_digit-decimal, skip_white_digit, sign_digit,
}
use pointerpro_animate.Users.{to_int, fgets, word, scan_int, with_balance, scan_user}

-- An entry of users.txt.
pub record User : Type 0 where
  pub name : Text
  pub balance : ℕ

abbrev pub no_white : Text → Bool
no_white [] = true
no_white (c ∷ s) = if is_space c then false else no_white s

-- A name that "%63s" reads as one word, and a balance that is an int.
pub record IsUser (u : User) : Type 0 where
  pub not_empty : 1 ≤ length u.name
  pub short : length u.name ≤ 63
  pub one_word : no_white u.name ≡ true
  pub small : u.balance < 2 ^ 31

-- A line of the file, and the file.
abbrev pub print_user : User → Text
print_user u = u.name ++ (32 ∷ (print_ulong u.balance ++ 10 ∷ []))

unfoldable pub print_users : List User → Text
print_users [] = []
print_users (u ∷ us) = print_user u ++ print_users us

abbrev pub AreUsers : List User → Type 0
AreUsers [] = Unit
AreUsers (u ∷ us) = IsUser u × AreUsers us

-- The balance of the first user of this name.
abbrev pub balance_of : Text → List User → Option ℕ
balance_of username [] = none
balance_of username (u ∷ us) =
    if same u.name username then some u.balance else balance_of username us

decimal-append :
    (fuel n : ℕ) (s tail : Text) → decimal fuel n (s ++ tail) ≡ decimal fuel n s ++ tail
unfolding decimal
decimal-append zero n s tail = refl
decimal-append (suc fuel) n s tail =
    ground (arith, decimal-append fuel (n / 10) ((48 + n % 10) ∷ s) tail)

print_ulong-append : (n : ℕ) (tail : Text) → print_ulong n ++ tail ≡ decimal 19 n tail
unfolding print_ulong
print_ulong-append n tail = sym (decimal-append 19 n [] tail)

pub length-decimal : (fuel n : ℕ) (s : Text) → length (decimal fuel n s) ≤ fuel + 1 + length s
unfolding decimal
length-decimal zero n s = omega arith
length-decimal (suc fuel) n s = ground (arith, length-decimal fuel (n / 10) ((48 + n % 10) ∷ s))

pub no_white-decimal :
    (fuel n : ℕ) (s : Text) → no_white s ≡ true → no_white (decimal fuel n s) ≡ true
unfolding decimal is_space
no_white-decimal zero n s h = ground arith
no_white-decimal (suc fuel) n s h =
    let next : no_white ((48 + n % 10) ∷ s) ≡ true = ground arith in
    ground (arith, no_white-decimal fuel (n / 10) ((48 + n % 10) ∷ s) next)

skip_space : (s : Text) → skip_white (32 ∷ s) ≡ skip_white s
unfolding skip_white is_space
skip_space s = refl

in_range :
    (n : ℕ) → n < 2 ^ 31 → ◌≡◌ {A = Option ℤ} (some (to_int (to_long false n))) (some (pos n))
unfolding to_long
in_range n small = ground arith

scan_int-print_ulong :
    (n : ℕ) → n < 2 ^ 31 → scan_int (32 ∷ (print_ulong n ++ 10 ∷ [])) ≡ some (pos n)
unfolding scan_int strtol
scan_int-print_ulong n small =
    let s : Text = decimal 19 n (10 ∷ []) in
    let d = starts_digit-decimal 19 n (10 ∷ []) in
    let whole : digits 0 s ≡ (n, 10 ∷ []) =
      digits-decimal 19 n (10 ∷ []) (omega arith) ∙ unfold digits is_digit in refl in
    let skip : skip_white (32 ∷ s) ≡ s = skip_space s ∙ skip_white_digit s d in
    rw (print_ulong-append n (10 ∷ []), skip, sign_digit s d, d, whole) (in_range n small)

-- A line is read as it was written.
abbrev pub no_newline : Text → Bool
no_newline [] = true
no_newline (c ∷ s) = if c == 10 then false else no_newline s

pub no_newline_of : (s : Text) → no_white s ≡ true → no_newline s ≡ true
unfolding is_space
no_newline_of [] h = refl
no_newline_of (c ∷ s) h = ground (arith, no_newline_of s)

pub no_newline-append :
    (a b : Text) → no_newline a ≡ true → no_newline b ≡ true → no_newline (a ++ b) ≡ true
no_newline-append [] b h k = k
no_newline-append (c ∷ a) b h k = ground (arith, no_newline-append a b)

pub fgets-newline :
    (a file : Text) (room : ℕ)
    → no_newline a ≡ true
    → length a < room
    → fgets room (a ++ 10 ∷ file) ≡ (a ++ 10 ∷ [], file)
unfolding fgets
fgets-newline [] file zero h fits = absurd (omega arith)
fgets-newline [] file (suc room) h fits = refl
fgets-newline (c ∷ a) file zero h fits = absurd (omega arith)
fgets-newline (c ∷ a) file (suc room) h fits = ground (arith, fgets-newline a file room)

word-append :
    (name s : Text) (most : ℕ)
    → no_white name ≡ true
    → length name ≤ most
    → word most (name ++ 32 ∷ s) ≡ (name, 32 ∷ s)
unfolding word is_space
word-append [] s zero h fits = refl
word-append [] s (suc most) h fits = refl
word-append (c ∷ name) s zero h fits = absurd (omega arith)
word-append (c ∷ name) s (suc most) h fits = ground (arith, word-append name s most)

skip_white_word :
    (name s : Text) → no_white name ≡ true → 1 ≤ length name → skip_white (name ++ s) ≡ name ++ s
unfolding skip_white
skip_white_word [] s h some_byte = absurd (omega arith)
skip_white_word (c ∷ name) s h some_byte = ground arith

with_balance_lem :
    (name rest : Text) (balance : ℤ)
    → 1 ≤ length name
    → scan_int rest ≡ some balance
    → with_balance (name, rest) ≡ some (name, balance)
unfolding with_balance
with_balance_lem name rest balance some_byte e = ground arith

pub scan_user-print_user :
    (u : User) → IsUser u → scan_user 63 (print_user u) ≡ some (u.name, pos u.balance)
unfolding scan_user
scan_user-print_user u v =
    let rest : Text = print_ulong u.balance ++ 10 ∷ [] in
    ap (λ s. with_balance (word 63 s)) (skip_white_word u.name (32 ∷ rest) v.one_word v.not_empty)
    ∙ ap with_balance (word-append u.name rest 63 v.one_word v.short)
    ∙ with_balance_lem u.name (32 ∷ rest) (pos u.balance) v.not_empty
        (scan_int-print_ulong u.balance v.small)

-- What has no newline at its end stays as it is.
pub without_newline_all : (name : Text) → no_white name ≡ true → without_newline name ≡ name
unfolding without_newline is_space
without_newline_all [] h = refl
without_newline_all (c ∷ []) h = ground arith
without_newline_all (c ∷ (d ∷ name)) h = ground (arith, without_newline_all (d ∷ name))

without_newline-cons :
    (c : ℕ) (s : Text) → 1 ≤ length s → without_newline (c ∷ s) ≡ c ∷ without_newline s
unfolding without_newline
without_newline-cons c [] some_byte = absurd (omega arith)
without_newline-cons c (d ∷ s) some_byte = refl

pub without_newline-command :
    (a s : Text) → no_white s ≡ true → 1 ≤ length s → without_newline (a ++ s) ≡ a ++ s
without_newline-command [] s h some_byte = without_newline_all s h
without_newline-command (c ∷ a) s h some_byte =
    without_newline-cons c (a ++ s) (omega (arith, length-append {0} a s))
    ∙ ap (λ (t : Text). c ∷ t) (without_newline-command a s h some_byte)
