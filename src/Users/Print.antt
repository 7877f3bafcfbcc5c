-- ===== src/Users/Print.antt =====
-- A file of users that is written line by line, "name balance".
use pointerpro_animate.Base.{
  ℕ, zero, suc, ◌≤◌, ◌<◌, ◌≡◌, refl, ap, sym, ◌∙◌, Bool, true, false, Option, none, some, List, [],
  ◌∷◌, ◌++◌, arith, ltb, if◌then◌else◌, length, length-append,
}
use mathlib.Core.List.{append_assoc}
use pointerpro_animate.Base.Int.{ℤ, pos}
use pointerpro_animate.Text.{Text, same, print_ulong}
use pointerpro_animate.Users.{fgets, user_round, find_user, is_positive, valid_authorised_username}
use pointerpro_animate.Users.Scan.{
  AreUsers, IsUser, User, balance_of, fgets-newline, length-decimal, no_newline, no_newline-append,
  no_newline_of, no_white-decimal, print_user, print_users, scan_user-print_user,
}

body : User → Text
body u = u.name ++ 32 ∷ print_ulong u.balance

print_user-body : (u : User) (file : Text) → print_user u ++ file ≡ body u ++ 10 ∷ file
unfolding body
print_user-body u file =
    let p : Text = print_ulong u.balance in
    append_assoc u.name (32 ∷ (p ++ 10 ∷ [])) file
    ∙ ap (λ t. u.name ++ (32 ∷ t)) (append_assoc p (10 ∷ []) file)
    ∙ sym (append_assoc u.name (32 ∷ p) (10 ∷ file))

body-no_newline : (u : User) → IsUser u → no_newline (body u) ≡ true
unfolding body print_ulong
body-no_newline u v =
    no_newline-append u.name (32 ∷ print_ulong u.balance) (no_newline_of u.name v.one_word)
      (no_newline_of (print_ulong u.balance) (no_white-decimal 19 u.balance [] refl))

length-body : (u : User) → IsUser u → length (body u) < 255
unfolding body print_ulong
length-body u v = omega (
  arith,
  length-append {0} u.name (32 ∷ print_ulong u.balance),
  length-decimal 19 u.balance [],
  v.short,
)

fgets-print_user :
    (u : User) (file : Text) → IsUser u → fgets 255 (print_user u ++ file) ≡ (print_user u, file)
unfolding body
fgets-print_user u file v =
    ap (fgets 255) (print_user-body u file)
    ∙ fgets-newline (body u) file 255 (body-no_newline u v) (length-body u v)
    ∙ ap (λ t. (t, file)) (append_assoc u.name (32 ∷ print_ulong u.balance) (10 ∷ []))

user_round_lem :
    (username : Text) (u : User) (later : Option ℤ)
    → IsUser u
    → user_round username (print_user u) later
      ≡ (if same u.name username then some (pos u.balance) else later)
unfolding user_round
user_round_lem username u later v = ground (
  arith,
  scan_user-print_user u v,
  v.not_empty,
  length-append {0} u.name (32 ∷ (print_ulong u.balance ++ 10 ∷ [])),
)

abbrev as_int : Option ℕ → Option ℤ
as_int none = none
as_int (some n) = some (pos n)

find_user-print_users :
    (fuel : ℕ) (username : Text) (us : List User)
    → AreUsers us
    → length us ≤ fuel
    → find_user fuel username (print_users us) ≡ as_int (balance_of username us)
unfolding find_user print_users
find_user-print_users zero username [] v enough = refl
find_user-print_users zero username (u ∷ us) v enough = absurd (omega arith)
find_user-print_users (suc fuel) username [] v enough = unfold fgets user_round in refl
find_user-print_users (suc fuel) username (u ∷ us) (vu, v) enough =
    let read = fgets-print_user u (print_users us) vu in
    ap (λ (r : Text × Text). user_round username r.0 (find_user fuel username r.1)) read
    ∙ user_round_lem username u _ vu
    ∙ ground (arith, find_user-print_users fuel username us v)

length-print_users : (us : List User) → length us ≤ length (print_users us)
unfolding print_users
length-print_users [] = omega arith
length-print_users (u ∷ us) = omega (
  arith,
  length-append {0} (print_user u) (print_users us),
  length-append {0} u.name (32 ∷ (print_ulong u.balance ++ 10 ∷ [])),
  length-print_users us,
)

-- A user may share when the first entry of that name has a balance above 0.
abbrev pub has_balance : Option ℕ → Bool
has_balance none = false
has_balance (some n) = ltb 0 n

has_balance_lem :
    (o : Option ℕ)
    → elim (as_int o) [ none ↦ false | some balance ↦ is_positive balance ] ≡ has_balance o
has_balance_lem none = refl
has_balance_lem (some n) = refl

-- When users.txt is written line by line, each a name of 1 to 63 bytes without white space, a space, and
-- a balance below 2^31 in decimal, valid_authorised_username accepts exactly the users whose first entry
-- has a balance above 0.
pub valid_authorised_username-print_users :
    (us : List User) (username : Text)
    → AreUsers us
    → valid_authorised_username (some (print_users us)) username
      ≡ has_balance (balance_of username us)
unfolding valid_authorised_username
valid_authorised_username-print_users us username v =
    ap (λ (o : Option ℤ). elim o [ none ↦ false | some balance ↦ is_positive balance ])
      (find_user-print_users (length (print_users us)) username us v (length-print_users us))
    ∙ has_balance_lem (balance_of username us)
