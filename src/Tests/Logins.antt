-- ===== src/Tests/Logins.antt =====
-- A file of two users, of whom one has no balance.
use pointerpro_animate.Base.{◌≡◌, ◌≢◌, ◌⊎◌, refl, none, some, List, [], ◌∷◌, ◌++◌, arith}
use pointerpro_animate.Text.{Text, codes, strtok}
use pointerpro_animate.Users.{
  find_login, fgets, word, scan_user, with_balance, scan_int, login_round,
  valid_authorised_username,
}
use pointerpro_animate.Users.Agree.{Accepts, Rejects, handle_login-valid_authorised_username}
use pointerpro_animate.Users.Print.{has_balance, valid_authorised_username-print_users}
use pointerpro_animate.Users.Scan.{User, IsUser, print_users, balance_of}
use pointerpro_animate.Tests.Sessions.{fresh_session}

abbrev content : Text
content = codes "alice 10" ++ (10 ∷ (codes "bob 0" ++ 10 ∷ []))

alice_token : strtok (codes "alice") ≡ (some (codes "alice"), [])
unfolding strtok
alice_token = refl

alice_found : find_login 15 (codes "alice") content ≢ none
unfolding find_login login_round scan_user with_balance scan_int fgets word
    pointerpro_animate.Text.strtol pointerpro_animate.Text.same
alice_found = λ e. cc

handle_login-valid_authorised_username_example :
    Accepts (some content) (codes "alice") (codes "alice") fresh_session
    ⊎ Rejects (some content) (codes "alice") (codes "alice") fresh_session
handle_login-valid_authorised_username_example =
    handle_login-valid_authorised_username content (codes "alice") (codes "alice") [] fresh_session
      alice_token (omega arith) alice_found

abbrev users : List User
users =
    record { name = codes "alice"; balance = 10 } ∷ record { name = codes "bob"; balance = 0 } ∷ []

alice-IsUser : IsUser (record { name = codes "alice"; balance = 10 })
unfolding pointerpro_animate.Text.is_space
alice-IsUser = record {
  not_empty = omega arith;
  short = omega arith;
  one_word = refl;
  small = omega arith;
}

bob-IsUser : IsUser (record { name = codes "bob"; balance = 0 })
unfolding pointerpro_animate.Text.is_space
bob-IsUser = record {
  not_empty = omega arith;
  short = omega arith;
  one_word = refl;
  small = omega arith;
}

valid_authorised_username-print_users_example :
    valid_authorised_username (some (print_users users)) (codes "bob")
    ≡ has_balance (balance_of (codes "bob") users)
valid_authorised_username-print_users_example =
    valid_authorised_username-print_users users (codes "bob") (alice-IsUser, (bob-IsUser, tt))
