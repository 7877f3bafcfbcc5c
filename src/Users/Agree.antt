-- ===== src/Users/Agree.antt =====
-- handle_login and valid_authorised_username read the same users.
use pointerpro_animate.Base.{
  ℕ, zero, suc, ◌≤◌, ◌≡◌, ◌≢◌, refl, ap, sym, ◌∙◌, ◌⊎◌, inl, inr, Bool, true, false, Option, none,
  some, [], ◌∷◌, arith, leb, ◌==◌, length, Bool-cases, take-all,
}
use pointerpro_animate.Base.Int.{ℤ, pos, negsuc}
use pointerpro_animate.Text.{Text, same, strtok, is_space, skip_white, print_ulong}
use pointerpro_animate.Session.{Session}
use pointerpro_animate.Rpc.{answer, commands, line, copy_username}
use pointerpro_animate.Users.{
  with_balance, login_round, user_round, fgets, word, scan_user, is_positive, find_user, find_login,
  valid_authorised_username, login_answer, handle_login,
}

length-skip_white : (s : Text) → length (skip_white s) ≤ length s
unfolding skip_white
length-skip_white [] = omega arith
length-skip_white (c ∷ s) = ground (arith, length-skip_white s)

-- A bound that is not met changes nothing.
word_bound : (m n : ℕ) (s : Text) → length s ≤ n → length (word n s).0 ≤ m → word m s ≡ word n s
unfolding word
word_bound zero zero s short fits = refl
word_bound zero (suc n) [] short fits = refl
word_bound zero (suc n) (c ∷ s) short fits = ground arith
word_bound (suc m) zero [] short fits = refl
word_bound (suc m) zero (c ∷ s) short fits = absurd (omega arith)
word_bound (suc m) (suc n) [] short fits = refl
word_bound (suc m) (suc n) (c ∷ s) short fits = elim (Bool-cases (is_space c)) [
  | inl e ↦ rw e refl
  | inr e ↦
      let same : word m s ≡ word n s = word_bound m n s (omega arith) (ground arith) in
      rw e (ap (λ (r : Text × Text). (c ∷ r.0, r.1)) same)
]

scan_bound :
    (text : Text)
    → leb 64 (length (word (length text) (skip_white text)).0) ≡ false
    → scan_user (length text) text ≡ scan_user 63 text
unfolding scan_user
scan_bound text fits =
    ap with_balance
      (sym (word_bound 63 (length text) (skip_white text) (length-skip_white text) (ground arith)))

round_agrees :
    (username text : Text) (later : Option (Option ℤ)) (later' : Option ℤ)
    → ((later ≡ none) ⊎ (later ≡ some later'))
    → (login_round username text later ≡ none)
      ⊎ (login_round username text later ≡ some (user_round username text later'))
unfolding login_round user_round
round_agrees username text later later' so_far =
    elim (Bool-cases (leb 64 (length (word (length text) (skip_white text)).0))) [
      | inl long ↦ elim (Bool-cases (length text == 0)) [
        | inl e ↦ inr (rw e refl)
        | inr e ↦ inl (rw (e, long) refl)
      ]
      | inr fits ↦ rw (fits, scan_bound text fits) (ground (arith, so_far))
    ]

-- As long as no word is too long for its buffer, both loops find the same.
pub find_login-find_user :
    (fuel : ℕ) (username file : Text)
    → (find_login fuel username file ≡ none)
      ⊎ (find_login fuel username file ≡ some (find_user fuel username file))
unfolding find_login find_user
find_login-find_user zero username file = inr refl
find_login-find_user (suc fuel) username file =
    round_agrees username (fgets 255 file).0 _ _
      (find_login-find_user fuel username (fgets 255 file).1)

-- The session of a user who has given this name.
abbrev pub named : Text → Session → Session
named username s = record s { username = username }

abbrev pub Accepts : Option Text → Text → Text → Session → Type 0
Accepts file username saveptr s =
    (n : ℕ) × (handle_login file saveptr s
      ≡ answer (line (print_ulong (suc n))) 0 (named username s))
    × (valid_authorised_username file username ≡ true)

abbrev pub Rejects : Option Text → Text → Text → Session → Type 0
Rejects file username saveptr s =
    (t : Text) × (handle_login file saveptr s ≡ answer t 1 (named username s))
    × (valid_authorised_username file username ≡ false)

login_run :
    (content username saveptr rest : Text) (s : Session)
    → strtok saveptr ≡ (some username, rest)
    → length username ≤ 32
    → handle_login (some content) saveptr s
      ≡ login_answer (find_login (length content) username content) (named username s)
unfolding handle_login commands
login_run content username saveptr rest s e short =
    let whole : copy_username username ≡ username = take-all 32 username short in
    ground (arith, e, whole)

abbrev accepted : Option ℤ → Bool
accepted none = false
accepted (some balance) = is_positive balance

valid_run :
    (content username : Text) (found : Option ℤ)
    → find_user (length content) username content ≡ found
    → valid_authorised_username (some content) username ≡ accepted found
unfolding valid_authorised_username
valid_run content username found f =
    valid_now (find_user (length content) username content) ∙ ap accepted f
  where
    valid_now :
        (o : Option ℤ) → elim o [ none ↦ false | some balance ↦ is_positive balance ] ≡ accepted o
    valid_now none = refl
    valid_now (some balance) = refl

answer_agrees :
    (content username saveptr : Text) (s : Session) (found : Option ℤ)
    → find_user (length content) username content ≡ found
    → handle_login (some content) saveptr s ≡ login_answer (some found) (named username s)
    → Accepts (some content) username saveptr s ⊎ Rejects (some content) username saveptr s
unfolding login_answer
answer_agrees content username saveptr s none f run =
    inr (_, run, valid_run content username none f)
answer_agrees content username saveptr s (some (pos zero)) f run =
    inr (_, run, valid_run content username (some (pos zero)) f)
answer_agrees content username saveptr s (some (pos (suc n))) f run =
    inl (n, run, valid_run content username (some (pos (suc n))) f ∙ ground arith)
answer_agrees content username saveptr s (some (negsuc n)) f run =
    inr (_, run, valid_run content username (some (negsuc n)) f)

-- When users.txt can be read, and its first words fit the buffer of handle_login as far as it reads,
-- a user with a name of at most 32 characters is let in, with the answer of a positive balance, if the
-- name is one that valid_authorised_username accepts; else the answer has status 1, a rejection. In
-- both cases the session takes the name, and nothing else of it changes.
pub handle_login-valid_authorised_username :
    (content username saveptr rest : Text) (s : Session)
    → strtok saveptr ≡ (some username, rest)
    → length username ≤ 32
    → find_login (length content) username content ≢ none
    → Accepts (some content) username saveptr s ⊎ Rejects (some content) username saveptr s
handle_login-valid_authorised_username content username saveptr rest s e short fits =
    elim (find_login-find_user (length content) username content) [
      | inl overflow ↦ absurd (fits overflow)
      | inr same ↦
          answer_agrees content username saveptr s (find_user (length content) username content)
            refl
            (login_run content username saveptr rest s e short
              ∙ ap (λ r. login_answer r (named username s)) same)
    ]
