-- ===== src/Client/Lines.antt =====
-- The client's loop on lines that are printed one after the other.
use pointerpro_animate.Base.{
  ℕ, suc, ◌≤◌, ◌≡◌, refl, ap, ◌∙◌, true, false, Option, none, some, List, [], ◌∷◌, ◌++◌, arith,
  ◌==◌, if◌then◌else◌, leb, length, take-all, length-append,
}
use pointerpro_animate.Text.{Text, codes, without_newline}
use pointerpro_animate.Users.{fgets}
use pointerpro_animate.Users.Scan.{no_newline, fgets-newline}
use pointerpro_animate.Client.{
  Client, Outcome, again, over, starts_with, send, print, shown, take_response, client_round,
  client_loop,
}

-- A line that asks for no login and no disconnection, and that fgets reads at once.
pub record IsCommand (l : Text) : Type 0 where
  pub one_line : no_newline l ≡ true
  pub short : length l ≤ 98
  pub no_login : starts_with (codes "Login") l ≡ false
  pub no_disconnect : starts_with (codes "Disconnect") l ≡ false

abbrev pub AreCommands : List Text → Type 0
AreCommands [] = Unit
AreCommands (l ∷ ls) = IsCommand l × AreCommands ls

-- What one read gives of a response.
abbrev pub AreResponses : List Text → Type 0
AreResponses [] = Unit
AreResponses (r ∷ rs) = (1 ≤ length r) × (length r ≤ 127) × AreResponses rs

abbrev pub print_lines : List Text → Text
print_lines [] = []
print_lines (l ∷ ls) = l ++ (10 ∷ print_lines ls)

abbrev pub nonempty : List Text → List Text
nonempty [] = []
nonempty (l ∷ ls) = if length l == 0 then nonempty ls else l ∷ nonempty ls

abbrev pub show_all : List Text → Text
show_all [] = []
show_all (r ∷ rs) = shown (without_newline r) ++ show_all rs

-- The client when these lines have been sent, and these responses been shown.
abbrev pub exchanged : (lines responses : List Text) → Client → Client
exchanged lines responses c = record c {
  sent = c.sent ++ print_lines lines;
  printed = c.printed ++ show_all responses;
}

pub without_newline-append : (l : Text) → without_newline (l ++ 10 ∷ []) ≡ l
unfolding without_newline
without_newline-append [] = refl
without_newline-append (c ∷ []) = refl
without_newline-append (c ∷ d ∷ l) = ap (λ (t : Text). c ∷ t) (without_newline-append (d ∷ l))

length-line : (l : Text) → (length (l ++ 10 ∷ []) == 0) ≡ false
length-line [] = refl
length-line (c ∷ l) = ground arith

abbrev pub goes_on : ℕ → Text → Option Outcome → Option Client
goes_on fuel stdin none = none
goes_on fuel stdin (some (over c)) = some c
goes_on fuel stdin (some (again reads c)) = client_loop fuel stdin reads c

abbrev reads_on : ℕ → Text × Text → List Text → Client → Option Client
reads_on fuel (input, stdin) reads c =
    if length input == 0
    then some c
    else goes_on fuel stdin (client_round (without_newline input) reads c)

loop_step :
    (fuel : ℕ) (stdin : Text) (reads : List Text) (c : Client)
    → client_loop (suc fuel) stdin reads c ≡ reads_on fuel (fgets 99 stdin) reads c
unfolding client_loop
loop_step fuel stdin reads c = refl

reads_line :
    (fuel : ℕ) (l stdin : Text) (reads : List Text) (c : Client)
    → reads_on fuel (l ++ 10 ∷ [], stdin) reads c ≡ goes_on fuel stdin (client_round l reads c)
reads_line fuel l stdin reads c =
    ap
      (λ b.
        if b
        then some c
        else goes_on fuel stdin (client_round (without_newline (l ++ 10 ∷ [])) reads c))
      (length-line l)
    ∙ ap (λ t. goes_on fuel stdin (client_round t reads c)) (without_newline-append l)

pub loop_line :
    (fuel : ℕ) (l stdin : Text) (reads : List Text) (c : Client)
    → no_newline l ≡ true
    → length l ≤ 98
    → client_loop (suc fuel) (l ++ 10 ∷ stdin) reads c ≡ goes_on fuel stdin (client_round l reads c)
loop_line fuel l stdin reads c one_line short =
    loop_step fuel (l ++ 10 ∷ stdin) reads c
    ∙ ap (λ p. reads_on fuel p reads c) (fgets-newline l stdin 99 one_line (omega arith))
    ∙ reads_line fuel l stdin reads c

pub send_short :
    (l : Text) (c : Client)
    → length l ≤ 98
    → send l c ≡ record c { sent = c.sent ++ (l ++ 10 ∷ []) }
send_short l c short =
    ap (λ (t : Text). record c { sent = c.sent ++ t })
      (take-all 127 (l ++ 10 ∷ []) (omega (arith, length-append {0} l (10 ∷ []))))

take_command :
    (l response : Text) (reads : List Text) (c : Client)
    → starts_with (codes "Login") l ≡ false
    → 1 ≤ length response
    → length response ≤ 127
    → take_response l (response ∷ reads) c
      ≡ some (again reads (print (shown (without_newline response)) c))
unfolding take_response
take_command l response reads c no_login found fits =
    let some_byte : (length response == 0) ≡ false = ground arith in
    let room : leb 128 (length response) ≡ false = ground arith in
    rw (some_byte, room, no_login) refl

logged_in_round :
    (l : Text) (reads : List Text) (c : Client)
    → 1 ≤ length l
    → c.logged_in ≡ true
    → starts_with (codes "Disconnect") l ≡ false
    → client_round l reads c ≡ take_response l reads (send l c)
unfolding client_round
logged_in_round l reads c some_byte logged_in no_disconnect =
    let not_empty : (length l == 0) ≡ false = ground arith in cc

-- A command that is not empty is sent, and its response shown.
pub command_round :
    (l response : Text) (reads : List Text) (c : Client)
    → IsCommand l
    → 1 ≤ length l
    → 1 ≤ length response
    → length response ≤ 127
    → c.logged_in ≡ true
    → client_round l (response ∷ reads) c
      ≡ some (again reads (print (shown (without_newline response)) (send l c)))
command_round l response reads c v some_byte found fits logged_in =
    logged_in_round l (response ∷ reads) c some_byte logged_in v.no_disconnect
    ∙ take_command l response reads (send l c) v.no_login found fits

pub empty_round :
    (l : Text) (reads : List Text) (c : Client)
    → length l ≡ 0
    → client_round l reads c ≡ some (again reads c)
unfolding client_round
empty_round l reads c empty = rw empty refl
