-- ===== src/Client.antt =====
-- The client, animate-platform/animate_client.c: its loop over the lines of its input. What read gives
-- for each response is an argument, a text without NUL as the input is. `none` is undefined behaviour.
pub mod Dialogue
pub mod Printed
pub mod Session
pub mod Login
pub mod Welcome
pub mod Lines
use pointerpro_animate.Base.{
  ℕ, zero, suc, ◌+◌, Bool, true, false, ◌||◌, ◌&&◌, not, Option, none, some, List, [], ◌∷◌, ◌++◌,
  ◌==◌, leb, if◌then◌else◌, length, drop, take,
}
use pointerpro_animate.Base.Int.{ℤ, pos, negsuc}
use pointerpro_animate.Text.{Text, codes, same, skip_white, strtol, print_ulong, without_newline}
use pointerpro_animate.Users.{fgets, word, to_int}

-- `sent` is what has been written to the server's FIFO, and `printed` to the output.
pub record Client : Type 0 where
  pub logged_in : Bool
  pub sent : Text
  pub printed : Text

-- At the start of the loop.
abbrev pub new_client : Client
new_client = record { logged_in = false; sent = []; printed = [] }

-- After a round the loop goes on, with the responses that are still to be read, or ends.
pub data Outcome : Type 0 where
  again : List Text → Client → Outcome
  over : Client → Outcome

-- strncmp(s, prefix, strlen(prefix)) == 0
unfoldable pub starts_with : (prefix s : Text) → Bool
starts_with [] s = true
starts_with (c ∷ prefix) [] = false
starts_with (c ∷ prefix) (d ∷ s) = c == d && starts_with prefix s

abbrev pub print : Text → Client → Client
print text c = record c { printed = c.printed ++ text }

-- snprintf(send_buffer, 128, "%s\n", input) and write
abbrev pub send : Text → Client → Client
send input c = record c { sent = c.sent ++ take 127 (input ++ 10 ∷ []) }

-- "%d"
unfoldable pub print_int : ℤ → Text
print_int (pos n) = print_ulong n
print_int (negsuc n) = b'-' ∷ print_ulong (n + 1)

-- response_buffer[strcspn(response_buffer, "\n")] = '\0'
unfoldable pub cut_line : Text → Text
cut_line [] = []
cut_line (c ∷ s) = if c == 10 then [] else c ∷ cut_line s

-- What is shown for the response to a command.
unfoldable pub shown : Text → Text
unfolding same starts_with
shown response =
    if same response (codes "-1")
    then codes "RPC Failed" ++ 10 ∷ []
    else if same response (codes "-2")
    then codes "Value error" ++ 10 ∷ []
    else if same response (codes "-3")
    then codes "Internal error" ++ 10 ∷ []
    else if same response (codes "0 -1")
    then codes "Data write failed"
    else if same response (codes "0 0 -1")
    then codes "Movie write failed"
    else if same response (codes "0 0 0")
    then codes "Success" ++ 10 ∷ []
    else if starts_with (codes "0 ") response
    then codes "Success " ++ (drop 2 response ++ 10 ∷ [])
    else if same response (codes "0")
    then codes "Success" ++ 10 ∷ []
    else response ++ 10 ∷ []

-- sscanf(input, "Login %s", username) into 64 bytes, of an input that starts with "Login"; without a
-- name the 64 bytes stay as they are, which is none of theirs to print.
unfoldable pub login_name : Text → Option Text
unfolding skip_white word
login_name input =
    let name = (word (length input) (skip_white (drop 5 input))).0 in
    if length name == 0 then none else if leb 64 (length name) then none else some name

abbrev pub welcome : (name response : Text) → Text
welcome name response =
    codes "Welcome "
    ++ (name ++ (codes ". Your balance is " ++ (print_int (to_int (strtol response).0) ++ 10 ∷ [])))

-- What is made of the response to a Login.
unfoldable pub login_reply : (input response : Text) → List Text → Client → Option Outcome
unfolding starts_with cut_line login_name
login_reply input response reads c =
    if starts_with (codes "Reject ") response
    then some (over (print (cut_line response ++ 10 ∷ []) c))
    else elim (login_name input) [
      | none ↦ none
      | some name ↦
          some (again reads (record (print (welcome name response) c) { logged_in = true }))
    ]

-- What is made of what read gives. Nothing is the end of the FIFO; 128 bytes leave no room for the
-- closing NUL.
unfoldable pub take_response : (input : Text) → List Text → Client → Option Outcome
unfolding starts_with login_reply shown without_newline
take_response input [] c = some (over c)
take_response input (bytes ∷ reads) c =
    if length bytes == 0
    then some (over c)
    else if leb 128 (length bytes)
    then none
    else if starts_with (codes "Login") input
    then login_reply input (without_newline bytes) reads c
    else some (again reads (print (shown (without_newline bytes)) c))

-- A round of the loop with this input, its newline taken off.
unfoldable pub client_round : (input : Text) → List Text → Client → Option Outcome
unfolding starts_with take_response
client_round input reads c =
    if length input == 0
    then some (again reads c)
    else if not c.logged_in && not (starts_with (codes "Login ") input)
    then some (again reads (print (codes "Not logged in" ++ 10 ∷ []) c))
    else if starts_with (codes "Disconnect") input
    then some (over (record (send input c) { logged_in = false }))
    else take_response input reads (send input c)

-- The loop over the input, whose fgets reads at most 99 bytes. A round reads at least one byte, so the
-- length of the input is fuel enough.
unfoldable pub client_loop : ℕ → (stdin : Text) → List Text → Client → Option Client
unfolding fgets client_round without_newline
client_loop zero stdin reads c = some c
client_loop (suc fuel) stdin reads c =
    if length (fgets 99 stdin).0 == 0
    then some c
    else elim (client_round (without_newline (fgets 99 stdin).0) reads c) [
      | none ↦ none
      | some (over c') ↦ some c'
      | some (again reads' c') ↦ client_loop fuel (fgets 99 stdin).1 reads' c'
    ]
