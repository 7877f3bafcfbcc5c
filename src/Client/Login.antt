-- ===== src/Client/Login.antt =====
-- What the client makes of the server's answer to a Login with a name that is too long.
use pointerpro_animate.Base.{
  ℕ, zero, suc, ◌≤◌, ◌≡◌, refl, ap, ◌∙◌, true, false, Option, none, some, List, [], ◌∷◌, ◌++◌,
  arith, ◌==◌, if◌then◌else◌, length, leb, take-all, length-append,
}
use pointerpro_animate.Text.{
  Text, codes, same, strtok, break_space, skip_white, is_space, without_newline, strtol,
  print_ulong,
}
use pointerpro_animate.Users.{word, handle_login}
use pointerpro_animate.Users.Scan.{no_white, without_newline_all}
use pointerpro_animate.Library.{Library}
use pointerpro_animate.Rpc.{answer, value_error, commands}
use pointerpro_animate.Dispatch.{Environment, Context, dispatch, on_session, process_rpc_command}
use pointerpro_animate.Client.{
  Client, again, starts_with, print_int, send, print, welcome, login_name, login_reply,
  take_response, client_round,
}

abbrev pub login : Text → Text
login name = codes "Login " ++ name

word_all :
    (name : Text) (most : ℕ)
    → no_white name ≡ true
    → length name ≤ most
    → word most name ≡ (name, [])
unfolding word is_space
word_all [] zero h fits = refl
word_all [] (suc most) h fits = refl
word_all (c ∷ name) zero h fits = absurd (omega arith)
word_all (c ∷ name) (suc most) h fits = ground (arith, word_all name most)

break_space_all : (name : Text) → no_white name ≡ true → break_space name ≡ (name, [])
unfolding break_space is_space
break_space_all [] h = refl
break_space_all (c ∷ name) h = ground (arith, break_space_all name)

strtok_word : (name : Text) → no_white name ≡ true → 1 ≤ length name → strtok name ≡ (some name, [])
unfolding strtok is_space
strtok_word [] one_word some_byte = absurd (omega arith)
strtok_word (c ∷ name) one_word some_byte =
    let all : break_space (c ∷ name) ≡ (c ∷ name, []) = break_space_all (c ∷ name) one_word in
    ground arith

skip_white_name : (name : Text) → no_white name ≡ true → skip_white name ≡ name
unfolding skip_white
skip_white_name [] h = refl
skip_white_name (c ∷ name) h = ground arith

without_newline-login :
    (name : Text) → no_white name ≡ true → without_newline (login name) ≡ login name
unfolding without_newline
without_newline-login [] h = refl
without_newline-login (c ∷ name) h = ap login (without_newline_all (c ∷ name) h)

strtok-login : (name : Text) → strtok (login name) ≡ (some (codes "Login"), name)
unfolding strtok break_space
strtok-login name = refl

abbrev pick : Text → Option Text
pick name = if length name == 0 then none else if leb 64 (length name) then none else some name

login_name-pick :
    (name : Text) → login_name (login name) ≡ pick (word (length (login name)) (skip_white name)).0
unfolding login_name skip_white is_space
login_name-pick name = refl

pick_short : (name : Text) → 1 ≤ length name → length name ≤ 63 → pick name ≡ some name
pick_short name some_byte short = ground arith

login_name_word :
    (name : Text)
    → no_white name ≡ true
    → 1 ≤ length name
    → length name ≤ 63
    → login_name (login name) ≡ some name
login_name_word name one_word some_byte short =
    login_name-pick name
    ∙ ap (λ s. pick (word (length (login name)) s).0) (skip_white_name name one_word)
    ∙ ap (λ (w : Text × Text). pick w.0)
        (word_all name (length (login name)) one_word (omega arith))
    ∙ pick_short name some_byte short

module _ (a : Library) (env : Environment) (c : Context a.State) where
  dispatch_login :
      (name : Text)
      → dispatch a env (some (codes "Login"), name) c ≡ on_session (handle_login env.users name) c
  unfolding dispatch same
  dispatch_login name = refl

  too_long :
      (name : Text)
      → no_white name ≡ true
      → 33 ≤ length name
      → on_session (handle_login env.users name) c ≡ answer value_error 0 c
  unfolding handle_login on_session commands
  too_long name one_word long =
      let token = strtok_word name one_word (omega arith) in rw token (ground arith)

round_login :
    (name : Text) (reads : List Text) (c : Client)
    → client_round (login name) reads c ≡ take_response (login name) reads (send (login name) c)
unfolding client_round starts_with
round_login name reads c = ground arith

take_login :
    (name response : Text) (reads : List Text) (c : Client)
    → 1 ≤ length response
    → length response ≤ 127
    → take_response (login name) (response ∷ reads) c
      ≡ login_reply (login name) (without_newline response) reads c
unfolding take_response starts_with
take_login name response reads c found fits =
    let some_byte : (length response == 0) ≡ false = ground arith in
    let room : leb 128 (length response) ≡ false = ground arith in rw (some_byte, room) refl

reply_login :
    (name response : Text) (reads : List Text) (c : Client)
    → login_name (login name) ≡ some name
    → starts_with (codes "Reject ") response ≡ false
    → login_reply (login name) response reads c
      ≡ some (again reads (record (print (welcome name response) c) { logged_in = true }))
unfolding login_reply
reply_login name response reads c named welcomed = rw (welcomed, named) refl

send-login :
    (name : Text) (c : Client)
    → length name ≤ 63
    → send (login name) c ≡ record c { sent = c.sent ++ (login name ++ 10 ∷ []) }
send-login name c short =
    ap (λ (t : Text). record c { sent = c.sent ++ t })
      (take-all 127 (login name ++ 10 ∷ []) (omega (arith, length-append {0} name (10 ∷ []))))

-- A Login that the server does not reject.
pub welcome_round :
    (name response : Text) (reads : List Text) (c : Client)
    → no_white name ≡ true
    → 1 ≤ length name
    → length name ≤ 63
    → 1 ≤ length response
    → length response ≤ 127
    → starts_with (codes "Reject ") (without_newline response) ≡ false
    → client_round (login name) (response ∷ reads) c
      ≡ some (
          again reads (record {
            logged_in = true;
            sent = c.sent ++ (login name ++ 10 ∷ []);
            printed = c.printed ++ welcome name (without_newline response);
          }))
welcome_round name response reads c one_word some_byte short found fits welcomed =
    round_login name (response ∷ reads) c
    ∙ take_login name response reads (send (login name) c) found fits
    ∙ reply_login name (without_newline response) reads (send (login name) c)
        (login_name_word name one_word some_byte short) welcomed
    ∙ ap
        (λ (c' : Client). some (
          again reads
            (record (print (welcome name (without_newline response)) c') { logged_in = true })))
        (send-login name c short)

welcome_error :
    (name : Text)
    → welcome name (codes "-2")
      ≡ codes "Welcome " ++ (name ++ (codes ". Your balance is -2" ++ 10 ∷ []))
unfolding strtol print_int print_ulong
welcome_error name = refl

-- A name of 33 to 63 bytes without white space is too long for the server: to a Login with it
-- process_rpc_command answers "-2", and leaves the session and the server as they were. The client
-- does not take this answer for a refusal: it prints a welcome with a balance of -2, and goes on as
-- logged in.
pub client_round-process_rpc_command :
    (a : Library) (env : Environment) (server : Context a.State) (name : Text) (reads : List Text)
    (client : Client)
    → no_white name ≡ true
    → 33 ≤ length name
    → length name ≤ 63
    → (process_rpc_command a env (login name) server ≡ answer value_error 0 server)
      × (client_round (login name) (value_error ∷ reads) client
          ≡ some (
              again reads (record {
                logged_in = true;
                sent = client.sent ++ (login name ++ 10 ∷ []);
                printed =
                    client.printed
                    ++ (codes "Welcome " ++ (name ++ (codes ". Your balance is -2" ++ 10 ∷ [])));
              })))
unfolding process_rpc_command without_newline starts_with
client_round-process_rpc_command a env server name reads client one_word long short = (
  ap (λ s. dispatch a env (strtok s) server) (without_newline-login name one_word)
      ∙ ap (λ t. dispatch a env t server) (strtok-login name)
      ∙ dispatch_login a env server name
      ∙ too_long a env server name one_word long,
  welcome_round name value_error reads client one_word (omega arith) short (omega arith)
        (omega arith) refl
      ∙ rw (welcome_error name) refl,
)
