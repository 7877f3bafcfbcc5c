-- ===== src/Client/Session.antt =====
-- A client's session with the server, from its login to its disconnection.
use pointerpro_animate.Base.{
  ℕ, suc, ◌+◌, ◌-◌, ◌^◌, ◌≤◌, ◌<◌, ◌≡◌, refl, sym, ap, ◌∙◌, subst, true, false, some, List, [], ◌∷◌,
  ◌++◌, arith, length, length-append,
}
use mathlib.Core.List.{append_assoc}
use pointerpro_animate.Text.{Text, codes, print_ulong}
use pointerpro_animate.Session.{new_session}
use pointerpro_animate.Users.Scan.{no_white, no_newline_of, no_newline-append}
use pointerpro_animate.Rpc.{line}
use pointerpro_animate.Input.Stream.{lines_of, number}
use pointerpro_animate.Input.Chunks.{receive_all, Arrives, concat, receive_all-lines}
use pointerpro_animate.Client.{
  Client, over, new_client, starts_with, send, client_round, client_loop,
}
use pointerpro_animate.Client.Login.{login}
use pointerpro_animate.Client.Welcome.{welcomed, balance_round}
use pointerpro_animate.Client.Lines.{
  AreCommands, AreResponses, print_lines, nonempty, show_all, exchanged, loop_line, goes_on,
}
use pointerpro_animate.Client.Dialogue.{commands_run}
use pointerpro_animate.Client.Printed.{
  dialogue, dialogue-ArePlain, disconnect, length-print_lines, lines_of-print_lines,
  print_lines-append,
}

disconnect_round :
    (reads : List Text) (c : Client)
    → c.logged_in ≡ true
    → client_round disconnect reads c
      ≡ some (over (record (send disconnect c) { logged_in = false }))
unfolding client_round starts_with
disconnect_round reads c logged_in = ground arith

enough :
    (fuel : ℕ) (name more : Text) (lines : List Text)
    → length (print_lines (dialogue name lines) ++ more) ≤ fuel
    → (rest : ℕ) × (fuel ≡ suc (length lines + suc rest))
enough fuel name more lines h =
    let whole = length-append {0} (print_lines (dialogue name lines)) more in
    let many = length-print_lines (dialogue name lines) in
    let counted = length-append {0} lines (disconnect ∷ []) in
    (fuel - length lines - 2, omega (arith, whole, many, counted))

input_split :
    (name : Text) (lines : List Text) (more : Text)
    → print_lines (dialogue name lines) ++ more
      ≡ login name ++ (10 ∷ (print_lines lines ++ (disconnect ++ 10 ∷ more)))
input_split name lines more =
    append_assoc (login name) (10 ∷ print_lines (lines ++ disconnect ∷ [])) more
    ∙ ap (λ (t : Text). login name ++ (10 ∷ (t ++ more)))
        (print_lines-append lines (disconnect ∷ []))
    ∙ ap (λ (t : Text). login name ++ 10 ∷ t)
        (append_assoc (print_lines lines) (disconnect ++ 10 ∷ []) more)

sent_join :
    (name : Text) (lines : List Text)
    → ((login name ++ 10 ∷ []) ++ print_lines lines) ++ (disconnect ++ 10 ∷ [])
      ≡ print_lines (dialogue name lines)
sent_join name lines =
    append_assoc (login name ++ 10 ∷ []) (print_lines lines) (disconnect ++ 10 ∷ [])
    ∙ append_assoc (login name) (10 ∷ []) (print_lines lines ++ (disconnect ++ 10 ∷ []))
    ∙ ap (λ (t : Text). login name ++ 10 ∷ t) (sym (print_lines-append lines (disconnect ∷ [])))

-- The client when the server has welcomed it.
abbrev welcomed_client : Text → ℕ → Client
welcomed_client name balance = record {
  logged_in = true;
  sent = login name ++ 10 ∷ [];
  printed = welcomed name balance;
}

disconnect_run :
    (rest : ℕ) (more : Text) (later : List Text) (c : Client)
    → c.logged_in ≡ true
    → client_loop (suc rest) (disconnect ++ 10 ∷ more) later c
      ≡ some (record c { logged_in = false; sent = c.sent ++ (disconnect ++ 10 ∷ []) })
disconnect_run rest more later c logged_in =
    loop_line rest disconnect more later c refl (omega arith)
    ∙ ap (goes_on rest more) (disconnect_round later c logged_in)

login_run :
    (fuel : ℕ) (name : Text) (balance : ℕ) (stdin : Text) (reads : List Text)
    → no_white name ≡ true
    → 1 ≤ length name
    → length name ≤ 63
    → balance < 2 ^ 31
    → client_loop
        (suc fuel)
        (login name ++ 10 ∷ stdin)
        (line (print_ulong balance) ∷ reads)
        new_client
      ≡ client_loop fuel stdin reads (welcomed_client name balance)
login_run fuel name balance stdin reads one_word some_byte short small =
    loop_line fuel (login name) stdin (line (print_ulong balance) ∷ reads) new_client
      (no_newline-append (codes "Login ") name refl (no_newline_of name one_word)) (omega arith)
    ∙ ap (goes_on fuel stdin)
        (balance_round name balance reads new_client one_word some_byte short small)

session_run :
    (name : Text) (balance : ℕ) (lines responses : List Text) (more : Text) (later : List Text)
    (rest : ℕ)
    → no_white name ≡ true
    → 1 ≤ length name
    → length name ≤ 63
    → balance < 2 ^ 31
    → AreCommands lines
    → AreResponses responses
    → length responses ≡ length (nonempty lines)
    → client_loop
        (suc (length lines + suc rest))
        (print_lines (dialogue name lines) ++ more)
        (line (print_ulong balance) ∷ (responses ++ later))
        new_client
      ≡ some (record {
        logged_in = false;
        sent = print_lines (dialogue name (nonempty lines));
        printed = welcomed name balance ++ show_all responses;
      })
session_run name balance lines responses more later rest one_word some_byte short small v w match =
    let reads : List Text = line (print_ulong balance) ∷ (responses ++ later) in
    let c = welcomed_client name balance in
    ap (λ t. client_loop (suc (length lines + suc rest)) t reads new_client)
      (input_split name lines more)
    ∙ login_run (length lines + suc rest) name balance
        (print_lines lines ++ (disconnect ++ 10 ∷ more)) (responses ++ later) one_word some_byte
        short small
    ∙ commands_run lines responses (suc rest) (disconnect ++ 10 ∷ more) later c v w match refl
    ∙ disconnect_run rest more later (exchanged (nonempty lines) responses c) refl
    ∙ ap
        (λ (t : Text). some (record {
          logged_in = false;
          sent = t;
          printed = welcomed name balance ++ show_all responses;
        }))
        (sent_join name (nonempty lines))

-- The input of a client is a Login with a name of 1 to 63 bytes without white space, then commands
-- of at most 98 bytes that are neither Login nor Disconnect, then Disconnect, then anything. The
-- server accepts the login with a balance below 2^31, and answers each command that is not empty by
-- a response of 1 to 127 bytes, which one read gives. Then the client's loop ends, on any fuel from
-- the length of the input on: it has printed the welcome with this name and balance and what is
-- shown for each response, in order; it has sent the lines that are not empty, and is logged out.
-- When what it has sent, fewer than 2^32 lines, arrives at a new session of the server in reads of
-- any length that find some bytes, none of them NUL, and no more than there is space for, the work
-- queue gets just these lines, in their order and with the tickets 0, 1, 2 and so on.
pub client_loop-receive_all :
    (name : Text) (balance : ℕ) (commands responses : List Text) (more : Text) (later : List Text)
    (fuel : ℕ) (chunks : List Text) (pid : ℕ) (garbage : Text)
    → no_white name ≡ true
    → 1 ≤ length name
    → length name ≤ 63
    → balance < 2 ^ 31
    → AreCommands commands
    → AreResponses responses
    → length responses ≡ length (nonempty commands)
    → length (print_lines (dialogue name commands) ++ more) ≤ fuel
    → Arrives (new_session pid garbage) chunks
    → concat chunks ≡ print_lines (dialogue name (nonempty commands))
    → length (dialogue name (nonempty commands)) < 2 ^ 32
    → (client_loop fuel
          (print_lines (dialogue name commands) ++ more)
          (line (print_ulong balance) ∷ (responses ++ later))
          new_client
        ≡ some (record {
          logged_in = false;
          sent = print_lines (dialogue name (nonempty commands));
          printed = welcomed name balance ++ show_all responses;
        }))
      × ((receive_all chunks (new_session pid garbage)).0
          ≡ number 0 (dialogue name (nonempty commands)))
client_loop-receive_all name balance commands responses more later fuel chunks pid garbage one_word
      some_byte short small v w match fuelled arrives joined few =
    let (rest, e) = enough fuel name more commands fuelled in
    let same : lines_of (concat chunks) ≡ dialogue name (nonempty commands) =
      ap lines_of joined
      ∙ lines_of-print_lines (dialogue name (nonempty commands))
          (dialogue-ArePlain name commands one_word v) in
    (
      ap
            (λ n.
              client_loop n (print_lines (dialogue name commands) ++ more)
                (line (print_ulong balance) ∷ (responses ++ later)) new_client)
            e
          ∙ session_run name balance commands responses more later rest one_word some_byte short
              small v w match,
      ap (λ p. p.0)
            (receive_all-lines chunks pid garbage arrives
              (subst (λ ls. length ls < 2 ^ 32) (sym same) few))
          ∙ ap (number 0) same,
    )
