-- ===== src/Tests/Clients.antt =====
-- A client with a short name, and one with a long name.
use pointerpro_animate.Base.{
  ◌≤◌, ◌≡◌, refl, true, false, some, List, [], ◌∷◌, ◌++◌, arith, length, replicate,
}
use pointerpro_animate.Text.{Text, codes, print_ulong}
use pointerpro_animate.Session.{new_session}
use pointerpro_animate.Rpc.{answer, line, value_error, success_handle}
use pointerpro_animate.Input.Stream.{number}
use pointerpro_animate.Input.Chunks.{receive_all, Arrives}
use pointerpro_animate.Dispatch.{Context, process_rpc_command}
use pointerpro_animate.Client.{again, new_client, starts_with, client_round, client_loop}
use pointerpro_animate.Client.Login.{login, client_round-process_rpc_command}
use pointerpro_animate.Client.Welcome.{welcomed}
use pointerpro_animate.Client.Lines.{IsCommand, print_lines, nonempty, show_all}
use pointerpro_animate.Client.Session.{client_loop-receive_all}
use pointerpro_animate.Client.Printed.{dialogue}
use pointerpro_animate.Tests.Servers.{counter, alice}
use pointerpro_animate.Tests.Commands.{environment, session, before}

abbrev long_name : Text
long_name = replicate 40 b'n'

abbrev server : Context counter.State
server = record { session = session; server = before }

client_round-process_rpc_command_example :
    (process_rpc_command counter environment (login long_name) server ≡ answer value_error 0 server)
    × (client_round (login long_name) (value_error ∷ []) new_client
        ≡ some (
            again [] (record {
              logged_in = true;
              sent = login long_name ++ 10 ∷ [];
              printed =
                  codes "Welcome " ++ (long_name ++ (codes ". Your balance is -2" ++ 10 ∷ []));
            })))
unfolding pointerpro_animate.Text.is_space
client_round-process_rpc_command_example =
    client_round-process_rpc_command counter environment server long_name [] new_client refl
      (omega arith) (omega arith)

abbrev commands : List Text
commands = codes "create_canvas 4 3 0" ∷ [] ∷ codes "barrier 5" ∷ []

abbrev responses : List Text
responses = success_handle 5 ∷ line (codes "0") ∷ []

canvas_IsCommand : IsCommand (codes "create_canvas 4 3 0")
canvas_IsCommand = record {
  one_line = refl;
  short = omega arith;
  no_login = unfold starts_with in refl;
  no_disconnect = unfold starts_with in refl;
}

IsCommand-empty : IsCommand []
IsCommand-empty = record {
  one_line = refl;
  short = omega arith;
  no_login = unfold starts_with in refl;
  no_disconnect = unfold starts_with in refl;
}

IsCommand-barrier : IsCommand (codes "barrier 5")
IsCommand-barrier = record {
  one_line = refl;
  short = omega arith;
  no_login = unfold starts_with in refl;
  no_disconnect = unfold starts_with in refl;
}

response_bounds : (1 ≤ length (success_handle 5)) × (length (success_handle 5) ≤ 127)
unfolding print_ulong
response_bounds = (omega arith, omega arith)

abbrev chunks : List Text
chunks =
    codes "Login alice"
    ∷ (10 ∷ (codes "create_canvas 4 3 0" ++ 10 ∷ (codes "barrier 5" ++ 10 ∷ [])))
    ∷ (codes "Disconnect" ++ 10 ∷ [])
    ∷ []

chunks-Arrives : Arrives (new_session 17 []) chunks
unfolding new_session pointerpro_animate.Input.on_readable
chunks-Arrives = (
  omega arith,
  omega arith,
  refl,
  (omega arith, omega arith, refl, (omega arith, omega arith, refl, tt)),
)

client_loop-receive_all_example :
    (client_loop 1000
        (print_lines (dialogue alice commands) ++ codes "more")
        (line (print_ulong 20) ∷ (responses ++ []))
        new_client
      ≡ some (record {
        logged_in = false;
        sent = print_lines (dialogue alice (nonempty commands));
        printed = welcomed alice 20 ++ show_all responses;
      }))
    × ((receive_all chunks (new_session 17 [])).0 ≡ number 0 (dialogue alice (nonempty commands)))
unfolding pointerpro_animate.Text.is_space
client_loop-receive_all_example =
    client_loop-receive_all alice 20 commands responses (codes "more") [] 1000 chunks 17 [] refl
      (omega arith) (omega arith) (omega arith)
      (canvas_IsCommand, (IsCommand-empty, (IsCommand-barrier, tt)))
      (response_bounds.0, response_bounds.1, (omega arith, omega arith, tt)) refl (omega arith)
      chunks-Arrives refl (omega arith)
