-- ===== src/Tests/Workers.antt =====
-- Two workers serve the requests of one session, the second one first.
use pointerpro_animate.Base.{◌⊎◌, ◌≤◌, ℕ, ◌<◌, ◌≡◌, refl, true, false, none, some, [], ◌∷◌, arith}
use pointerpro_animate.Text.{Text, codes}
use pointerpro_animate.Session.{Session, new_session}
use pointerpro_animate.Session.Order.{has, responses}
use pointerpro_animate.Session.Delivery.{plenty}
use pointerpro_animate.Rpc.{answer, rpc_failed, success_handle}
use pointerpro_animate.Dispatch.{Environment, Context, process_rpc_command, worker_round}
use pointerpro_animate.Dispatch.Outbox.{SameOutbox-of_eq}
use pointerpro_animate.Dispatch.Worker.{
  Log, response_to, tickets, Rounds, ended, round, worker_round-in_order,
}
use pointerpro_animate.Tests.Servers.{counter, alice}
use pointerpro_animate.Tests.Commands.{environment, session, before, after, created}

abbrev log : Log
log = (1, success_handle 5) ∷ (0, rpc_failed) ∷ []

abbrev first : Context counter.State
first = record { session = session; server = before }

abbrev waiting : Context counter.State
waiting = record {
  session = record session {
    pending_responses =
        none ∷ some (success_handle 5) ∷ none ∷ none ∷ none ∷ none ∷ none ∷ none ∷ none ∷ [];
  };
  server = after;
}

abbrev served : Context counter.State
served = record {
  session = record session {
    pending_responses = none ∷ none ∷ none ∷ none ∷ none ∷ none ∷ none ∷ none ∷ none ∷ [];
    next_response_ticket = 2;
    written = rpc_failed ∷ success_handle 5 ∷ [];
  };
  server = after;
}

unknown :
    (c : Context counter.State)
    → process_rpc_command counter environment (codes "fly") c ≡ answer rpc_failed 0 c
unfolding process_rpc_command pointerpro_animate.Text.strtok pointerpro_animate.Text.same
    pointerpro_animate.Rpc.commands
unknown c = refl

first_round :
    worker_round counter environment plenty (codes "create_canvas 4 3 0") 1 first ≡ some waiting
unfolding worker_round pointerpro_animate.Dispatch.finish
    pointerpro_animate.Session.send_ordered_response pointerpro_animate.Text.print_ulong new_session
first_round = rw created refl

second_round : worker_round counter environment plenty (codes "fly") 0 waiting ≡ some served
unfolding worker_round pointerpro_animate.Dispatch.finish
    pointerpro_animate.Session.send_ordered_response pointerpro_animate.Text.print_ulong new_session
second_round = rw (unknown waiting) refl

rounds : Rounds counter first log served
rounds =
    round environment (codes "create_canvas 4 3 0") 1 created first_round
      (round environment (codes "fly") 0 (unknown waiting) second_round ended)

worker_round-in_order_example :
    ((k : ℕ) × (served.session.written ≡ responses (response_to log) k)
      × (k ≤ 2)
      × ((served.session.active ≡ false) ⊎ (k ≡ 2)))
    × ((i : ℕ) → i < 2 → has i (tickets log) ≡ true)
    × (has 2 (tickets log) ≡ false)
    × ((d : Context counter.State) × (worker_round counter environment plenty (codes "fly") 2 served
          ≡ some d))
worker_round-in_order_example =
    worker_round-in_order counter log 17 alice environment (codes "fly") 2 (SameOutbox-of_eq refl)
      rounds (omega arith, refl, (omega arith, refl, tt)) (unknown served) (omega arith) refl
