-- ===== src/Tests/Polls.antt =====
-- Two sessions in active_sessions.
use pointerpro_animate.Base.{
  ℕ, ◌≡◌, refl, true, false, Option, none, some, List, [], ◌∷◌, ◌++◌, ◌==◌, if◌then◌else◌, take,
  arith,
}
use pointerpro_animate.Text.{Text, codes}
use pointerpro_animate.Session.{Session, new_session}
use pointerpro_animate.Session.Order.{has}
use pointerpro_animate.Barrier.{handle_barrier}
use pointerpro_animate.Poll.{
  Heap, Table, session_indices, cleanup_inactive_sessions, handle_readable, Accepted, accepted,
  write_to, accept_client, poll_round,
}
use pointerpro_animate.Poll.Compact.{without_inactive, Holding, actives, IsTable}
use pointerpro_animate.Poll.Cleanup.{AreActive, cleanup_inactive_sessions-handle_barrier}
use pointerpro_animate.Poll.Stale.{handle_readable_stale}
use pointerpro_animate.Poll.Reads.{requests_of, sessions_after}
use pointerpro_animate.Poll.Rounds.{poll_round-requests_of}
use pointerpro_animate.Poll.Accept.{all_checked, accept_client-all_checked}
use pointerpro_animate.Poll.Reach.{Reached, starts, accepts, polls, Stands}
use pointerpro_animate.Poll.Tasks.{worker_task, worker_task_freed}
use pointerpro_animate.Session.Delivery.{plenty}
use pointerpro_animate.Poll.Safe.{Reached-defined}
use pointerpro_animate.Tests.Servers.{counter, alice, bob}
use pointerpro_animate.Tests.Commands.{environment, session, after}

abbrev other : Session
other = new_session 18 bob

abbrev gone : Session
gone = record other { active = false }

abbrev heap_of : Session → Session → Heap
heap_of s t p = if p == 100 then some s else if p == 101 then some t else none

abbrev table_of : Session → Session → Table
table_of s t = record { slots = 100 ∷ 101 ∷ []; count = 2; sessions = heap_of s t }

abbrev addresses : List ℕ
addresses = 100 ∷ 101 ∷ []

is_table : (s t : Session) → IsTable (table_of s t) addresses (s ∷ t ∷ [])
is_table s t = record {
  tail = [];
  array = refl;
  counted = refl;
  apart = (refl, (refl, tt));
  holding = (refl, (refl, tt));
}

cleanup_inactive_sessions-handle_barrier_example :
    (t' : Table) × (cleanup_inactive_sessions (table_of gone session) ≡ some t')
    × (take t'.count t'.slots ≡ actives addresses (gone ∷ session ∷ []))
    × Holding t'.sessions
        (actives addresses (gone ∷ session ∷ []))
        (without_inactive (gone ∷ session ∷ []))
    × AreActive (without_inactive (gone ∷ session ∷ []))
    × (handle_barrier (without_inactive (gone ∷ session ∷ [])) alice (codes "5") after
        ≡ handle_barrier (gone ∷ session ∷ []) alice (codes "5") after)
cleanup_inactive_sessions-handle_barrier_example =
    cleanup_inactive_sessions-handle_barrier (table_of gone session) addresses (gone ∷ session ∷ [])
      (is_table gone session) alice (codes "5") after

abbrev bytes : ℕ → Option Text
bytes p = some (codes "barrier 5")

handle_readable_stale_example :
    (js : List ℕ) × (u' : Table) × (session_indices (table_of session other) ≡ some js)
    × (has 1 js ≡ true)
    × (cleanup_inactive_sessions (table_of session gone) ≡ some u')
    × (handle_readable bytes 1 u' ≡ none)
unfolding new_session
handle_readable_stale_example =
    handle_readable_stale bytes (table_of session other) (table_of session gone) (100 ∷ []) 101 []
      (session ∷ []) (session ∷ []) other gone [] [] refl refl (is_table session other)
      (is_table session gone) refl refl (omega arith)

poll_round-requests_of_example :
    (t' : Table) × (poll_round (λ i. i == 1) bytes (λ u. u) (table_of session other)
      ≡ some (requests_of (λ i. i == 1) bytes 0 addresses (session ∷ other ∷ []), t'))
    × IsTable t' addresses (sessions_after (λ i. i == 1) bytes 0 addresses (session ∷ other ∷ []))
unfolding new_session
poll_round-requests_of_example =
    poll_round-requests_of (λ i. i == 1) bytes (λ u. u) (table_of session other) addresses
      (session ∷ other ∷ []) (session ∷ other ∷ []) (is_table session other) (refl, (refl, tt))
      (is_table session other) (refl, (refl, tt))

abbrev empty_table : Table
empty_table = record { slots = []; count = 0; sessions = λ p. none }

abbrev one_client : Table
one_client = record {
  slots = 100 ∷ [];
  count = 1;
  sessions = write_to 100 (some (new_session 17 [])) (λ p. none);
}

one_accepted :
    accept_client true (some 100) (λ pid. true) 17 [] empty_table ≡ some (accepted one_client)
unfolding accept_client
one_accepted = refl

one_polled : poll_round (λ i. false) bytes (λ t. t) one_client ≡ some ([], one_client)
unfolding poll_round new_session
one_polled = refl

one_client-Reached : Reached one_client
one_client-Reached =
    polls (λ i. false) bytes (λ t. t)
      (accepts (λ pid. true) 100 17 [] (starts (λ p. none)) refl one_accepted)
      (record { same_slots = refl; same_count = refl; alive = λ p s held. (s, held) }) one_polled

Reached-defined_example :
    Stands one_client
    × ((js : List ℕ) × (session_indices one_client ≡ some js))
    × ((u : Table) × (cleanup_inactive_sessions one_client ≡ some u))
    × ((a : Accepted) × (accept_client true none (λ pid. true) 18 [] one_client ≡ some a))
Reached-defined_example =
    Reached-defined one_client true none (λ pid. true) 18 [] one_client-Reached

accept_client-all_checked_example :
    (t' : Table) × (accept_client true (some 102) (λ pid. pid == 17) 19 [] (table_of session other)
      ≡ some (accepted t'))
    × IsTable t'
        (100 ∷ 101 ∷ 102 ∷ [])
        (all_checked (λ pid. pid == 17) (session ∷ other ∷ []) ++ new_session 19 [] ∷ [])
accept_client-all_checked_example =
    accept_client-all_checked (λ pid. pid == 17) 102 19 [] (table_of session other) addresses
      (session ∷ other ∷ []) (is_table session other) refl

worker_task_freed_example :
    (u' : Table) × (cleanup_inactive_sessions (table_of session gone) ≡ some u')
    × (worker_task counter environment plenty (101, (codes "barrier 5", 3)) u' after ≡ none)
worker_task_freed_example =
    worker_task_freed counter environment plenty (codes "barrier 5", 3) (table_of session gone)
      after (100 ∷ []) 101 [] (session ∷ []) gone [] refl (is_table session gone) refl
