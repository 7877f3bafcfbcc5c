-- ===== src/Dispatch/Worker.antt =====
-- Rounds of the workers for the requests of one client.
use pointerpro_animate.Base.{
  ◌⊎◌, ◌≤◌, ℕ, ◌+◌, ◌^◌, ◌<◌, ◌≡◌, refl, subst, true, false, some, List, [], ◌∷◌, arith, ◌==◌,
  if◌then◌else◌, Bool-cases, inl, inr,
}
use pointerpro_animate.Text.{Text}
use pointerpro_animate.Session.{Session, Memory, new_session, send_ordered_response}
use pointerpro_animate.Session.Order.{has, responses}
use pointerpro_animate.Session.Delivery.{
  plenty, IsFresh, Delivered, send-Delivered, after, has-after, new-Delivered,
}
use pointerpro_animate.Library.{Library}
use pointerpro_animate.Rpc.{answer, success}
use pointerpro_animate.Input.{disconnect_client}
use pointerpro_animate.Dispatch.{Environment, Context, process_rpc_command, finish, worker_round}
use pointerpro_animate.Dispatch.Outbox.{
  SameOutbox, SameOutbox-Delivered, SameOutbox-of_eq, process-SameOutbox, disconnect-SameOutbox,
}

-- Tickets with their responses, in the order in which the workers have handed them over.
abbrev pub Log : Type 0
Log = List (ℕ × Text)

abbrev pub tickets : Log → List ℕ
tickets [] = []
tickets ((t, x) ∷ log) = t ∷ tickets log

abbrev pub response_to : Log → ℕ → Text
response_to [] i = []
response_to ((t, x) ∷ log) i = if i == t then x else response_to log i

-- Rounds for the requests of one session, with memory for the responses. Between two rounds other
-- workers, the main loop and other clients change the server and the session, and may disconnect
-- the client, but leave its responses alone; so does a worker that process_rpc_command puts to sleep
-- at a barrier, and when it has passed it ends its round by `passes`.
pub data Rounds (a : Library) : Context a.State → Log → Context a.State → Type 0 where
  ended : {c : Context a.State} → Rounds a c [] c
  round :
      {c c' d e : Context a.State} {log : Log} {response : Text} {status : ℕ} (env : Environment)
      (command_line : Text) (ticket : ℕ)
      → process_rpc_command a env command_line c ≡ answer response status c'
      → worker_round a env plenty command_line ticket c ≡ some d
      → Rounds a d log e
      → Rounds a c ((ticket, response) ∷ log) e
  passes :
      {c d e : Context a.State} {log : Log} (ticket : ℕ)
      → finish a plenty ticket (answer success 0 c) ≡ some d
      → Rounds a d log e
      → Rounds a c ((ticket, success) ∷ log) e
  others :
      {c d e : Context a.State} {log : Log}
      → SameOutbox c.session d.session
      → Rounds a d log e
      → Rounds a c log e

-- `r` gives the responses of the log.
abbrev Agrees : (ℕ → Text) → Log → Type 0
Agrees r [] = Unit
Agrees r ((t, x) ∷ log) = (r t ≡ x) × Agrees r log

closed-SameOutbox : (k : ℕ) (s : Session) → SameOutbox s (if k == 0 then s else disconnect_client s)
closed-SameOutbox k s = elim (Bool-cases (k == 0)) [
  | inl stays ↦ rw stays (SameOutbox-of_eq refl)
  | inr leaves ↦ rw leaves (disconnect-SameOutbox s)
]

finish_run :
    (a : Library) (memory : Memory) (ticket : ℕ) (response : Text) (status : ℕ)
    (c : Context a.State) {s : Session}
    → send_ordered_response memory ticket response c.session ≡ some s
    → finish a memory ticket (answer response status c)
      ≡ some (record c { session = if status == 0 then s else disconnect_client s })
unfolding finish
finish_run a memory ticket response status c sent = ground arith

module _ (a : Library) (r : ℕ → Text) (done : List ℕ) (ticket : ℕ) {response : Text}
    (agrees : r ticket ≡ response) (small : ticket + 8 < 2 ^ 32)
    (new : has ticket done ≡ false) where
  -- The response is among those delivered.
  finish-Delivered :
      (status : ℕ) (c : Context a.State)
      → Delivered r done c.session
      → (d : Context a.State) × (finish a plenty ticket (answer response status c) ≡ some d)
        × Delivered r (ticket ∷ done) d.session
  finish-Delivered status c delivered =
      let (s, sent, holds, idle, quiet) =
        send-Delivered r done ticket new c.session delivered small in
      let d : Context a.State = record c {
        session = if status == 0 then s else disconnect_client s;
      } in
      (
        d,
        subst (λ x. finish a plenty ticket (answer x status c) ≡ some d) agrees
            (finish_run a plenty ticket (r ticket) status c sent),
        SameOutbox-Delivered (closed-SameOutbox status s) (holds, idle),
      )

  -- The round ends, and its response is among those delivered.
  round-Delivered :
      (env : Environment) (command_line : Text) (c : Context a.State) {c' : Context a.State}
      {status : ℕ}
      → process_rpc_command a env command_line c ≡ answer response status c'
      → Delivered r done c.session
      → (d : Context a.State) × (worker_round a env plenty command_line ticket c ≡ some d)
        × Delivered r (ticket ∷ done) d.session
  unfolding worker_round
  round-Delivered env command_line c {c'} {status} run delivered = rw run (
      finish-Delivered status c'
        (SameOutbox-Delivered (process-SameOutbox a env c command_line run) delivered))

module _ (a : Library) where
  Rounds-Delivered :
      (r : ℕ → Text) (done : List ℕ) {c e : Context a.State} {log : Log}
      → Rounds a c log e
      → Agrees r log
      → IsFresh done (tickets log)
      → Delivered r done c.session
      → Delivered r (after done (tickets log)) e.session
  Rounds-Delivered r done ended agrees fresh v = v
  Rounds-Delivered r done (round {c} {c'} {d} env command_line ticket run ends later) agrees fresh
        v =
      let (d', ends', v') =
        round-Delivered a r done ticket agrees.0 fresh.0 fresh.1 env command_line c run v in
      let same : d' ≡ d = cc in
      Rounds-Delivered r (ticket ∷ done) later agrees.1 fresh.2
        (subst (λ (x : Context a.State). Delivered r (ticket ∷ done) x.session) same v')
  Rounds-Delivered r done (passes {c} {d} ticket ends later) agrees fresh v =
      let (d', ends', v') = finish-Delivered a r done ticket agrees.0 fresh.0 fresh.1 0 c v in
      let same : d' ≡ d = cc in
      Rounds-Delivered r (ticket ∷ done) later agrees.1 fresh.2
        (subst (λ (x : Context a.State). Delivered r (ticket ∷ done) x.session) same v')
  Rounds-Delivered r done (others same later) agrees fresh v =
      Rounds-Delivered r done later agrees fresh (SameOutbox-Delivered same v)

fresh_out : (t : ℕ) (done ts : List ℕ) → IsFresh done ts → has t done ≡ true → has t ts ≡ false
fresh_out t done [] fresh old = refl
fresh_out t done (u ∷ ts) fresh old =
    let later : has t ts ≡ false = fresh_out t (u ∷ done) ts fresh.2 (ground arith) in ground arith

Agrees-cons :
    (r : ℕ → Text) (t : ℕ) (x : Text) (log : Log)
    → has t (tickets log) ≡ false
    → Agrees r log
    → Agrees (λ i. if i == t then x else r i) log
Agrees-cons r t x [] out agrees = tt
Agrees-cons r t x ((u, y) ∷ log) out agrees =
    (ground (arith, agrees.0), Agrees-cons r t x log (ground arith) agrees.1)

-- With distinct tickets, what is looked up is what was given.
response_to-Agrees :
    (done : List ℕ) (log : Log) → IsFresh done (tickets log) → Agrees (response_to log) log
response_to-Agrees done [] fresh = tt
response_to-Agrees done ((t, x) ∷ log) fresh = (
  ground arith,
  Agrees-cons (response_to log) t x log
      (fresh_out t (t ∷ done) (tickets log) fresh.2 (ground arith))
      (response_to-Agrees (t ∷ done) log fresh.2),
)

-- Workers serve the requests of a new client, with distinct tickets below 2^32 - 8 and with memory
-- for the responses, in any order; what happens in between leaves the responses of the session
-- alone, and connects no client that has been disconnected. Let n be the first ticket that is not
-- served yet. What the client has been sent is the responses to the tickets below some k, in the order
-- of the tickets, each the one of process_rpc_command, or "0" from a thread that has passed a
-- barrier; k is n while the session is active, and no more than n after that. And when
-- process_rpc_command answers one more request, with another such ticket, the worker's round ends too.
pub worker_round-in_order :
    (a : Library) {c e e' : Context a.State} (log : Log) (pid : ℕ) (garbage : Text)
    (env : Environment) (command_line : Text) (ticket : ℕ) {response : Text} {status : ℕ}
    → SameOutbox (new_session pid garbage) c.session
    → Rounds a c log e
    → IsFresh [] (tickets log)
    → process_rpc_command a env command_line e ≡ answer response status e'
    → ticket + 8 < 2 ^ 32
    → has ticket (tickets log) ≡ false
    → ((k : ℕ) × (e.session.written ≡ responses (response_to log) k)
        × (k ≤ e.session.next_response_ticket)
        × ((e.session.active ≡ false) ⊎ (k ≡ e.session.next_response_ticket)))
      × ((i : ℕ) → i < e.session.next_response_ticket → has i (tickets log) ≡ true)
      × (has e.session.next_response_ticket (tickets log) ≡ false)
      × ((d : Context a.State) × (worker_round a env plenty command_line ticket e ≡ some d))
worker_round-in_order a {c} {e} log pid garbage env command_line ticket {response} start rounds
      fresh run small new =
    let r = response_to log in
    let v : Delivered r (after [] (tickets log)) e.session =
      Rounds-Delivered a r [] rounds (response_to-Agrees [] log fresh) fresh
        (SameOutbox-Delivered start (new-Delivered r pid garbage)) in
    let r' : ℕ → Text = response_to ((ticket, response) ∷ log) in
    let agrees : Agrees r' log =
      Agrees-cons r ticket response log new (response_to-Agrees [] log fresh) in
    let same : r' ticket ≡ response = ground arith in
    let out : has ticket (after [] (tickets log)) ≡ false =
      ground (arith, has-after ticket [] (tickets log)) in
    let (d, ends, rest) =
      round-Delivered a r' (after [] (tickets log)) ticket same small out env command_line e run (
        Rounds-Delivered a r' [] rounds agrees fresh
          (SameOutbox-Delivered start (new-Delivered r' pid garbage))) in
    (
      (v.0.sent, v.0.in_order, v.0.not_more, v.0.all_sent),
      λ i h. ground (arith, v.0.answered i h, has-after i [] (tickets log)),
      ground (arith, v.1, has-after e.session.next_response_ticket [] (tickets log)),
      (d, ends),
    )
