-- ===== src/Dispatch/Outbox.antt =====
-- What a command leaves alone: the responses of the session that it comes from.
use pointerpro_animate.Base.{
  ◌⊎◌, false, ◌∙◌, ℕ, ◌≡◌, ap, Option, none, some, List, arith, leb, ◌==◌, length, if◌then◌else◌,
  Bool-cases, Option-cases, inl, inr, subst, zero, suc,
}
use pointerpro_animate.Base.Int.{ℤ, pos, negsuc}
use pointerpro_animate.Text.{Text, codes, same, strtok}
use pointerpro_animate.Session.{Session}
use pointerpro_animate.Session.Delivery.{Delivered}
use pointerpro_animate.Library.{Library}
use pointerpro_animate.Rpc.{Server, Result, ok, answer, crash, commands, copy_username}
use pointerpro_animate.Users.{handle_login, login_answer, find_login}
use pointerpro_animate.Input.{disconnect_client}
use pointerpro_animate.Dispatch.{
  Environment, Context, on_server, on_session, serve, dispatch, process_rpc_command, is_forbidden,
}

-- The second session has the same responses, written and pending, as the first, and is not active
-- where the first is not.
pub record SameOutbox (s t : Session) : Type 0 where
  pub written : t.written ≡ s.written
  pub pending : t.pending_responses ≡ s.pending_responses
  pub due : t.next_response_ticket ≡ s.next_response_ticket
  pub connected : (t.active ≡ false) ⊎ (t.active ≡ s.active)

pub SameOutbox-of_eq : {s t : Session} → t ≡ s → SameOutbox s t
SameOutbox-of_eq e = record {
  written = ap (λ (x : Session). x.written) e;
  pending = ap (λ (x : Session). x.pending_responses) e;
  due = ap (λ (x : Session). x.next_response_ticket) e;
  connected = inr (ap (λ (x : Session). x.active) e);
}

pub disconnect-SameOutbox : (s : Session) → SameOutbox s (disconnect_client s)
unfolding disconnect_client
disconnect-SameOutbox s = record {
  written = ground arith;
  pending = ground arith;
  due = ground arith;
  connected = ground arith;
}

pub SameOutbox-Delivered :
    {r : ℕ → Text} {ts : List ℕ} {s t : Session}
    → SameOutbox s t
    → Delivered r ts s
    → Delivered r ts t
SameOutbox-Delivered o (v, stop) = (
  record {
    sent = v.sent;
    in_order = o.written ∙ v.in_order;
    not_more = rw o.due v.not_more;
    all_sent = ground (arith, o.connected, o.due, v.all_sent);
    pending = λ i. rw (o.pending, o.due) (v.pending i);
    answered = λ i h. v.answered i (rw o.due at h);
  },
  rw o.due stop,
)

answer_same :
    (found : Option (Option ℤ)) {t : Text} {k : ℕ} {s s' : Session}
    → login_answer found s ≡ answer t k s'
    → s' ≡ s
unfolding login_answer
answer_same none e = cc
answer_same (some none) e = cc
answer_same (some (some (pos zero))) e = cc
answer_same (some (some (pos (suc n)))) e = cc
answer_same (some (some (negsuc n))) e = cc

SameOutbox-named :
    (username : Text) {s t : Session} → t ≡ record s { username = username } → SameOutbox s t
SameOutbox-named username e = record {
  written = ap (λ (x : Session). x.written) e;
  pending = ap (λ (x : Session). x.pending_responses) e;
  due = ap (λ (x : Session). x.next_response_ticket) e;
  connected = inr (ap (λ (x : Session). x.active) e);
}

login-SameOutbox :
    (users : Option Text) (saveptr : Text) {t : Text} {k : ℕ} {s s' : Session}
    → handle_login users saveptr s ≡ answer t k s'
    → SameOutbox s s'
unfolding handle_login commands
login-SameOutbox users saveptr {t} {k} {s} e = elim (Option-cases (strtok saveptr).0) [
  | inl missing ↦ SameOutbox-of_eq (ground arith)
  | inr (username, token) ↦ elim (Bool-cases (leb (length username) 32)) [
    | inr long ↦ SameOutbox-of_eq (ground arith)
    | inl short ↦ elim (Option-cases users) [
      | inl closed ↦ SameOutbox-named (copy_username username) (ground arith)
      | inr (file, opened) ↦ SameOutbox-named (copy_username username) (
          answer_same (find_login (length file) username file) {t = t} {k = k}
            {s = record s { username = copy_username username }} (ground arith))
    ]
  ]
]

module _ {L : Type 0} {t : Text} {k : ℕ} (c : Context L) {d : Context L} where
  session_result :
      (r : Result Session (Unit {0}))
      → ((k' : ℕ) (s' : Session) → r ≡ answer t k' s' → SameOutbox c.session s')
      → (elim r as (λ _. Result (Context L) (Unit {0})) [
        | ok x s ↦ ok x (record c { session = s })
        | answer t' k' s ↦ answer t' (if k' == 1 then 2 else 0) (record c { session = s })
        | crash ↦ crash
      ])
        ≡ answer t k d
      → SameOutbox c.session d.session
  session_result (ok x s) keep e = cc
  session_result (answer t' k' s) keep e = subst (SameOutbox c.session) (cc) (keep k' s (cc))
  session_result crash keep e = cc

  server_result :
      (r : Result (Server L) (Unit {0}))
      → (elim r as (λ _. Result (Context L) (Unit {0})) [
        | ok x s ↦ ok x (record c { server = s })
        | answer t' k' s ↦ answer t' k' (record c { server = s })
        | crash ↦ crash
      ])
        ≡ answer t k d
      → d.session ≡ c.session
  server_result (ok x s) e = cc
  server_result (answer t' k' s) e = cc
  server_result crash e = cc

module _ (a : Library) (env : Environment) {t : Text} {k : ℕ} (c : Context a.State)
    {d : Context a.State} where
  dispatch-SameOutbox :
      (tokens : Option Text × Text)
      → dispatch a env tokens c ≡ answer t k d
      → SameOutbox c.session d.session
  unfolding dispatch on_server on_session
  dispatch-SameOutbox (none, saveptr) e = SameOutbox-of_eq (cc)
  dispatch-SameOutbox (some cmd, saveptr) e = elim (Bool-cases (is_forbidden cmd)) [
    | inl forbidden ↦ SameOutbox-of_eq (ground arith)
    | inr allowed ↦ elim (Bool-cases (same cmd (codes "Login"))) [
      | inl login ↦
          session_result c (handle_login env.users saveptr c.session)
            (λ k' s' run. login-SameOutbox env.users saveptr run) (rw (allowed, login) at e)
      | inr other ↦ SameOutbox-of_eq (
          server_result c (serve a env c.session.username cmd saveptr c.server)
            (rw (allowed, other) at e))
    ]
  ]

  pub process-SameOutbox :
      (command_line : Text)
      → process_rpc_command a env command_line c ≡ answer t k d
      → SameOutbox c.session d.session
  unfolding process_rpc_command
  process-SameOutbox command_line e = dispatch-SameOutbox _ e
