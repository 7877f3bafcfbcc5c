-- ===== src/Dispatch/Ends.antt =====
-- A command as a whole: process_rpc_command of animate-platform/animate_server.c.
use pointerpro_animate.Base.{
  Bool, false, ◌≡◌, ◌≢◌, zero, suc, arith, length, leb, Option-cases, refl, sym, subst, ℕ, true,
  Option, none, some, ◌==◌, if◌then◌else◌, inl, inr, Bool-cases,
}
use pointerpro_animate.Text.{Text, codes, same, strtok}
use pointerpro_animate.Registry.{Registry}
use pointerpro_animate.Session.{Session}
use pointerpro_animate.Library.{Library}
use pointerpro_animate.Rpc.{Server, Result, ok, answer, crash, Handler, commands, copy_username}
use pointerpro_animate.Rpc.After.{
  After, after_ok, after_answer, after_crash, keep_if, keep_respond, keep_bind, keep_weaken,
}
use pointerpro_animate.Rpc.Room.{AllHaveMemory, share_canvas-AllHaveMemory}
use pointerpro_animate.Rpc.Canvas.{handle_share_canvas}
use pointerpro_animate.Base.Int.{ℤ, pos, negsuc}
use pointerpro_animate.Users.{valid_authorised_username, handle_login, login_answer, find_login}
use pointerpro_animate.Dispatch.{
  Environment, Context, on_server, on_session, serve, dispatch, process_rpc_command, is_forbidden,
}
use pointerpro_animate.Text.{without_newline}
use pointerpro_animate.Dispatch.Answers.{Answers, login-Answers, serve-Answers}
use pointerpro_animate.Dispatch.Faults.{Fault, LongWord}
use pointerpro_animate.Dispatch.Handlers.{
  KeepsAll, create_canvas-KeepsAll, destroy_canvas-KeepsAll, create_rectangle-KeepsAll,
  create_circle-KeepsAll, create_sprite-KeepsAll, destroy_sprite-KeepsAll, place_sprite-KeepsAll,
  set_animation_params-KeepsAll, placement_up-KeepsAll, placement_down-KeepsAll,
  placement_top-KeepsAll, placement_bottom-KeepsAll, destroy_placement-KeepsAll,
}
use pointerpro_animate.Dispatch.Videos.{generate-KeepsAll, barrier-KeepsAll}

-- A command has answered, or it has undefined behaviour for the reason `C`, or, only where `W` holds,
-- its thread sleeps at a barrier.
pub data Ends {L : Type 0} (P : Registry → Type 0) (C W : Type 0)
    : Result (Context L) (Unit {0}) → Type 0 where
  answers :
      {response : Text} {status : ℕ} {c : Context L}
      → P c.server.registry
      → Ends P C W (answer response status c)
  faults : C → Ends P C W crash
  waits : {x : Unit {0}} {c : Context L} → W → P c.server.registry → Ends P C W (ok x c)

module _ (a : Library) (env : Environment) (memory : env.memory ≡ true) where
  share-KeepsAll :
      (username saveptr : Text)
      → KeepsAll a env.users username saveptr
          (handle_share_canvas a env.memory (valid_authorised_username env.users) username saveptr)
  share-KeepsAll username saveptr =
      subst
        (λ m.
          KeepsAll a env.users username saveptr
            (handle_share_canvas a m (valid_authorised_username env.users) username saveptr))
        (sym memory)
        (keep_weaken _ (λ c. absurd c)
          (share_canvas-AllHaveMemory a (valid_authorised_username env.users) username saveptr))

  serve-KeepsAll :
      (username cmd saveptr : Text)
      → KeepsAll a env.users username saveptr (serve a env username cmd saveptr)
  unfolding serve
  serve-KeepsAll username cmd saveptr =
      let u = env.users in
      let m = env.memory in
      keep_if (same cmd (codes "create_canvas")) (create_canvas-KeepsAll a u username saveptr m) (
        keep_if (same cmd (codes "create_rectangle"))
          (create_rectangle-KeepsAll a u username saveptr m)
          (keep_if (same cmd (codes "create_circle"))
            (create_circle-KeepsAll a u username saveptr m)
            (keep_if (same cmd (codes "set_animation_params"))
              (set_animation_params-KeepsAll a u username saveptr)
              (keep_if (same cmd (codes "create_sprite"))
                (create_sprite-KeepsAll a u username saveptr m)
                (keep_if (same cmd (codes "destroy_sprite"))
                  (destroy_sprite-KeepsAll a u username saveptr)
                  (keep_if (same cmd (codes "place_sprite"))
                    (place_sprite-KeepsAll a u username saveptr m)
                    (keep_if (same cmd (codes "destroy_canvas"))
                      (destroy_canvas-KeepsAll a u username saveptr)
                      (keep_if (same cmd (codes "placement_up"))
                        (placement_up-KeepsAll a u username saveptr)
                        (keep_if (same cmd (codes "placement_down"))
                          (placement_down-KeepsAll a u username saveptr)
                          (keep_if (same cmd (codes "placement_top"))
                            (placement_top-KeepsAll a u username saveptr)
                            (keep_if (same cmd (codes "placement_bottom"))
                              (placement_bottom-KeepsAll a u username saveptr)
                              (keep_if (same cmd (codes "destroy_placement"))
                                (destroy_placement-KeepsAll a u username saveptr)
                                (keep_if (same cmd (codes "generate"))
                                  (generate-KeepsAll a u username saveptr env.host)
                                  (keep_if (same cmd (codes "share_canvas"))
                                    (share-KeepsAll username saveptr)
                                    (keep_if (same cmd (codes "barrier"))
                                      (keep_bind
                                        (barrier-KeepsAll a u username saveptr env.sessions)
                                        λ woken.
                                          keep_if woken (keep_respond _)
                                            (record { at = λ s p. after_ok p }))
                                      (keep_if (same cmd (codes "Disconnect"))
                                        (record { at = λ s p. after_answer p })
                                        (keep_respond _)))))))))))))))))

answer_defined : (found : Option ℤ) (s : Session) → login_answer (some found) s ≢ crash
unfolding login_answer
answer_defined none s e = cc
answer_defined (some (pos zero)) s e = cc
answer_defined (some (pos (suc n))) s e = cc
answer_defined (some (negsuc n)) s e = cc

login_found :
    (file username : Text) (s : Session)
    → login_answer (find_login (length file) username file) s ≡ crash
    → LongWord (some file)
login_found file username s e = elim (Option-cases (find_login (length file) username file)) [
  | inl long ↦ (file, username, refl, long)
  | inr (found, some_found) ↦
      absurd (answer_defined found s (subst (λ o. login_answer o s ≡ crash) some_found e))
]

login_crash :
    (users : Option Text) (saveptr : Text) (s : Session)
    → handle_login users saveptr s ≡ crash
    → LongWord users
unfolding handle_login commands
login_crash users saveptr s e = elim (Option-cases (strtok saveptr).0) [
  | inl missing ↦ absurd (ground arith)
  | inr (username, token) ↦ elim (Bool-cases (leb (length username) 32)) [
    | inr long ↦ absurd (ground arith)
    | inl short ↦ elim (Option-cases users) [
      | inl closed ↦ absurd (ground arith)
      | inr (file, opened) ↦ subst LongWord (sym opened) (
          login_found file username (record s { username = copy_username username }) (ground arith))
    ]
  ]
]

module _ {L : Type 0} {P : Registry → Type 0} {C W : Type 0} where
  session_result :
      (r : Result Session (Unit {0})) (c : Context L)
      → ((x : Unit {0}) (t : Session) → r ≢ ok x t)
      → P c.server.registry
      → (r ≡ crash → C)
      → Ends P C W (elim r [
        | ok x s ↦ ok x (record c { session = s })
        | answer t k s ↦ answer t (if k == 1 then 2 else 0) (record c { session = s })
        | crash ↦ crash
      ])
  session_result (ok x s) c answered p fault = absurd (answered x s refl)
  session_result (answer t k s) c answered p fault = answers p
  session_result crash c answered p fault = faults (fault refl)

  session-Ends :
      (m : Handler Session (Unit {0})) (c : Context L)
      → Answers m
      → P c.server.registry
      → (m c.session ≡ crash → C)
      → Ends P C W (on_session m c)
  unfolding on_session
  session-Ends m c answered p fault =
      session_result (m c.session) c (λ x t. answered.at x c.session t) p fault

  server_result :
      (r : Result (Server L) (Unit {0})) (c : Context L)
      → ((x : Unit {0}) (t : Server L) → r ≡ ok x t → W)
      → After P C r
      → Ends P C W (elim r [
        | ok x s ↦ ok x (record c { server = s })
        | answer t k s ↦ answer t k (record c { server = s })
        | crash ↦ crash
      ])
  server_result (ok x s) c sleeps (after_ok p) = waits (sleeps x s refl) p
  server_result (answer t k s) c answered (after_answer p) = answers p
  server_result crash c answered (after_crash f) = faults f

  server-Ends :
      (m : Handler (Server L) (Unit {0})) (c : Context L)
      → ((x : Unit {0}) (t : Server L) → m c.server ≡ ok x t → W)
      → After P C (m c.server)
      → Ends P C W (on_server m c)
  unfolding on_server
  server-Ends m c sleeps after = server_result (m c.server) c sleeps after

-- The command is barrier.
abbrev pub is_barrier : Option Text → Bool
is_barrier none = false
is_barrier (some cmd) = same cmd (codes "barrier")

serve_sleeps :
    (a : Library) (env : Environment) (username cmd saveptr : Text) (s t : Server a.State)
    (x : Unit {0})
    → serve a env username cmd saveptr s ≡ ok x t
    → same cmd (codes "barrier") ≡ true
serve_sleeps a env username cmd saveptr s t x e = elim (Bool-cases (same cmd (codes "barrier"))) [
  | inl barrier ↦ barrier
  | inr other ↦ absurd ((serve-Answers a username saveptr env cmd other).at x s t e)
]

dispatch-Ends :
    (a : Library) (env : Environment) (tokens : Option Text × Text) (c : Context a.State)
    → env.memory ≡ true
    → AllHaveMemory c.server.registry
    → Ends AllHaveMemory
        (Fault a env.users tokens.1)
        (is_barrier tokens.0 ≡ true)
        (dispatch a env tokens c)
unfolding dispatch
dispatch-Ends a env (none, saveptr) c memory v = answers v
dispatch-Ends a env (some cmd, saveptr) c memory v = elim (Bool-cases (is_forbidden cmd)) [
  | inl forbidden ↦ rw forbidden (answers v)
  | inr allowed ↦ elim (Bool-cases (same cmd (codes "Login"))) [
    | inl login ↦
        rw (allowed, login)
          (session-Ends (handle_login env.users saveptr) c (login-Answers env.users saveptr) v
            λ e. Fault.long_word (login_crash env.users saveptr c.session e))
    | inr other ↦
        rw (allowed, other)
          (server-Ends (serve a env c.session.username cmd saveptr) c
            (λ x t. serve_sleeps a env c.session.username cmd saveptr c.server t x)
            ((serve-KeepsAll a env memory c.session.username cmd saveptr).at c.server v))
  ]
]

pub answered :
    {L : Type 0} {P : Registry → Type 0} {C W : Type 0} {response : Text} {status : ℕ}
    {c : Context L}
    → Ends P C W (answer response status c)
    → P c.server.registry
answered (answers p) = p

pub asleep :
    {L : Type 0} {P : Registry → Type 0} {C W : Type 0} {x : Unit {0}} {c : Context L}
    → Ends P C W (ok x c)
    → P c.server.registry
asleep (waits w p) = p

abbrev pub command_of : Text → Option Text
command_of command_line = (strtok (without_newline command_line)).0

abbrev pub arguments_of : Text → Text
arguments_of command_line = (strtok (without_newline command_line)).1

pub process-Ends :
    (a : Library) (env : Environment) (command_line : Text) (c : Context a.State)
    → env.memory ≡ true
    → AllHaveMemory c.server.registry
    → Ends AllHaveMemory
        (Fault a env.users (arguments_of command_line))
        (is_barrier (command_of command_line) ≡ true)
        (process_rpc_command a env command_line c)
unfolding process_rpc_command
process-Ends a env command_line c memory v =
    dispatch-Ends a env (strtok (without_newline command_line)) c memory v
