-- ===== src/Linked/Layers.antt =====
-- The commands that change the order of the layers, from the text of the command to the list of layers.
use pointerpro_animate.Base.{
  ℕ, ◌^◌, ◌<◌, ◌≡◌, ◌≢◌, refl, ap, ◌∙◌, subst, true, Option, some, List, [], ◌∷◌, ◌++◌, arith,
}
use mathlib.Core.List.{append_assoc}
use pointerpro_animate.Text.{Text, codes, strtok, break_space, same, print_ulong, without_newline}
use pointerpro_animate.Text.RoundTrip.{
  strtok-print_ulong, print_ulong-starts_digit, length-starts_digit,
}
use pointerpro_animate.Users.Scan.{no_white-decimal, without_newline-command}
use pointerpro_animate.Registry.{validate_placement_access}
use pointerpro_animate.Library.{Library}
use pointerpro_animate.Rpc.{
  Server, ok, answer, commands, success, Handler, call, respond, ◌>>=◌, ◌>>◌,
}
use pointerpro_animate.Rpc.Handles.{handle_argument-print_ulong}
use pointerpro_animate.Rpc.Placement.{
  placement_argument, handle_placement_up, handle_placement_down, handle_placement_top,
  handle_placement_bottom,
}
use pointerpro_animate.Dispatch.{Environment, Context, dispatch, on_server, process_rpc_command}
use pointerpro_animate.Animate.{Ptr, Store}
use pointerpro_animate.Animate.Focus.{has, IsCanvas}
use pointerpro_animate.Animate.Relink.{Relinked}
use pointerpro_animate.Animate.Spec.{raise, lower, to_top, to_bottom}
use pointerpro_animate.Animate.Order.{
  placement_up-raise, placement_down-lower, placement_top-to_top, placement_bottom-to_bottom,
}
use pointerpro_animate.Linked.{Outside, linked}

ok_then :
    {S A B : Type 0} (m : Handler S A) (k : A → Handler S B) (s t : S) (x : A)
    → m s ≡ ok x t
    → (m >>= k) s ≡ k x t
unfolding ◌>>=◌
ok_then m k s t x run = ground arith

module _ (a : Library) (s : Server a.State) (username : Text) (p : ℕ) (ne : p ≢ 0)
    (small : p < 2 ^ 64) (access : validate_placement_access p username s.registry ≡ true) where
  argument_run : placement_argument a username (print_ulong p) s ≡ ok p s
  unfolding placement_argument commands
  argument_run =
      let token = strtok-print_ulong p in
      let handle = handle_argument-print_ulong p ne small in ground arith

  acts_run :
      (op : ℕ → a.State → Option (Unit {0} × a.State)) (l : a.State)
      → op p s.library ≡ some (tt, l)
      → (placement_argument a username (print_ulong p) >>= λ q.
            (call (op q) >> respond {A = Unit {0}} success))
          s
        ≡ answer success 0 (record s { library = l })
  unfolding commands
  acts_run op l run =
      ok_then (placement_argument a username (print_ulong p)) _ s s p argument_run ∙ ground arith

module _ (a : Library) (env : Environment) (command : Text) (p : ℕ) (c : Context a.State) where
  -- A command with a handle.
  abbrev with_handle : Text
  with_handle = command ++ 32 ∷ print_ulong p

  whole_line : without_newline with_handle ≡ with_handle
  unfolding print_ulong
  whole_line =
      subst (λ t. without_newline t ≡ t) (append_assoc command (32 ∷ []) (print_ulong p))
        (without_newline-command (command ++ 32 ∷ []) (print_ulong p)
          (no_white-decimal 19 p [] refl)
          (length-starts_digit (print_ulong p) (print_ulong-starts_digit p)))

  server_run :
      (handler : Handler (Server a.State) (Unit {0})) (s : Server a.State)
      → handler c.server ≡ answer success 0 s
      → on_server handler c ≡ answer success 0 (record c { server = s })
  unfolding on_server
  server_run handler s run = ground arith

  number_run :
      (handler : Handler (Server a.State) (Unit {0})) (s : Server a.State)
      → strtok with_handle ≡ (some command, print_ulong p)
      → dispatch a env (some command, print_ulong p) c ≡ on_server handler c
      → handler c.server ≡ answer success 0 s
      → process_rpc_command a env with_handle c ≡ answer success 0 (record c { server = s })
  unfolding process_rpc_command
  number_run handler s split sent run =
      ap (λ t. dispatch a env (strtok t) c) whole_line
      ∙ ap (λ t. dispatch a env t c) split
      ∙ sent
      ∙ server_run handler s run

-- The command with this handle succeeds, and changes nothing but the library's state.
abbrev pub Runs :
    (a : Library) → Environment → (command : Text) → ℕ → Context a.State → a.State → Type 0
Runs a env command p c l =
    process_rpc_command a env (command ++ 32 ∷ print_ulong p) c
    ≡ answer success 0 (record c { server = record c.server { library = l } })

module _ (a : Library) (env : Environment) (p : ℕ) (c : Context a.State) (ne : p ≢ 0)
    (small : p < 2 ^ 64)
    (access : validate_placement_access p c.session.username c.server.registry ≡ true) where
  up_sent :
      (x : Text)
      → dispatch a env (some (codes "placement_up"), x) c
        ≡ on_server (handle_placement_up a c.session.username x) c
  unfolding dispatch same
  up_sent x = refl

  placement_up_run :
      (l : a.State)
      → a.placement_up p c.server.library ≡ some (tt, l)
      → Runs a env (codes "placement_up") p c l
  unfolding strtok break_space handle_placement_up
  placement_up_run l run =
      number_run a env (codes "placement_up") p c
        (handle_placement_up a c.session.username (print_ulong p)) (record c.server { library = l })
        refl (up_sent (print_ulong p))
        (acts_run a c.server c.session.username p ne small access a.placement_up l run)

  down_sent :
      (x : Text)
      → dispatch a env (some (codes "placement_down"), x) c
        ≡ on_server (handle_placement_down a c.session.username x) c
  unfolding dispatch same
  down_sent x = refl

  placement_down_run :
      (l : a.State)
      → a.placement_down p c.server.library ≡ some (tt, l)
      → Runs a env (codes "placement_down") p c l
  unfolding strtok break_space handle_placement_down
  placement_down_run l run =
      number_run a env (codes "placement_down") p c
        (handle_placement_down a c.session.username (print_ulong p))
        (record c.server { library = l }) refl (down_sent (print_ulong p))
        (acts_run a c.server c.session.username p ne small access a.placement_down l run)

  top_sent :
      (x : Text)
      → dispatch a env (some (codes "placement_top"), x) c
        ≡ on_server (handle_placement_top a c.session.username x) c
  unfolding dispatch same
  top_sent x = refl

  placement_top_run :
      (l : a.State)
      → a.placement_top p c.server.library ≡ some (tt, l)
      → Runs a env (codes "placement_top") p c l
  unfolding strtok break_space handle_placement_top
  placement_top_run l run =
      number_run a env (codes "placement_top") p c
        (handle_placement_top a c.session.username (print_ulong p))
        (record c.server { library = l }) refl (top_sent (print_ulong p))
        (acts_run a c.server c.session.username p ne small access a.placement_top l run)

  bottom_sent :
      (x : Text)
      → dispatch a env (some (codes "placement_bottom"), x) c
        ≡ on_server (handle_placement_bottom a c.session.username x) c
  unfolding dispatch same
  bottom_sent x = refl

  placement_bottom_run :
      (l : a.State)
      → a.placement_bottom p c.server.library ≡ some (tt, l)
      → Runs a env (codes "placement_bottom") p c l
  unfolding strtok break_space handle_placement_bottom
  placement_bottom_run l run =
      number_run a env (codes "placement_bottom") p c
        (handle_placement_bottom a c.session.username (print_ulong p))
        (record c.server { library = l }) refl (bottom_sent (print_ulong p))
        (acts_run a c.server c.session.username p ne small access a.placement_bottom l run)

-- The command takes the layers of the canvas `k` from `xs` to `ys`.
abbrev pub Orders :
    (o : Outside)
    → Environment
    → (command : Text) → ℕ
    → Context Store
    → (k : Ptr) → (xs ys : List Ptr) → Type 0
Orders o env command p c k xs ys =
    (t : Store) × Runs (linked o) env command p c t
    × IsCanvas t k ys
    × Relinked k xs c.server.library t

-- On the server linked with animate.c, for a user with access to the placement `p`, a 64-bit address
-- other than 0, on a well-formed canvas that has a second placement: each of the commands
-- placement_up, placement_down, placement_top and placement_bottom, with the handle as the server
-- prints it, answers "0" and takes the layers to the list with the placement one further up, one
-- further down, in front or at the end; nothing but links on this canvas changes, and neither do
-- the registry and the session.
pub process_rpc_command-Orders :
    (o : Outside) (env : Environment) (c : Context Store) (k p : Ptr) (xs : List Ptr)
    → p ≢ 0
    → p < 2 ^ 64
    → validate_placement_access p c.session.username c.server.registry ≡ true
    → IsCanvas c.server.library k xs
    → has p xs ≡ true
    → xs ≢ p ∷ []
    → Orders o env (codes "placement_up") p c k xs (raise p xs)
      × Orders o env (codes "placement_down") p c k xs (lower p xs)
      × Orders o env (codes "placement_top") p c k xs (to_top p xs)
      × Orders o env (codes "placement_bottom") p c k xs (to_bottom p xs)
process_rpc_command-Orders o env c k p xs ne small access v on several =
    let s = c.server.library in
    let (t1, run1, v1, r1) = placement_up-raise s k p xs v on in
    let (t2, run2, v2, r2) = placement_down-lower s k p xs v on several in
    let (t3, run3, v3, r3) = placement_top-to_top s k p xs v on in
    let (t4, run4, v4, r4) = placement_bottom-to_bottom s k p xs v on in
    (
      (t1, placement_up_run (linked o) env p c ne small access t1 run1, v1, r1),
      (t2, placement_down_run (linked o) env p c ne small access t2 run2, v2, r2),
      (t3, placement_top_run (linked o) env p c ne small access t3 run3, v3, r3),
      (t4, placement_bottom_run (linked o) env p c ne small access t4 run4, v4, r4),
    )
