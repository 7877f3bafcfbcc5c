-- ===== src/Dispatch/Answers.antt =====
-- The responses of the handlers.
use pointerpro_animate.Base.{
  ◌≡◌, ◌≢◌, Bool, true, false, Option, none, some, ℕ, zero, suc, if◌then◌else◌,
}
use pointerpro_animate.Base.Int.{ℤ, pos, negsuc}
use pointerpro_animate.Text.{Text, codes, same}
use pointerpro_animate.Registry.{find_canvas_node}
use pointerpro_animate.Library.{Library}
use pointerpro_animate.Rpc.{Result, ok, answer, crash, Handler, ◌>>=◌, respond}
use pointerpro_animate.Rpc.Canvas.{
  handle_create_canvas, handle_destroy_canvas, destroy_found, destroy_unregistered, share_found,
  handle_share_canvas,
}
use pointerpro_animate.Rpc.Sprite.{
  register_sprite, handle_create_rectangle, handle_create_circle, handle_create_sprite,
  handle_destroy_sprite,
}
use pointerpro_animate.Rpc.Placement.{
  handle_place_sprite, handle_set_animation_params, handle_placement_up, handle_placement_down,
  handle_placement_top, handle_placement_bottom, handle_destroy_placement,
}
use pointerpro_animate.Users.{login_answer, handle_login}
use pointerpro_animate.Generate.{Host, generate_video, handle_generate}
use pointerpro_animate.Dispatch.{Environment, serve}

-- The handler never goes on.
pub record Answers {S A : Type 0} (m : Handler S A) : Type 0 where
  pub at : (x : A) (s t : S) → m s ≢ ok x t

module _ {S : Type 0} where
  pub Answers-respond : {A : Type 0} (t : Text) → Answers {S = S} {A = A} (respond t)
  unfolding respond
  Answers-respond t = record { at = λ x s u e. cc }

  pub Answers-crash : {A : Type 0} → Answers {S = S} {A = A} (λ s. crash)
  Answers-crash = record { at = λ x s u e. cc }

  Answers-answer : {A : Type 0} (t : Text) (k : ℕ) → Answers {S = S} {A = A} (λ s. answer t k s)
  Answers-answer t k = record { at = λ x s u e. cc }

  bind_result :
      {A B : Type 0} (r : Result S A) {f : A → Handler S B}
      → ((x : A) → Answers (f x))
      → (y : B) (t : S)
      → elim r [ ok a s' ↦ f a s' | answer t k s' ↦ answer t k s' | crash ↦ crash ] ≢ ok y t
  bind_result (ok x s) next y t e = (next x).at y s t e
  bind_result (answer u k s) next y t e = cc
  bind_result crash next y t e = cc

  pub Answers-bind :
      {A B : Type 0} (m : Handler S A) {f : A → Handler S B}
      → ((x : A) → Answers (f x))
      → Answers (m >>= f)
  unfolding ◌>>=◌
  Answers-bind m next = record { at = λ y s t. bind_result (m s) next y t }

  pub Answers-if :
      {A : Type 0} (b : Bool) {m k : Handler S A}
      → Answers m
      → Answers k
      → Answers (if b then m else k)
  Answers-if true yes_case no_case = yes_case
  Answers-if false yes_case no_case = no_case

  pub Answers-unless :
      {A : Type 0} {b : Bool} (m : Handler S A) {k : Handler S A}
      → b ≡ false
      → Answers k
      → Answers (if b then m else k)
  Answers-unless m e no_case = rw e no_case

  pub Answers-case :
      {A B : Type 0} (o : Option A) {m : Handler S B} {f : A → Handler S B}
      → Answers m
      → ((x : A) → Answers (f x))
      → Answers (elim o [ none ↦ m | some x ↦ f x ])
  Answers-case none nothing next = nothing
  Answers-case (some x) nothing next = next x

ruleset answer_rules = (Answers-bind, Answers-respond, Answers-crash, Answers-if, Answers-case)

module _ (a : Library) (username saveptr : Text) where
  create_canvas-Answers : (memory : Bool) → Answers (handle_create_canvas a memory username saveptr)
  unfolding handle_create_canvas
  create_canvas-Answers memory = search answer_rules depth 20

  create_rectangle-Answers :
      (memory : Bool) → Answers (handle_create_rectangle a memory username saveptr)
  unfolding handle_create_rectangle register_sprite
  create_rectangle-Answers memory = search answer_rules depth 20

  create_circle-Answers : (memory : Bool) → Answers (handle_create_circle a memory username saveptr)
  unfolding handle_create_circle register_sprite
  create_circle-Answers memory = search answer_rules depth 20

  create_sprite-Answers : (memory : Bool) → Answers (handle_create_sprite a memory username saveptr)
  unfolding handle_create_sprite register_sprite
  create_sprite-Answers memory = search answer_rules depth 20

  destroy_sprite-Answers : Answers (handle_destroy_sprite a username saveptr)
  unfolding handle_destroy_sprite
  destroy_sprite-Answers = search answer_rules depth 20

  place_sprite-Answers : (memory : Bool) → Answers (handle_place_sprite a memory username saveptr)
  unfolding handle_place_sprite
  place_sprite-Answers memory = search answer_rules depth 20

  set_animation_params-Answers : Answers (handle_set_animation_params a username saveptr)
  unfolding handle_set_animation_params
  set_animation_params-Answers = search answer_rules depth 20

  placement_up-Answers : Answers (handle_placement_up a username saveptr)
  unfolding handle_placement_up
  placement_up-Answers = search answer_rules depth 20

  placement_down-Answers : Answers (handle_placement_down a username saveptr)
  unfolding handle_placement_down
  placement_down-Answers = search answer_rules depth 20

  placement_top-Answers : Answers (handle_placement_top a username saveptr)
  unfolding handle_placement_top
  placement_top-Answers = search answer_rules depth 20

  placement_bottom-Answers : Answers (handle_placement_bottom a username saveptr)
  unfolding handle_placement_bottom
  placement_bottom-Answers = search answer_rules depth 20

  destroy_placement-Answers : Answers (handle_destroy_placement a username saveptr)
  unfolding handle_destroy_placement
  destroy_placement-Answers = search answer_rules depth 20

  destroy_canvas-Answers : Answers (handle_destroy_canvas a username saveptr)
  unfolding handle_destroy_canvas destroy_found destroy_unregistered
  destroy_canvas-Answers = Answers-bind _ λ h. Answers-bind _ λ address. Answers-bind _ λ r.
      Answers-case (find_canvas_node address r.canvases) (search answer_rules depth 20)
        λ n. search answer_rules depth 20

  share_canvas-Answers :
      (memory : Bool) (authorised : Text → Bool)
      → Answers (handle_share_canvas a memory authorised username saveptr)
  unfolding handle_share_canvas share_found
  share_canvas-Answers memory authorised = search answer_rules depth 20

  generate-Answers : (host : Host) → Answers (handle_generate a host username saveptr)
  unfolding handle_generate generate_video
  generate-Answers host = search answer_rules depth 30

  -- Only the barrier may leave its thread asleep.
  pub serve-Answers :
      (env : Environment) (cmd : Text)
      → same cmd (codes "barrier") ≡ false
      → Answers (serve a env username cmd saveptr)
  unfolding serve
  serve-Answers env cmd other =
      search
        (
          Answers-if, Answers-respond, Answers-answer, create_canvas-Answers,
          create_rectangle-Answers, create_circle-Answers, create_sprite-Answers,
          destroy_sprite-Answers, place_sprite-Answers, set_animation_params-Answers,
          placement_up-Answers, placement_down-Answers, placement_top-Answers,
          placement_bottom-Answers, destroy_placement-Answers, destroy_canvas-Answers,
          share_canvas-Answers, generate-Answers, Answers-unless, other,
        )
        depth 40

login_answer-Answers : (found : Option (Option ℤ)) → Answers (login_answer found)
unfolding login_answer
login_answer-Answers none = record { at = λ x s t e. cc }
login_answer-Answers (some none) = record { at = λ x s t e. cc }
login_answer-Answers (some (some (pos zero))) = record { at = λ x s t e. cc }
login_answer-Answers (some (some (pos (suc n)))) = record { at = λ x s t e. cc }
login_answer-Answers (some (some (negsuc n))) = record { at = λ x s t e. cc }

pub login-Answers : (users : Option Text) (saveptr : Text) → Answers (handle_login users saveptr)
unfolding handle_login
login-Answers users saveptr = Answers-bind _ λ username. Answers-bind _ λ short.
    Answers-bind _
      λ named. Answers-case users (Answers-answer _ _) λ content. login_answer-Answers _
