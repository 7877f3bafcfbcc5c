-- ===== src/Rpc/After.antt =====
-- What holds of the global lists when a handler has returned, in whatever way.
use pointerpro_animate.Base.{ℕ, Bool, true, false, Option, none, some, ◌≡◌, refl, ap, if◌then◌else◌}
use pointerpro_animate.Text.{Text, strtok}
use pointerpro_animate.Registry.{Registry}
use pointerpro_animate.Rpc.{
  Server, Output, Result, ok, answer, crash, Handler, ◌>>=◌, ◌>>◌, next_argument, or_respond,
  ensure, call, read, output, respond, put_registry, get_registry, rpc_failed,
}

-- A crash returns nothing, and needs `C`.
pub data After {L A : Type 0} (P : Registry → Type 0) (C : Type 0)
    : Result (Server L) A → Type 0 where
  after_ok : {x : A} {s : Server L} → P s.registry → After P C (ok x s)
  after_answer : {t : Text} {k : ℕ} {s : Server L} → P s.registry → After P C (answer t k s)
  after_crash : C → After P C crash

-- The handler keeps `P`, and crashes only where `C` holds.
pub record Keeps {L A : Type 0} (P : Registry → Type 0) (C : Type 0) (m : Handler (Server L) A)
    : Type 0 where
  pub at : (s : Server L) → P s.registry → After P C (m s)

module _ {L : Type 0} {P : Registry → Type 0} {C : Type 0} where
  after_bind :
      {A B : Type 0} (r : Result (Server L) A) (f : A → Handler (Server L) B)
      → After P C r
      → ((x : A) → Keeps P C (f x))
      → After P C (elim r [ ok a s' ↦ f a s' | answer t k s' ↦ answer t k s' | crash ↦ crash ])
  after_bind r f (after_ok {x} {s} p) next = (next x).at s p
  after_bind r f (after_answer p) next = after_answer p
  after_bind r f (after_crash c) next = after_crash c

  pub keep_bind :
      {A B : Type 0} {m : Handler (Server L) A} {f : A → Handler (Server L) B}
      → Keeps P C m
      → ((x : A) → Keeps P C (f x))
      → Keeps P C (m >>= f)
  unfolding ◌>>=◌
  keep_bind {m} {f} first next = record { at = λ s p. after_bind (m s) f (first.at s p) next }

  -- What is read satisfies `P`.
  pub keep_get :
      {B : Type 0} {f : Registry → Handler (Server L) B}
      → ((r : Registry) → P r → Keeps P C (f r))
      → Keeps P C (get_registry >>= f)
  unfolding ◌>>=◌ get_registry
  keep_get next = record { at = λ s p. (next s.registry p).at s p }

  pub keep_put : (r : Registry) → P r → Keeps {L = L} P C (put_registry r)
  unfolding put_registry
  keep_put r p = record { at = λ s q. after_ok p }

  after_token :
      (token : Option Text) (rest : Text) (s : Server L)
      → P s.registry
      → After {A = Text × Text} P C
          (elim token [ none ↦ answer rpc_failed 0 s | some t ↦ ok (t, rest) s ])
  after_token none rest s p = after_answer p
  after_token (some t) rest s p = after_ok p

  pub keep_argument : (saveptr : Text) → Keeps {L = L} P C (next_argument saveptr)
  unfolding next_argument
  keep_argument saveptr = record {
    at = λ s p. after_token (strtok saveptr).0 (strtok saveptr).1 s p;
  }

  after_option :
      {A : Type 0} (o : Option A) (t : Text) (s : Server L)
      → P s.registry
      → After P C (or_respond o t s)
  unfolding or_respond
  after_option none t s p = after_answer p
  after_option (some x) t s p = after_ok p

  pub keep_or : {A : Type 0} (o : Option A) (t : Text) → Keeps {L = L} P C (or_respond o t)
  keep_or o t = record { at = λ s p. after_option o t s p }

  after_test : (b : Bool) (t : Text) (s : Server L) → P s.registry → After P C (ensure b t s)
  unfolding ensure
  after_test true t s p = after_ok p
  after_test false t s p = after_answer p

  pub keep_ensure : (b : Bool) (t : Text) → Keeps {L = L} P C (ensure b t)
  keep_ensure b t = record { at = λ s p. after_test b t s p }

  pub keep_respond : {A : Type 0} (t : Text) → Keeps {L = L} {A = A} P C (respond t)
  unfolding respond
  keep_respond t = record { at = λ s p. after_answer p }

  after_call :
      {A : Type 0} (o : Option (A × L)) (s : Server L)
      → (o ≡ none → C)
      → P s.registry
      → After P C (elim o [ none ↦ crash | some (a, l) ↦ ok a (record s { library = l }) ])
  after_call none s fault p = after_crash (fault refl)
  after_call (some (a, l)) s fault p = after_ok p

  pub keep_call :
      {A : Type 0} (f : L → Option (A × L)) → ((l : L) → f l ≡ none → C) → Keeps P C (call f)
  unfolding call
  keep_call f fault = record { at = λ s p. after_call (f s.library) s (fault s.library) p }

  after_read :
      {A : Type 0} (o : Option A) (s : Server L)
      → (o ≡ none → C)
      → P s.registry
      → After P C (elim o [ none ↦ crash | some x ↦ ok x s ])
  after_read none s fault p = after_crash (fault refl)
  after_read (some x) s fault p = after_ok p

  pub keep_read : {A : Type 0} (f : L → Option A) → ((l : L) → f l ≡ none → C) → Keeps P C (read f)
  unfolding read
  keep_read f fault = record { at = λ s p. after_read (f s.library) s (fault s.library) p }

  pub keep_output : (o : Output) → Keeps {L = L} P C (output o)
  unfolding output
  keep_output o = record { at = λ s p. after_ok p }

  pub keep_crash : {A : Type 0} → C → Keeps {L = L} {A = A} P C (λ s. crash)
  keep_crash c = record { at = λ s p. after_crash c }

  pub keep_if :
      {A : Type 0} (b : Bool) {m k : Handler (Server L) A}
      → Keeps P C m
      → Keeps P C k
      → Keeps P C (if b then m else k)
  keep_if true yes_case no_case = yes_case
  keep_if false yes_case no_case = no_case

  -- The same, with what the test or the lookup has shown.
  pub keep_if_eq :
      {A : Type 0} (b : Bool) {m k : Handler (Server L) A}
      → (b ≡ true → Keeps P C m)
      → (b ≡ false → Keeps P C k)
      → Keeps P C (if b then m else k)
  keep_if_eq true yes_case no_case = yes_case refl
  keep_if_eq false yes_case no_case = no_case refl

  pub keep_or_eq :
      {A B : Type 0} (o : Option A) (t : Text) {f : A → Handler (Server L) B}
      → ((x : A) → o ≡ some x → Keeps P C (f x))
      → Keeps P C (or_respond o t >>= f)
  unfolding ◌>>=◌ or_respond
  keep_or_eq none t next = record { at = λ s p. after_answer p }
  keep_or_eq (some x) t next = record { at = λ s p. (next x refl).at s p }

  token_next :
      {B : Type 0} (f : Text × Text → Handler (Server L) B) (token : Option Text) (rest : Text)
      (s : Server L)
      → P s.registry
      → ((t : Text) → token ≡ some t → Keeps P C (f (t, rest)))
      → After P C
          (((λ q. elim token [ none ↦ answer rpc_failed 0 q | some t ↦ ok (t, rest) q ]) >>= f) s)
  unfolding ◌>>=◌
  token_next f none rest s p next = after_answer p
  token_next f (some t) rest s p next = (next t refl).at s p

  -- The argument, with what strtok has given.
  pub keep_argument_eq :
      {B : Type 0} (saveptr : Text) (f : Text × Text → Handler (Server L) B)
      → ((t rest : Text) → strtok saveptr ≡ (some t, rest) → Keeps P C (f (t, rest)))
      → Keeps P C (next_argument saveptr >>= f)
  unfolding ◌>>=◌ next_argument
  keep_argument_eq saveptr f next = record {
    at = λ s p.
        token_next f (strtok saveptr).0 (strtok saveptr).1 s p
          λ t e. next t (strtok saveptr).1 (ap (λ o. (o, (strtok saveptr).1)) e);
  }

  pub keep_ensure_eq :
      {B : Type 0} (b : Bool) (t : Text) {m : Handler (Server L) B}
      → (b ≡ true → Keeps P C m)
      → Keeps P C (ensure b t >> m)
  unfolding ◌>>=◌ ensure
  keep_ensure_eq true t next = record { at = λ s p. (next refl).at s p }
  keep_ensure_eq false t next = record { at = λ s p. after_answer p }

  pub keep_ok : {A : Type 0} (x : A) → Keeps {L = L} P C (λ s. ok x s)
  keep_ok x = record { at = λ s p. after_ok p }

  pub keep_case :
      {A B : Type 0} (o : Option A) {m : Handler (Server L) B} {f : A → Handler (Server L) B}
      → Keeps P C m
      → ((x : A) → o ≡ some x → Keeps P C (f x))
      → Keeps P C (elim o [ none ↦ m | some x ↦ f x ])
  keep_case none nothing next = nothing
  keep_case (some x) nothing next = next x refl

after_weaken :
    {L A : Type 0} {P : Registry → Type 0} {C D : Type 0} (r : Result (Server L) A)
    → (C → D)
    → After P C r
    → After P D r
after_weaken r f (after_ok p) = after_ok p
after_weaken r f (after_answer p) = after_answer p
after_weaken r f (after_crash c) = after_crash (f c)

pub keep_weaken :
    {L A : Type 0} {P : Registry → Type 0} {C D : Type 0} (m : Handler (Server L) A)
    → (C → D)
    → Keeps P C m
    → Keeps P D m
keep_weaken m f k = record { at = λ s p. after_weaken (m s) f (k.at s p) }
