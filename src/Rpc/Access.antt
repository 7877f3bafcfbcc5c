-- ===== src/Rpc/Access.antt =====
-- Without access to its canvas nobody changes a placement.
use pointerpro_animate.Base.{
  ◌≡◌, refl, Bool, true, false, Option, none, some, arith, ℕ, ◌⊎◌, inl, inr, Option-cases,
  Bool-cases,
}
use pointerpro_animate.Text.{Text, same, strtok}
use pointerpro_animate.Registry.{
  CanvasNode, PlacementNode, Registry, find_canvas_node, find_placement_node, is_shared,
  client_has_canvas_access, validate_placement_access,
}
use pointerpro_animate.Library.{Library}
use pointerpro_animate.Rpc.{
  Server, Result, ok, answer, crash, Handler, ◌>>=◌, rpc_failed, next_argument, or_respond, ensure,
  get_registry, handle_argument, positive,
}
use pointerpro_animate.Rpc.Placement.{
  placement_argument, handle_set_animation_params, handle_placement_up, handle_placement_down,
  handle_placement_top, handle_placement_bottom, handle_destroy_placement,
}

-- A placement at this address is registered on a registered canvas that the user owns or shares.
abbrev pub HasAccess : ℕ → Text → Registry → Type 0
HasAccess address username r =
    (p : PlacementNode) × (n : CanvasNode) × (find_placement_node address r.placements ≡ some p)
    × (find_canvas_node p.canvas_handle r.canvases ≡ some n)
    × ((same n.owner_username username ≡ true) ⊎ (is_shared username n.shared_usernames ≡ true))

-- The first argument, read by `reads`, is a placement that the user has access to.
abbrev pub MayChange :
    {L : Type 0} → (Text → Option ℕ) → Server L → (username saveptr : Text) → Type 0
MayChange reads s username saveptr =
    (text : Text) × (address : ℕ) × ((strtok saveptr).0 ≡ some text)
    × (reads text ≡ some address)
    × HasAccess address username s.registry

-- In this state the handler answers with status 0 and changes nothing, or `P` holds.
pub record Guarded {S A : Type 0} (s : S) (P : Type 0) (m : Handler S A) : Type 0 where
  pub at : ((t : Text) × (m s ≡ answer t 0 s)) ⊎ P

canvas_access :
    (n : CanvasNode) (username : Text)
    → client_has_canvas_access n username ≡ true
    → (same n.owner_username username ≡ true) ⊎ (is_shared username n.shared_usernames ≡ true)
unfolding client_has_canvas_access
canvas_access n username e = elim (Bool-cases (same n.owner_username username)) [
  | inl owner ↦ inl owner
  | inr other ↦ inr (ground arith)
]

validated :
    (address : ℕ) (username : Text) (r : Registry)
    → validate_placement_access address username r ≡ true
    → HasAccess address username r
unfolding validate_placement_access
validated address username r e = elim (Option-cases (find_placement_node address r.placements)) [
  | inl missing ↦ absurd (ground arith)
  | inr (p, found) ↦ elim (Option-cases (find_canvas_node p.canvas_handle r.canvases)) [
    | inl missing ↦ absurd (ground arith)
    | inr (n, on) ↦ (p, n, found, on, canvas_access n username (ground arith))
  ]
]

module _ {S B : Type 0} {s : S} {P : Type 0} where
  token_given :
      (token : Option Text) (rest : Text) (f : Text × Text → Handler S B)
      → ((text : Text) → token ≡ some text → Guarded s P (f (text, rest)))
      → ((t : Text) × ((elim (elim token as (λ _. Result S (Text × Text)) [
        | none ↦ answer rpc_failed 0 s
        | some u ↦ ok (u, rest) s
      ])
              as (λ _. Result S B) [
                | ok x s' ↦ f x s'
                | answer u k s' ↦ answer u k s'
                | crash ↦ crash
              ])
            ≡ answer t 0 s))
        ⊎ P
  token_given none rest f next = inl (rpc_failed, refl)
  token_given (some text) rest f next = (next text refl).at

  guard_argument :
      (saveptr : Text) (f : Text × Text → Handler S B)
      → ((text : Text)
          → (strtok saveptr).0 ≡ some text
          → Guarded s P (f (text, (strtok saveptr).1)))
      → Guarded s P (next_argument saveptr >>= f)
  unfolding ◌>>=◌ next_argument
  guard_argument saveptr f next = record {
    at = token_given (strtok saveptr).0 (strtok saveptr).1 f next;
  }

  guard_ensure :
      (b : Bool) (t : Text) (f : Unit {0} → Handler S B)
      → (b ≡ true → P)
      → Guarded s P (ensure b t >>= f)
  unfolding ◌>>=◌ ensure
  guard_ensure true t f next = record { at = inr (next refl) }
  guard_ensure false t f next = record { at = inl (t, refl) }

module _ {S A B : Type 0} {s : S} {P : Type 0} where
  guard_or :
      (o : Option A) (t : Text) {f : A → Handler S B}
      → ((x : A) → o ≡ some x → Guarded s P (f x))
      → Guarded s P (or_respond o t >>= f)
  unfolding ◌>>=◌ or_respond
  guard_or none t next = record { at = inl (t, refl) }
  guard_or (some x) t next = record { at = (next x refl).at }

  -- What comes after a refusal is not reached.
  guard_first : {m : Handler S A} (f : A → Handler S B) → Guarded s P m → Guarded s P (m >>= f)
  unfolding ◌>>=◌
  guard_first f g = elim g.at [
    | inl (t, e) ↦ record { at = inl (t, ground arith) }
    | inr p ↦ record { at = inr p }
  ]

guard_registry :
    {L B : Type 0} {s : Server L} {P : Type 0} (f : Registry → Handler (Server L) B)
    → Guarded s P (f s.registry)
    → Guarded s P (get_registry >>= f)
unfolding ◌>>=◌ get_registry
guard_registry f next = record { at = next.at }

module _ (a : Library) (s : Server a.State) (username saveptr : Text) where
  argument-Guarded :
      Guarded s
        (MayChange handle_argument s username saveptr)
        (placement_argument a username saveptr)
  unfolding placement_argument
  argument-Guarded = guard_argument saveptr _ λ text e.
      guard_or (handle_argument text) _ λ address read.
        guard_registry _
          (guard_ensure _ _ _ λ v. (text, address, e, read, validated address username _ v))

  params-Guarded :
      Guarded s
        (MayChange positive s username saveptr)
        (handle_set_animation_params a username saveptr)
  unfolding handle_set_animation_params
  params-Guarded = guard_argument saveptr _ λ text e. guard_argument _ _ λ vx _.
      guard_argument _ _ λ vy _. guard_argument _ _ λ ax _. guard_argument _ _ λ ay _.
        guard_or (positive text) _ λ address read. guard_or _ _ λ _ _. guard_or _ _ λ _ _.
          guard_or _ _ λ _ _. guard_or _ _ λ _ _.
            guard_registry _
              (guard_ensure _ _ _ λ v. (text, address, e, read, validated address username _ v))

  -- Whatever their arguments, each of the six handlers that change a placement answers with status 0
  -- and changes nothing, unless its first argument is the handle of a registered placement on
  -- a registered canvas whose owner is the user, or that is shared with the user.
  pub placement_handlers-Guarded :
      Guarded s
        (MayChange handle_argument s username saveptr)
        (handle_placement_up a username saveptr)
      × Guarded s
          (MayChange handle_argument s username saveptr)
          (handle_placement_down a username saveptr)
      × Guarded s
          (MayChange handle_argument s username saveptr)
          (handle_placement_top a username saveptr)
      × Guarded s
          (MayChange handle_argument s username saveptr)
          (handle_placement_bottom a username saveptr)
      × Guarded s
          (MayChange handle_argument s username saveptr)
          (handle_destroy_placement a username saveptr)
      × Guarded s
          (MayChange positive s username saveptr)
          (handle_set_animation_params a username saveptr)
  unfolding handle_placement_up handle_placement_down handle_placement_top handle_placement_bottom
      handle_destroy_placement
  placement_handlers-Guarded = (
    guard_first _ argument-Guarded,
    guard_first _ argument-Guarded,
    guard_first _ argument-Guarded,
    guard_first _ argument-Guarded,
    guard_first _ argument-Guarded,
    params-Guarded,
  )
