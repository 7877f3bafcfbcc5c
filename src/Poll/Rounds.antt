-- ===== src/Poll/Rounds.antt =====
-- A round of the main loop over sessions that all stay active.
use pointerpro_animate.Base.{
  ℕ, suc, ◌≡◌, refl, ap, ◌∙◌, subst, Bool, Option, some, List, [], ◌∷◌, ◌++◌, arith, length, drop,
  take,
}
use pointerpro_animate.Text.{Text}
use pointerpro_animate.Session.{Session}
use pointerpro_animate.Input.{Request}
use pointerpro_animate.Poll.{
  Heap, Table, monitored, session_indices, cleanup_inactive_sessions, handle_ready, poll_round,
}
use pointerpro_animate.Poll.Compact.{
  Holding, IsTable, actives, freed, cleaned, cleanup_run, freed-Holding, without_inactive,
}
use pointerpro_animate.Poll.Cleanup.{AreActive, take-append}
use pointerpro_animate.Poll.Reads.{
  requests_of, sessions_after, positions, monitored-positions, ready_run,
}

all_actives :
    (ps : List ℕ) (ss : List Session) → length ss ≡ length ps → AreActive ss → actives ps ss ≡ ps
all_actives [] ss same active = refl
all_actives (p ∷ ps) [] same active = absurd (omega arith)
all_actives (p ∷ ps) (s ∷ ss) same active =
    let later = all_actives ps ss (omega arith) active.1 in ground (arith, active.0)

none_inactive : (ss : List Session) → AreActive ss → without_inactive ss ≡ ss
unfolding without_inactive
none_inactive [] active = refl
none_inactive (s ∷ ss) active = let later = none_inactive ss active.1 in ground (arith, active.0)

Holding-length :
    (h : Heap) (ps : List ℕ) (ss : List Session) → Holding h ps ss → length ss ≡ length ps
Holding-length h [] [] holding = refl
Holding-length h [] (s ∷ ss) holding = absurd holding
Holding-length h (p ∷ ps) [] holding = absurd holding
Holding-length h (p ∷ ps) (s ∷ ss) holding = ap suc (Holding-length h ps ss holding.1)

cleaned-IsTable :
    (t : Table) (ps : List ℕ) (ss : List Session)
    → IsTable t ps ss
    → AreActive ss
    → IsTable (cleaned t ps ss) ps ss
cleaned-IsTable t ps ss v active =
    let kept = all_actives ps ss (Holding-length t.sessions ps ss v.holding) active in
    record {
      tail = drop (length (actives ps ss)) t.slots;
      array = ap (λ (xs : List ℕ). xs ++ drop (length (actives ps ss)) t.slots) kept;
      counted = ap (length {A = ℕ}) kept;
      apart = v.apart;
      holding =
          subst (λ xs. Holding (freed ps ss t.sessions) xs ss) kept
            (subst (Holding (freed ps ss t.sessions) (actives ps ss)) (none_inactive ss active)
              (freed-Holding ps ss t.sessions v.apart v.holding));
    }

indices_run :
    (t : Table) (ps : List ℕ) (ss : List Session)
    → IsTable t ps ss
    → AreActive ss
    → session_indices t ≡ some (positions 0 ps)
unfolding session_indices
indices_run t ps ss v active =
    ap (monitored t.sessions 0)
      (ap (λ n. take n t.slots) v.counted ∙ ap (take (length ps)) v.array ∙ take-append ps v.tail)
    ∙ monitored-positions t.sessions 0 ps ss v.holding active

-- What the round comes to when these positions are watched, and this is left by the clean-up.
round_run :
    (ready : ℕ → Bool) (bytes : ℕ → Option Text) (workers : Table → Table) (t u : Table) (i : ℕ)
    (indices : List ℕ) (r : List (ℕ × Request) × Table)
    → session_indices t ≡ some (i ∷ indices)
    → cleanup_inactive_sessions (workers t) ≡ some u
    → handle_ready ready bytes (i ∷ indices) u ≡ some r
    → poll_round ready bytes workers t ≡ some r
unfolding poll_round
round_run ready bytes workers t u i indices r watched cleans handles =
    rw (poll_round, watched, cleans, handles) (ground arith)

idle_run :
    (ready : ℕ → Bool) (bytes : ℕ → Option Text) (workers : Table → Table) (t : Table)
    → session_indices t ≡ some []
    → poll_round ready bytes workers t ≡ some ([], t)
unfolding poll_round
idle_run ready bytes workers t watched = rw (poll_round, watched) refl

-- The sessions `ss` stand in active_sessions at distinct addresses `ps`, all of them active; while
-- poll waits, the workers change them to `us`, and disconnect none. Then a round of the main loop
-- ends: the requests of the readable sessions go to the work queue, session by session in the order of the
-- array, and each session is left as its own read leaves it, at its own address.
pub poll_round-requests_of :
    (ready : ℕ → Bool) (bytes : ℕ → Option Text) (workers : Table → Table) (t : Table) (ps : List ℕ)
    (ss us : List Session)
    → IsTable t ps ss
    → AreActive ss
    → IsTable (workers t) ps us
    → AreActive us
    → (t' : Table) × (poll_round ready bytes workers t ≡ some (requests_of ready bytes 0 ps us, t'))
      × IsTable t' ps (sessions_after ready bytes 0 ps us)
poll_round-requests_of ready bytes workers t [] ss us v active w active' = (
  t,
  idle_run ready bytes workers t (indices_run t [] ss v active),
  record { tail = v.tail; array = v.array; counted = v.counted; apart = tt; holding = tt },
)
poll_round-requests_of ready bytes workers t (p ∷ ps) ss us v active w active' =
    let u : Table = cleaned (workers t) (p ∷ ps) us in
    let x : IsTable u (p ∷ ps) us = cleaned-IsTable (workers t) (p ∷ ps) us w active' in
    let (h, run, holding, others) =
      ready_run ready bytes [] (p ∷ ps) x.tail us u x.array x.apart x.holding in
    (
      record u { sessions = h },
      round_run ready bytes workers t u 0 (positions 1 ps) _ (indices_run t (p ∷ ps) ss v active)
          (cleanup_run (workers t) (p ∷ ps) us w) run,
      record {
        tail = x.tail;
        array = x.array;
        counted = x.counted;
        apart = x.apart;
        holding = holding;
      },
    )
