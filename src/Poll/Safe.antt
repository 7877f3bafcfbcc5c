-- ===== src/Poll/Safe.antt =====
-- What has defined behaviour in every state that the table of sessions reaches.
use pointerpro_animate.Base.{
  ℕ, ◌≡◌, refl, ap, ◌∙◌, Bool, true, false, Option, none, some, List, take,
}
use pointerpro_animate.Text.{Text}
use pointerpro_animate.Poll.{
  Heap, Table, monitored, session_indices, cleanup_inactive_sessions, disconnect_dead, Accepted,
  locked, accept_client,
}
use pointerpro_animate.Poll.Compact.{cleaned, cleanup_run}
use pointerpro_animate.Poll.Stale.{monitored_total}
use pointerpro_animate.Poll.Accept.{dead_run, accept_run}
use pointerpro_animate.Poll.Reach.{Reached, Stands, listed, Reached-Stands}

indices_total : (t : Table) → Stands t → (js : List ℕ) × (session_indices t ≡ some js)
unfolding session_indices
indices_total t (ps, ss, v) =
    let (js, run) = monitored_total t.sessions 0 ps ss v.holding in
    (js, ap (monitored t.sessions 0) (listed t ps ss v) ∙ run)

accept_locks :
    (exists : ℕ → Bool) (pid : ℕ) (garbage : Text) (t : Table) (h : Heap)
    → disconnect_dead exists (take t.count t.slots) t.sessions ≡ some h
    → (a : Accepted) × (accept_client true none exists pid garbage t ≡ some a)
unfolding accept_client
accept_locks exists pid garbage t h run = rw (accept_client, run) (_, refl)

asked :
    (exists : ℕ → Bool) (t : Table)
    → Stands t
    → (h : Heap) × (disconnect_dead exists (take t.count t.slots) t.sessions ≡ some h)
asked exists t (ps, ss, v) =
    let (h, run, holding, others) = dead_run exists ps ss t.sessions v.apart v.holding in
    (h, ap (λ xs. disconnect_dead exists xs t.sessions) (listed t ps ss v) ∙ run)

accept_total :
    (enlarged : Bool) (address : Option ℕ) (exists : ℕ → Bool) (pid : ℕ) (garbage : Text)
    (t : Table)
    → Stands t
    → (a : Accepted) × (accept_client enlarged address exists pid garbage t ≡ some a)
unfolding accept_client
accept_total false address exists pid garbage t v = (locked t, refl)
accept_total true none exists pid garbage t v =
    let (h, run) = asked exists t v in accept_locks exists pid garbage t h run
accept_total true (some p) exists pid garbage t v =
    let (h, run) = asked exists t v in (_, accept_run exists p pid garbage t h run)

-- In every state that the table reaches - clients are accepted at addresses that no session of the
-- array has, rounds of the main loop end, and the workers change sessions at any time, but free none
-- and leave the array alone - the entries of active_sessions in use are distinct addresses of
-- sessions that are not freed. So it is defined what finds the positions to watch, what
-- cleanup_inactive_sessions does, and what is done for a new client, whatever realloc, malloc and
-- kill answer.
pub Reached-defined :
    (t : Table) (enlarged : Bool) (address : Option ℕ) (exists : ℕ → Bool) (pid : ℕ)
    (garbage : Text)
    → Reached t
    → Stands t
      × ((js : List ℕ) × (session_indices t ≡ some js))
      × ((u : Table) × (cleanup_inactive_sessions t ≡ some u))
      × ((a : Accepted) × (accept_client enlarged address exists pid garbage t ≡ some a))
Reached-defined t enlarged address exists pid garbage reached =
    let (ps, ss, v) = Reached-Stands reached in
    (
      (ps, ss, v),
      indices_total t (ps, ss, v),
      (cleaned t ps ss, cleanup_run t ps ss v),
      accept_total enlarged address exists pid garbage t (ps, ss, v),
    )
