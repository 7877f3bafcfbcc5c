-- ===== src/Poll/Accept.antt =====
-- A new client in the main loop: its session stands behind those of the other clients.
use pointerpro_animate.Base.{
  ℕ, ◌+◌, ◌≡◌, refl, sym, ap, ◌∙◌, Bool, true, false, Option, none, some, List, [], ◌∷◌, ◌++◌,
  arith, ◌==◌, if◌then◌else◌, length, take, length-append, Bool-cases, inl, inr,
}
use mathlib.Core.List.{append-nil}
use pointerpro_animate.Text.{Text}
use pointerpro_animate.Session.{Session, new_session}
use pointerpro_animate.Session.Order.{has}
use pointerpro_animate.Input.{disconnect_client}
use pointerpro_animate.Poll.{Heap, Table, write_to, disconnect_dead, accepted, accept_client}
use pointerpro_animate.Poll.Compact.{Holding, Apart, IsTable}
use pointerpro_animate.Poll.Cleanup.{take-append}
use pointerpro_animate.Poll.Reads.{Written, write-Written, Written-Holding}

-- The session when it has been asked for its client.
abbrev pub checked : (exists : ℕ → Bool) → Session → Session
checked exists s = if exists s.client_pid then s else disconnect_client s

abbrev pub all_checked : (exists : ℕ → Bool) → List Session → List Session
all_checked exists [] = []
all_checked exists (s ∷ ss) = checked exists s ∷ all_checked exists ss

Apart-snoc : (ps : List ℕ) (p : ℕ) → Apart ps → has p ps ≡ false → Apart (ps ++ p ∷ [])
Apart-snoc [] p apart new = (refl, tt)
Apart-snoc (q ∷ ps) p apart new =
    (has_snoc q ps p apart.0 (ground arith), Apart-snoc ps p apart.1 (ground arith))
  where
    has_snoc :
        (q : ℕ) (ps : List ℕ) (p : ℕ)
        → has q ps ≡ false
        → (p == q) ≡ false
        → has q (ps ++ p ∷ []) ≡ false
    has_snoc q [] p out other = ground arith
    has_snoc q (r ∷ ps) p out other = ground (arith, has_snoc q ps p)

Holding-snoc :
    (h : Heap) (ps : List ℕ) (ss : List Session) (p : ℕ) (s : Session)
    → Holding h ps ss
    → h p ≡ some s
    → Holding h (ps ++ p ∷ []) (ss ++ s ∷ [])
Holding-snoc h [] [] p s holding here = (here, tt)
Holding-snoc h [] (u ∷ ss) p s holding here = absurd holding
Holding-snoc h (q ∷ ps) [] p s holding here = absurd holding
Holding-snoc h (q ∷ ps) (u ∷ ss) p s holding here =
    (holding.0, Holding-snoc h ps ss p s holding.1 here)

checked-Written :
    (exists : ℕ → Bool) (h : Heap) (p : ℕ) (s : Session)
    → h p ≡ some s
    → Written h p
        (checked exists s)
        (if exists s.client_pid then h else write_to p (some (disconnect_client s)) h)
checked-Written exists h p s held = elim (Bool-cases (exists s.client_pid)) [
  | inl lives ↦ rw lives (held, λ q other. refl)
  | inr dead ↦ rw dead (write-Written h p (disconnect_client s))
]

abbrev asks : (ℕ → Bool) → ℕ → List ℕ → Heap → Option Session → Option Heap
asks exists p ps h none = none
asks exists p ps h (some s) =
    disconnect_dead exists ps
      (if exists s.client_pid then h else write_to p (some (disconnect_client s)) h)

dead_next :
    (exists : ℕ → Bool) (p : ℕ) (ps : List ℕ) (h : Heap) (s : Session)
    → h p ≡ some s
    → disconnect_dead exists (p ∷ ps) h
      ≡ disconnect_dead exists ps
          (if exists s.client_pid then h else write_to p (some (disconnect_client s)) h)
unfolding disconnect_dead
dead_next exists p ps h s held = ap (asks exists p ps h) held

pub dead_run :
    (exists : ℕ → Bool) (ps : List ℕ) (ss : List Session) (h : Heap)
    → Apart ps
    → Holding h ps ss
    → (h' : Heap) × (disconnect_dead exists ps h ≡ some h')
      × Holding h' ps (all_checked exists ss)
      × ((q : ℕ) → has q ps ≡ false → h' q ≡ h q)
unfolding disconnect_dead
dead_run exists [] [] h apart holding = (h, refl, tt, λ q out. refl)
dead_run exists [] (s ∷ ss) h apart holding = absurd holding
dead_run exists (p ∷ ps) [] h apart holding = absurd holding
dead_run exists (p ∷ ps) (s ∷ ss) h apart holding =
    let h1 : Heap = if exists s.client_pid then h else write_to p (some (disconnect_client s)) h in
    let written : Written h p (checked exists s) h1 = checked-Written exists h p s holding.0 in
    let (h', run, holding', others) =
      dead_run exists ps ss h1 apart.1
        (Written-Holding h p (checked exists s) h1 ps ss written apart.0 holding.1) in
    (
      h',
      dead_next exists p ps h s holding.0 ∙ run,
      (others p apart.0 ∙ written.0, holding'),
      λ q out. others q (ground arith) ∙ written.1 q (ground arith),
    )

pub accept_run :
    (exists : ℕ → Bool) (p pid : ℕ) (garbage : Text) (t : Table) (h : Heap)
    → disconnect_dead exists (take t.count t.slots) t.sessions ≡ some h
    → accept_client true (some p) exists pid garbage t
      ≡ some (
          accepted (record {
            slots = take t.count t.slots ++ p ∷ [];
            count = t.count + 1;
            sessions = write_to p (some (new_session pid garbage)) h;
          }))
unfolding accept_client
accept_run exists p pid garbage t h run = rw (accept_client, run) refl

-- The sessions `ss` stand in active_sessions at distinct addresses `ps`, and malloc gives an address
-- that is none of these. Then a new client is accepted: the array holds the same sessions, those
-- disconnected whose process does not exist any more, and behind them the new session, again at
-- distinct addresses.
pub accept_client-all_checked :
    (exists : ℕ → Bool) (p pid : ℕ) (garbage : Text) (t : Table) (ps : List ℕ) (ss : List Session)
    → IsTable t ps ss
    → has p ps ≡ false
    → (t' : Table) × (accept_client true (some p) exists pid garbage t ≡ some (accepted t'))
      × IsTable t' (ps ++ p ∷ []) (all_checked exists ss ++ new_session pid garbage ∷ [])
accept_client-all_checked exists p pid garbage t ps ss v new =
    let listed : take t.count t.slots ≡ ps =
      ap (λ n. take n t.slots) v.counted ∙ ap (take (length ps)) v.array ∙ take-append ps v.tail in
    let (h, run, holding, others) = dead_run exists ps ss t.sessions v.apart v.holding in
    let s = new_session pid garbage in
    let written = write-Written h p s in
    (
      _,
      accept_run exists p pid garbage t h
          (ap (λ xs. disconnect_dead exists xs t.sessions) listed ∙ run),
      record {
        tail = [];
        array = ap (λ (xs : List ℕ). xs ++ p ∷ []) listed ∙ sym (append-nil (ps ++ p ∷ []));
        counted = omega (arith, v.counted, length-append {0} ps (p ∷ []));
        apart = Apart-snoc ps p v.apart new;
        holding =
            Holding-snoc _ ps (all_checked exists ss) p s
              (Written-Holding h p s _ ps (all_checked exists ss) written new holding) written.0;
      },
    )
