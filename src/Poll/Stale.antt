-- ===== src/Poll/Stale.antt =====
-- The positions in session_indices are found before cleanup_inactive_sessions moves the sessions, and
-- used after it.
use pointerpro_animate.Base.{
  ℕ, suc, ◌+◌, ◌≤◌, ◌<◌, ◌≡◌, refl, ap, ◌∙◌, subst, true, false, Option, none, some, List, [], ◌∷◌,
  ◌++◌, arith, if◌then◌else◌, length, get_elem?, take, length-append,
}
use mathlib.Core.List.{append_assoc}
use pointerpro_animate.Text.{Text}
use pointerpro_animate.Session.{Session}
use pointerpro_animate.Session.Order.{has}
use pointerpro_animate.Poll.{
  Heap, Table, write_to, monitored, session_indices, cleanup_inactive_sessions, handle_readable,
  read_client,
}
use pointerpro_animate.Poll.Compact.{
  Holding, actives, freed, IsTable, cleaned, cleanup_run, get-pre, get-kept,
}
use pointerpro_animate.Poll.Cleanup.{take-append}

freed-none :
    (p : ℕ) (ps : List ℕ) (ss : List Session) (h : Heap) → h p ≡ none → freed ps ss h p ≡ none
freed-none p [] ss h gone = gone
freed-none p (q ∷ ps) [] h gone = gone
freed-none p (q ∷ ps) (s ∷ ss) h gone =
    freed-none p ps ss (if s.active then h else write_to q none h) (ground arith)

pub freed_inactive :
    (pre : List ℕ) (p : ℕ) (post : List ℕ) (us : List Session) (s : Session) (ws : List Session)
    (h : Heap)
    → length us ≡ length pre
    → s.active ≡ false
    → freed (pre ++ p ∷ post) (us ++ s ∷ ws) h p ≡ none
freed_inactive [] p post [] s ws h same inactive =
    freed-none p post ws (if s.active then h else write_to p none h) (ground arith)
freed_inactive [] p post (u ∷ us) s ws h same inactive = absurd (omega arith)
freed_inactive (q ∷ pre) p post [] s ws h same inactive = absurd (omega arith)
freed_inactive (q ∷ pre) p post (u ∷ us) s ws h same inactive =
    freed_inactive pre p post us s ws (if u.active then h else write_to q none h) (omega arith)
      inactive

pub monitored_total :
    (h : Heap) (i : ℕ) (ps : List ℕ) (ss : List Session)
    → Holding h ps ss
    → (js : List ℕ) × (monitored h i ps ≡ some js)
unfolding monitored
monitored_total h i [] [] holding = ([], refl)
monitored_total h i [] (s ∷ ss) holding = absurd holding
monitored_total h i (p ∷ ps) [] holding = absurd holding
monitored_total h i (p ∷ ps) (s ∷ ss) holding =
    let (js, run) = monitored_total h (suc i) ps ss holding.1 in
    (if s.active then i ∷ js else js, ground (arith, holding.0))

monitored-has :
    (h : Heap) (i : ℕ) (pre : List ℕ) (p : ℕ) (post : List ℕ) (us : List Session) (s : Session)
    (ws : List Session)
    → length us ≡ length pre
    → Holding h (pre ++ p ∷ post) (us ++ s ∷ ws)
    → s.active ≡ true
    → (js : List ℕ) × (monitored h i (pre ++ p ∷ post) ≡ some js) × (has (i + length pre) js ≡ true)
unfolding monitored
monitored-has h i [] p post [] s ws same holding active =
    let (js, run) = monitored_total h (suc i) post ws holding.1 in
    (i ∷ js, ground (arith, holding.0), ground arith)
monitored-has h i [] p post (u ∷ us) s ws same holding active = absurd (omega arith)
monitored-has h i (q ∷ pre) p post [] s ws same holding active = absurd (omega arith)
monitored-has h i (q ∷ pre) p post (u ∷ us) s ws same holding active =
    let (js, run, watched) =
      monitored-has h (suc i) pre p post us s ws (omega arith) holding.1 active in
    (if u.active then i ∷ js else js, ground (arith, holding.0), ground arith)

watched_run :
    (t : Table) (pre : List ℕ) (p : ℕ) (post : List ℕ) (us : List Session) (s : Session)
    (ws : List Session)
    → length us ≡ length pre
    → IsTable t (pre ++ p ∷ post) (us ++ s ∷ ws)
    → s.active ≡ true
    → (js : List ℕ) × (session_indices t ≡ some js) × (has (length pre) js ≡ true)
unfolding session_indices
watched_run t pre p post us s ws same v active =
    let listed : take t.count t.slots ≡ pre ++ p ∷ post =
      ap (λ n. take n t.slots) v.counted
      ∙ ap (take (length (pre ++ p ∷ post))) v.array
      ∙ take-append (pre ++ p ∷ post) v.tail in
    let (js, run, watched) = monitored-has t.sessions 0 pre p post us s ws same v.holding active in
    (
      js,
      ap (monitored t.sessions 0) listed ∙ run,
      subst (λ n. has n js ≡ true) (omega arith) watched,
    )

pub slot_run :
    (bytes : ℕ → Option Text) (i p : ℕ) (t : Table) (s : Session)
    → get_elem? t.slots i ≡ some p
    → t.sessions p ≡ some s
    → handle_readable bytes i t ≡ some (read_client bytes p s t)
unfolding handle_readable
slot_run bytes i p t s slot held = ground arith

-- Sessions stand in active_sessions at distinct addresses, and the one at the position i is active,
-- so that poll watches it. When a worker has disconnected it by the time of
-- cleanup_inactive_sessions (`u`), and no more than i sessions are left then, the session is freed,
-- and what is readable at i is read for the freed session: the behaviour is undefined.
pub handle_readable_stale :
    (bytes : ℕ → Option Text) (t u : Table) (pre : List ℕ) (p : ℕ) (post : List ℕ)
    (us us' : List Session) (s s' : Session) (ws ws' : List Session)
    → length us ≡ length pre
    → length us' ≡ length pre
    → IsTable t (pre ++ p ∷ post) (us ++ s ∷ ws)
    → IsTable u (pre ++ p ∷ post) (us' ++ s' ∷ ws')
    → s.active ≡ true
    → s'.active ≡ false
    → length (actives (pre ++ p ∷ post) (us' ++ s' ∷ ws')) ≤ length pre
    → (js : List ℕ) × (u' : Table) × (session_indices t ≡ some js)
      × (has (length pre) js ≡ true)
      × (cleanup_inactive_sessions u ≡ some u')
      × (handle_readable bytes (length pre) u' ≡ none)
unfolding handle_readable
handle_readable_stale bytes t u pre p post us us' s s' ws ws' same same' v w active gone few =
    let (js, run, watched) = watched_run t pre p post us s ws same v active in
    let u' : Table = cleaned u (pre ++ p ∷ post) (us' ++ s' ∷ ws') in
    let inside : length pre < length u.slots = omega (
      arith,
      ap (length {A = ℕ}) w.array,
      length-append {0} (pre ++ p ∷ post) w.tail,
      length-append {0} pre (p ∷ post),
    ) in
    let slot : get_elem? u'.slots (length pre) ≡ some p =
      get-kept (actives (pre ++ p ∷ post) (us' ++ s' ∷ ws')) u.slots (length pre) few inside
      ∙ ap (λ xs. get_elem? xs (length pre)) (w.array ∙ append_assoc pre (p ∷ post) w.tail)
      ∙ get-pre pre p (post ++ w.tail) in
    let held : u'.sessions p ≡ none = freed_inactive pre p post us' s' ws' u.sessions same' gone in
    (js, u', run, watched, cleanup_run u (pre ++ p ∷ post) (us' ++ s' ∷ ws') w, ground arith)
