-- ===== src/Poll/Reads.antt =====
-- The loop of the main loop over the descriptors, when each belongs to its own session.
use pointerpro_animate.Base.{
  ℕ, suc, ◌≡◌, refl, sym, ap, ◌∙◌, subst, Bool, true, false, Option, none, some, List, [], ◌∷◌,
  ◌++◌, arith, ◌==◌, if◌then◌else◌, length, get_elem?,
}
use mathlib.Core.List.{append_assoc}
use pointerpro_animate.Text.{Text}
use pointerpro_animate.Session.{Session}
use pointerpro_animate.Session.Order.{has}
use pointerpro_animate.Input.{Request, on_readable}
use pointerpro_animate.Poll.{
  Heap, Table, write_to, monitored, tagged, read_client, handle_readable, handle_ready,
}
use pointerpro_animate.Poll.Compact.{Holding, Apart, get-pre, length-snoc}
use pointerpro_animate.Poll.Stale.{slot_run}
use pointerpro_animate.Poll.Cleanup.{AreActive}

-- The session when its descriptor has been looked at, and the requests that this gives.
abbrev pub after_read : (ready : Bool) → Option Text → Session → List Request × Session
after_read false read s = ([], s)
after_read true none s = ([], s)
after_read true (some read) s = on_readable read s

-- The same for each of these sessions, from position `i` on, in their order.
abbrev pub requests_of :
    (ready : ℕ → Bool) → (ℕ → Option Text) → ℕ → List ℕ → List Session → List (ℕ × Request)
requests_of ready bytes i [] ss = []
requests_of ready bytes i (p ∷ ps) [] = []
requests_of ready bytes i (p ∷ ps) (s ∷ ss) =
    tagged p (after_read (ready i) (bytes p) s).0 ++ requests_of ready bytes (suc i) ps ss

abbrev pub sessions_after :
    (ready : ℕ → Bool) → (ℕ → Option Text) → ℕ → List ℕ → List Session → List Session
sessions_after ready bytes i [] ss = []
sessions_after ready bytes i (p ∷ ps) [] = []
sessions_after ready bytes i (p ∷ ps) (s ∷ ss) =
    (after_read (ready i) (bytes p) s).1 ∷ sessions_after ready bytes (suc i) ps ss

-- The positions from i on.
abbrev pub positions : ℕ → List ℕ → List ℕ
positions i [] = []
positions i (p ∷ ps) = i ∷ positions (suc i) ps

pub monitored-positions :
    (h : Heap) (i : ℕ) (ps : List ℕ) (ss : List Session)
    → Holding h ps ss
    → AreActive ss
    → monitored h i ps ≡ some (positions i ps)
unfolding monitored
monitored-positions h i [] ss holding active = refl
monitored-positions h i (p ∷ ps) [] holding active = absurd holding
monitored-positions h i (p ∷ ps) (s ∷ ss) holding active =
    let later = monitored-positions h (suc i) ps ss holding.1 active.1 in
    ground (arith, holding.0, active.0)

-- The heap with this session at this address.
abbrev pub Written : Heap → ℕ → Session → Heap → Type 0
Written h p s h' = (h' p ≡ some s) × ((q : ℕ) → (q == p) ≡ false → h' q ≡ h q)

pub write-Written : (h : Heap) (p : ℕ) (s : Session) → Written h p s (write_to p (some s) h)
write-Written h p s = (ground arith, λ q other. ground arith)

pub Written-Holding :
    (h : Heap) (p : ℕ) (s : Session) (h' : Heap) (ps : List ℕ) (ss : List Session)
    → Written h p s h'
    → has p ps ≡ false
    → Holding h ps ss
    → Holding h' ps ss
Written-Holding h p v h' [] [] written out holding = tt
Written-Holding h p v h' [] (s ∷ ss) written out holding = absurd holding
Written-Holding h p v h' (q ∷ ps) [] written out holding = absurd holding
Written-Holding h p v h' (q ∷ ps) (s ∷ ss) written out holding = (
  written.1 q (ground arith) ∙ holding.0,
  Written-Holding h p v h' ps ss written (ground arith) holding.1,
)

read_run :
    (bytes : ℕ → Option Text) (p : ℕ) (t : Table) (s : Session) (read : Option Text)
    → t.sessions p ≡ some s
    → bytes p ≡ read
    → (h : Heap) × (read_client bytes p s t
        ≡ (tagged p (after_read true read s).0, record t { sessions = h }))
      × Written t.sessions p (after_read true read s).1 h
unfolding read_client tagged
read_run bytes p t s none held found = (t.sessions, ground arith, (held, λ q other. refl))
read_run bytes p t s (some read) held found = (
  write_to p (some (on_readable read s).1) t.sessions,
  ground arith,
  write-Written t.sessions p (on_readable read s).1,
)

-- One descriptor.
one_run :
    (ready : Bool) (bytes : ℕ → Option Text) (i p : ℕ) (t : Table) (s : Session)
    → get_elem? t.slots i ≡ some p
    → t.sessions p ≡ some s
    → (h : Heap) × ((if ready then handle_readable bytes i t else some ([], t))
        ≡ some (tagged p (after_read ready (bytes p) s).0, record t { sessions = h }))
      × Written t.sessions p (after_read ready (bytes p) s).1 h
unfolding tagged
one_run false bytes i p t s slot held = (t.sessions, refl, (held, λ q other. refl))
one_run true bytes i p t s slot held =
    let (h, run, written) = read_run bytes p t s (bytes p) held refl in
    (h, slot_run bytes i p t s slot held ∙ ap some run, written)

abbrev pub joins :
    List (ℕ × Request) → Option (List (ℕ × Request) × Table) → Option (List (ℕ × Request) × Table)
joins requests none = none
joins requests (some (later, u)) = some (requests ++ later, u)

abbrev pub goes_on :
    (ℕ → Bool)
    → (ℕ → Option Text)
    → List ℕ
    → Option (List (ℕ × Request) × Table)
    → Option (List (ℕ × Request) × Table)
goes_on ready bytes indices none = none
goes_on ready bytes indices (some (requests, t)) =
    joins requests (handle_ready ready bytes indices t)

ready_next :
    (ready : ℕ → Bool) (bytes : ℕ → Option Text) (i : ℕ) (indices : List ℕ) (t t' u : Table)
    (requests later : List (ℕ × Request))
    → (if ready i then handle_readable bytes i t else some ([], t)) ≡ some (requests, t')
    → handle_ready ready bytes indices t' ≡ some (later, u)
    → handle_ready ready bytes (i ∷ indices) t ≡ some (requests ++ later, u)
unfolding handle_ready
ready_next ready bytes i indices t t' u requests later one rest =
    ap (goes_on ready bytes indices) one ∙ ap (joins requests) rest

-- The rest of the loop, from the position behind `pre` on.
pub ready_run :
    (ready : ℕ → Bool) (bytes : ℕ → Option Text) (pre ps tail : List ℕ) (ss : List Session)
    (t : Table)
    → t.slots ≡ pre ++ (ps ++ tail)
    → Apart ps
    → Holding t.sessions ps ss
    → (h : Heap) × (handle_ready ready bytes (positions (length pre) ps) t
        ≡ some (requests_of ready bytes (length pre) ps ss, record t { sessions = h }))
      × Holding h ps (sessions_after ready bytes (length pre) ps ss)
      × ((q : ℕ) → has q ps ≡ false → h q ≡ t.sessions q)
unfolding handle_ready
ready_run ready bytes pre [] tail [] t split apart holding = (t.sessions, refl, tt, λ q out. refl)
ready_run ready bytes pre [] tail (s ∷ ss) t split apart holding = absurd holding
ready_run ready bytes pre (p ∷ ps) tail [] t split apart holding = absurd holding
ready_run ready bytes pre (p ∷ ps) tail (s ∷ ss) t split apart holding =
    let slot : get_elem? t.slots (length pre) ≡ some p =
      ap (λ xs. get_elem? xs (length pre)) split ∙ get-pre pre p (ps ++ tail) in
    let (h, run, written) = one_run (ready (length pre)) bytes (length pre) p t s slot holding.0 in
    let split' : t.slots ≡ (pre ++ p ∷ []) ++ (ps ++ tail) =
      split ∙ sym (append_assoc pre (p ∷ []) (ps ++ tail)) in
    let (h', later, holding', others) =
      ready_run ready bytes (pre ++ p ∷ []) ps tail ss (record t { sessions = h }) split' apart.1
        (Written-Holding t.sessions p _ h ps ss written apart.0 holding.1) in
    let next = length-snoc pre p in
    (
      h',
      ready_next ready bytes (length pre) (positions (suc (length pre)) ps) t
          (record t { sessions = h }) (record t { sessions = h' }) _ _ run
          (subst
            (λ i.
              handle_ready ready bytes (positions i ps) (record t { sessions = h })
              ≡ some (requests_of ready bytes i ps ss, record t { sessions = h' }))
            next later),
      (
        others p apart.0 ∙ written.0,
        subst (λ i. Holding h' ps (sessions_after ready bytes i ps ss)) next holding',
      ),
      λ q out. others q (ground arith) ∙ written.1 q (ground arith),
    )
