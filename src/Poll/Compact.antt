-- ===== src/Poll/Compact.antt =====
-- The loop of cleanup_inactive_sessions moves the active sessions to the front of the array.
use pointerpro_animate.Base.{
  ℕ, zero, suc, ◌≤◌, ◌<◌, ◌≡◌, refl, sym, ap, ◌∙◌, subst, true, false, Option, none, some, List, [],
  ◌∷◌, ◌++◌, arith, if◌then◌else◌, length, drop, set, get_elem?, length-append, Bool-cases, inl,
  inr,
}
use mathlib.Core.List.{append_assoc, append-nil}
use pointerpro_animate.Session.{Session}
use pointerpro_animate.Session.Order.{has}
use pointerpro_animate.Poll.{Heap, Table, write_to, cleanup_loop, cleanup_inactive_sessions}

-- The sessions that are active.
unfoldable pub without_inactive : List Session → List Session
without_inactive [] = []
without_inactive (s ∷ sessions) =
    if s.active then s ∷ without_inactive sessions else without_inactive sessions

-- The addresses hold these sessions.
abbrev pub Holding : Heap → List ℕ → List Session → Type 0
Holding h [] [] = Unit
Holding h [] (s ∷ ss) = ⊥
Holding h (p ∷ ps) [] = ⊥
Holding h (p ∷ ps) (s ∷ ss) = (h p ≡ some s) × Holding h ps ss

abbrev pub Apart : List ℕ → Type 0
Apart [] = Unit
Apart (p ∷ ps) = (has p ps ≡ false) × Apart ps

-- The addresses of the active sessions.
abbrev pub actives : List ℕ → List Session → List ℕ
actives [] ss = []
actives (p ∷ ps) [] = []
actives (p ∷ ps) (s ∷ ss) = if s.active then p ∷ actives ps ss else actives ps ss

-- The others are freed.
abbrev pub freed : List ℕ → List Session → Heap → Heap
freed [] ss h = h
freed (p ∷ ps) [] h = h
freed (p ∷ ps) (s ∷ ss) h = freed ps ss (if s.active then h else write_to p none h)

pub Holding-write :
    (h : Heap) (p : ℕ) (v : Option Session) (ps : List ℕ) (ss : List Session)
    → has p ps ≡ false
    → Holding h ps ss
    → Holding (write_to p v h) ps ss
Holding-write h p v [] [] out holding = tt
Holding-write h p v [] (s ∷ ss) out holding = absurd holding
Holding-write h p v (q ∷ ps) [] out holding = absurd holding
Holding-write h p v (q ∷ ps) (s ∷ ss) out holding =
    (ground (arith, holding.0), Holding-write h p v ps ss (ground arith) holding.1)

drop_next :
    (kept orig : List ℕ) (p : ℕ)
    → length kept < length orig
    → set (kept ++ drop (length kept) orig) (length kept) p
      ≡ (kept ++ p ∷ []) ++ drop (length (kept ++ p ∷ [])) orig
drop_next kept [] p h = elim h [ ]
drop_next [] (q ∷ orig) p h = refl
drop_next (k ∷ kept) (q ∷ orig) p h =
    ap (λ (t : List ℕ). k ∷ t) (drop_next kept orig p (omega arith))

pub get-kept :
    (kept orig : List ℕ) (i : ℕ)
    → length kept ≤ i
    → i < length orig
    → get_elem? (kept ++ drop (length kept) orig) i ≡ get_elem? orig i
get-kept kept [] i h inside = elim inside [ ]
get-kept [] (q ∷ orig) i h inside = refl
get-kept (k ∷ kept) (q ∷ orig) zero h inside = absurd (omega arith)
get-kept (k ∷ kept) (q ∷ orig) (suc i) h inside = get-kept kept orig i (omega arith) (omega arith)

pub get-pre :
    (pre : List ℕ) (p : ℕ) (post : List ℕ) → get_elem? (pre ++ p ∷ post) (length pre) ≡ some p
get-pre [] p post = refl
get-pre (q ∷ pre) p post = get-pre pre p post

pub length-snoc : (xs : List ℕ) (p : ℕ) → length (xs ++ p ∷ []) ≡ suc (length xs)
length-snoc xs p = omega (arith, length-append {0} xs (p ∷ []))

module _ (rounds i write_idx p : ℕ) (slots : List ℕ) (h : Heap) (s : Session)
    (slot : get_elem? slots i ≡ some p) (held : h p ≡ some s) where
  keeps_active :
      s.active ≡ true
      → cleanup_loop (suc rounds) i write_idx slots h
        ≡ cleanup_loop rounds (suc i) (suc write_idx) (set slots write_idx p) h
  unfolding cleanup_loop
  keeps_active active = ground arith

  frees_inactive :
      s.active ≡ false
      → cleanup_loop (suc rounds) i write_idx slots h
        ≡ cleanup_loop rounds (suc i) write_idx slots (write_to p none h)
  unfolding cleanup_loop
  frees_inactive inactive = ground arith

-- What the loop leaves, from the array `orig` with the entries `kept` at the front.
abbrev result : (kept orig : List ℕ) → Heap → Table
result kept orig h = record {
  slots = kept ++ drop (length kept) orig;
  count = length kept;
  sessions = h;
}

-- The rounds for the sessions `ps`, which stand behind `pre` in the array.
loop_run :
    (kept pre ps tail orig : List ℕ) (ss : List Session) (h : Heap)
    → orig ≡ pre ++ (ps ++ tail)
    → length kept ≤ length pre
    → Apart ps
    → Holding h ps ss
    → cleanup_loop (length ps) (length pre) (length kept) (kept ++ drop (length kept) orig) h
      ≡ some (result (kept ++ actives ps ss) orig (freed ps ss h))
loop_run kept pre [] tail orig [] h split behind apart holding =
    unfold cleanup_loop in rw (append-nil kept)
loop_run kept pre [] tail orig (s ∷ ss) h split behind apart holding = absurd holding
loop_run kept pre (p ∷ ps) tail orig [] h split behind apart holding = absurd holding
loop_run kept pre (p ∷ ps) tail orig (s ∷ ss) h split behind apart holding =
    let inside : length pre < length orig =
      omega (arith, ap (length {A = ℕ}) split, length-append {0} pre (p ∷ (ps ++ tail))) in
    let here : get_elem? (kept ++ drop (length kept) orig) (length pre) ≡ some p =
      get-kept kept orig (length pre) behind inside
      ∙ ap (λ xs. get_elem? xs (length pre)) split
      ∙ get-pre pre p (ps ++ tail) in
    let split' : orig ≡ (pre ++ p ∷ []) ++ (ps ++ tail) =
      split ∙ sym (append_assoc pre (p ∷ []) (ps ++ tail)) in
    elim (Bool-cases s.active) [
      | inl active ↦
          keeps_active (length ps) (length pre) (length kept) p _ h s here holding.0 active
          ∙ rw
              (
                active,
                drop_next kept orig p (omega arith),
                ← length-snoc pre p,
                ← length-snoc kept p,
                ← append_assoc kept (p ∷ []) (actives ps ss),
              )
              (loop_run (kept ++ p ∷ []) (pre ++ p ∷ []) ps tail orig ss h split'
                (omega (arith, length-snoc pre p, length-snoc kept p)) apart.1 holding.1)
      | inr inactive ↦
          frees_inactive (length ps) (length pre) (length kept) p _ h s here holding.0 inactive
          ∙ rw (inactive, ← length-snoc pre p)
              (loop_run kept (pre ++ p ∷ []) ps tail orig ss (write_to p none h) split'
                (omega (arith, length-snoc pre p)) apart.1
                (Holding-write h p none ps ss apart.0 holding.1))
    ]

-- The sessions `ss` stand in the array at the addresses `ps`, which are distinct.
pub record IsTable (t : Table) (ps : List ℕ) (ss : List Session) : Type 0 where
  pub tail : List ℕ
  pub array : t.slots ≡ ps ++ tail
  pub counted : t.count ≡ length ps
  pub apart : Apart ps
  pub holding : Holding t.sessions ps ss

-- The table that cleanup_inactive_sessions leaves.
abbrev pub cleaned : Table → List ℕ → List Session → Table
cleaned t ps ss = result (actives ps ss) t.slots (freed ps ss t.sessions)

pub cleanup_run :
    (t : Table) (ps : List ℕ) (ss : List Session)
    → IsTable t ps ss
    → cleanup_inactive_sessions t ≡ some (cleaned t ps ss)
unfolding cleanup_inactive_sessions
cleanup_run t ps ss v =
    rw v.counted
      (loop_run [] [] ps v.tail t.slots ss t.sessions v.array (omega arith) v.apart v.holding)

pub freed_other :
    (p : ℕ) (ps : List ℕ) (ss : List Session) (h : Heap) → has p ps ≡ false → freed ps ss h p ≡ h p
freed_other p [] ss h out = refl
freed_other p (q ∷ ps) [] h out = refl
freed_other p (q ∷ ps) (s ∷ ss) h out =
    freed_other p ps ss (if s.active then h else write_to q none h) (ground arith) ∙ ground arith

pub freed-Holding :
    (ps : List ℕ) (ss : List Session) (h : Heap)
    → Apart ps
    → Holding h ps ss
    → Holding (freed ps ss h) (actives ps ss) (without_inactive ss)
unfolding without_inactive
freed-Holding [] [] h apart holding = tt
freed-Holding [] (s ∷ ss) h apart holding = absurd holding
freed-Holding (p ∷ ps) [] h apart holding = absurd holding
freed-Holding (p ∷ ps) (s ∷ ss) h apart holding = elim (Bool-cases s.active) [
  | inl active ↦
      subst
        (λ b.
          Holding (freed ps ss (if b then h else write_to p none h))
            (if b then p ∷ actives ps ss else actives ps ss)
            (if b then s ∷ without_inactive ss else without_inactive ss))
        (sym active)
        (freed_other p ps ss h apart.0 ∙ holding.0, freed-Holding ps ss h apart.1 holding.1)
  | inr inactive ↦
      subst
        (λ b.
          Holding (freed ps ss (if b then h else write_to p none h))
            (if b then p ∷ actives ps ss else actives ps ss)
            (if b then s ∷ without_inactive ss else without_inactive ss))
        (sym inactive)
        (freed-Holding ps ss (write_to p none h) apart.1
          (Holding-write h p none ps ss apart.0 holding.1))
]
