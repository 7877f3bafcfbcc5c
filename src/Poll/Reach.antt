-- ===== src/Poll/Reach.antt =====
-- The states that the table of sessions reaches.
use pointerpro_animate.Base.{
  ℕ, ◌≡◌, refl, ap, ◌∙◌, subst, Bool, true, false, Option, none, some, List, [], ◌∷◌, arith, ◌==◌,
  if◌then◌else◌, length, drop, take, get_elem?, Option-cases, Bool-cases, inl, inr,
}
use pointerpro_animate.Text.{Text}
use pointerpro_animate.Session.{Session}
use pointerpro_animate.Session.Order.{has}
use pointerpro_animate.Input.{Request, on_readable}
use pointerpro_animate.Poll.{
  Heap, Table, write_to, session_indices, read_client, handle_readable, handle_ready, poll_round,
  accepted, accept_client,
}
use pointerpro_animate.Poll.Compact.{
  Holding, Apart, IsTable, actives, freed, cleaned, cleanup_run, freed-Holding, without_inactive,
}
use pointerpro_animate.Poll.Cleanup.{take-append}
use pointerpro_animate.Poll.Reads.{joins, goes_on}
use pointerpro_animate.Poll.Accept.{accept_client-all_checked}

-- The array is the same, and no session is freed; what is in the sessions may change.
pub record Keeps (t u : Table) : Type 0 where
  pub same_slots : u.slots ≡ t.slots
  pub same_count : u.count ≡ t.count
  pub alive :
      (p : ℕ) (s : Session) → t.sessions p ≡ some s → (s' : Session) × (u.sessions p ≡ some s')

-- From the start on, clients are accepted at addresses that malloc takes for no other session of the array,
-- rounds of the main loop end, and the workers change sessions at any time.
pub data Reached : Table → Type 0 where
  starts : (h : Heap) → Reached (record { slots = []; count = 0; sessions = h })
  accepts :
      {t t' : Table} (exists : ℕ → Bool) (p pid : ℕ) (garbage : Text)
      → Reached t
      → has p (take t.count t.slots) ≡ false
      → accept_client true (some p) exists pid garbage t ≡ some (accepted t')
      → Reached t'
  polls :
      {t t' : Table} {requests : List (ℕ × Request)} (ready : ℕ → Bool) (bytes : ℕ → Option Text)
      (workers : Table → Table)
      → Reached t
      → Keeps t (workers t)
      → poll_round ready bytes workers t ≡ some (requests, t')
      → Reached t'
  works : {t u : Table} → Reached t → Keeps t u → Reached u

Keeps-refl : (t : Table) → Keeps t t
Keeps-refl t = record { same_slots = refl; same_count = refl; alive = λ p s held. (s, held) }

Keeps-trans : (t u v : Table) → Keeps t u → Keeps u v → Keeps t v
Keeps-trans t u v k l = record {
  same_slots = l.same_slots ∙ k.same_slots;
  same_count = l.same_count ∙ k.same_count;
  alive = λ p s held. let (s', held') = k.alive p s held in l.alive p s' held';
}

Keeps-Holding :
    (t u : Table) (ps : List ℕ) (ss : List Session)
    → Keeps t u
    → Holding t.sessions ps ss
    → (us : List Session) × Holding u.sessions ps us
Keeps-Holding t u [] ss k holding = ([], tt)
Keeps-Holding t u (p ∷ ps) [] k holding = absurd holding
Keeps-Holding t u (p ∷ ps) (s ∷ ss) k holding =
    let (s', held) = k.alive p s holding.0 in
    let (us, rest) = Keeps-Holding t u ps ss k holding.1 in (s' ∷ us, (held, rest))

pub listed :
    (t : Table) (ps : List ℕ) (ss : List Session) → IsTable t ps ss → take t.count t.slots ≡ ps
listed t ps ss v =
    ap (λ n. take n t.slots) v.counted ∙ ap (take (length ps)) v.array ∙ take-append ps v.tail

-- Some sessions stand in the array at distinct addresses.
abbrev pub Stands : Table → Type 0
Stands t = (ps : List ℕ) × (ss : List Session) × IsTable t ps ss

Keeps-Stands : (t u : Table) → Keeps t u → Stands t → Stands u
Keeps-Stands t u k (ps, ss, v) =
    let (us, holding) = Keeps-Holding t u ps ss k v.holding in
    (
      ps,
      us,
      record {
        tail = v.tail;
        array = k.same_slots ∙ v.array;
        counted = k.same_count ∙ v.counted;
        apart = v.apart;
        holding = holding;
      },
    )

pub write-alive :
    (h : Heap) (p : ℕ) (s : Session) (q : ℕ) (u : Session)
    → h q ≡ some u
    → (u' : Session) × (write_to p (some s) h q ≡ some u')
write-alive h p s q u held = elim (Bool-cases (q == p)) [
  | inl same ↦ (s, ground arith)
  | inr other ↦ (u, ground arith)
]

-- If this comes to a table, no session is freed.
abbrev After : Table → Option (List (ℕ × Request) × Table) → Type 0
After t none = Unit
After t (some (requests, u)) = Keeps t u

read-Keeps :
    (bytes : ℕ → Option Text) (p : ℕ) (s : Session) (t : Table) (read : Option Text)
    → bytes p ≡ read
    → Keeps t (read_client bytes p s t).1
unfolding read_client
read-Keeps bytes p s t none found = rw (read_client, found) (Keeps-refl t)
read-Keeps bytes p s t (some read) found =
    rw (read_client, found)
      (record {
        same_slots = refl;
        same_count = refl;
        alive = write-alive t.sessions p (on_readable read s).1;
      })

readable-After : (bytes : ℕ → Option Text) (i : ℕ) (t : Table) → After t (handle_readable bytes i t)
unfolding handle_readable
readable-After bytes i t = elim (Option-cases (get_elem? t.slots i)) [
  | inl outside ↦ rw (handle_readable, outside) tt
  | inr (p, slot) ↦ elim (Option-cases (t.sessions p)) [
    | inl gone ↦ rw (handle_readable, slot, gone) tt
    | inr (s, held) ↦ rw (handle_readable, slot, held) (read-Keeps bytes p s t (bytes p) refl)
  ]
]

later-After :
    (t u : Table) (requests : List (ℕ × Request)) (o : Option (List (ℕ × Request) × Table))
    → Keeps t u
    → After u o
    → After t (joins requests o)
later-After t u requests none k later = tt
later-After t u requests (some (more, v)) k later = Keeps-trans t u v k later

goes_on-After :
    (ready : ℕ → Bool) (bytes : ℕ → Option Text) (indices : List ℕ) (t : Table)
    (o : Option (List (ℕ × Request) × Table))
    → ((u : Table) → After u (handle_ready ready bytes indices u))
    → After t o
    → After t (goes_on ready bytes indices o)
goes_on-After ready bytes indices t none later here = tt
goes_on-After ready bytes indices t (some (requests, u)) later here =
    later-After t u requests (handle_ready ready bytes indices u) here (later u)

if-After :
    (b : Bool) (t : Table) (o : Option (List (ℕ × Request) × Table))
    → After t o
    → After t (if b then o else some ([], t))
if-After true t o h = h
if-After false t o h = Keeps-refl t

ready-After :
    (ready : ℕ → Bool) (bytes : ℕ → Option Text) (indices : List ℕ) (t : Table)
    → After t (handle_ready ready bytes indices t)
unfolding handle_ready
ready-After ready bytes [] t = Keeps-refl t
ready-After ready bytes (i ∷ indices) t =
    goes_on-After ready bytes indices t
      (if ready i then handle_readable bytes i t else some ([], t))
      (ready-After ready bytes indices)
      (if-After (ready i) t (handle_readable bytes i t) (readable-After bytes i t))

has-actives :
    (q : ℕ) (ps : List ℕ) (ss : List Session) → has q ps ≡ false → has q (actives ps ss) ≡ false
has-actives q [] ss out = refl
has-actives q (p ∷ ps) [] out = refl
has-actives q (p ∷ ps) (s ∷ ss) out = ground (arith, has-actives q ps ss)

actives-Apart : (ps : List ℕ) (ss : List Session) → Apart ps → Apart (actives ps ss)
actives-Apart [] ss apart = tt
actives-Apart (p ∷ ps) [] apart = tt
actives-Apart (p ∷ ps) (s ∷ ss) apart = elim (Bool-cases s.active) [
  | inl active ↦ rw active (has-actives p ps ss apart.0, actives-Apart ps ss apart.1)
  | inr inactive ↦ rw inactive (actives-Apart ps ss apart.1)
]

cleaned-Stands :
    (t : Table) (ps : List ℕ) (ss : List Session) → IsTable t ps ss → Stands (cleaned t ps ss)
cleaned-Stands t ps ss v = (
  actives ps ss,
  without_inactive ss,
  record {
    tail = drop (length (actives ps ss)) t.slots;
    array = refl;
    counted = refl;
    apart = actives-Apart ps ss v.apart;
    holding = freed-Holding ps ss t.sessions v.apart v.holding;
  },
)

-- If this comes to a table, sessions stand in it.
abbrev Leads : Option (List (ℕ × Request) × Table) → Type 0
Leads none = Unit
Leads (some (requests, u)) = Stands u

After-Leads : (t : Table) (o : Option (List (ℕ × Request) × Table)) → Stands t → After t o → Leads o
After-Leads t none v k = tt
After-Leads t (some (requests, u)) v k = Keeps-Stands t u k v

poll-Leads :
    (ready : ℕ → Bool) (bytes : ℕ → Option Text) (workers : Table → Table) (t : Table)
    → Stands t
    → Keeps t (workers t)
    → Leads (poll_round ready bytes workers t)
unfolding poll_round
poll-Leads ready bytes workers t v k = elim (Option-cases (session_indices t)) [
  | inl freed ↦ rw (poll_round, freed) tt
  | inr (indices, watched) ↦ elim (Bool-cases (length indices == 0)) [
    | inl idle ↦ rw (poll_round, watched, idle) v
    | inr busy ↦
        let (ps, us, w) = Keeps-Stands t (workers t) k v in
        rw (poll_round, watched, busy, cleanup_run (workers t) ps us w)
          (After-Leads (cleaned (workers t) ps us)
            (handle_ready ready bytes indices (cleaned (workers t) ps us))
            (cleaned-Stands (workers t) ps us w)
            (ready-After ready bytes indices (cleaned (workers t) ps us)))
  ]
]

accepts-Stands :
    (exists : ℕ → Bool) (p pid : ℕ) (garbage : Text) (t t' : Table)
    → Stands t
    → has p (take t.count t.slots) ≡ false
    → accept_client true (some p) exists pid garbage t ≡ some (accepted t')
    → Stands t'
accepts-Stands exists p pid garbage t t' (ps, ss, v) new run =
    let (u, run', w) =
      accept_client-all_checked exists p pid garbage t ps ss v
        (subst (λ xs. has p xs ≡ false) (listed t ps ss v) new) in
    let same : u ≡ t' = cc in subst Stands same (_, _, w)

pub Reached-Stands : {t : Table} → Reached t → Stands t
Reached-Stands (starts h) =
    ([], [], record { tail = []; array = refl; counted = refl; apart = tt; holding = tt })
Reached-Stands (accepts {t} {t'} exists p pid garbage before new run) =
    accepts-Stands exists p pid garbage t t' (Reached-Stands before) new run
Reached-Stands (polls {t} {t'} ready bytes workers before keeps run) =
    subst Leads run (poll-Leads ready bytes workers t (Reached-Stands before) keeps)
Reached-Stands (works {t} {u} before keeps) = Keeps-Stands t u keeps (Reached-Stands before)
