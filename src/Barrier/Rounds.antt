-- ===== src/Barrier/Rounds.antt =====
-- What holds at a barrier in every state that can be reached.
use pointerpro_animate.Base.{
  ℕ, ◌+◌, ◌*◌, ◌≤◌, ◌<◌, ◌≡◌, refl, ap, ◌∙◌, false, ltb, ◌==◌, if◌then◌else◌, Bool-cases, ◌⊎◌, inl,
  inr, List, [], ◌∷◌, ◌++◌, arith, length, length-append,
}
use pointerpro_animate.Barrier.{
  arrive, must_wait, Caller, Barrier, start, Step, completes, sleeps, passes, sleeps_again, wakes,
  Steps, done, next,
}

-- How many of the callers are of round `k`.
abbrev pub tally : ℕ → List Caller → ℕ
tally k [] = 0
tally k (c ∷ cs) = (if c.round == k then 1 else 0) + tally k cs

-- So many callers of round `k` have arrived.
abbrev pub arrived_in : ℕ → Barrier → ℕ
arrived_in k s = tally k s.passed + tally k s.woken + tally k s.waiting

-- So many there are of it when `rounds` rounds are complete and `count` callers are in the next.
abbrev pub due : (expected rounds count k : ℕ) → ℕ
due expected rounds count k = if ltb k rounds then expected else if k == rounds then count else 0

-- Every caller that has arrived is somewhere, and each round has as many as it should; between rounds
-- nobody sleeps; none of a round that is not complete has passed.
pub record Inv (expected : ℕ) (s : Barrier) : Type 0 where
  pub total : length s.passed + length s.woken + length s.waiting ≡ s.arrivals
  pub arrived : s.arrivals ≡ expected * s.rounds + s.count
  pub below : s.count < expected
  pub each : (k : ℕ) → arrived_in k s ≡ due expected s.rounds s.count k
  pub past : (k : ℕ) → s.rounds ≤ k → tally k s.passed ≡ 0
  pub nobody : s.count ≡ 0 → length s.waiting ≡ 0

length-middle :
    (before : List Caller) (t : Caller) (others : List Caller)
    → length (before ++ t ∷ others) ≡ length (before ++ others) + 1
length-middle before t others =
    omega (arith, length-append {0} before (t ∷ others), length-append {0} before others)

tally-append : (k : ℕ) (xs ys : List Caller) → tally k (xs ++ ys) ≡ tally k xs + tally k ys
tally-append k [] ys = omega arith
tally-append k (x ∷ xs) ys = omega (arith, tally-append k xs ys)

abbrev one_of : ℕ → Caller → ℕ
one_of k t = if t.round == k then 1 else 0

tally-middle :
    (k : ℕ) (xs before : List Caller) (t : Caller) (others : List Caller)
    → xs ≡ before ++ t ∷ others
    → tally k xs ≡ one_of k t + tally k (before ++ others)
tally-middle k xs before t others e =
    let whole : tally k xs ≡ tally k (before ++ t ∷ others) = ap (tally k) e in
    omega (arith, whole, tally-append k before (t ∷ others), tally-append k before others)

start-Inv : (expected : ℕ) → 1 ≤ expected → Inv expected start
unfolding start
start-Inv expected some_user = record {
  total = refl;
  arrived = omega arith;
  below = omega arith;
  each = λ k. ground arith;
  past = λ k h. refl;
  nobody = λ e. refl;
}

more_round : (e rounds : ℕ) → e * (rounds + 1) ≡ e * rounds + e
more_round e rounds = grind arith

no_count : (count : ℕ) → must_wait count ≡ false → count ≡ 0
unfolding must_wait
no_count count h = ground arith

-- What an arrival adds to its round.
due_full :
    (expected rounds count k n : ℕ)
    → count + 1 ≡ expected
    → n ≡ due expected rounds count k
    → (if rounds == k then 1 else 0) + n ≡ due expected (rounds + 1) 0 k
due_full expected rounds count k n last e = ground arith

due_more :
    (expected rounds count k n : ℕ)
    → n ≡ due expected rounds count k
    → (if rounds == k then 1 else 0) + n ≡ due expected rounds (count + 1) k
due_more expected rounds count k n e = ground arith

-- Nobody of a round that is not complete is awake while the count is 0.
none_early :
    (expected rounds count k one more : ℕ)
    → one + more ≡ due expected rounds count k
    → count ≡ 0
    → rounds ≤ k
    → one ≡ 0
none_early expected rounds count k one more e z h = ground arith

Step-Inv : {expected : ℕ} {s t : Barrier} → Step expected s t → Inv expected s → Inv expected t
unfolding arrive must_wait
Step-Inv {expected} (completes {s} t e) v =
    let last : s.count + 1 ≡ expected = ground (arith, v.below) in
    let none_left : (arrive expected s.count).0 ≡ 0 = ground (arith, v.below) in
    record {
      total = omega (arith, length-append {0} s.woken s.waiting, v.total);
      arrived = ground (arith, more_round expected s.rounds, v.arrived);
      below = ground (arith, v.below);
      each = λ k.
          let added = due_full expected s.rounds s.count k (arrived_in k s) last (v.each k) in
          let moved = tally-append k s.woken s.waiting in
          rw none_left (omega (arith, added, moved));
      past = λ k h. ground (arith, v.past k);
      nobody = λ z. refl;
    }
Step-Inv {expected} (sleeps {s} t e) v =
    let one_more : (arrive expected s.count).0 ≡ s.count + 1 = ground arith in
    record {
      total = omega (arith, v.total);
      arrived = ground (arith, v.arrived);
      below = ground arith;
      each = λ k.
          let added = due_more expected s.rounds s.count k (arrived_in k s) (v.each k) in
          rw one_more (omega (arith, added));
      past = v.past;
      nobody = λ z. ground arith;
    }
Step-Inv {expected} (passes {s} before t others e free) v = record {
  total = omega (arith, v.total, ap length e, length-middle before t others);
  arrived = v.arrived;
  below = v.below;
  each = λ k. omega (arith, v.each k, tally-middle k s.woken before t others e);
  past = λ k h.
      let early =
        none_early expected s.rounds s.count k (one_of k t)
          (tally k s.passed + tally k (before ++ others) + tally k s.waiting)
          (omega (arith, v.each k, tally-middle k s.woken before t others e))
          (no_count s.count free) h in
      omega (arith, early, v.past k h);
  nobody = v.nobody;
}
Step-Inv {expected} (sleeps_again {s} before t others e again) v = record {
  total = omega (arith, v.total, ap length e, length-middle before t others);
  arrived = v.arrived;
  below = v.below;
  each = λ k. omega (arith, v.each k, tally-middle k s.woken before t others e);
  past = v.past;
  nobody = λ z. ground arith;
}
Step-Inv {expected} (wakes {s} before t others e) v = record {
  total = omega (arith, v.total, ap length e, length-middle before t others);
  arrived = v.arrived;
  below = v.below;
  each = λ k. omega (arith, v.each k, tally-middle k s.waiting before t others e);
  past = v.past;
  nobody = λ z. omega (arith, v.nobody z, ap length e, length-middle before t others);
}

pub Steps-Inv :
    {expected : ℕ} {s t : Barrier} → Steps expected s t → Inv expected s → Inv expected t
Steps-Inv done v = v
Steps-Inv (next run step) v = Step-Inv step (Steps-Inv run v)

-- While `expected` users (at least one) are logged in, in every state that can be reached and for every
-- round `k`: the arrivals are the full rounds and the count, which is less than a round; `expected`
-- callers have arrived in the round if it is complete, as many as the count if it is the
-- next, and none if it is later; and if it is not complete, none of its callers has passed: no
-- thread passes before all of its round have arrived.
pub barrier-rounds :
    {expected : ℕ} {s : Barrier} (k : ℕ)
    → 1 ≤ expected
    → Steps expected start s
    → (s.arrivals ≡ expected * s.rounds + s.count)
      × (s.count < expected)
      × (arrived_in k s ≡ due expected s.rounds s.count k)
      × ((k < s.rounds) ⊎ (tally k s.passed ≡ 0))
barrier-rounds {expected} {s} k some_user run =
    let v = Steps-Inv run (start-Inv expected some_user) in
    (
      v.arrived,
      v.below,
      v.each k,
      elim (Bool-cases (ltb k s.rounds)) [
        | inl complete ↦ inl (ground arith)
        | inr begun ↦ inr (v.past k (ground arith))
      ],
    )

pub Steps-append :
    {expected : ℕ} {s t u : Barrier} → Steps expected s t → Steps expected t u → Steps expected s u
Steps-append first done = first
Steps-append first (next run step) = next (Steps-append first run) step

-- Any number of steps in which a caller that is awake passes; nobody wakes or arrives.
pub data Passing (expected : ℕ) : Barrier → Barrier → Type 0 where
  stop : {s : Barrier} → Passing expected s s
  pass :
      {s u : Barrier} (before : List Caller) (t : Caller) (others : List Caller)
      → s.woken ≡ before ++ t ∷ others
      → must_wait s.count ≡ false
      → Passing expected (record s { woken = before ++ others; passed = t ∷ s.passed }) u
      → Passing expected s u

Passing-Steps : {expected : ℕ} {s u : Barrier} → Passing expected s u → Steps expected s u
Passing-Steps stop = done
Passing-Steps (pass before t others e free later) =
    Steps-append (next done (passes before t others e free)) (Passing-Steps later)

-- What passing alone does.
record Passed (s u : Barrier) : Type 0 where
  kept : length u.passed + length u.woken ≡ length s.passed + length s.woken
  same_count : u.count ≡ s.count
  same_arrivals : u.arrivals ≡ s.arrivals
  same_waiting : u.waiting ≡ s.waiting

Passing-Passed : {expected : ℕ} {s u : Barrier} → Passing expected s u → Passed s u
Passing-Passed stop = record {
  kept = refl;
  same_count = refl;
  same_arrivals = refl;
  same_waiting = refl;
}
Passing-Passed (pass before t others e free later) =
    let v = Passing-Passed later in
    record {
      kept = omega (arith, v.kept, ap length e, length-middle before t others);
      same_count = v.same_count;
      same_arrivals = v.same_arrivals;
      same_waiting = v.same_waiting;
    }

-- All that are awake can pass.
all_pass :
    (expected : ℕ) (woken : List Caller) (s : Barrier)
    → s.woken ≡ woken
    → s.count ≡ 0
    → (t : Barrier) × Passing expected s t × (t.woken ≡ [])
unfolding must_wait
all_pass expected [] s e z = (s, stop, e)
all_pass expected (x ∷ woken) s e z =
    let (u, run, none_awake) =
      all_pass expected woken (record s { woken = woken; passed = x ∷ s.passed }) refl z in
    (u, pass [] x woken e (ground arith) run, none_awake)

-- While `expected` users (at least one) are logged in, in every state that can be reached in which the
-- count is 0, as it is after an arrival that completes a round: nobody sleeps any more. The callers
-- can pass one after the other, though nobody arrives and none wakes by chance; and however
-- they have begun to, each in its turn, the rest can follow, until every caller that has arrived has
-- passed.
pub barrier-all_pass :
    {expected : ℕ} {s u : Barrier}
    → 1 ≤ expected
    → Steps expected start s
    → s.count ≡ 0
    → Passing expected s u
    → (s.waiting ≡ [])
      × ((t : Barrier) × Passing expected u t
          × (t.arrivals ≡ s.arrivals)
          × (t.woken ≡ [])
          × (length t.passed ≡ s.arrivals))
barrier-all_pass {expected} {s} {u} some_user run z begun =
    let v = Steps-Inv run (start-Inv expected some_user) in
    let b = Passing-Passed begun in
    let (t, rest, none_awake) = all_pass expected u.woken u refl (b.same_count ∙ z) in
    let c = Passing-Passed rest in
    (
      no_elements s.waiting (v.nobody z),
      (
        t,
        rest,
        c.same_arrivals ∙ b.same_arrivals,
        none_awake,
        omega (arith, c.kept, b.kept, ap length none_awake, v.total, v.nobody z),
      ),
    )
  where
    no_elements : (xs : List Caller) → length xs ≡ 0 → xs ≡ []
    no_elements [] h = refl
    no_elements (x ∷ xs) h = absurd (omega arith)
