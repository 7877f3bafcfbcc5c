-- ===== src/Barrier/Stall.antt =====
-- A thread that wakes too late misses its round.
use pointerpro_animate.Base.{
  ℕ, zero, suc, ◌+◌, ◌-◌, ◌≤◌, ◌<◌, ◌≡◌, refl, ap, sym, subst, ◌∙◌, List, [], ◌∷◌, ◌++◌, arith,
  length,
}
use pointerpro_animate.Barrier.{
  arrive, must_wait, Caller, caller, Barrier, start, Step, completes, sleeps, passes, sleeps_again,
  wakes, Steps, done, next,
}
use pointerpro_animate.Barrier.Rounds.{Steps-append}

-- n threads arrive and sleep.
abbrev sleeping : ℕ → List Caller
sleeping zero = []
sleeping (suc n) = record { thread = n; round = 0 } ∷ sleeping n

length-sleeping : (n : ℕ) → length (sleeping n) ≡ n
length-sleeping zero = refl
length-sleeping (suc n) = omega (arith, length-sleeping n)

abbrev asleep : ℕ → Barrier
asleep n = record {
  count = n;
  waiting = sleeping n;
  woken = [];
  passed = [];
  arrivals = n;
  rounds = 0;
}

-- Where a step goes, with its target by an equation.
sleeps_to :
    (expected : ℕ) (s u : Barrier) (t : ℕ)
    → s.count + 1 < expected
    → u ≡ record s {
      count = s.count + 1;
      waiting = caller t s ∷ s.waiting;
      arrivals = s.arrivals + 1;
    }
    → Step expected s u
unfolding arrive
sleeps_to expected s u t below e =
    let one_more : (arrive expected s.count).0 ≡ s.count + 1 = ground arith in
    subst (Step expected s)
      (ap (λ k. record s { count = k; waiting = caller t s ∷ s.waiting; arrivals = s.arrivals + 1 })
          one_more
        ∙ sym e)
      (sleeps t (ground arith))

all_sleep : (expected n : ℕ) → n < expected → Steps expected start (asleep n)
unfolding start
all_sleep expected zero h = done
all_sleep expected (suc n) h =
    next (all_sleep expected n (omega arith))
      (sleeps_to expected (asleep n) _ n (omega arith) (ground arith))

completes_to :
    (expected : ℕ) (s u : Barrier) (t : ℕ)
    → expected ≤ s.count + 1
    → u ≡ record {
      count = 0;
      waiting = [];
      woken = s.woken ++ s.waiting;
      passed = caller t s ∷ s.passed;
      arrivals = s.arrivals + 1;
      rounds = s.rounds + 1;
    }
    → Step expected s u
unfolding arrive
completes_to expected s u t full e =
    let none_left : (arrive expected s.count).0 ≡ 0 = ground arith in
    subst (Step expected s)
      (ap
          (λ k. record {
            count = k;
            waiting = [];
            woken = s.woken ++ s.waiting;
            passed = caller t s ∷ s.passed;
            arrivals = s.arrivals + 1;
            rounds = s.rounds + 1;
          })
          none_left
        ∙ sym e)
      (completes t (ground arith))

-- All that are awake find the count of the next round, and sleep again.
all_sleep_again :
    (expected : ℕ) (woken : List Caller) (s : Barrier)
    → s.woken ≡ woken
    → s.count ≡ 1
    → (t : Barrier) × Steps expected s t
      × (t.count ≡ 1)
      × (t.woken ≡ [])
      × (t.passed ≡ s.passed)
      × (t.arrivals ≡ s.arrivals)
      × (length t.waiting ≡ length s.waiting + length woken)
unfolding must_wait
all_sleep_again expected [] s e one = (s, done, one, e, refl, refl, omega arith)
all_sleep_again expected (x ∷ woken) s e one =
    let t : Barrier = record s { woken = woken; waiting = x ∷ s.waiting } in
    let (u, run, c, w, p, a, len) = all_sleep_again expected woken t refl one in
    (
      u,
      Steps-append (next done (sleeps_again [] x woken e (ground arith))) run,
      c,
      w,
      p,
      a,
      omega (arith, len),
    )

-- While nobody arrives and the count is not 0, nobody passes.
record Quiet (s t : Barrier) : Type 0 where
  more : s.arrivals ≤ t.arrivals
  still : t.arrivals ≡ s.arrivals → (t.count ≡ s.count) × (t.passed ≡ s.passed)

Step-Quiet :
    {expected : ℕ} {s t u : Barrier} → 1 ≤ s.count → Quiet s t → Step expected t u → Quiet s u
unfolding must_wait
Step-Quiet some_count q (completes {s} t e) = record {
  more = omega (arith, q.more);
  still = λ same. absurd (omega (arith, q.more, same));
}
Step-Quiet some_count q (sleeps {s} t e) = record {
  more = omega (arith, q.more);
  still = λ same. absurd (omega (arith, q.more, same));
}
Step-Quiet some_count q (passes {s} before t others e free) = record {
  more = q.more;
  still = λ same. absurd (ground (arith, q.still same));
}
Step-Quiet some_count q (sleeps_again {s} before t others e again) = record {
  more = q.more;
  still = q.still;
}
Step-Quiet some_count q (wakes {s} before t others e) = record { more = q.more; still = q.still }

Steps-Quiet : {expected : ℕ} {s t : Barrier} → 1 ≤ s.count → Steps expected s t → Quiet s t
Steps-Quiet some_count done = record { more = omega arith; still = λ e. (refl, refl) }
Steps-Quiet some_count (next run step) = Step-Quiet some_count (Steps-Quiet some_count run) step

-- While at least two users are logged in: a state can be reached in which one more thread than the
-- users has arrived, and only the one that completed the first round has passed; as many threads as there are
-- users sleep, and as long as nobody arrives nobody passes, although a whole round has arrived.
pub barrier_stalls :
    (expected : ℕ)
    → 2 ≤ expected
    → (s : Barrier) × Steps expected start s
      × (s.arrivals ≡ expected + 1)
      × (length s.waiting ≡ expected)
      × (length s.passed ≡ 1)
      × ((t : Barrier) → Steps expected s t → t.arrivals ≡ s.arrivals → t.passed ≡ s.passed)
barrier_stalls expected two =
    let n = expected - 1 in
    let full : Barrier = record {
      count = 0;
      waiting = [];
      woken = sleeping n;
      passed = record { thread = n; round = 0 } ∷ [];
      arrivals = n + 1;
      rounds = 1;
    } in
    let late : Barrier = record {
      count = 1;
      waiting = record { thread = expected; round = 1 } ∷ [];
      woken = sleeping n;
      passed = record { thread = n; round = 0 } ∷ [];
      arrivals = n + 1 + 1;
      rounds = 1;
    } in
    let to_full =
      next (all_sleep expected n (omega arith))
        (completes_to expected (asleep n) full n (omega arith) refl) in
    let to_late = next to_full (sleeps_to expected full late expected (omega arith) refl) in
    let (s, run, c, w, p, a, len) = all_sleep_again expected (sleeping n) late refl refl in
    (
      s,
      Steps-append to_late run,
      omega (arith, a),
      omega (arith, len, length-sleeping n),
      ap length p,
      λ t quiet same. ((Steps-Quiet (omega (arith, c)) quiet).still same).1,
    )
