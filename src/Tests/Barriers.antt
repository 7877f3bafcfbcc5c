-- ===== src/Tests/Barriers.antt =====
-- Two users meet at a barrier.
use pointerpro_animate.Base.{◌+◌, ◌*◌, ◌<◌, ◌≡◌, ◌⊎◌, refl, [], ◌∷◌, length, arith}
use pointerpro_animate.Barrier.{Barrier, start, arrive, completes, sleeps, Steps, done, next}
use pointerpro_animate.Barrier.Rounds.{
  tally, arrived_in, due, barrier-rounds, Passing, stop, barrier-all_pass,
}
use pointerpro_animate.Barrier.Stall.{barrier_stalls}

abbrev met : Barrier
met = record {
  count = 0;
  waiting = [];
  woken = record { thread = 1; round = 0 } ∷ [];
  passed = record { thread = 2; round = 0 } ∷ [];
  arrivals = 2;
  rounds = 1;
}

met_run : Steps 2 start met
unfolding start arrive
met_run = next (next done (sleeps 1 refl)) (completes 2 refl)

barrier-rounds_example :
    (met.arrivals ≡ 2 * met.rounds + met.count)
    × (met.count < 2)
    × (arrived_in 0 met ≡ due 2 met.rounds met.count 0)
    × ((0 < met.rounds) ⊎ (tally 0 met.passed ≡ 0))
barrier-rounds_example = barrier-rounds {expected = 2} {s = met} 0 (omega arith) met_run

barrier-all_pass_example :
    (met.waiting ≡ [])
    × ((t : Barrier) × Passing 2 met t × (t.arrivals ≡ 2) × (t.woken ≡ []) × (length t.passed ≡ 2))
barrier-all_pass_example =
    barrier-all_pass {expected = 2} {s = met} {u = met} (omega arith) met_run refl stop

barrier_stalls_example :
    (s : Barrier) × Steps 3 start s
    × (s.arrivals ≡ 4)
    × (length s.waiting ≡ 3)
    × (length s.passed ≡ 1)
    × ((t : Barrier) → Steps 3 s t → t.arrivals ≡ s.arrivals → t.passed ≡ s.passed)
barrier_stalls_example = barrier_stalls 3 (omega arith)
