-- ===== src/Examples/Barrier.antt =====
-- The start barrier: a run of two threads, in one order of their steps.
use logger_benchmarks.Prelude.{ℕ, ◌<◌, ◌≡◌, refl, arith, true, List, [], ◌∷◌}
use logger_benchmarks.CallSite.Producer.{Action, stamp, pause, Produced}
use logger_benchmarks.CallSite.Barrier.{
  starting, spinning, running, System, warm, arrive, look, pass, turn, spawned, Reach, start, later,
  arrived, done, finished, update, warm_up_first, no_deadlock,
}

-- each thread with one thing to do before the barrier and one behind it
abbrev threads : ℕ → Produced ℕ
threads i = record { warm_up = stamp ∷ []; measured = pause ∷ []; latencies = [] }

-- Thread 0 has arrived and has looked in vain, then thread 1 has arrived and passed.
abbrev race : System ℕ
race = record {
  started = 2;
  place =
      update
        (update
          (update
            (update
              (update (update (spawned ℕ threads).place 0 (starting (stamp ∷ []) [] (pause ∷ []))) 0
                (spinning (stamp ∷ []) (pause ∷ [])))
              0 (spinning (stamp ∷ []) (pause ∷ [])))
            1 (starting (stamp ∷ []) [] (pause ∷ [])))
          1 (spinning (stamp ∷ []) (pause ∷ [])))
        1 (running (stamp ∷ []) (pause ∷ []));
}

race_reached : Reach ℕ 2 (spawned ℕ threads) race
race_reached =
    later
      (later
        (later
          (later (later (later start (turn 0 (omega arith) warm)) (turn 0 (omega arith) arrive))
            (turn 0 (omega arith) (look (ground arith))))
          (turn 1 (omega arith) warm))
        (turn 1 (omega arith) arrive))
      (turn 1 (omega arith) (pass refl))

warm_up_first_example :
    (arrived ℕ (race.place 0) ≡ true)
    × (more : List (Action ℕ)) × (done ℕ (race.place 0) ≡ stamp ∷ more)
warm_up_first_example =
    warm_up_first 2 threads (omega arith) race_reached 1 0 (omega arith) (omega arith) refl

no_deadlock_example :
    (t : System ℕ) × Reach ℕ 2 race t × ((i : ℕ) → i < 2 → finished ℕ (t.place i) ≡ true)
no_deadlock_example = no_deadlock 2 threads (omega arith) race race_reached
