-- ===== src/CallSite/Barrier/Defs.antt =====
-- `wait_for_all_threads_to_start`, and the threads of a run as a step relation.
use logger_benchmarks.Prelude.{
  ℕ, ◌+◌, ◌%◌, ◌^◌, ◌<◌, ◌≡◌, ◌≢◌, Bool, true, false, List, [], ◌∷◌, ◌++◌,
}
use logger_benchmarks.CallSite.Producer.{Action, Produced}
use logger_benchmarks.CallSite.Barrier.Family.{update}

module _ (Double : Type 0) where
  -- Where a producer stands, with what it has done and what it has still to do.
  pub data Place : Type 0 where
    starting : (past todo measured : List (Action Double)) → Place  -- up to `fetch_add`
    -- the `while` over `started_threads.load`
    spinning : (past measured : List (Action Double)) → Place
    running : (past todo : List (Action Double)) → Place  -- behind the barrier

  pub record System : Type 0 where
    pub started : ℕ  -- std::atomic<size_t> started_threads
    pub place : ℕ → Place

  -- One step of one thread, with `n` participants.
  pub data Move (n started : ℕ) : Place → ℕ → Place → Type 0 where
    warm :
        {a : Action Double} {past todo measured : List (Action Double)}
        → Move n started
            (starting past (a ∷ todo) measured)
            started
            (starting (past ++ a ∷ []) todo measured)
    arrive :
        {past measured : List (Action Double)}
        → Move n started
            (starting past [] measured)
            ((started + 1) % 2 ^ 64)
            (spinning past measured)
    look :
        {past measured : List (Action Double)}
        → started ≢ n
        → Move n started (spinning past measured) started (spinning past measured)
    pass :
        {past measured : List (Action Double)}
        → started ≡ n
        → Move n started (spinning past measured) started (running past measured)
    act :
        {a : Action Double} {past todo : List (Action Double)}
        → Move n started (running past (a ∷ todo)) started (running (past ++ a ∷ []) todo)

  -- what `run_benchmark` hands each of its `n` threads as `participant_count`
  abbrev pub participant_count : ℕ → ℕ
  participant_count n = n

  pub data Step (n : ℕ) (s : System) : System → Type 0 where
    turn :
        (i : ℕ) {started : ℕ} {p : Place}
        → i < n
        → Move (participant_count n) s.started (s.place i) started p
        → Step n s (record { started = started; place = update s.place i p })

  -- `run_benchmark` has spawned the threads, and none has run.
  abbrev pub spawned : (ℕ → Produced Double) → System
  spawned threads = record {
    started = 0;
    place = λ i. starting [] (threads i).warm_up (threads i).measured;
  }

  pub data Reach (n : ℕ) (s : System) : System → Type 0 where
    start : Reach n s s
    later : {t u : System} → Reach n s t → Step n t u → Reach n s u

  -- The thread has passed `wait_for_all_threads_to_start`.
  abbrev pub passed : Place → Bool
  passed (running _ _) = true
  passed _ = false

  -- what the thread has done so far
  abbrev pub done : Place → List (Action Double)
  done (starting past _ _) = past
  done (spinning past _) = past
  done (running past _) = past

  -- The thread has done its `fetch_add`.
  abbrev pub arrived : Place → Bool
  arrived (starting _ _ _) = false
  arrived _ = true

  -- The thread has returned, and can be joined.
  abbrev pub finished : Place → Bool
  finished (running _ []) = true
  finished _ = false
