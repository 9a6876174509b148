-- ===== src/Latency/Runs.antt =====
-- The runs of a latency program, and the CPUs that it uses.
use logger_benchmarks.Prelude.{
  ℕ, ◌+◌, ◌<◌, ◌≤◌, ◌≡◌, refl, sym, arith, Bool, true, List, [], ◌∷◌, All, Bytes,
}
use logger_benchmarks.Prelude.Int.{ℤ, pos, negsuc}
use logger_benchmarks.Platform.Doubles.{Doubles}
use logger_benchmarks.Platform.Random.{Random, DrawsInRange}
use logger_benchmarks.Platform.Outcome.{returned, >>=_returns, >>=-eq-returned, returned-injective}
use logger_benchmarks.Call.{BenchType, PayloadOf, Call, set_affinity, set_pthread_affinity}
use logger_benchmarks.CallSite.Producer.{Callbacks}
use logger_benchmarks.CallSite.Run.{
  Machine, Ran, run_benchmark, IsRun, run_benchmark-IsRun, IsReady, run_benchmark_total,
}
use logger_benchmarks.Latency.Program.{
  Program, perform, run_all_counts, run_with, thread_list_count, messages_per_iteration,
}
use logger_benchmarks.Latency.Targets.{targets}
use logger_benchmarks.Latency.Quill.{quill, quill_with_functions}
use logger_benchmarks.Latency.Workers.{bqlog, platformlab_nanolog, reckless, spdlog, xtr}
use logger_benchmarks.Latency.Fmt.{fmtlog, ms_binlog}
use logger_benchmarks.Latency.Streams.{g3log, iyengar_nanolog}
use logger_benchmarks.Latency.Boost.{boost_log}

-- the CPU of the backend threads
abbrev pub backend_cpu : ℕ
backend_cpu = 5

-- The call pins a thread to no other CPU than that of the backend.
abbrev PinsBackend : {Double : Type 0} → Call Double → Type 0
PinsBackend (set_affinity cpu) = cpu ≡ backend_cpu
PinsBackend (set_pthread_affinity handle cpu) = cpu ≡ backend_cpu
PinsBackend _ = Unit

-- So do all calls of the main thread outside the runs.
abbrev pub KeepsApart : {Double : Type 0} → Program Double → Type 0
KeepsApart p = All PinsBackend p.setup × All PinsBackend p.cleanup

module _ (Double : Type 0) (opened : Bool) where
  -- In the setup and the cleanup of every latency target, the calls of the main thread pin threads
  -- to CPU 5 only.
  pub targets-KeepsApart : All (λ x. KeepsApart x.program) (targets {Double = Double} opened)
  unfolding targets quill quill_with_functions bqlog platformlab_nanolog reckless spdlog xtr fmtlog
      ms_binlog g3log iyengar_nanolog boost_log
  targets-KeepsApart = omega arith

module _ (R : Random) (F : Doubles) (t : BenchType) (machines : ℕ → Machine) (p : Program F.Double)
    (f : ℕ → ℕ → PayloadOf F.Double t → List (Call F.Double)) (num_iterations : ℕ) where
  abbrev callbacks : Callbacks F.Double t
  callbacks = record { on_thread_start = p.on_start; log_func = f; on_thread_exit = p.on_exit }

  one_more :
      (k : ℕ) (c : ℤ) (cs : List ℤ) {xs : List (Ran F.Double)}
      → run_all_counts R F t machines callbacks (p.benchmark_name t) num_iterations k (c ∷ cs)
        ≡ returned xs
      → (x : Ran F.Double) × (rest : List (Ran F.Double)) × (run_benchmark R F t
            (machines k)
            callbacks
            num_iterations
            messages_per_iteration
            (p.benchmark_name t)
            c
          ≡ returned x)
        × (run_all_counts R F t machines callbacks (p.benchmark_name t) num_iterations (k + 1) cs
            ≡ returned rest)
        × (xs ≡ x ∷ rest)
  unfolding run_all_counts
  one_more k c cs {xs} h =
      let (x, ran, more) =
        >>=-eq-returned (run_benchmark R F t (machines k) callbacks _ _ _ c) _ h in
      let (rest, rans, out) =
        >>=-eq-returned (run_all_counts R F t machines callbacks _ _ (k + 1) cs) _ more in
      (x, rest, ran, rans, sym (returned-injective (x ∷ rest) xs out))

  no_more :
      (k : ℕ) {xs : List (Ran F.Double)}
      → run_all_counts R F t machines callbacks (p.benchmark_name t) num_iterations k []
        ≡ returned xs
      → xs ≡ []
  unfolding run_all_counts
  no_more k {xs} h = sym (returned-injective [] xs h)

  -- A latency program that ends has made a run with one thread and then a run with four, each with
  -- its report.
  pub run_with-IsRun :
      {xs : List (Ran F.Double)}
      → run_with R F t machines p f thread_list_count num_iterations ≡ returned xs
      → (one : Ran F.Double) × (four : Ran F.Double) × (xs ≡ one ∷ four ∷ [])
        × IsRun R F t
            (machines 0)
            callbacks
            num_iterations
            messages_per_iteration
            (p.benchmark_name t)
            1
            one
        × IsRun R F t
            (machines 1)
            callbacks
            num_iterations
            messages_per_iteration
            (p.benchmark_name t)
            4
            four
  unfolding run_with
  run_with-IsRun {xs} h =
      let name = p.benchmark_name t in
      let (_, _, set_up) = >>=-eq-returned (perform (machines 0).allowed p.setup) _ h in
      let (ys, ran, left) =
        >>=-eq-returned
          (run_all_counts R F t machines callbacks name num_iterations 0 thread_list_count) _
          set_up in
      let (_, _, out) = >>=-eq-returned (perform (machines 0).allowed p.cleanup) _ left in
      let (one, rest, ran_one, more, e) = one_more 0 (pos 1) (pos 4 ∷ []) ran in
      let (four, end_, ran_four, last, e') = one_more 1 (pos 4) [] more in
      let e'' = no_more 2 last in
      (
        one,
        four,
        cc (returned-injective ys xs out, e, e', e''),
        run_benchmark-IsRun R F t (machines 0) callbacks num_iterations messages_per_iteration name
            1 (omega arith) ran_one,
        run_benchmark-IsRun R F t (machines 1) callbacks num_iterations messages_per_iteration name
            4 (omega arith) ran_four,
      )

-- The count of threads leaves the backend its CPU.
abbrev LeavesBackend : ℤ → Type 0
LeavesBackend (pos n) = n < backend_cpu
LeavesBackend (negsuc n) = Unit

IsReady-le : {m : Machine} (k n : ℕ) → k ≤ n → IsReady m n → IsReady m k
IsReady-le k n le ready = record {
  cpus = λ cpu h. ready.cpus cpu (omega arith);
  advances = ready.advances;
  calibrates = ready.calibrates;
}

module _ {Double : Type 0} (allowed : ℕ → Bool) (ok : allowed backend_cpu ≡ true) where
  perform_total : (cs : List (Call Double)) → All PinsBackend cs → perform allowed cs ≡ returned tt
  unfolding perform
  perform_total [] h = refl
  perform_total (set_affinity cpu ∷ cs) (hc, h) = rw (hc, ok) (perform_total cs h)
  perform_total (set_pthread_affinity handle cpu ∷ cs) (hc, h) = rw (hc, ok) (perform_total cs h)
  perform_total (_ ∷ cs) (hc, h) = perform_total cs h

module _ (R : Random) (draws : DrawsInRange R) (F : Doubles) (t : BenchType)
    (machines : ℕ → Machine) (ready : (k : ℕ) → IsReady (machines k) backend_cpu) where
  one_run_total :
      (cb : Callbacks F.Double t) (name : Bytes) (n k : ℕ) (c : ℤ)
      → LeavesBackend c
      → (x : Ran F.Double) × (run_benchmark R F t (machines k) cb n messages_per_iteration name c
          ≡ returned x)
  unfolding run_benchmark
  one_run_total cb name n k (pos c) few =
      run_benchmark_total R draws F t (machines k) cb n messages_per_iteration name c
        (IsReady-le c backend_cpu (omega arith) (ready k))
  one_run_total cb name n k (negsuc c) few = (_, refl)

  run_all_counts_total :
      (cb : Callbacks F.Double t) (name : Bytes) (n k : ℕ) (counts : List ℤ)
      → All LeavesBackend counts
      → (xs : List (Ran F.Double)) × (run_all_counts R F t machines cb name n k counts
          ≡ returned xs)
  unfolding run_all_counts
  run_all_counts_total cb name n k [] h = ([], refl)
  run_all_counts_total cb name n k (c ∷ counts) (few, h) =
      let (x, ran) = one_run_total cb name n k c few in
      let (xs, rans) = run_all_counts_total cb name n (k + 1) counts h in
      >>=_returns (run_benchmark R F t (machines k) cb n messages_per_iteration name c) _ x ran
        (>>=_returns (run_all_counts R F t machines cb name n (k + 1) counts) _ xs rans (_, refl))

  -- If draws lie in their range, on machines with the CPUs 0 to 5 and clocks that advance, a
  -- latency program that pins threads to CPU 5 only, in setup and cleanup, ends.
  pub run_with_total :
      (p : Program F.Double) (f : ℕ → ℕ → PayloadOf F.Double t → List (Call F.Double)) (n : ℕ)
      → KeepsApart p
      → (xs : List (Ran F.Double)) × (run_with R F t machines p f thread_list_count n ≡ returned xs)
  unfolding run_with
  run_with_total p f n (set_up, clean) =
      let cb : Callbacks F.Double t = record {
        on_thread_start = p.on_start;
        log_func = f;
        on_thread_exit = p.on_exit;
      } in
      let ok = (ready 0).cpus backend_cpu (omega arith) in
      let (xs, ran) =
        run_all_counts_total cb (p.benchmark_name t) n 0 thread_list_count (omega arith) in
      >>=_returns (perform (machines 0).allowed p.setup) _ tt
        (perform_total (machines 0).allowed ok p.setup set_up)
        (>>=_returns (run_all_counts R F t machines cb (p.benchmark_name t) n 0 thread_list_count) _
          xs ran
          (>>=_returns (perform (machines 0).allowed p.cleanup) _ tt
            (perform_total (machines 0).allowed ok p.cleanup clean) (xs, refl)))
