-- ===== src/CallSite/Barrier/Invariant.antt =====
-- An invariant of the start barrier in call_site_latency_bench.h, and what it says of the warm-ups.
use mathlib.Core.Path.{subst}
use logger_benchmarks.Prelude.{
  ℕ, ◌+◌, ◌^◌, ◌≤◌, ◌<◌, ◌≡◌, ◌≢◌, refl, arith, true, List, [], ◌∷◌, ◌++◌, ◌==◌, sym, ap, ◌∙◌,
  append_assoc, append-nil, if_cases,
}
use logger_benchmarks.CallSite.Producer.{Action, Produced}
use logger_benchmarks.CallSite.Barrier.Family.{
  update, weight, weight-update, weight-le, weight_full, weight_none,
}
use logger_benchmarks.CallSite.Barrier.Defs.{
  Place, starting, spinning, running, System, Move, warm, arrive, look, pass, act, turn, spawned,
  Reach, start, later, passed, arrived, done,
}

module _ {Double : Type 0} where
  abbrev pub arrivals : Place Double → ℕ
  arrivals (starting _ _ _) = 0
  arrivals _ = 1

  arrivals-le : (p : Place Double) → arrivals p ≤ 1
  arrivals-le p = ground arith

  pub record Counts (n started : ℕ) (place : ℕ → Place Double) : Type 0 where
    pub few : n < 2 ^ 64
    pub counted : started ≡ weight arrivals place n
    pub opened : (i : ℕ) → i < n → passed Double (place i) ≡ true → started ≡ n

  spawned-Counts :
      (n : ℕ) (threads : ℕ → Produced Double)
      → n < 2 ^ 64
      → Counts n 0 (spawned Double threads).place
  spawned-Counts n threads few = record {
    few = few;
    counted = omega (arith, weight_none arrivals (spawned Double threads).place n (λ j. refl));
    opened = λ i lt e. cc;
  }

  module _ (n started : ℕ) (place : ℕ → Place Double) (inv : Counts n started place) (i : ℕ)
      (lt : i < n) where
    balance :
        (p p' : Place Double)
        → place i ≡ p
        → weight arrivals (update place i p') n + arrivals p ≡ weight arrivals place n + arrivals p'
    balance p p' e = rw (← e) (weight-update arrivals place i p' n lt)

    -- Behind the barrier everybody has arrived.
    none_absent : started ≡ n → (j : ℕ) → j < n → arrivals (place j) ≡ 1
    none_absent full j h = weight_full arrivals place arrivals-le n (omega (arith, inv.counted)) j h

    -- While a thread has not arrived, nobody is behind the barrier.
    closed :
        {past todo measured : List (Action Double)}
        → place i ≡ starting past todo measured
        → (j : ℕ) → j < n
        → passed Double (place j) ≢ true
    closed e j h q = ground (arith, none_absent (inv.opened j h q) i lt)

    pub Move-Counts :
        {p p' : Place Double} {started' : ℕ}
        → place i ≡ p
        → Move Double n started p started' p'
        → Counts n started' (update place i p')
    Move-Counts e (warm {a} {past} {todo} {measured}) = record {
      few = inv.few;
      counted = omega (arith, inv.counted, balance _ (starting (past ++ a ∷ []) todo measured) e);
      opened = λ j h q. ground (arith, inv.opened j);
    }
    Move-Counts e (arrive {past} {measured}) = record {
      few = inv.few;
      counted = omega (
        arith,
        inv.counted,
        inv.few,
        balance _ (spinning past measured) e,
        weight-le arrivals (update place i (spinning past measured)) arrivals-le n,
      );
      opened = λ j h q. ground (arith, closed e j h);
    }
    Move-Counts e (look {past} {measured} h) = record {
      few = inv.few;
      counted = omega (arith, inv.counted, balance _ (spinning past measured) e);
      opened = λ j k q. ground (arith, inv.opened j);
    }
    Move-Counts e (pass {past} {measured} h) = record {
      few = inv.few;
      counted = omega (arith, inv.counted, balance _ (running past measured) e);
      opened = λ j k q. h;
    }
    Move-Counts e (act {a} {past} {todo}) = record {
      few = inv.few;
      counted = omega (arith, inv.counted, balance _ (running (past ++ a ∷ []) todo) e);
      opened = λ j k q. ground (arith, inv.opened i, inv.opened j);
    }

  pub Reach-Counts :
      (n : ℕ) (threads : ℕ → Produced Double)
      → n < 2 ^ 64
      → {s : System Double} → Reach Double n (spawned Double threads) s
      → Counts n s.started s.place
  Reach-Counts n threads few start = spawned-Counts n threads few
  Reach-Counts n threads few (later {t} r (turn i lt mv)) =
      Move-Counts n t.started t.place (Reach-Counts n threads few r) i lt refl mv

  -- A thread with the actions `x` has done some of them, in their order, and up to its barrier
  -- none but those of its warm-up; what it has still to do is the others.
  abbrev pub Follows : Produced Double → Place Double → Type 0
  Follows x (starting past todo measured) = (past ++ todo ≡ x.warm_up) × (measured ≡ x.measured)
  Follows x (spinning past measured) = (past ≡ x.warm_up) × (measured ≡ x.measured)
  Follows x (running past todo) =
      (more : List (Action Double)) × (past ≡ x.warm_up ++ more) × (more ++ todo ≡ x.measured)

  Move-Follows :
      (x : Produced Double) {n started started' : ℕ} {p p' : Place Double}
      → Move Double n started p started' p'
      → Follows x p
      → Follows x p'
  Move-Follows x (warm {a} {past} {todo} {measured}) (e, m) =
      (append_assoc past (a ∷ []) todo ∙ e, m)
  Move-Follows x (arrive {past} {measured}) (e, m) = (sym (append-nil past) ∙ e, m)
  Move-Follows x (look {past} {measured} h) f = f
  Move-Follows x (pass {past} {measured} h) (e, m) = ([], e ∙ sym (append-nil x.warm_up), m)
  Move-Follows x (act {a} {past} {todo}) (more, e, m) = (
    more ++ a ∷ [],
    ap (λ l. l ++ a ∷ []) e ∙ append_assoc x.warm_up more (a ∷ []),
    append_assoc more (a ∷ []) todo ∙ m,
  )

  pub Reach-Follows :
      (n : ℕ) (threads : ℕ → Produced Double) {s : System Double}
      → Reach Double n (spawned Double threads) s
      → (j : ℕ) → Follows (threads j) (s.place j)
  Reach-Follows n threads start j = (refl, refl)
  Reach-Follows n threads (later {t} r (turn i {started} {p} lt mv)) j =
      if_cases (Follows (threads j)) (i == j) p (t.place j)
        (λ here.
          let same : i ≡ j = ground arith in
          subst (λ k. Follows (threads k) p) same
            (Move-Follows (threads i) mv (Reach-Follows n threads r i)))
        (λ other. Reach-Follows n threads r j)

  -- In every interleaving of the threads of a run (of fewer than 2^64), once one thread has passed
  -- the start barrier, every thread of the run has arrived, and what it has done begins with its
  -- whole warm-up, in order.
  pub warm_up_first :
      (n : ℕ) (threads : ℕ → Produced Double)
      → n < 2 ^ 64
      → {s : System Double} → Reach Double n (spawned Double threads) s
      → (i j : ℕ) → i < n
      → j < n
      → passed Double (s.place i) ≡ true
      → (arrived Double (s.place j) ≡ true)
        × (more : List (Action Double)) × (done Double (s.place j) ≡ (threads j).warm_up ++ more)
  warm_up_first n threads few {s} r i j hi hj q =
      let inv = Reach-Counts n threads few r in
      let here = none_absent n s.started s.place inv i hi (inv.opened i hi q) j hj in
      let (more, did) = whole (threads j) (s.place j) here (Reach-Follows n threads r j) in
      (ground (arith, here), more, did)
    where
      whole :
          (x : Produced Double) (p : Place Double)
          → arrivals p ≡ 1
          → Follows x p
          → (more : List (Action Double)) × (done Double p ≡ x.warm_up ++ more)
      whole x (starting past todo measured) h f = absurd (omega arith)
      whole x (spinning past measured) h (e, m) = ([], e ∙ sym (append-nil x.warm_up))
      whole x (running past todo) h (more, e, m) = (more, e)
