-- ===== src/Latency/Options.antt =====
-- benchmark_quill_frontend_options.h: the queue of Quill's targets, by the macros of the target.
use logger_benchmarks.Prelude.{
  ℕ, Bool, true, false, ◌≡◌, refl, if◌then◌else◌, List, [], ◌∷◌, codes, All, ◌⨾◌,
}
use logger_benchmarks.Latency.Targets.{
  Macro, quill_use_bounded_dropping_queue, quill_use_huge_pages, Target, targets,
}
use logger_benchmarks.Throughput.Tail.{holds_text, begins_with}

pub data QueueType : Type 0 where
  bounded_dropping unbounded_blocking : QueueType

-- `CustomFrontendOptions`; `huge_pages` says whether it overrides the policy of the library.
pub record FrontendOptions : Type 0 where
  pub queue_type : QueueType
  pub initial_queue_capacity : ℕ
  pub huge_pages : Bool

-- `#ifdef QUILL_USE_BOUNDED_DROPPING_QUEUE`
unfoldable pub bounded_defined : List Macro → Bool
bounded_defined [] = false
bounded_defined (quill_use_bounded_dropping_queue ∷ ms) = true
bounded_defined (_ ∷ ms) = bounded_defined ms

-- `#ifdef QUILL_USE_HUGE_PAGES`
unfoldable pub huge_pages_defined : List Macro → Bool
huge_pages_defined [] = false
huge_pages_defined (quill_use_huge_pages ∷ ms) = true
huge_pages_defined (_ ∷ ms) = huge_pages_defined ms

unfoldable pub frontend_options : List Macro → FrontendOptions
unfolding bounded_defined huge_pages_defined
frontend_options macros =
    let bounded = bounded_defined macros in
    record {
      queue_type = if bounded then bounded_dropping else unbounded_blocking;
      initial_queue_capacity = if bounded then 262_144 else 131_072;
      huge_pages = huge_pages_defined macros;
    }

abbrev is_bounded : QueueType → Bool
is_bounded bounded_dropping = true
is_bounded unbounded_blocking = false

-- A target's name says which options it is compiled with.
abbrev pub NamesOptions : {Double : Type 0} → Target Double → Type 0
NamesOptions x =
    (holds_text (codes x.name) (codes "_bounded_")
      ≡ is_bounded (frontend_options x.macros).queue_type)
    × (holds_text (codes x.name) (codes "_huge_pages") ≡ (frontend_options x.macros).huge_pages)

-- The name of every latency target holds "_bounded_" if and only if it is compiled with the bounded
-- dropping queue of Quill, and "_huge_pages" if and only if it is compiled with huge pages.
pub targets-NamesOptions :
    (Double : Type 0) (opened : Bool) → All NamesOptions (targets {Double = Double} opened)
unfolding targets frontend_options holds_text begins_with
targets-NamesOptions Double opened =
    (refl, refl)
    ⨾ (refl, refl)
    ⨾ (refl, refl)
    ⨾ (refl, refl)
    ⨾ (refl, refl)
    ⨾ (refl, refl)
    ⨾ (refl, refl)
    ⨾ (refl, refl)
    ⨾ (refl, refl)
    ⨾ (refl, refl)
    ⨾ (refl, refl)
    ⨾ (refl, refl)
    ⨾ (refl, refl)
    ⨾ (refl, refl)
    ⨾ (refl, refl)
    ⨾ (refl, refl)
    ⨾ (refl, refl)
    ⨾ (refl, refl)
    ⨾ (refl, refl)
    ⨾ (refl, refl)
    ⨾ (refl, refl)
    ⨾ (refl, refl)
    ⨾ (refl, refl)
    ⨾ (refl, refl)
    ⨾ (refl, refl)
    ⨾ (refl, refl)
    ⨾ (refl, refl)
    ⨾ (refl, refl)
    ⨾ (refl, refl)
    ⨾ (refl, refl)
    ⨾ (refl, refl)
    ⨾ (refl, refl)
    ⨾ (refl, refl)
    ⨾ (refl, refl)
    ⨾ (refl, refl)
    ⨾ (refl, refl)
    ⨾ tt
