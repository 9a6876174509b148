-- ===== src/Examples/Events.antt =====
-- The theorems on the backend's storages of quill and on its log levels, at concrete inputs.
use logger_benchmarks.Prelude.{
  ℕ, Bytes, some, none, [], ◌∷◌, ◌++◌, ◌≡◌, refl, arith, true, false, ◌⊎◌, inr, codes, ◌==◌, not,
  get_elem?, map,
}
use logger_benchmarks.Quill.Errors.{value, quill_error}
use logger_benchmarks.Quill.Powers.{IsPower}
use logger_benchmarks.Quill.Transit.Defs.{
  Buffer, front, pop_front, put, try_shrink, expand, back, move_construct, move_assign, moved, fill,
  push_back as advance,
}
use logger_benchmarks.Quill.Transit.Valid as T
use logger_benchmarks.Quill.Transit.Queue.{front-pop_front}
use logger_benchmarks.Quill.Transit.Expand.{Puts, put-events}
use logger_benchmarks.Quill.SizeCache.Defs.{InlinedVector, inline_buffer, push_back, at, buffer}
use logger_benchmarks.Prelude.Ring.{ring}
use logger_benchmarks.Quill.SizeCache.Refine as S
use logger_benchmarks.Quill.Backtrace.Defs as B
use logger_benchmarks.Quill.Backtrace.Events.{Stores, store-events, process-events, events}
use logger_benchmarks.Quill.Levels.{
  LogLevel, loglevel_from_string, log_level_to_string, log_level_descriptions,
  loglevel_from_string-log_level_to_string, warning, to_lower,
}
use logger_benchmarks.Quill.Levels.Spellings.{OneOf, spellings, loglevel_from_string_lem}

abbrev of_two : IsPower 2
of_two = record { exponent = 1; small = omega arith; is_power = refl }

-- a full buffer of two events, the first of which is in the second slot
abbrev two_events : Buffer ℕ
two_events = record {
  initial_capacity = 2;
  mask = 1;
  reader_pos = 5;
  writer_pos = 7;
  shrink_requested = true;
  storage = 20 ∷ 10 ∷ [];
}

two_valid : T.IsValid 0 two_events
two_valid = record {
  power = of_two;
  stored = refl;
  initial = of_two;
  fits = omega arith;
  reader = omega arith;
  writer = omega arith;
}

front-pop_front_example :
    ((front 0 two_events ≡ none) × (T.events 0 two_events ≡ []))
    ⊎ ((e : ℕ) × (front 0 two_events ≡ some e)
        × T.IsValid 0 (pop_front 0 two_events)
        × (T.events 0 two_events ≡ e ∷ T.events 0 (pop_front 0 two_events)))
front-pop_front_example = front-pop_front 0 two_events two_valid

put-events_example : Puts 0 false 30 two_events (put 0 99 false 30 two_events)
put-events_example = put-events 0 99 false 30 two_events two_valid (omega arith)

-- With memory the third event stands behind the two, without it the two are as they were.
grown_test : T.events 0 (put 0 99 true 30 two_events).0 ≡ 10 ∷ 20 ∷ 30 ∷ []
unfolding put expand back moved fill advance ring
grown_test = refl

-- A move takes the events along and leaves none.
moved_test :
    (T.events 0 (move_construct 0 two_events).0 ≡ 10 ∷ 20 ∷ [])
    × (T.events 0 (move_assign 0 false (move_construct 0 two_events).1 two_events).1 ≡ [])
    × (move_assign 0 true two_events two_events ≡ (two_events, two_events))
unfolding move_construct move_assign ring
moved_test = (refl, refl, refl)

try_shrink-Keeps_example : T.Keeps 0 two_events (try_shrink 0 two_events)
try_shrink-Keeps_example = T.try_shrink-Keeps 0 two_events two_valid

-- two values inline of two
abbrev full_inline : InlinedVector ℕ
full_inline = record { storage = inline_buffer (4 ∷ 5 ∷ []); size = 2; capacity = 2 }

full_valid : S.IsValid 2 0 full_inline (4 ∷ 5 ∷ [])
unfolding buffer
full_valid = record {
  slots = 4 ∷ 5 ∷ [];
  active = refl;
  room = refl;
  least = omega arith;
  fits = omega arith;
  shows = refl;
}

push_back-IsValid_example :
    (w : InlinedVector ℕ) × (push_back 2 0 full_inline 6 ≡ some (w, 6))
    × S.IsValid 2 0 w (4 ∷ 5 ∷ 6 ∷ [])
push_back-IsValid_example =
    S.push_back-IsValid 2 0 full_inline (4 ∷ 5 ∷ []) 6 full_valid (omega arith) (omega arith)

at-IsValid_example : at 2 0 full_inline 7 ≡ get_elem? (4 ∷ 5 ∷ []) 7
at-IsValid_example = S.at-IsValid 2 0 full_inline (4 ∷ 5 ∷ []) 7 full_valid

-- a store of three events whose oldest is the second in memory
abbrev three : B.BacktraceStorage ℕ
three = record { capacity = 3; index = 1; stored_events = 13 ∷ 11 ∷ 12 ∷ [] }

three_valid : B.IsValid three
three_valid = inr (refl, omega arith)

store-events_example : Stores 0 three 14 (B.store three 14)
store-events_example = store-events 0 three 14 three_valid

-- The callback throws on the second event.
process-events_example :
    (B.process 0 (λ e. not (e == 12)) three ≡ (11 ∷ 12 ∷ [], false, B.cleared three))
    × B.IsValid (B.cleared three)
    × (events 0 (B.cleared three) ≡ [])
unfolding ring
process-events_example = process-events 0 (λ e. not (e == 12)) three three_valid

loglevel_from_string-log_level_to_string_example :
    (name : Bytes) × (log_level_to_string warning log_level_descriptions ≡ value name)
    × (loglevel_from_string name ≡ value warning)
loglevel_from_string-log_level_to_string_example = loglevel_from_string-log_level_to_string warning

loglevel_from_string_lem_example :
    (loglevel_from_string (map to_lower (codes "Warn")) ≡ loglevel_from_string (codes "Warn"))
    × (((l : LogLevel) × OneOf (map to_lower (codes "Warn")) (spellings l)
          × (loglevel_from_string (codes "Warn") ≡ value l))
        ⊎ (((l : LogLevel) → OneOf (map to_lower (codes "Warn")) (spellings l) → ⊥)
            × (loglevel_from_string (codes "Warn")
                ≡ quill_error (
                    codes "LogLevel enum value does not exist for \""
                    ++ map to_lower (codes "Warn")
                    ++ codes "\""))))
loglevel_from_string_lem_example = loglevel_from_string_lem (codes "Warn")
