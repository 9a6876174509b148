-- ===== src/Quill/Levels.antt =====
-- The log levels of quill/include/quill/core/LogLevel.h and their names.
pub mod Spellings
use Prim.Native.Nat.{ℕ, ◌+◌}
use logger_benchmarks.Prelude.{
  Bool, true, false, ◌&&◌, ◌||◌, leb, ◌==◌, if◌then◌else◌, List, [], ◌∷◌, ◌++◌, length, get_or,
  Bytes, codes, map, ◌≡◌, refl, sym, ◌∙◌, ap, arith, Bool-cases, inl, inr, ◌⊎◌,
}
use mathlib.Core.Bool.{true≢false}
use mathlib.Core.Path.{subst}
use logger_benchmarks.Quill.Errors.{Result, value, quill_error}
use logger_benchmarks.Prelude.Decimal.{to_string}

pub data LogLevel : Type 0 where
  trace_l3 : LogLevel
  trace_l2 : LogLevel
  trace_l1 : LogLevel
  debug : LogLevel
  info : LogLevel
  notice : LogLevel
  warning : LogLevel
  error : LogLevel
  critical : LogLevel
  backtrace : LogLevel
  none_level : LogLevel

-- `static_cast<uint32_t>(log_level)`
abbrev pub to_number : LogLevel → ℕ
to_number trace_l3 = 0
to_number trace_l2 = 1
to_number trace_l1 = 2
to_number debug = 3
to_number info = 4
to_number notice = 5
to_number warning = 6
to_number error = 7
to_number critical = 8
to_number backtrace = 9
to_number none_level = 10

unfoldable pub log_level_to_string : LogLevel → List Bytes → Result Bytes
log_level_to_string log_level log_levels_strings =
    let log_lvl = to_number log_level in
    if leb (length log_levels_strings) log_lvl
    then quill_error (codes "Invalid get_log_level value \"" ++ to_string log_lvl ++ codes "\"")
    else value (get_or log_levels_strings log_lvl [])

-- `std::tolower` in the C locale
abbrev pub to_lower : ℕ → ℕ
to_lower c = if leb 65 c && leb c 90 then c + 32 else c

abbrev pub same : Bytes → Bytes → Bool
same [] [] = true
same [] (y ∷ ys) = false
same (x ∷ xs) [] = false
same (x ∷ xs) (y ∷ ys) = (x == y) && same xs ys

-- the tests on the lowered string, in their order
abbrev pub names : LogLevel → Bytes → Bool
names trace_l3 s = same s (codes "tracel3") || same s (codes "trace_l3")
names trace_l2 s = same s (codes "tracel2") || same s (codes "trace_l2")
names trace_l1 s = same s (codes "tracel1") || same s (codes "trace_l1")
names debug s = same s (codes "debug")
names info s = same s (codes "info")
names notice s = same s (codes "notice")
names warning s = same s (codes "warning") || same s (codes "warn")
names error s = same s (codes "error") || same s (codes "err")
names critical s = same s (codes "critical")
names backtrace s = same s (codes "backtrace")
names none_level s = same s (codes "none")

abbrev pub all_levels : List LogLevel
all_levels =
    trace_l3 ∷ trace_l2 ∷ trace_l1 ∷ debug ∷ info ∷ notice ∷ warning ∷ error ∷ critical ∷ backtrace
    ∷ none_level ∷ []

-- the chain of `if`s
abbrev pub first_named : Bytes → List LogLevel → Result LogLevel
first_named s [] =
    quill_error (codes "LogLevel enum value does not exist for \"" ++ s ++ codes "\"")
first_named s (l ∷ ls) = if names l s then value l else first_named s ls

unfoldable pub loglevel_from_string : Bytes → Result LogLevel
loglevel_from_string log_level = first_named (map to_lower log_level) all_levels

-- `BackendOptions::log_level_descriptions`
abbrev pub log_level_descriptions : List Bytes
log_level_descriptions =
    codes "TRACE_L3"
    ∷ codes "TRACE_L2"
    ∷ codes "TRACE_L1"
    ∷ codes "DEBUG"
    ∷ codes "INFO"
    ∷ codes "NOTICE"
    ∷ codes "WARNING"
    ∷ codes "ERROR"
    ∷ codes "CRITICAL"
    ∷ codes "BACKTRACE"
    ∷ codes "NONE"
    ∷ []

-- The default description of every log level is read back by loglevel_from_string as that level.
pub loglevel_from_string-log_level_to_string :
    (l : LogLevel)
    → (name : Bytes) × (log_level_to_string l log_level_descriptions ≡ value name)
      × (loglevel_from_string name ≡ value l)
unfolding log_level_to_string loglevel_from_string
loglevel_from_string-log_level_to_string trace_l3 = (codes "TRACE_L3", refl, refl)
loglevel_from_string-log_level_to_string trace_l2 = (codes "TRACE_L2", refl, refl)
loglevel_from_string-log_level_to_string trace_l1 = (codes "TRACE_L1", refl, refl)
loglevel_from_string-log_level_to_string debug = (codes "DEBUG", refl, refl)
loglevel_from_string-log_level_to_string info = (codes "INFO", refl, refl)
loglevel_from_string-log_level_to_string notice = (codes "NOTICE", refl, refl)
loglevel_from_string-log_level_to_string warning = (codes "WARNING", refl, refl)
loglevel_from_string-log_level_to_string error = (codes "ERROR", refl, refl)
loglevel_from_string-log_level_to_string critical = (codes "CRITICAL", refl, refl)
loglevel_from_string-log_level_to_string backtrace = (codes "BACKTRACE", refl, refl)
loglevel_from_string-log_level_to_string none_level = (codes "NONE", refl, refl)
