-- ===== src/Quill/Levels/Spellings.antt =====
-- Which names loglevel_from_string of quill/include/quill/core/LogLevel.h reads, and as which levels.
use Prim.Native.Nat.{ℕ}
use logger_benchmarks.Prelude.{
  true, ◌||◌, ◌==◌, List, [], ◌∷◌, ◌++◌, Bytes, codes, map, ◌≡◌, refl, sym, ◌∙◌, ap, arith,
  Bool-cases, inl, inr, ◌⊎◌,
}
use mathlib.Core.Bool.{true≢false}
use mathlib.Core.Path.{subst}
use logger_benchmarks.Quill.Errors.{value, quill_error}
use logger_benchmarks.Quill.Levels.{
  LogLevel, trace_l3, trace_l2, trace_l1, debug, info, notice, warning, error, critical, backtrace,
  none_level, to_lower, same, names, all_levels, first_named, loglevel_from_string,
}

to_lower_twice : (c : ℕ) → to_lower (to_lower c) ≡ to_lower c
to_lower_twice c = ground arith

lower_twice : (s : Bytes) → map to_lower (map to_lower s) ≡ map to_lower s
lower_twice [] = refl
lower_twice (c ∷ s) = rw (to_lower_twice c, lower_twice s)

-- The spellings that loglevel_from_string is to know, in lower case.
abbrev pub spellings : LogLevel → List Bytes
spellings trace_l3 = codes "tracel3" ∷ codes "trace_l3" ∷ []
spellings trace_l2 = codes "tracel2" ∷ codes "trace_l2" ∷ []
spellings trace_l1 = codes "tracel1" ∷ codes "trace_l1" ∷ []
spellings debug = codes "debug" ∷ []
spellings info = codes "info" ∷ []
spellings notice = codes "notice" ∷ []
spellings warning = codes "warning" ∷ codes "warn" ∷ []
spellings error = codes "error" ∷ codes "err" ∷ []
spellings critical = codes "critical" ∷ []
spellings backtrace = codes "backtrace" ∷ []
spellings none_level = codes "none" ∷ []

abbrev pub OneOf : Bytes → List Bytes → Type 0
OneOf s [] = ⊥
OneOf s (t ∷ ts) = (s ≡ t) ⊎ OneOf s ts

same-eq : (s t : Bytes) → same s t ≡ true → s ≡ t
same-eq [] [] h = refl
same-eq [] (y ∷ ys) h = absurd (true≢false (sym h))
same-eq (x ∷ xs) [] h = absurd (true≢false (sym h))
same-eq (x ∷ xs) (y ∷ ys) h = elim (Bool-cases (x == y)) [
  | inl here ↦ let first : x ≡ y = ground arith in rw (first, same-eq xs ys (rw here at h)) refl
  | inr apart ↦ absurd (true≢false (sym (rw apart at h)))
]

either : (s t u : Bytes) → (same s t || same s u) ≡ true → OneOf s (t ∷ u ∷ [])
either s t u h = elim (Bool-cases (same s t)) [
  | inl first ↦ inl (same-eq s t first)
  | inr other ↦ inr (inl (same-eq s u (rw other at h)))
]

names-OneOf : (l : LogLevel) (s : Bytes) → names l s ≡ true → OneOf s (spellings l)
names-OneOf trace_l3 s h = either s _ _ h
names-OneOf trace_l2 s h = either s _ _ h
names-OneOf trace_l1 s h = either s _ _ h
names-OneOf debug s h = inl (same-eq s _ h)
names-OneOf info s h = inl (same-eq s _ h)
names-OneOf notice s h = inl (same-eq s _ h)
names-OneOf warning s h = either s _ _ h
names-OneOf error s h = either s _ _ h
names-OneOf critical s h = inl (same-eq s _ h)
names-OneOf backtrace s h = inl (same-eq s _ h)
names-OneOf none_level s h = inl (same-eq s _ h)

spelled :
    (l : LogLevel) {s t : Bytes}
    → s ≡ t
    → first_named t all_levels ≡ value l
    → first_named s all_levels ≡ value l
spelled l e h = subst (λ u. first_named u all_levels ≡ value l) (sym e) h

value_or_error : {l : LogLevel} {message : Bytes} → value l ≡ quill_error message → ⊥
value_or_error e = cc

-- A spelling of a level is one that its test passes, and no test before it.
first_named-spelling :
    (l : LogLevel) (s : Bytes) → OneOf s (spellings l) → first_named s all_levels ≡ value l
first_named-spelling trace_l3 s (inl e) = spelled trace_l3 e refl
first_named-spelling trace_l3 s (inr (inl e)) = spelled trace_l3 e refl
first_named-spelling trace_l3 s (inr (inr h)) = absurd h
first_named-spelling trace_l2 s (inl e) = spelled trace_l2 e refl
first_named-spelling trace_l2 s (inr (inl e)) = spelled trace_l2 e refl
first_named-spelling trace_l2 s (inr (inr h)) = absurd h
first_named-spelling trace_l1 s (inl e) = spelled trace_l1 e refl
first_named-spelling trace_l1 s (inr (inl e)) = spelled trace_l1 e refl
first_named-spelling trace_l1 s (inr (inr h)) = absurd h
first_named-spelling debug s (inl e) = spelled debug e refl
first_named-spelling debug s (inr h) = absurd h
first_named-spelling info s (inl e) = spelled info e refl
first_named-spelling info s (inr h) = absurd h
first_named-spelling notice s (inl e) = spelled notice e refl
first_named-spelling notice s (inr h) = absurd h
first_named-spelling warning s (inl e) = spelled warning e refl
first_named-spelling warning s (inr (inl e)) = spelled warning e refl
first_named-spelling warning s (inr (inr h)) = absurd h
first_named-spelling error s (inl e) = spelled error e refl
first_named-spelling error s (inr (inl e)) = spelled error e refl
first_named-spelling error s (inr (inr h)) = absurd h
first_named-spelling critical s (inl e) = spelled critical e refl
first_named-spelling critical s (inr h) = absurd h
first_named-spelling backtrace s (inl e) = spelled backtrace e refl
first_named-spelling backtrace s (inr h) = absurd h
first_named-spelling none_level s (inl e) = spelled none_level e refl
first_named-spelling none_level s (inr h) = absurd h

first_named_lem :
    (s : Bytes) (ls : List LogLevel)
    → ((l : LogLevel) × (first_named s ls ≡ value l) × (names l s ≡ true))
      ⊎ (first_named s ls
          ≡ quill_error (codes "LogLevel enum value does not exist for \"" ++ s ++ codes "\""))
first_named_lem s [] = inr refl
first_named_lem s (l ∷ ls) = elim (Bool-cases (names l s)) [
  | inl named ↦ inl (l, rw named refl, named)
  | inr other ↦ rw (first_named, other) (first_named_lem s ls)
]

-- loglevel_from_string ignores the case of ASCII letters. If the name, in lower case, is one of the
-- spellings of a level, it gives such a level; if it is a spelling of none, it gives an error that
-- quotes the name.
pub loglevel_from_string_lem :
    (s : Bytes)
    → (loglevel_from_string (map to_lower s) ≡ loglevel_from_string s)
      × (((l : LogLevel) × OneOf (map to_lower s) (spellings l)
            × (loglevel_from_string s ≡ value l))
          ⊎ (((l : LogLevel) → OneOf (map to_lower s) (spellings l) → ⊥)
              × (loglevel_from_string s
                  ≡ quill_error (
                      codes "LogLevel enum value does not exist for \""
                      ++ map to_lower s
                      ++ codes "\""))))
unfolding loglevel_from_string
loglevel_from_string_lem s = (
  ap (λ t. first_named t all_levels) (lower_twice s),
  elim (first_named_lem (map to_lower s) all_levels) [
    | inl (l, is, named) ↦ inl (l, names-OneOf l (map to_lower s) named, is)
    | inr refused ↦ inr (
      (λ l h. value_or_error (sym (first_named-spelling l (map to_lower s) h) ∙ refused)),
      refused,
    )
  ],
)
