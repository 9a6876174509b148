-- ===== src/Throughput/Tail/Search.antt =====
-- What `file_tail_contains` of iyengar_nanolog_backend_total_time.cpp finds.
use Prim.Native.Nat.{min}
use logger_benchmarks.Prelude.{
  ℕ, zero, suc, ◌-◌, ◌≤◌, ◌<◌, ◌≡◌, refl, ap, sym, arith, true, ◌==◌, Option, none, some, [], ◌∷◌,
  ◌++◌, Bytes, length, length-append, Bool-cases, inl, inr, append_assoc, ◌∙◌,
}
use logger_benchmarks.Throughput.Tail.Defs.{
  drop, begins_with, holds_text, max_tail_size, file_tail_contains,
}

begins_with-append : (m rest : Bytes) → begins_with (m ++ rest) m ≡ true
unfolding begins_with
begins_with-append [] rest = begins_with_nil rest
  where
    begins_with_nil : (s : Bytes) → begins_with s [] ≡ true
    begins_with_nil s = refl
begins_with-append (c ∷ m) rest = ground (arith, begins_with-append m rest)

holds_text_here : (s m : Bytes) → begins_with s m ≡ true → holds_text s m ≡ true
unfolding holds_text
holds_text_here [] m h = h
holds_text_here (c ∷ s) m h = rw h

holds_text-append : (front m rest : Bytes) → holds_text (front ++ (m ++ rest)) m ≡ true
unfolding holds_text
holds_text-append [] m rest = holds_text_here (m ++ rest) m (begins_with-append m rest)
holds_text-append (c ∷ front) m rest =
    elim (Bool-cases (begins_with (c ∷ (front ++ (m ++ rest))) m)) [
      | inl here ↦ rw here
      | inr later ↦ rw later (holds_text-append front m rest)
    ]

begins_with_sound : (s m : Bytes) → begins_with s m ≡ true → (rest : Bytes) × (s ≡ m ++ rest)
unfolding begins_with
begins_with_sound s [] h = (s, refl)
begins_with_sound [] (c ∷ m) h = cc
begins_with_sound (b ∷ s) (c ∷ m) h =
    let (rest, e) = begins_with_sound s m (ground arith) in
    let same : b ≡ c = ground arith in (rest, cc)

-- the text stands somewhere in `s`
abbrev pub Holds : Bytes → Bytes → Type 0
Holds s m = (front : Bytes) × (rest : Bytes) × (s ≡ front ++ (m ++ rest))

holds_text_sound : (s m : Bytes) → holds_text s m ≡ true → Holds s m
unfolding holds_text
holds_text_sound [] m h = let (rest, e) = begins_with_sound [] m h in ([], rest, e)
holds_text_sound (c ∷ s) m h = elim (Bool-cases (begins_with (c ∷ s) m)) [
  | inl here ↦ let (rest, e) = begins_with_sound (c ∷ s) m here in ([], rest, e)
  | inr later ↦
      let (front, rest, e) = holds_text_sound s m (ground arith) in
      (c ∷ front, rest, ap (λ x. c ∷ x) e)
]

drop-append : (n : ℕ) (front s : Bytes) → n ≤ length front → drop n (front ++ s) ≡ drop n front ++ s
drop-append zero front s h = refl
drop-append (suc n) [] s h = absurd (omega arith)
drop-append (suc n) (c ∷ front) s h = drop-append n front s (omega arith)

drop_suffix : (n : ℕ) (s : Bytes) → (front : Bytes) × (s ≡ front ++ drop n s)
drop_suffix zero s = ([], refl)
drop_suffix (suc n) [] = ([], refl)
drop_suffix (suc n) (c ∷ s) = let (front, e) = drop_suffix n s in (c ∷ front, ap (λ x. c ∷ x) e)

-- file_tail_contains finds a marker in a file that holds it and some byte from it on, and whose
-- part from the marker on is of at most 4096 bytes.
pub file_tail_contains_complete :
    (front m rest : Bytes)
    → 0 < length (m ++ rest)
    → length (m ++ rest) ≤ max_tail_size
    → file_tail_contains (some (front ++ (m ++ rest))) m ≡ true
unfolding file_tail_contains
file_tail_contains_complete front m rest some_bytes near =
    let sizes = length-append front (m ++ rest) in
    let cut = length (front ++ (m ++ rest)) - min (length (front ++ (m ++ rest))) max_tail_size in
    let dropped = drop-append cut front (m ++ rest) (omega (arith, sizes)) in
    elim (Bool-cases (length (front ++ (m ++ rest)) == 0)) [
      | inl empty ↦ absurd (ground (arith, sizes))
      | inr nonempty ↦ rw (nonempty, dropped) (holds_text-append (drop cut front) m rest)
    ]

-- file_tail_contains answers true only for a file that can be opened and holds the marker.
pub file_tail_contains_sound :
    (file : Option Bytes) (m : Bytes)
    → file_tail_contains file m ≡ true
    → (content : Bytes) × (file ≡ some content) × Holds content m
unfolding file_tail_contains
file_tail_contains_sound none m h = cc
file_tail_contains_sound (some content) m h =
    let cut = length content - min (length content) max_tail_size in
    let (before, e) = drop_suffix cut content in
    let (front, rest, e') = holds_text_sound (drop cut content) m (ground arith) in
    (
      content,
      refl,
      (
        before ++ front,
        rest,
        e ∙ ap (λ x. before ++ x) e' ∙ sym (append_assoc before front (m ++ rest)),
      ),
    )
