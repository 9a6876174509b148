-- ===== src/Quill/Spsc/Invariant.antt =====
-- What holds of the queue between two operations. The positions are those that have not wrapped:
-- `reader` counts all bytes ever read, and so on. The messages that are not read yet are `seen`, which
-- the reader knows of, `published`, which the writer has committed since, and `pending`, which it has
-- not committed.
use Prim.Native.Nat.{ℕ, zero, suc, ◌+◌, ◌-◌, ◌*◌, ◌%◌, ◌^◌, ◌≤◌, ◌<◌}
use mathlib.Core.Path.{subst}
use logger_benchmarks.Prelude.{
  Bytes, List, [], ◌∷◌, ◌++◌, length, ◌≡◌, refl, ap, ◌∙◌, arith, All, ltb, inl, inr, ◌⊎◌, dec_le,
  codes, false,
}
use logger_benchmarks.Quill.Errors.{value, quill_error}
use logger_benchmarks.Quill.Powers.{
  IsPower, IsPower-pos, next_power_of_two, next_power_of_two-IsRounded, IsPower-step,
  next_power_of_two-large,
}
use logger_benchmarks.Quill.Spsc.Slots.{slice, write_at, slice-write_at, apart_in_round}
use logger_benchmarks.Quill.Spsc.Defs.{
  Queue, fresh_queue, max_rounded_capacity, validate_capacity, make, zeros, total_size,
  metadata_size, cache_line_aligned,
}

abbrev pub total : List Bytes → ℕ
total [] = 0
total (m ∷ ms) = length m + total ms

pub total-append : (ms ns : List Bytes) → total (ms ++ ns) ≡ total ms + total ns
total-append [] ns = omega arith
total-append (m ∷ ms) ns = omega (arith, total-append ms ns)

-- The messages stand one behind the other from position `p` on, each in one piece.
abbrev pub Placed : Bytes → ℕ → ℕ → List Bytes → Type 0
Placed xs c p [] = Unit
Placed xs c p (m ∷ ms) = (slice xs (p % c) (length m) ≡ m) × Placed xs c (p + length m) ms

-- A message that is read takes at least a byte.
abbrev pub SomeBytes : Bytes → Type 0
SomeBytes m = 0 < length m

pub record IsValid (q : Queue) (seen published pending : List Bytes) : Type 0 where
  pub reader : ℕ
  pub released : ℕ
  pub cached : ℕ
  pub power : IsPower q.capacity
  pub bounded : q.capacity ≤ 2 ^ 62
  pub masks : q.mask + 1 ≡ q.capacity
  pub mirrored : length q.storage ≡ 2 * q.capacity
  pub reader_at : q.reader_pos ≡ reader % 2 ^ 64
  pub released_at : q.atomic_reader_pos ≡ released % 2 ^ 64
  pub cached_at : q.reader_pos_cache_plus_capacity ≡ (cached + q.capacity) % 2 ^ 64
  pub seen_at : q.writer_pos_cache ≡ (reader + total seen) % 2 ^ 64
  pub published_at : q.atomic_writer_pos ≡ (reader + (total seen + total published)) % 2 ^ 64
  pub writer_at :
      q.writer_pos ≡ (reader + (total seen + (total published + total pending))) % 2 ^ 64
  pub cached_le : cached ≤ released
  pub released_le : released ≤ reader
  pub within : reader + (total seen + (total published + total pending)) ≤ cached + q.capacity
  pub placed : Placed q.storage q.capacity reader (seen ++ published ++ pending)
  pub sized : All SomeBytes (seen ++ published ++ pending)

-- A copy of `n` bytes to position `w`, within one round of the first message, leaves the messages.
pub Placed-write_at :
    (xs : Bytes) (c p w : ℕ) (bs : Bytes) (ms : List Bytes)
    → 0 < c
    → p + total ms ≤ w
    → w + length bs ≤ p + c
    → Placed xs c p ms
    → Placed (write_at xs (w % c) bs) c p ms
Placed-write_at xs c p w bs [] pos before inside placed = tt
Placed-write_at xs c p w bs (m ∷ ms) pos before inside (here, placed) = (
  slice-write_at xs (w % c) bs (p % c) (length m)
        (λ i lt. apart_in_round c p (length m) w (length bs) i pos (omega arith) inside lt)
      ∙ here,
  Placed-write_at xs c (p + length m) w bs ms pos (omega arith) (omega arith) placed,
)

pub Placed-append :
    (xs : Bytes) (c p : ℕ) (ms : List Bytes) (m : Bytes)
    → Placed xs c p ms
    → slice xs ((p + total ms) % c) (length m) ≡ m
    → Placed xs c p (ms ++ m ∷ [])
Placed-append xs c p [] m placed last =
    let start : p + 0 ≡ p = omega arith in
    (subst (λ k. slice xs (k % c) (length m) ≡ m) start last, tt)
Placed-append xs c p (n ∷ ms) m (here, placed) last =
    let next : p + (length n + total ms) ≡ p + length n + total ms = omega arith in
    (
      here,
      Placed-append xs c (p + length n) ms m placed
          (subst (λ k. slice xs (k % c) (length m) ≡ m) next last),
    )

length-zeros : (n : ℕ) → length (zeros n) ≡ n
length-zeros zero = refl
length-zeros (suc n) = ap suc (length-zeros n)

rounded-le : (capacity : ℕ) → capacity ≤ 2 ^ 62 → next_power_of_two capacity ≤ 2 ^ 62
rounded-le capacity small =
    let (p, _, least) = next_power_of_two-IsRounded capacity (omega arith) in
    elim (IsPower-step p) [
      | inl le ↦ le
      | inr most ↦ elim least [ inl one ↦ omega arith | inr below ↦ omega arith ]
    ]

validate_capacity-small :
    (capacity : ℕ)
    → capacity ≤ 2 ^ 62
    → validate_capacity capacity ≡ value (next_power_of_two capacity)
unfolding validate_capacity
validate_capacity-small capacity small =
    let le = rounded-le capacity small in
    let fits : ltb (2 ^ 64 - 1) (next_power_of_two capacity) ≡ false = ground arith in
    let fits' : ltb max_rounded_capacity (next_power_of_two capacity) ≡ false = ground arith in
    rw (fits, fits') refl

validate_capacity-large :
    (capacity : ℕ)
    → 2 ^ 62 < capacity
    → validate_capacity capacity ≡ quill_error (codes "BoundedSPSCQueue capacity is too large")
unfolding validate_capacity
validate_capacity-large capacity large =
    let most : next_power_of_two capacity ≡ 2 ^ 63 = elim (dec_le capacity (2 ^ 63)) [
      | no above ↦ next_power_of_two-large capacity (omega arith)
      | yes below ↦
          let (p, le, _) = next_power_of_two-IsRounded capacity below in
          elim (IsPower-step p) [ inl small ↦ absurd (omega arith) | inr most ↦ most ]
    ] in
    rw most refl

pub fresh-IsValid :
    (batch : ℕ → ℕ) (c : ℕ) → IsPower c → c ≤ 2 ^ 62 → IsValid (fresh_queue batch c) [] [] []
fresh-IsValid batch c p small = record {
  reader = 0;
  released = 0;
  cached = 0;
  power = p;
  bounded = small;
  masks = omega (arith, IsPower-pos p);
  mirrored = length-zeros (2 * c);
  reader_at = omega arith;
  released_at = omega arith;
  cached_at = omega arith;
  seen_at = omega arith;
  published_at = omega arith;
  writer_at = omega arith;
  cached_le = omega arith;
  released_le = omega arith;
  within = omega arith;
  placed = tt;
  sized = tt;
}

-- A bounded queue of a capacity of at most 2^62 is constructed valid and empty, with at least that
-- capacity, and the size of its storage does not wrap around; a larger capacity is refused with an
-- error.
pub make-IsValid :
    (batch : ℕ → ℕ) (capacity : ℕ)
    → ((capacity ≤ 2 ^ 62)
        × (q : Queue) × (make batch capacity ≡ value q)
        × IsValid q [] [] []
        × (capacity ≤ q.capacity)
        × (total_size q.capacity ≡ 2 * q.capacity + metadata_size + cache_line_aligned))
      ⊎ ((2 ^ 62 < capacity)
          × (make batch capacity ≡ quill_error (codes "BoundedSPSCQueue capacity is too large")))
unfolding make total_size
make-IsValid batch capacity = elim (dec_le capacity (2 ^ 62)) [
  | yes small ↦
      let (p, enough, least) = next_power_of_two-IsRounded capacity (omega arith) in
      let le = rounded-le capacity small in
      inl (
        small,
        fresh_queue batch (next_power_of_two capacity),
        rw (make, validate_capacity-small capacity small) refl,
        fresh-IsValid batch (next_power_of_two capacity) p le,
        enough,
        omega arith,
      )
  | no large ↦ inr (omega arith, rw (make, validate_capacity-large capacity (omega arith)) refl)
]
