-- ===== src/CallSite/Share.antt =====
-- `messages_for_thread` of call_site_latency_bench.h, and the shares of all threads together.
use Prim.Native.Nat.{min}
use native.Mathlib.Nat.{div-add-mod, mod-lt, mod-eq_of_lt, div-eq_of_lt}
use logger_benchmarks.Prelude.{
  ℕ, zero, suc, ◌+◌, ◌*◌, ◌/◌, ◌%◌, ◌^◌, ◌≤◌, ◌<◌, ◌≡◌, arith, ltb, ◌==◌, if◌then◌else◌, sum_upto,
  ◌↔◌, sum_upto_ext,
}

-- size_t arithmetic: the sum wraps at 64 bits.
unfoldable pub messages_for_thread : ℕ → ℕ → ℕ → ℕ
messages_for_thread messages_per_iteration thread_count thread_num =
    if thread_count == 0
    then 0
    else let base_messages_per_thread = messages_per_iteration / thread_count in
      let remainder = messages_per_iteration % thread_count in
      (base_messages_per_thread + (if ltb thread_num remainder then 1 else 0)) % 2 ^ 64

-- the share with no wrap-around
share : ℕ → ℕ → ℕ → ℕ
share q r i = q + (if ltb i r then 1 else 0)

sum-share : (n q r : ℕ) → sum_upto n (share q r) ≡ n * q + min n r
unfolding sum_upto share
sum-share zero q r = omega arith
sum-share (suc n) q r = ground (arith, sum-share n q r)

share-fits : (m n i : ℕ) → 0 < n → m < 2 ^ 64 → share (m / n) (m % n) i < 2 ^ 64
unfolding share
share-fits m n i pos fits = grind (arith, div-add-mod m n)

-- With a 64-bit count of messages the arithmetic of the code does not wrap around.
share-eq : (m n i : ℕ) → 0 < n → m < 2 ^ 64 → messages_for_thread m n i ≡ share (m / n) (m % n) i
unfolding messages_for_thread share
share-eq m n i pos fits = ground (arith, mod-eq_of_lt (share-fits m n i pos fits))

-- For a positive count of threads and a 64-bit count of messages, the shares of all threads of a
-- run add up to the messages of an iteration.
pub sum-messages_for_thread :
    (m n : ℕ) → 0 < n → m < 2 ^ 64 → sum_upto n (messages_for_thread m n) ≡ m
sum-messages_for_thread m n pos fits = omega (
  arith,
  sum_upto_ext n (messages_for_thread m n) (share (m / n) (m % n)) (λ i _. share-eq m n i pos fits),
  sum-share n (m / n) (m % n),
  div-add-mod m n,
  mod-lt m pos,
)

-- Of two threads, with a positive count of threads and a 64-bit count of messages, the earlier one
-- logs at least as many messages as the later one, and at most one more.
pub messages_for_thread_even :
    (m n i j : ℕ)
    → 0 < n
    → m < 2 ^ 64
    → i ≤ j
    → (messages_for_thread m n j ≤ messages_for_thread m n i)
      × (messages_for_thread m n i ≤ messages_for_thread m n j + 1)
unfolding share
messages_for_thread_even m n i j pos fits h =
    ground (arith, share-eq m n i pos fits, share-eq m n j pos fits)

-- With a 64-bit count of messages, a thread of a run has no message to log exactly if there are at
-- most as many messages as its index.
pub messages_for_thread-eq-zero :
    (m n i : ℕ) → i < n → m < 2 ^ 64 → (messages_for_thread m n i ≡ 0) ↔ (m ≤ i)
unfolding share
messages_for_thread-eq-zero m n i below fits =
    let e = share-eq m n i (omega arith) fits in
    (
      λ z. grind (arith, e, div-add-mod m n),
      λ le. let none_each : m / n ≡ 0 = div-eq_of_lt (omega arith) in grind (arith, e, none_each),
    )
