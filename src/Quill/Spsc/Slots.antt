-- ===== src/Quill/Spsc/Slots.antt =====
-- Bytes in a storage: a copy to an offset, the bytes from an offset on, and when the one leaves the
-- other.
use Prim.Native.Nat.{ℕ, zero, suc, ◌+◌, ◌-◌, ◌%◌, ◌≤◌, ◌<◌}
use mathlib.Core.Path.{subst}
use native.Mathlib.Nat.{mod-add-mod}
use logger_benchmarks.Prelude.{
  Bytes, [], ◌∷◌, length, get_or, ◌≡◌, refl, sym, ap, ◌∙◌, arith, dec_lt, inl, inr, ◌⊎◌,
}
use logger_benchmarks.Prelude.Ring.{set, length-set, get_or-set_same, get_or-set_other, mod_apart}

-- `std::memcpy(_storage + offset, bs, n)`
unfoldable pub write_at : Bytes → ℕ → Bytes → Bytes
write_at xs s [] = xs
write_at xs s (b ∷ bs) = write_at (set xs s b) (s + 1) bs

-- the `n` bytes at an offset
unfoldable pub slice : Bytes → ℕ → ℕ → Bytes
slice xs s zero = []
slice xs s (suc n) = get_or xs s 0 ∷ slice xs (s + 1) n

pub length-write_at : (xs : Bytes) (s : ℕ) (bs : Bytes) → length (write_at xs s bs) ≡ length xs
unfolding write_at
length-write_at xs s [] = refl
length-write_at xs s (b ∷ bs) = length-write_at (set xs s b) (s + 1) bs ∙ length-set xs s b

-- The offset `i` is not among the `n` from `s` on.
abbrev pub Outside : ℕ → ℕ → ℕ → Type 0
Outside i s n = (i < s) ⊎ (s + n ≤ i)

get_or-write_at :
    (xs : Bytes) (s : ℕ) (bs : Bytes) (i : ℕ)
    → Outside i s (length bs)
    → get_or (write_at xs s bs) i 0 ≡ get_or xs i 0
unfolding write_at
get_or-write_at xs s [] i out = refl
get_or-write_at xs s (b ∷ bs) i (inl before) =
    get_or-write_at (set xs s b) (s + 1) bs i (inl (omega arith))
    ∙ get_or-set_other xs s i b 0 (λ e. absurd (omega arith))
get_or-write_at xs s (b ∷ bs) i (inr behind) =
    get_or-write_at (set xs s b) (s + 1) bs i (inr (omega arith))
    ∙ get_or-set_other xs s i b 0 (λ e. absurd (omega arith))

-- A copy to other offsets leaves the bytes.
pub slice-write_at :
    (xs : Bytes) (s : ℕ) (bs : Bytes) (t n : ℕ)
    → ((i : ℕ) → i < n → Outside (t + i) s (length bs))
    → slice (write_at xs s bs) t n ≡ slice xs t n
unfolding slice
slice-write_at xs s bs t zero out = refl
slice-write_at xs s bs t (suc n) out =
    let start : t + 0 ≡ t = omega arith in
    let here : Outside t s (length bs) =
      subst (λ k. Outside k s (length bs)) start (out 0 (omega arith)) in
    let later : (i : ℕ) → i < n → Outside (t + 1 + i) s (length bs) = λ i lt.
      let next : t + suc i ≡ t + 1 + i = omega arith in
      subst (λ k. Outside k s (length bs)) next (out (suc i) (omega arith)) in
    rw (get_or-write_at xs s bs t here, slice-write_at xs s bs (t + 1) n later)

-- What was copied is there.
pub slice-written :
    (xs : Bytes) (s : ℕ) (bs : Bytes)
    → s + length bs ≤ length xs
    → slice (write_at xs s bs) s (length bs) ≡ bs
unfolding write_at slice
slice-written xs s [] h = refl
slice-written xs s (b ∷ bs) h =
    let first : get_or (write_at (set xs s b) (s + 1) bs) s 0 ≡ b =
      get_or-write_at (set xs s b) (s + 1) bs s (inl (omega arith))
      ∙ get_or-set_same xs s b 0 (omega arith) in
    rw (first, slice-written (set xs s b) (s + 1) bs (omega (arith, length-set xs s b)))

-- Two messages within one round of `c` bytes do not meet, although both may reach over the end of
-- the first `c` bytes of the storage: `l` bytes from position `p` on, and `n` from `w` on.
pub apart_in_round :
    (c p l w n i : ℕ) → 0 < c → p + l ≤ w → w + n ≤ p + c → i < l → Outside (p % c + i) (w % c) n
apart_in_round c p l w n i pos before within inside = elim (dec_lt (p % c + i) (w % c)) [
  | yes lower ↦ inl lower
  | no upper ↦ elim (dec_lt (p % c + i) (w % c + n)) [
    | no behind ↦ inr (omega arith)
    | yes meets ↦
        let j : ℕ = p % c + i - w % c in
        let k : ℕ = w + j - (p + i) in
        let ahead : p + i + k ≡ w + j = omega arith in
        let same : w % c + j ≡ p % c + i = omega arith in
        absurd (
          mod_apart c (p + i) k (omega arith) (omega arith) (
            ap (λ x. x % c) ahead
            ∙ sym (mod-add-mod w c j)
            ∙ ap (λ x. x % c) same
            ∙ mod-add-mod p c i))
  ]
]
