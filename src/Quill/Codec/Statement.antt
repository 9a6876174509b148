-- ===== src/Quill/Codec/Statement.antt =====
-- A log statement's arguments through the queue: what the caller's thread does with
-- `compute_encoded_size_and_cache_string_lengths` and `encode`, and the backend with
-- `decode_and_store_args`, of quill/include/quill/core/Codec.h.
use Prim.Native.Nat.{ℕ, ◌+◌, ◌%◌, ◌^◌, ◌<◌}
use logger_benchmarks.Prelude.{
  Bytes, some, List, [], ◌++◌, ◌≡◌, refl, ap, ◌∙◌, sym, length, append-nil, arith, length-append,
  Bool-cases, inl, inr,
}
use logger_benchmarks.Prelude.Slices.{pairs, drop-length-append}
use logger_benchmarks.Quill.Codec.Pack.{
  Pack, compute_encoded_size_and_cache_string_lengths, encode, decode_and_store_args,
  compute_total_encoded_size, encode_members, decode_members,
}
use logger_benchmarks.Quill.Codec.PackFaithful.{IsFaithfulPack}

module _ {As Ds : Type 0} {members : Pack As Ds} (m : IsFaithfulPack members) where
  open m use {Fits, pushed, bytes, view, sizes, encodes, decodes, caches}

  -- The lengths that `start` is extended by are those that `encode_all` takes from index 0 on.
  encodes_from :
      (start later : List ℕ) (buffer : Bytes) (args : As)
      → Fits args
      → length start + length (pushed args) < 2 ^ 32
      → start ++ pushed args ≡ pushed args ++ later
      → members.encode_all (start ++ pushed args) (buffer, 0) args
        ≡ some (buffer ++ bytes args, length (pushed args))
  encodes_from start later buffer args fit small here =
      encodes (start ++ pushed args) buffer 0 args later fit
        (omega (arith, length-append start (pushed args))) here
      ∙ ap some (pairs refl (omega arith))

  -- The size is that of the bytes that are written behind `buffer`, no index of the cache is out of
  -- bounds, and the backend reads the arguments off these bytes and no others.
  pub statement_lem :
      (stale : List ℕ) (buffer : Bytes) (args : As) (rest : Bytes)
      → Fits args
      → length stale + length (pushed args) < 2 ^ 32
      → let (size, cache) = compute_encoded_size_and_cache_string_lengths members stale args in
        (encode members buffer cache args ≡ some (buffer ++ bytes args, length (pushed args)))
        × (size ≡ length (bytes args) % 2 ^ 64)
        × (decode_and_store_args members (bytes args ++ rest) ≡ some (view args, rest))
  unfolding compute_encoded_size_and_cache_string_lengths encode decode_and_store_args
  statement_lem stale buffer args rest fit small =
      let from_zero : (0 + length (bytes args)) % 2 ^ 64 ≡ length (bytes args) % 2 ^ 64 =
        ap (λ n. n % 2 ^ 64) (omega arith) in
      elim (Bool-cases members.all_keep_cache) [
        | inl unused ↦
            let nothing = caches unused args in
            let same : stale ++ pushed args ≡ pushed args ++ stale =
              rw nothing (append-nil stale) in
            rw (unused, sizes stale 0 args (omega arith) fit)
              (
                encodes_from stale stale buffer args fit small same,
                from_zero,
                decodes args rest fit,
              )
        | inr used ↦
            rw (used, sizes [] 0 args (omega arith) fit)
              (
                encodes_from [] [] buffer args fit (omega arith) (sym (append-nil (pushed args))),
                from_zero,
                decodes args rest fit,
              )
      ]

  -- The helpers for the members of a user-defined type, called within a statement: from the lengths
  -- that went to the cache at index `i`, the size is that of the bytes, and they are read back.
  pub decode_members-encode_members :
      (cache : List ℕ) (buffer : Bytes) (args : As) (rest : Bytes)
      → Fits args
      → length cache + length (pushed args) < 2 ^ 32
      → let (size, cache') = compute_total_encoded_size members cache args in
        (encode_members members cache' (buffer, length cache) args
          ≡ some (buffer ++ bytes args, length cache + length (pushed args)))
        × (size ≡ length (bytes args) % 2 ^ 64)
        × (decode_members members (bytes args ++ rest) ≡ some (view args, rest))
  unfolding compute_total_encoded_size encode_members decode_members
  decode_members-encode_members cache buffer args rest fit small =
      let from_zero : (0 + length (bytes args)) % 2 ^ 64 ≡ length (bytes args) % 2 ^ 64 =
        ap (λ n. n % 2 ^ 64) (omega arith) in
      rw (sizes cache 0 args (omega arith) fit) (
        encodes (cache ++ pushed args) buffer (length cache) args [] fit
            (omega (arith, length-append cache (pushed args)))
            (drop-length-append cache (pushed args) ∙ sym (append-nil (pushed args))),
        from_zero,
        decodes args rest fit,
      )
