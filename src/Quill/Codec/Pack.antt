-- ===== src/Quill/Codec/Pack.antt =====
-- The folds over parameter packs of quill/include/quill/core/Codec.h: the arguments of a log
-- statement, the members of a user-defined type, and the elements of a `std::tuple` of
-- quill/include/quill/std/Tuple.h. The members are nested to the right, and end in `tt`.
use Prim.Native.Nat.{ℕ}
use logger_benchmarks.Prelude.{
  Bytes, Option, some, none, List, [], Bool, true, false, ◌>>=◌, if◌then◌else◌, ◌&&◌,
}
use logger_benchmarks.Quill.Codec.Defs.{Codec, add_size}

-- The three folds over a pack whose members are `As` and are read as `Ds`.
pub record Pack (As Ds : Type 0) : Type 0 where
  pub all_keep_cache : Bool
  pub add_sizes : List ℕ → ℕ → As → ℕ × List ℕ
  pub encode_all : List ℕ → Bytes × ℕ → As → Option (Bytes × ℕ)
  pub decode_all : Bytes → Option (Ds × Bytes)

abbrev pub no_members : Pack Unit Unit
no_members = record {
  all_keep_cache = true;
  add_sizes = λ cache total _. (total, cache);
  encode_all = λ cache w _. some w;
  decode_all = λ buffer. some (tt, buffer);
}

module _ {A D As Ds : Type 0} (c : Codec A D) (members : Pack As Ds) where
  abbrev pub add_member_sizes : List ℕ → ℕ → A × As → ℕ × List ℕ
  add_member_sizes cache total (arg, args) =
      let (size, cache') = c.compute_encoded_size cache arg in
      members.add_sizes cache' (add_size total size) args

  -- one more member, in front
  abbrev pub with_member : Pack (A × As) (D × Ds)
  with_member = record {
    all_keep_cache = c.keeps_cache && members.all_keep_cache;
    add_sizes = add_member_sizes;
    encode_all =
        λ cache w args. c.encode cache w args.0 >>= λ w'. members.encode_all cache w' args.1;
    decode_all = λ buffer.
        c.decode_arg buffer >>= λ d. members.decode_all d.1 >>= λ r. some ((d.0, r.0), r.1);
  }

module _ {As Ds : Type 0} (members : Pack As Ds) where
  -- The cache, which a thread keeps from one statement to the next, is cleared unless no type of
  -- the statement uses it.
  unfoldable pub compute_encoded_size_and_cache_string_lengths : List ℕ → As → ℕ × List ℕ
  compute_encoded_size_and_cache_string_lengths cache args =
      members.add_sizes (if members.all_keep_cache then cache else []) 0 args

  unfoldable pub encode : Bytes → List ℕ → As → Option (Bytes × ℕ)
  encode buffer cache args = members.encode_all cache (buffer, 0) args

  unfoldable pub decode_and_store_args : Bytes → Option (Ds × Bytes)
  decode_and_store_args buffer = members.decode_all buffer

  unfoldable pub compute_total_encoded_size : List ℕ → As → ℕ × List ℕ
  compute_total_encoded_size cache args = members.add_sizes cache 0 args

  unfoldable pub encode_members : List ℕ → Bytes × ℕ → As → Option (Bytes × ℕ)
  encode_members cache w args = members.encode_all cache w args

  unfoldable pub decode_members : Bytes → Option (Ds × Bytes)
  decode_members buffer = members.decode_all buffer

  unfoldable pub tuple_size : List ℕ → As → ℕ × List ℕ
  tuple_size cache arg = members.add_sizes cache 0 arg

  unfoldable pub encode_tuple : List ℕ → Bytes × ℕ → As → Option (Bytes × ℕ)
  encode_tuple cache w arg = members.encode_all cache w arg

  unfoldable pub decode_tuple : Bytes → Option (Ds × Bytes)
  decode_tuple buffer = members.decode_all buffer

  -- `Codec<std::tuple<Types…>>`
  abbrev pub tuple : Codec As Ds
  tuple = record {
    arithmetic = none;
    is_bool = false;
    keeps_cache = false;
    compute_encoded_size = tuple_size;
    encode = encode_tuple;
    decode_arg = decode_tuple;
  }
