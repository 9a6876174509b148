-- ===== src/Quill/Codec/PackFaithful.antt =====
-- The folds over a parameter pack keep what the codecs of its members owe.
use Prim.Native.Nat.{ℕ, ◌+◌, ◌%◌, ◌^◌, ◌<◌}
use mathlib.Core.Bool.{false≢true}
use logger_benchmarks.Prelude.{
  Bytes, some, List, [], ◌++◌, Bool, true, false, ◌≡◌, refl, ap, ◌∙◌, sym, length, append-nil,
  append_assoc, arith, length-append, ◌&&◌,
}
use logger_benchmarks.Prelude.Slices.{pairs, drop, drop-append}
use logger_benchmarks.Quill.Codec.Defs.{Codec}
use logger_benchmarks.Quill.Codec.Faithful.{IsFaithful}
use logger_benchmarks.Quill.Codec.Pack.{
  Pack, no_members, with_member, add_member_sizes, tuple_size, encode_tuple, decode_tuple, tuple,
}

-- `IsFaithful` for all members together.
pub record IsFaithfulPack {As Ds : Type 0} (members : Pack As Ds) : Type 1 where
  pub Fits : As → Type 0
  pub pushed : As → List ℕ
  pub bytes : As → Bytes
  pub view : As → Ds
  pub sizes :
      (cache : List ℕ) (total : ℕ) (args : As)
      → total < 2 ^ 64
      → Fits args
      → members.add_sizes cache total args
        ≡ ((total + length (bytes args)) % 2 ^ 64, cache ++ pushed args)
  pub encodes :
      (cache : List ℕ) (buffer : Bytes) (i : ℕ) (args : As) (later : List ℕ)
      → Fits args
      → length cache < 2 ^ 32
      → drop i cache ≡ pushed args ++ later
      → members.encode_all cache (buffer, i) args
        ≡ some (buffer ++ bytes args, i + length (pushed args))
  pub decodes :
      (args : As) (rest : Bytes)
      → Fits args
      → members.decode_all (bytes args ++ rest) ≡ some (view args, rest)
  pub caches : members.all_keep_cache ≡ true → (args : As) → pushed args ≡ []

unfoldable pub no_members-IsFaithfulPack : IsFaithfulPack no_members
no_members-IsFaithfulPack = record {
  Fits = λ _. Unit;
  pushed = λ _. [];
  bytes = λ _. [];
  view = λ _. tt;
  sizes = λ cache total _ small _. pairs (omega arith) (sym (append-nil cache));
  encodes = λ cache buffer i _ later _ _ _. ap some (pairs (sym (append-nil buffer)) (omega arith));
  decodes = λ _ _ _. refl;
  caches = λ _ _. refl;
}

and_left : (a b : Bool) → (a && b) ≡ true → a ≡ true
and_left true b h = refl
and_left false b h = h

and_right : (a b : Bool) → (a && b) ≡ true → b ≡ true
and_right true b h = h
and_right false b h = absurd (false≢true h)

module _ {A D As Ds : Type 0} {c : Codec A D} {members : Pack As Ds} (l : IsFaithful c)
    (m : IsFaithfulPack members) where
  pub caches_nothing :
      c.keeps_cache && members.all_keep_cache ≡ true
      → (args : A × As) → l.pushed args.0 ++ m.pushed args.1 ≡ []
  caches_nothing h (arg, args) = rw (
    l.caches (and_left c.keeps_cache members.all_keep_cache h) arg,
    m.caches (and_right c.keeps_cache members.all_keep_cache h) args,
  )

  pub sizes_member :
      (cache : List ℕ) (total : ℕ) (args : A × As)
      → total < 2 ^ 64
      → l.Fits args.0 × m.Fits args.1
      → add_member_sizes c members cache total args ≡ (
        (total + length (l.bytes args.0 ++ m.bytes args.1)) % 2 ^ 64,
        cache ++ (l.pushed args.0 ++ m.pushed args.1),
      )
  sizes_member cache total (a, b) small (fit, fit') =
      let total' = (total + length (l.bytes a) % 2 ^ 64) % 2 ^ 64 in
      rw
        (
          add_member_sizes,
          l.sizes cache a fit,
          m.sizes (cache ++ l.pushed a) total' b (omega arith) fit',
        )
        (pairs (omega (arith, length-append (l.bytes a) (m.bytes b)))
          (append_assoc cache (l.pushed a) (m.pushed b)))

  unfoldable pub with_member-IsFaithfulPack : IsFaithfulPack (with_member c members)
  with_member-IsFaithfulPack = record {
    Fits = λ v. l.Fits v.0 × m.Fits v.1;
    pushed = λ v. l.pushed v.0 ++ m.pushed v.1;
    bytes = λ v. l.bytes v.0 ++ m.bytes v.1;
    view = λ v. (l.view v.0, m.view v.1);
    sizes = sizes_member;
    encodes = λ cache buffer i (a, b) later (fit, fit') small here.
        let here' = here ∙ append_assoc (l.pushed a) (m.pushed b) later in
        let next = drop-append i cache (l.pushed a) (m.pushed b ++ later) here' in
        rw
          (
            l.encodes cache buffer i a (m.pushed b ++ later) fit small here',
            m.encodes cache (buffer ++ l.bytes a) (i + length (l.pushed a)) b later fit' small next,
          )
          (ap some (
            pairs (append_assoc buffer (l.bytes a) (m.bytes b))
              (omega (arith, length-append (l.pushed a) (m.pushed b)))));
    decodes = λ (a, b) rest (fit, fit'). rw (
      append_assoc (l.bytes a) (m.bytes b) rest,
      l.decodes a (m.bytes b ++ rest) fit,
      m.decodes b rest fit',
    );
    caches = caches_nothing;
  }

module _ {As Ds : Type 0} {members : Pack As Ds} (m : IsFaithfulPack members) where
  unfoldable pub tuple-IsFaithful : IsFaithful (tuple members)
  unfolding tuple_size encode_tuple decode_tuple
  tuple-IsFaithful = record {
    Fits = m.Fits;
    pushed = m.pushed;
    bytes = m.bytes;
    view = m.view;
    sizes = λ cache v fit.
        m.sizes cache 0 v (omega arith) fit ∙ pairs (ap (λ n. n % 2 ^ 64) (omega arith)) refl;
    encodes = m.encodes;
    decodes = m.decodes;
    caches = λ e _. absurd (false≢true e);
    represents = λ _ _. tt;
  }
