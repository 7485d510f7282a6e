-- ===== src/Wire/Sample.antt =====
-- A small runtime that keeps every law, for runs of the model: a tag and a varint take one
-- element, a `fixed64` eight bytes, a string its length and its bytes.
use proto_rpc_multi_reactor.Prelude.{
  ℕ, inl, inr, ap, Option-cases, ◌+◌, ◌*◌, ◌≤◌, ◌<◌, ◌≡◌, refl, [], ◌∷◌, ◌++◌, Option, none, some,
  arith, leb, if◌then◌else◌, length, take, drop, length-drop, take-length_append,
  drop-length_append, length-append, is_empty,
}
use proto_rpc_multi_reactor.Prelude.Text.{Bytes}
use proto_rpc_multi_reactor.Wire.Nested.{Scalars, ScalarsLaws, Nested, NestedLaws}
use proto_rpc_multi_reactor.Wire.Loop.{Outcome, ended, stopped, failed, stuck}
use proto_rpc_multi_reactor.Wire.{Runtime, Forward, ReadsBack, Sizes}

abbrev read_one : Bytes → Option (ℕ × Bytes)
read_one [] = none
read_one (x ∷ r) = some (x, r)

abbrev read_eight : Bytes → Option (ℕ × Bytes)
read_eight (x ∷ _ ∷ _ ∷ _ ∷ _ ∷ _ ∷ _ ∷ _ ∷ r) = some (x, r)
read_eight _ = none

abbrev read_counted : Bytes → Option (Bytes × Bytes)
read_counted [] = none
read_counted (n ∷ r) = if leb n (length r) then some (take n r, drop n r) else none

abbrev keep_one : ℕ → Bytes → Bytes → Option (Bytes × Bytes)
keep_one t u [] = none
keep_one t u (x ∷ r) = some (u ++ (t ∷ x ∷ []), r)

abbrev pub sample : Runtime
sample = record {
  done = is_empty;
  read_tag = read_one;
  read_varint64 = read_one;
  load_fixed64 = read_eight;
  read_string = read_counted;
  unknown_field = keep_one;
  write_enum = λ n v. (8 * n) ∷ v ∷ [];
  write_fixed64 = λ n v. (8 * n + 1) ∷ v ∷ 0 ∷ 0 ∷ 0 ∷ 0 ∷ 0 ∷ 0 ∷ 0 ∷ [];
  write_bytes = λ n b. (8 * n + 2) ∷ length b ∷ b;
  write_unknown = λ u. u;
  enum_size = λ v. 1;
  bytes_size = λ b. 1 + length b;
  unknown_size = length;
}

read_one_lt : (s r : Bytes) (t : ℕ) → read_one s ≡ some (t, r) → length r < length s
read_one_lt [] r t e = cc
read_one_lt (x ∷ s) r t e = ground arith

read_one_le : (s r : Bytes) (t : ℕ) → read_one s ≡ some (t, r) → length r ≤ length s
read_one_le s r t e = omega (arith, read_one_lt s r t e)

read_eight_le : (s r : Bytes) (t : ℕ) → read_eight s ≡ some (t, r) → length r ≤ length s
read_eight_le [] r t e = cc
read_eight_le (_ ∷ []) r t e = cc
read_eight_le (_ ∷ _ ∷ []) r t e = cc
read_eight_le (_ ∷ _ ∷ _ ∷ []) r t e = cc
read_eight_le (_ ∷ _ ∷ _ ∷ _ ∷ []) r t e = cc
read_eight_le (_ ∷ _ ∷ _ ∷ _ ∷ _ ∷ []) r t e = cc
read_eight_le (_ ∷ _ ∷ _ ∷ _ ∷ _ ∷ _ ∷ []) r t e = cc
read_eight_le (_ ∷ _ ∷ _ ∷ _ ∷ _ ∷ _ ∷ _ ∷ []) r t e = cc
read_eight_le (_ ∷ _ ∷ _ ∷ _ ∷ _ ∷ _ ∷ _ ∷ _ ∷ s) r t e = ground arith

read_counted_le : (s r b : Bytes) → read_counted s ≡ some (b, r) → length r ≤ length s
read_counted_le [] r b e = cc
read_counted_le (n ∷ s) r b e = ground (arith, length-drop n s)

keep_one_le : (t : ℕ) (u s r v : Bytes) → keep_one t u s ≡ some (v, r) → length r ≤ length s
keep_one_le t u [] r v e = cc
keep_one_le t u (x ∷ s) r v e = ground arith

pub sample-Forward : Forward sample
sample-Forward = record {
  done_lem = λ s. refl;
  read_tag_lt = read_one_lt;
  read_varint64_le = read_one_le;
  load_fixed64_le = read_eight_le;
  read_string_le = read_counted_le;
  unknown_field_le = keep_one_le;
}

read_counted-append : (b r : Bytes) → read_counted (length b ∷ (b ++ r)) ≡ some (b, r)
read_counted-append b r =
    ground (arith, length-append b r, take-length_append b r, drop-length_append b r)

pub sample-ReadsBack : ReadsBack sample
sample-ReadsBack = record {
  enum_field = λ n v r _ h. (v ∷ r, v, refl, refl, omega arith);
  fixed64_field = λ n v r _ _. (v ∷ 0 ∷ 0 ∷ 0 ∷ 0 ∷ 0 ∷ 0 ∷ 0 ∷ r, refl, refl);
  bytes_field = λ n b r _ _. (length b ∷ (b ++ r), refl, read_counted-append b r);
}

pub sample-Sizes : Sizes sample
sample-Sizes = record {
  length-write_enum = λ n v _. refl;
  length-write_fixed64 = λ n v _. refl;
  length-write_bytes = λ n b _. omega arith;
  length-write_unknown = λ u. refl;
  unknown_size-nil = refl;
}

-- The numbers and the messages of the user's messages at the sample runtime.
abbrev pub sample_scalars : Scalars
sample_scalars = record {
  read_varint32 = read_one;
  write_int32 = λ n v. (8 * n) ∷ v ∷ [];
  write_bool = λ n b. (8 * n) ∷ (if b then 1 else 0) ∷ [];
  int32_size_plus_one = λ v. 2;
}

pub sample-ScalarsLaws : ScalarsLaws sample sample_scalars
sample-ScalarsLaws = record {
  read_varint32_le = read_one_le;
  int32_field = λ n v r _ _. (v ∷ r, refl, refl);
  bool_field = λ n b r _. ((if b then 1 else 0) ∷ r, refl, refl);
  length-write_int32 = λ n v _. refl;
}

abbrev keep_ended : {M : Type 0} → Outcome M → Bytes → Option (M × Bytes)
keep_ended (ended m) r = some (m, r)
keep_ended (stopped m tag s) r = none
keep_ended failed r = none
keep_ended stuck r = none

abbrev read_nested :
    {M : Type 0} → (Bytes → Outcome M) → Option (Bytes × Bytes) → Option (M × Bytes)
read_nested parse none = none
read_nested parse (some (b, r)) = keep_ended (parse b) r

abbrev pub sample_nested : {M : Type 0} → Nested M
sample_nested = record {
  parse_message = λ parse s. read_nested parse (read_counted s);
  write_message = λ n size b. (8 * n + 2) ∷ size ∷ b;
  message_size = λ n. 1 + n;
}

read_nested_le :
    {M : Type 0} (parse : Bytes → Outcome M) (s r : Bytes) (m : M)
    → read_nested parse (read_counted s) ≡ some (m, r)
    → length r ≤ length s
read_nested_le parse s r m e = elim (Option-cases (read_counted s)) [
  | inl none_read ↦ let f = rw none_read at e in cc
  | inr ((b, t), read) ↦ kept b t read (parse b) (rw read at e)
]
  where
    kept :
        (b t : Bytes)
        → read_counted s ≡ some (b, t)
        → (o : Outcome _) → keep_ended o t ≡ some (m, r)
        → length r ≤ length s
    kept b t read (ended n) k =
        let same : t ≡ r = cc in omega (arith, read_counted_le s t b read, ap length same)
    kept b t read (stopped n tag u) k = cc
    kept b t read failed k = cc
    kept b t read stuck k = cc

pub sample-NestedLaws : {M : Type 0} → NestedLaws sample (sample_nested {M = M})
sample-NestedLaws = record {
  parse_message_le = read_nested_le;
  message_field =
      λ parse n b r m _ _ e. (length b ∷ (b ++ r), refl, rw (read_counted-append b r) (rw e refl));
}
