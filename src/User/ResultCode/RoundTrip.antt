-- ===== src/User/ResultCode/RoundTrip.antt =====
-- `ResultCode` of example/user.pb.cc: what is written is read back, in the size that is announced.
use proto_rpc_multi_reactor.Prelude.{
  ℕ, Bool-cases, inl, inr, ◌+◌, ◌^◌, ◌<◌, ◌≡◌, ◌==◌, refl, [], ◌∷◌, ◌++◌, append-nil, some, arith,
  if◌then◌else◌, is_empty, length, length-append,
}
use proto_rpc_multi_reactor.Prelude.Text.{Bytes}
use proto_rpc_multi_reactor.Wire.{Runtime, Forward, ReadsBack, Sizes}
use proto_rpc_multi_reactor.Wire.Nested.{Scalars, ScalarsLaws, one_round}
use proto_rpc_multi_reactor.Wire.Loop.{next, ended, Parses, finish, parse_loop-Parses}
use proto_rpc_multi_reactor.User.ResultCode.{
  ResultCode, code_part, msg_part, serialize, byte_size, dispatch, read_field, parse, merge_from,
  read_errcode, read_errmsg,
}

-- A message that the wire can carry.
pub record Fits (m : ResultCode) : Type 0 where
  pub errcode_fits : m.errcode < 2 ^ 32
  pub errmsg_fits : length m.errmsg + 16 < 2 ^ 31
  pub no_unknown : m.unknown ≡ []

module _ (rt : Runtime) (scalars : Scalars) (forward : Forward rt) (back : ReadsBack rt)
    (laws : ScalarsLaws rt scalars) where
  abbrev Reads : ResultCode → ResultCode → Bytes → Type 0
  Reads = Parses rt.done (read_field rt scalars)

  read_field-code :
      (m : ResultCode) (s t r : Bytes) (v : ℕ)
      → rt.read_tag s ≡ some (8, t)
      → scalars.read_varint32 t ≡ some (v, r)
      → read_field rt scalars m s ≡ next (record m { errcode = v }) r
  unfolding read_field dispatch
  read_field-code m s t r v tag_eq e = rw (tag_eq, read_field) (rw (e, dispatch, read_errcode))

  read_field-msg :
      (m : ResultCode) (s t r b : Bytes)
      → rt.read_tag s ≡ some (18, t)
      → rt.read_string t ≡ some (b, r)
      → read_field rt scalars m s ≡ next (record m { errmsg = b }) r
  unfolding read_field dispatch
  read_field-msg m s t r b tag_eq e = rw (tag_eq, read_field) (rw (e, dispatch, read_errmsg))

  code_round :
      {m' : ResultCode} (m : ResultCode) (v : ℕ) (rest : Bytes)
      → v < 2 ^ 32
      → Reads m' (record m { errcode = if v == 0 then m.errcode else v }) rest
      → Reads m' m (code_part rt scalars v ++ rest)
  code_round m v rest fits p = elim (Bool-cases (v == 0)) [
    | inl none ↦ rw none (rw none at p)
    | inr some_code ↦
        let (s, tag_eq, value_eq) = laws.int32_field 1 v rest (omega arith) fits in
        rw some_code (
          one_round rt forward (read_field rt scalars) m _ _ s rest 8 tag_eq
            (read_field-code m _ s rest v tag_eq value_eq) (laws.read_varint32_le s rest v value_eq)
            (rw some_code at p))
  ]

  msg_round :
      {m' : ResultCode} (m : ResultCode) (b rest : Bytes)
      → length b + 16 < 2 ^ 31
      → Reads m' (record m { errmsg = if is_empty b then m.errmsg else b }) rest
      → Reads m' m (msg_part rt scalars b ++ rest)
  msg_round m [] rest fits p = p
  msg_round m (x ∷ b) rest fits p =
      let (s, tag_eq, string_eq) = back.bytes_field 2 (x ∷ b) rest (omega arith) fits in
      one_round rt forward (read_field rt scalars) m _ _ s rest 18 tag_eq
        (read_field-msg m _ s rest (x ∷ b) tag_eq string_eq)
        (forward.read_string_le s rest (x ∷ b) string_eq) p

  serialize-Reads : (m n : ResultCode) → Fits n → Reads (merge_from m n) m (serialize rt scalars n)
  unfolding serialize merge_from
  serialize-Reads m n fits =
      rw (fits.no_unknown, append-nil m.unknown)
        (code_round m n.errcode _ fits.errcode_fits
          (msg_round _ n.errmsg _ fits.errmsg_fits (finish (forward.done_lem []))))

  -- What is written for `n` parses, into any message `m`, to what `MergeFrom(n)` makes of `m`.
  pub parse-serialize_result :
      (m n : ResultCode)
      → Fits n
      → parse rt scalars m (serialize rt scalars n) ≡ ended (merge_from m n)
  unfolding parse
  parse-serialize_result m n fits =
      parse_loop-Parses rt.done (read_field rt scalars) (serialize-Reads m n fits) _ (omega arith)

  length-code_part :
      (v : ℕ)
      → length (code_part rt scalars v) ≡ (if v == 0 then 0 else scalars.int32_size_plus_one v)
  length-code_part v = ground (arith, laws.length-write_int32 1 v)

  -- `ByteSizeLong` is the number of bytes that are written.
  pub length-serialize_result :
      (sizes : Sizes rt) (m : ResultCode)
      → m.unknown ≡ []
      → length (serialize rt scalars m) ≡ byte_size rt scalars m
  unfolding serialize byte_size
  length-serialize_result sizes m no_unknown =
      rw (no_unknown, length-append, length-append)
        (omega
          (arith, length-code_part m.errcode, length-msg_part m.errmsg, sizes.unknown_size-nil))
    where
      length-msg_part :
          (b : Bytes)
          → length (msg_part rt scalars b) ≡ (if is_empty b then 0 else 1 + rt.bytes_size b)
      length-msg_part [] = refl
      length-msg_part (x ∷ b) = sizes.length-write_bytes 2 (x ∷ b) (omega arith)
