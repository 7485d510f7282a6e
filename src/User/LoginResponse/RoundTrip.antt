-- ===== src/User/LoginResponse/RoundTrip.antt =====
-- `LoginResponse` of example/user.pb.cc: what is written is read back, with the message inside it.
use proto_rpc_multi_reactor.Prelude.{
  ℕ, ◌+◌, ◌^◌, ◌<◌, ◌≡◌, ◌∙◌, sym, ap, Bool, true, false, [], ◌++◌, append-nil, Option, none, some,
  arith, if◌then◌else◌, length,
}
use proto_rpc_multi_reactor.Prelude.Text.{Bytes}
use proto_rpc_multi_reactor.Wire.{Runtime, Forward, ReadsBack, Sizes}
use proto_rpc_multi_reactor.Wire.Nested.{Scalars, ScalarsLaws, Nested, NestedLaws, one_round}
use proto_rpc_multi_reactor.Wire.Loop.{next, ended, Parses, finish, parse_loop-Parses}
use proto_rpc_multi_reactor.User.ResultCode
use proto_rpc_multi_reactor.User.ResultCode.{ResultCode}
use proto_rpc_multi_reactor.User.ResultCode.RoundTrip
use proto_rpc_multi_reactor.User.ResultCode.RoundTrip.{
  parse-serialize_result, length-serialize_result,
}
use proto_rpc_multi_reactor.User.LoginResponse.{
  LoginResponse, mutable_result, merge_result, result_part, success_part, serialize, dispatch,
  read_field, parse, merge_from, read_result_field, read_success_field,
}

module _ (rt : Runtime) (scalars : Scalars) where
  abbrev pub ResultFits : Option ResultCode → Type 0
  ResultFits none = Unit
  ResultFits (some m) =
      RoundTrip.Fits m × (length (ResultCode.serialize rt scalars m) + 16 < 2 ^ 31)

  -- A message that the wire can carry.
  pub record Fits (m : LoginResponse) : Type 0 where
    pub result_fits : ResultFits m.result
    pub no_unknown : m.unknown ≡ []

module _ (rt : Runtime) (scalars : Scalars) (nested : Nested ResultCode) (forward : Forward rt)
    (back : ReadsBack rt) (sizes : Sizes rt) (laws : ScalarsLaws rt scalars)
    (nested_laws : NestedLaws rt nested) where
  abbrev Reads : LoginResponse → LoginResponse → Bytes → Type 0
  Reads = Parses rt.done (read_field rt scalars nested)

  read_field-result :
      (m : LoginResponse) (s t r : Bytes) (code : ResultCode)
      → rt.read_tag s ≡ some (10, t)
      → nested.parse_message (ResultCode.parse rt scalars (mutable_result m.result)) t
        ≡ some (code, r)
      → read_field rt scalars nested m s ≡ next (record m { result = some code }) r
  unfolding read_field dispatch
  read_field-result m s t r code tag_eq e =
      rw (tag_eq, read_field) (rw (e, dispatch, read_result_field))

  read_field-success :
      (m : LoginResponse) (s t r : Bytes)
      → rt.read_tag s ≡ some (16, t)
      → rt.read_varint64 t ≡ some (1, r)
      → read_field rt scalars nested m s ≡ next (record m { success = true }) r
  unfolding read_field dispatch
  read_field-success m s t r tag_eq e =
      rw (tag_eq, read_field) (rw (e, dispatch, read_success_field))

  result_round :
      {m' : LoginResponse} (m : LoginResponse) (code : Option ResultCode) (rest : Bytes)
      → ResultFits rt scalars code
      → Reads m' (record m { result = merge_result m.result code }) rest
      → Reads m' m (result_part rt scalars nested code ++ rest)
  result_round m none rest fits p = p
  result_round m (some code) rest (fits, short) p =
      let bytes = ResultCode.serialize rt scalars code in
      let size_eq : ResultCode.byte_size rt scalars code ≡ length bytes =
        sym (length-serialize_result rt scalars forward back laws sizes code fits.no_unknown) in
      let (s, tag_eq, value_eq) =
        nested_laws.message_field (ResultCode.parse rt scalars (mutable_result m.result)) 1 bytes
          rest _ (omega arith) short
          (parse-serialize_result rt scalars forward back laws (mutable_result m.result) code
            fits) in
      let written = ap (λ (k : ℕ). nested.write_message 1 k bytes ++ rest) size_eq in
      let at = ap rt.read_tag written ∙ tag_eq in
      one_round rt forward (read_field rt scalars nested) m _ _ s rest 10 at
        (read_field-result m _ s rest _ at value_eq)
        (nested_laws.parse_message_le _ s rest _ value_eq) p

  success_round :
      {m' : LoginResponse} (m : LoginResponse) (b : Bool) (rest : Bytes)
      → Reads m' (record m { success = if b then b else m.success }) rest
      → Reads m' m (success_part rt scalars nested b ++ rest)
  success_round m false rest p = p
  success_round m true rest p =
      let (s, tag_eq, value_eq) = laws.bool_field 2 true rest (omega arith) in
      one_round rt forward (read_field rt scalars nested) m _ _ s rest 16 tag_eq
        (read_field-success m _ s rest tag_eq value_eq) (forward.read_varint64_le s rest 1 value_eq)
        p

  serialize-Reads :
      (m n : LoginResponse)
      → Fits rt scalars n
      → Reads (merge_from m n) m (serialize rt scalars nested n)
  unfolding serialize merge_from
  serialize-Reads m n fits =
      rw (fits.no_unknown, append-nil m.unknown)
        (result_round m n.result _ fits.result_fits
          (success_round _ n.success _ (finish (forward.done_lem []))))

  -- Parsing into a response `m` what `_InternalSerialize` wrote for a response `n` ends at the end of
  -- the input and does to `m` what `MergeFrom(n)` does, the message inside included, for every `n` that
  -- fits its fields and has no unknown fields. This is over the wire format, in which a nested message
  -- is read back if the size in front of it is right.
  pub parse-serialize_response :
      (m n : LoginResponse)
      → Fits rt scalars n
      → parse rt scalars nested m (serialize rt scalars nested n) ≡ ended (merge_from m n)
  unfolding parse
  parse-serialize_response m n fits =
      parse_loop-Parses rt.done (read_field rt scalars nested) (serialize-Reads m n fits) _
        (omega arith)
