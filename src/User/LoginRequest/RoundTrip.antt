-- ===== src/User/LoginRequest/RoundTrip.antt =====
-- `LoginRequest` of example/user.pb.cc: what is written is read back, in the size that is announced.
use proto_rpc_multi_reactor.Prelude.{
  ℕ, ◌+◌, ◌^◌, ◌≤◌, ◌<◌, ◌≡◌, [], ◌∷◌, ◌++◌, append-nil, some, arith, if◌then◌else◌, is_empty,
  length,
}
use proto_rpc_multi_reactor.Prelude.Text.{Bytes}
use proto_rpc_multi_reactor.Wire.{Runtime, Forward, ReadsBack}
use proto_rpc_multi_reactor.Wire.Nested.{one_round}
use proto_rpc_multi_reactor.Wire.Loop.{next, ended, Parses, finish, parse_loop-Parses}
use proto_rpc_multi_reactor.User.LoginRequest.{
  LoginRequest, bytes_part, serialize, dispatch, read_field, parse, merge_from, read_name, read_pwd,
}

-- A message that the wire can carry.
pub record Fits (m : LoginRequest) : Type 0 where
  pub name_fits : length m.name + 16 < 2 ^ 31
  pub pwd_fits : length m.pwd + 16 < 2 ^ 31
  pub no_unknown : m.unknown ≡ []

module _ (rt : Runtime) (forward : Forward rt) (back : ReadsBack rt) where
  abbrev Reads : LoginRequest → LoginRequest → Bytes → Type 0
  Reads = Parses rt.done (read_field rt)

  tag_round :
      {m' : LoginRequest} (m n : LoginRequest) (s t r : Bytes) (tag : ℕ)
      → rt.read_tag s ≡ some (tag, t)
      → dispatch rt m tag t ≡ next n r
      → length r ≤ length t
      → Reads m' n r
      → Reads m' m s
  unfolding read_field
  tag_round m n s t r tag e d l p =
      one_round rt forward (read_field rt) m n s t r tag e (rw (e, read_field) d) l p

  dispatch_name :
      (m : LoginRequest) (t r b : Bytes)
      → rt.read_string t ≡ some (b, r)
      → dispatch rt m 10 t ≡ next (record m { name = b }) r
  unfolding dispatch
  dispatch_name m t r b e = rw (e, dispatch, read_name)

  dispatch_pwd :
      (m : LoginRequest) (t r b : Bytes)
      → rt.read_string t ≡ some (b, r)
      → dispatch rt m 18 t ≡ next (record m { pwd = b }) r
  unfolding dispatch
  dispatch_pwd m t r b e = rw (e, dispatch, read_pwd)

  name_round :
      {m' : LoginRequest} (m : LoginRequest) (b rest : Bytes)
      → length b + 16 < 2 ^ 31
      → Reads m' (record m { name = if is_empty b then m.name else b }) rest
      → Reads m' m (bytes_part rt 1 b ++ rest)
  name_round m [] rest fits p = p
  name_round m (x ∷ b) rest fits p =
      let (s, tag_eq, string_eq) = back.bytes_field 1 (x ∷ b) rest (omega arith) fits in
      tag_round m _ _ s rest 10 tag_eq (dispatch_name m s rest (x ∷ b) string_eq)
        (forward.read_string_le s rest (x ∷ b) string_eq) p

  pwd_round :
      {m' : LoginRequest} (m : LoginRequest) (b rest : Bytes)
      → length b + 16 < 2 ^ 31
      → Reads m' (record m { pwd = if is_empty b then m.pwd else b }) rest
      → Reads m' m (bytes_part rt 2 b ++ rest)
  pwd_round m [] rest fits p = p
  pwd_round m (x ∷ b) rest fits p =
      let (s, tag_eq, string_eq) = back.bytes_field 2 (x ∷ b) rest (omega arith) fits in
      tag_round m _ _ s rest 18 tag_eq (dispatch_pwd m s rest (x ∷ b) string_eq)
        (forward.read_string_le s rest (x ∷ b) string_eq) p

  serialize-Reads : (m n : LoginRequest) → Fits n → Reads (merge_from m n) m (serialize rt n)
  unfolding serialize merge_from
  serialize-Reads m n fits =
      rw (fits.no_unknown, append-nil m.unknown)
        (name_round m n.name _ fits.name_fits
          (pwd_round _ n.pwd _ fits.pwd_fits (finish (forward.done_lem []))))

  -- Parsing into a message `m` what `_InternalSerialize` wrote for a login request `n` ends at the
  -- end of the input and does to `m` what `MergeFrom(n)` does, for every `n` that fits its fields
  -- and has no unknown fields.
  pub parse-serialize_login :
      (m n : LoginRequest) → Fits n → parse rt m (serialize rt n) ≡ ended (merge_from m n)
  unfolding parse
  parse-serialize_login m n fits =
      parse_loop-Parses rt.done (read_field rt) (serialize-Reads m n fits) _ (omega arith)
