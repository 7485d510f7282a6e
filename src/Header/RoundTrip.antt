-- ===== src/Header/RoundTrip.antt =====
-- `_InternalParse` after `_InternalSerialize`.
use proto_rpc_multi_reactor.Prelude.{
  ℕ, ◌+◌, ◌%◌, ◌^◌, ◌≤◌, ◌<◌, ◌≡◌, refl, ◌≢◌, inl, inr, false, [], ◌∷◌, ◌++◌, append-nil, Option,
  some, none, arith, ◌==◌, if◌then◌else◌, is_empty, length, Bool-cases, Option-cases,
}
use proto_rpc_multi_reactor.Prelude.Text.{Bytes}
use proto_rpc_multi_reactor.Wire.{Runtime, Forward, ReadsBack}
use proto_rpc_multi_reactor.Wire.Loop.{
  next, ended, stuck, Parses, finish, round, parse_loop-Parses, parse_loop-ne-stuck,
}
use proto_rpc_multi_reactor.Header.{
  RpcHeader, bytes_part, type_part, id_part, serialize, dispatch, read_field, parse, merge_from,
  read_type, read_id, read_service_name, read_method_name, read_payload,
}

-- A header that a `RpcHeader` object can hold, and that a `string` can carry.
pub record Fits (h : RpcHeader) : Type 0 where
  pub type_fits : h.type < 2 ^ 32
  pub id_fits : h.id < 2 ^ 64
  pub service_name_fits : length h.service_name + 16 < 2 ^ 31
  pub method_name_fits : length h.method_name + 16 < 2 ^ 31
  pub payload_fits : length h.payload + 16 < 2 ^ 31
  pub no_unknown : h.unknown ≡ []

-- What is left of `s` behind a value that was read.
abbrev Within : {A : Type 0} → Bytes → Option (A × Bytes) → Type 0
Within s none = Unit {0}
Within s (some (v, r)) = length r ≤ length s

within :
    {A : Type 0} (o : Option (A × Bytes)) (s : Bytes)
    → ((r : Bytes) (v : A) → o ≡ some (v, r) → length r ≤ length s)
    → Within s o
within none s h = tt
within (some (v, r)) s h = h r v refl

module _ (rt : Runtime) (forward : Forward rt) where
  abbrev Reads : RpcHeader → RpcHeader → Bytes → Type 0
  Reads = Parses rt.done (read_field rt)

  not_done : (s r : Bytes) → length r < length s → rt.done s ≡ false
  not_done [] r h = elim h [ ]
  not_done (b ∷ s) r h = forward.done_lem (b ∷ s)

  -- One round of the loop, from the tag and what the switch makes of it.
  one_round :
      {h' : RpcHeader} (m n : RpcHeader) (s t r : Bytes) (tag : ℕ)
      → rt.read_tag s ≡ some (tag, t)
      → dispatch rt m tag t ≡ next n r
      → length r ≤ length t
      → Reads h' n r
      → Reads h' m s
  unfolding read_field
  one_round m n s t r tag e d l p =
      let shorter : length r < length s = omega (arith, forward.read_tag_lt s t tag e) in
      round (not_done s r shorter) (rw (e, read_field) d) shorter p

  -- The switch at the tag of each field.
  dispatch_type :
      (m : RpcHeader) (t r : Bytes) (v : ℕ)
      → rt.read_varint64 t ≡ some (v, r)
      → dispatch rt m 8 t ≡ next (record m { type = v % 2 ^ 32 }) r
  unfolding dispatch
  dispatch_type m t r v e = rw (e, dispatch, read_type)

  dispatch_id :
      (m : RpcHeader) (t r : Bytes) (v : ℕ)
      → rt.load_fixed64 t ≡ some (v, r)
      → dispatch rt m 17 t ≡ next (record m { id = v }) r
  unfolding dispatch
  dispatch_id m t r v e = rw (e, dispatch, read_id)

  dispatch_service_name :
      (m : RpcHeader) (t r b : Bytes)
      → rt.read_string t ≡ some (b, r)
      → dispatch rt m 26 t ≡ next (record m { service_name = b }) r
  unfolding dispatch
  dispatch_service_name m t r b e = rw (e, dispatch, read_service_name)

  dispatch_method_name :
      (m : RpcHeader) (t r b : Bytes)
      → rt.read_string t ≡ some (b, r)
      → dispatch rt m 34 t ≡ next (record m { method_name = b }) r
  unfolding dispatch
  dispatch_method_name m t r b e = rw (e, dispatch, read_method_name)

  dispatch_payload :
      (m : RpcHeader) (t r b : Bytes)
      → rt.read_string t ≡ some (b, r)
      → dispatch rt m 42 t ≡ next (record m { payload = b }) r
  unfolding dispatch
  dispatch_payload m t r b e = rw (e, dispatch, read_payload)

  dispatch-shorter :
      (m n : RpcHeader) (tag : ℕ) (s r : Bytes)
      → dispatch rt m tag s ≡ next n r
      → length r ≤ length s
  unfolding dispatch
  dispatch-shorter m n tag s r e = ground (
    arith,
    within _ s (forward.read_varint64_le s),
    within _ s (forward.load_fixed64_le s),
    within _ s (forward.read_string_le s),
    within _ s (forward.unknown_field_le tag m.unknown s),
  )

  read_field-shorter :
      (m n : RpcHeader) (s r : Bytes) → read_field rt m s ≡ next n r → length r < length s
  unfolding read_field
  read_field-shorter m n s r e = elim (Option-cases (rt.read_tag s)) [
    | inl none_eq ↦ cc (rw (none_eq, read_field) at e)
    | inr ((tag, t), some_eq) ↦
        let shorter = dispatch-shorter m n tag t r (rw (some_eq, read_field) at e) in
        omega (arith, forward.read_tag_lt s t tag some_eq)
  ]

  -- `_InternalParse` ends on every input, well formed or not: the loop never runs out of fuel.
  pub parse-ne-stuck : (m : RpcHeader) (s : Bytes) → parse rt m s ≢ stuck
  unfolding parse
  parse-ne-stuck m s =
      parse_loop-ne-stuck rt.done (read_field rt) forward.done_lem read_field-shorter (length s) m s
        (omega arith)

  module _ (back : ReadsBack rt) where
    type_round :
        {h' : RpcHeader} (m : RpcHeader) (v : ℕ) (rest : Bytes)
        → v < 2 ^ 32
        → Reads h' (record m { type = if v == 0 then m.type else v }) rest
        → Reads h' m (type_part rt v ++ rest)
    type_round m v rest fits p = elim (Bool-cases (v == 0)) [
      | inl e ↦ rw e (rw e at p)
      | inr e ↦ rw e (
          let (s, w, tag_eq, varint_eq, low) = back.enum_field 1 v rest (omega arith) fits in
          one_round m (record m { type = w % 2 ^ 32 }) _ s rest 8 tag_eq
            (dispatch_type m s rest w varint_eq) (forward.read_varint64_le s rest w varint_eq)
            (rw low (rw e at p)))
    ]

    id_round :
        {h' : RpcHeader} (m : RpcHeader) (v : ℕ) (rest : Bytes)
        → v < 2 ^ 64
        → Reads h' (record m { id = if v == 0 then m.id else v }) rest
        → Reads h' m (id_part rt v ++ rest)
    id_round m v rest fits p = elim (Bool-cases (v == 0)) [
      | inl e ↦ rw e (rw e at p)
      | inr e ↦ rw e (
          let (s, tag_eq, load_eq) = back.fixed64_field 2 v rest (omega arith) fits in
          one_round m (record m { id = v }) _ s rest 17 tag_eq (dispatch_id m s rest v load_eq)
            (forward.load_fixed64_le s rest v load_eq) (rw e at p))
    ]

    service_name_round :
        {h' : RpcHeader} (m : RpcHeader) (b rest : Bytes)
        → length b + 16 < 2 ^ 31
        → Reads h' (record m { service_name = if is_empty b then m.service_name else b }) rest
        → Reads h' m (bytes_part rt 3 b ++ rest)
    service_name_round m [] rest fits p = p
    service_name_round m (x ∷ b) rest fits p =
        let (s, tag_eq, string_eq) = back.bytes_field 3 (x ∷ b) rest (omega arith) fits in
        one_round m _ _ s rest 26 tag_eq (dispatch_service_name m s rest (x ∷ b) string_eq)
          (forward.read_string_le s rest (x ∷ b) string_eq) p

    method_name_round :
        {h' : RpcHeader} (m : RpcHeader) (b rest : Bytes)
        → length b + 16 < 2 ^ 31
        → Reads h' (record m { method_name = if is_empty b then m.method_name else b }) rest
        → Reads h' m (bytes_part rt 4 b ++ rest)
    method_name_round m [] rest fits p = p
    method_name_round m (x ∷ b) rest fits p =
        let (s, tag_eq, string_eq) = back.bytes_field 4 (x ∷ b) rest (omega arith) fits in
        one_round m _ _ s rest 34 tag_eq (dispatch_method_name m s rest (x ∷ b) string_eq)
          (forward.read_string_le s rest (x ∷ b) string_eq) p

    payload_round :
        {h' : RpcHeader} (m : RpcHeader) (b rest : Bytes)
        → length b + 16 < 2 ^ 31
        → Reads h' (record m { payload = if is_empty b then m.payload else b }) rest
        → Reads h' m (bytes_part rt 5 b ++ rest)
    payload_round m [] rest fits p = p
    payload_round m (x ∷ b) rest fits p =
        let (s, tag_eq, string_eq) = back.bytes_field 5 (x ∷ b) rest (omega arith) fits in
        one_round m _ _ s rest 42 tag_eq (dispatch_payload m s rest (x ∷ b) string_eq)
          (forward.read_string_le s rest (x ∷ b) string_eq) p

    serialize-Reads : (m h : RpcHeader) → Fits h → Reads (merge_from m h) m (serialize rt h)
    unfolding serialize merge_from
    serialize-Reads m h fits =
        rw (fits.no_unknown, append-nil m.unknown)
          (type_round m h.type _ fits.type_fits (
            id_round _ h.id _ fits.id_fits (
              service_name_round _ h.service_name _ fits.service_name_fits (
                method_name_round _ h.method_name _ fits.method_name_fits
                  (payload_round _ h.payload _ fits.payload_fits (finish (forward.done_lem [])))))))

    -- Parsing into a header `m` what `_InternalSerialize` wrote for a header `h` ends at the end of
    -- the input and does to `m` what `MergeFrom(h)` does, for every `h` that fits its fields and has
    -- no unknown fields.
    pub parse-serialize :
        (m h : RpcHeader) → Fits h → parse rt m (serialize rt h) ≡ ended (merge_from m h)
    unfolding parse
    parse-serialize m h fits =
        parse_loop-Parses rt.done (read_field rt) (serialize-Reads m h fits) _ (omega arith)
