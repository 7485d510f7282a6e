-- ===== src/Header/Size.antt =====
-- `ByteSizeLong` against `_InternalSerialize`.
use proto_rpc_multi_reactor.Prelude.{
  ℕ, ◌+◌, ◌<◌, ◌≡◌, refl, [], ◌∷◌, arith, ◌==◌, if◌then◌else◌, is_empty, length, length-append,
}
use proto_rpc_multi_reactor.Prelude.Text.{Bytes}
use proto_rpc_multi_reactor.Wire.{Runtime, Sizes}
use proto_rpc_multi_reactor.Header.{
  RpcHeader, bytes_part, type_part, id_part, unknown_part, serialize, byte_size,
}

module _ (rt : Runtime) (sizes : Sizes rt) where
  length-bytes_part :
      (n : ℕ) (b : Bytes)
      → n < 16
      → length (bytes_part rt n b) ≡ (if is_empty b then 0 else 1 + rt.bytes_size b)
  length-bytes_part n [] h = refl
  length-bytes_part n (x ∷ b) h = sizes.length-write_bytes n (x ∷ b) h

  length-type_part : (v : ℕ) → length (type_part rt v) ≡ (if v == 0 then 0 else 1 + rt.enum_size v)
  length-type_part v = ground (arith, sizes.length-write_enum 1 v)

  length-id_part : (v : ℕ) → length (id_part rt v) ≡ (if v == 0 then 0 else 1 + 8)
  length-id_part v = ground (arith, sizes.length-write_fixed64 2 v)

  length-unknown_part : (u : Bytes) → length (unknown_part rt u) ≡ rt.unknown_size u
  length-unknown_part [] = omega (arith, sizes.unknown_size-nil)
  length-unknown_part (x ∷ u) = sizes.length-write_unknown (x ∷ u)

  -- `ByteSizeLong` announces exactly the number of bytes that `_InternalSerialize` writes, for
  -- every header, over any runtime whose size functions agree with its writers.
  pub length-serialize : (h : RpcHeader) → length (serialize rt h) ≡ byte_size rt h
  unfolding serialize byte_size
  length-serialize h =
      rw (length-append, length-append, length-append, length-append, length-append)
        (omega (
          arith,
          length-type_part h.type,
          length-id_part h.id,
          length-bytes_part 3 h.service_name,
          length-bytes_part 4 h.method_name,
          length-bytes_part 5 h.payload,
          length-unknown_part h.unknown,
        ))
