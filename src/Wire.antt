-- ===== src/Wire.antt =====
-- What the generated message classes (src/rpc.pb.cc, example/user.pb.cc) use of the protobuf
-- runtime, which is not part of the repository, and the shape that all their parsers share.
--
-- `Runtime` has one field for each runtime function that the generated code calls; `Laws` is the
-- documented wire format: a field that was written is read back, readers only move forward, and
-- the sizes are those of what is written.
pub mod Loop
pub mod Nested
pub mod Sample
use proto_rpc_multi_reactor.Prelude.{
  ℕ, ◌+◌, ◌*◌, ◌%◌, ◌^◌, ◌≤◌, ◌<◌, ◌≡◌, Bool, List, [], ◌++◌, Option, some, length, is_empty,
}
use proto_rpc_multi_reactor.Prelude.Text.{Bytes}

-- A reader returns the value and the bytes behind it, or `none` for a null pointer. An enum value
-- is the 32-bit pattern of the `int` that stands for it.
pub record Runtime : Type 0 where
  -- `ParseContext::Done` at this place of the input.
  pub done : Bytes → Bool
  -- `ReadTag`, `ReadVarint64`, `UnalignedLoad<uint64_t>` with its `ptr += 8` (an overrun is found
  -- by the next `Done`), `InlineGreedyStringParser`.
  pub read_tag : Bytes → Option (ℕ × Bytes)
  pub read_varint64 : Bytes → Option (ℕ × Bytes)
  pub load_fixed64 : Bytes → Option (ℕ × Bytes)
  pub read_string : Bytes → Option (Bytes × Bytes)
  -- `UnknownFieldParse(tag, unknown_fields, ptr, ctx)`: the new set, and what is left.
  pub unknown_field : ℕ → Bytes → Bytes → Option (Bytes × Bytes)
  -- `WriteEnumToArray`, `WriteFixed64ToArray`, `WriteBytesMaybeAliased`, and
  -- `InternalSerializeUnknownFieldsToArray`: the bytes that they append.
  pub write_enum : ℕ → ℕ → Bytes
  pub write_fixed64 : ℕ → ℕ → Bytes
  pub write_bytes : ℕ → Bytes → Bytes
  pub write_unknown : Bytes → Bytes
  -- `EnumSize`, `BytesSize` and the size that `MaybeComputeUnknownFieldsSize` adds.
  pub enum_size : ℕ → ℕ
  pub bytes_size : Bytes → ℕ
  pub unknown_size : Bytes → ℕ

-- The readers stay within the input, and a tag has a byte at least.
pub record Forward (rt : Runtime) : Type 0 where
  pub done_lem : (s : Bytes) → rt.done s ≡ is_empty s
  pub read_tag_lt : (s r : Bytes) (t : ℕ) → rt.read_tag s ≡ some (t, r) → length r < length s
  pub read_varint64_le :
      (s r : Bytes) (v : ℕ) → rt.read_varint64 s ≡ some (v, r) → length r ≤ length s
  pub load_fixed64_le :
      (s r : Bytes) (v : ℕ) → rt.load_fixed64 s ≡ some (v, r) → length r ≤ length s
  pub read_string_le : (s r b : Bytes) → rt.read_string s ≡ some (b, r) → length r ≤ length s
  pub unknown_field_le :
      (t : ℕ) (u s r u' : Bytes) → rt.unknown_field t u s ≡ some (u', r) → length r ≤ length s

-- A written field is read back. Tags are `8 * number + wire type`; a string is below 2 GB.
pub record ReadsBack (rt : Runtime) : Type 0 where
  pub enum_field :
      (n v : ℕ) (r : Bytes)
      → n < 16
      → v < 2 ^ 32
      → (s : Bytes) × (w : ℕ) × (rt.read_tag (rt.write_enum n v ++ r) ≡ some (8 * n, s))
        × (rt.read_varint64 s ≡ some (w, r))
        × (w % 2 ^ 32 ≡ v)
  pub fixed64_field :
      (n v : ℕ) (r : Bytes)
      → n < 16
      → v < 2 ^ 64
      → (s : Bytes) × (rt.read_tag (rt.write_fixed64 n v ++ r) ≡ some (8 * n + 1, s))
        × (rt.load_fixed64 s ≡ some (v, r))
  pub bytes_field :
      (n : ℕ) (b r : Bytes)
      → n < 16
      → length b + 16 < 2 ^ 31
      → (s : Bytes) × (rt.read_tag (rt.write_bytes n b ++ r) ≡ some (8 * n + 2, s))
        × (rt.read_string s ≡ some (b, r))

-- The sizes are those of the bytes written; the tag of a field below 16 takes one byte.
pub record Sizes (rt : Runtime) : Type 0 where
  pub length-write_enum : (n v : ℕ) → n < 16 → length (rt.write_enum n v) ≡ 1 + rt.enum_size v
  pub length-write_fixed64 : (n v : ℕ) → n < 16 → length (rt.write_fixed64 n v) ≡ 1 + 8
  pub length-write_bytes :
      (n : ℕ) (b : Bytes) → n < 16 → length (rt.write_bytes n b) ≡ 1 + rt.bytes_size b
  pub length-write_unknown : (u : Bytes) → length (rt.write_unknown u) ≡ rt.unknown_size u
  pub unknown_size-nil : rt.unknown_size [] ≡ 0
