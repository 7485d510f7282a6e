-- ===== src/Wire/Nested.antt =====
-- What the generated classes of example/user.pb.cc use of the protobuf runtime beside `Runtime`: numbers
-- of 32 bits, Boolean values, and a message in a message.
use proto_rpc_multi_reactor.Prelude.{
  ℕ, ◌+◌, ◌*◌, ◌^◌, ◌≤◌, ◌<◌, ◌≡◌, Bool, ◌++◌, Option, some, length, if◌then◌else◌, arith, ◌∷◌, [],
}
use proto_rpc_multi_reactor.Prelude.Text.{Bytes}
use proto_rpc_multi_reactor.Wire.{Runtime, Forward}
use proto_rpc_multi_reactor.Wire.Loop.{Step, Outcome, next, ended, Parses, round}

-- An `int32` is its bit pattern.
pub record Scalars : Type 0 where
  -- `ReadVarint32`, `WriteInt32ToArray`, `WriteBoolToArray` and `Int32SizePlusOne`.
  pub read_varint32 : Bytes → Option (ℕ × Bytes)
  pub write_int32 : ℕ → ℕ → Bytes
  pub write_bool : ℕ → Bool → Bytes
  pub int32_size_plus_one : ℕ → ℕ

-- For a class `M`: `ParseContext::ParseMessage`, over the parser of the class; `InternalWriteMessage`,
-- for the cached size of the message and the bytes that its `_InternalSerialize` appends; and
-- `MessageSize`, for what its `ByteSizeLong` returns.
pub record Nested (M : Type 0) : Type 0 where
  pub parse_message : (Bytes → Outcome M) → Bytes → Option (M × Bytes)
  pub write_message : ℕ → ℕ → Bytes → Bytes
  pub message_size : ℕ → ℕ

pub record ScalarsLaws (rt : Runtime) (scalars : Scalars) : Type 0 where
  pub read_varint32_le :
      (s r : Bytes) (v : ℕ) → scalars.read_varint32 s ≡ some (v, r) → length r ≤ length s
  pub int32_field :
      (n v : ℕ) (r : Bytes)
      → n < 16
      → v < 2 ^ 32
      → (s : Bytes) × (rt.read_tag (scalars.write_int32 n v ++ r) ≡ some (8 * n, s))
        × (scalars.read_varint32 s ≡ some (v, r))
  pub bool_field :
      (n : ℕ) (b : Bool) (r : Bytes)
      → n < 16
      → (s : Bytes) × (rt.read_tag (scalars.write_bool n b ++ r) ≡ some (8 * n, s))
        × (rt.read_varint64 s ≡ some (if b then 1 else 0, r))
  pub length-write_int32 :
      (n v : ℕ) → n < 16 → length (scalars.write_int32 n v) ≡ scalars.int32_size_plus_one v

-- A message that is written with its size is read back, by a parser that reads its bytes.
pub record NestedLaws (rt : Runtime) {M : Type 0} (nested : Nested M) : Type 0 where
  pub parse_message_le :
      (parse : Bytes → Outcome M) (s r : Bytes) (m : M)
      → nested.parse_message parse s ≡ some (m, r)
      → length r ≤ length s
  pub message_field :
      (parse : Bytes → Outcome M) (n : ℕ) (b r : Bytes) (m : M)
      → n < 16
      → length b + 16 < 2 ^ 31
      → parse b ≡ ended m
      → (s : Bytes) × (rt.read_tag (nested.write_message n (length b) b ++ r) ≡ some (8 * n + 2, s))
        × (nested.parse_message parse s ≡ some (m, r))

-- One field that is read, in a run of the parser's loop.
pub one_round :
    {M : Type 0} (rt : Runtime) (forward : Forward rt) (field : M → Bytes → Step M) {m' : M}
    (m n : M) (s t r : Bytes) (tag : ℕ)
    → rt.read_tag s ≡ some (tag, t)
    → field m s ≡ next n r
    → length r ≤ length t
    → Parses rt.done field m' n r
    → Parses rt.done field m' m s
one_round rt forward field m n [] t r tag e d l p =
    absurd (omega (arith, l, forward.read_tag_lt [] t tag e))
one_round rt forward field m n (b ∷ s) t r tag e d l p =
    round (forward.done_lem (b ∷ s)) d (omega (arith, l, forward.read_tag_lt (b ∷ s) t tag e)) p
