-- ===== src/Header.antt =====
-- src/rpc.pb.cc and src/include/rpc.pb.h: the message `Krpc::RpcHeader` that carries every call
-- and every reply, generated from src/rpc.proto.
--
-- A `bytes` field is the list of its bytes; `id` is the 64-bit pattern of a `uint64_t` and `type`
-- the 32-bit pattern of the enum's `int`; `unknown` is the unknown field set of
-- `_internal_metadata_`. Arenas and cached sizes are storage management and are left out.
pub mod Size
pub mod RoundTrip
pub mod Merge
pub mod Codec
mod Runs
use proto_rpc_multi_reactor.Prelude.{
  ℕ, ◌+◌, ◌/◌, ◌%◌, ◌^◌, Bool, true, false, ◌||◌, List, [], ◌++◌, Option, none, some, ◌==◌,
  if◌then◌else◌, is_empty, length,
}
use proto_rpc_multi_reactor.Prelude.Text.{Bytes}
use proto_rpc_multi_reactor.Wire.{Runtime}
use proto_rpc_multi_reactor.Wire.Loop.{Step, next, stop, fail, Outcome, parse_loop}

pub record RpcHeader : Type 0 where
  pub service_name : Bytes
  pub method_name : Bytes
  pub payload : Bytes
  pub id : ℕ
  pub type : ℕ
  pub unknown : Bytes

-- The enum `MessageType`.
abbrev pub request : ℕ
request = 0

abbrev pub response : ℕ
response = 1

pub is_message_type : ℕ → Bool
is_message_type v = (v == 0) || (v == 1)

-- `SharedCtor`: a new header.
abbrev pub new_header : RpcHeader
new_header = record {
  service_name = [];
  method_name = [];
  payload = [];
  id = 0;
  type = 0;
  unknown = [];
}

abbrev pub set_type : ℕ → RpcHeader → RpcHeader
set_type v h = record h { type = v }

abbrev pub set_id : ℕ → RpcHeader → RpcHeader
set_id v h = record h { id = v }

abbrev pub set_service_name : Bytes → RpcHeader → RpcHeader
set_service_name v h = record h { service_name = v }

abbrev pub set_method_name : Bytes → RpcHeader → RpcHeader
set_method_name v h = record h { method_name = v }

abbrev pub set_payload : Bytes → RpcHeader → RpcHeader
set_payload v h = record h { payload = v }

-- `Clear`: every field is emptied in place.
pub clear : RpcHeader → RpcHeader
clear h = record h {
  service_name = [];
  method_name = [];
  payload = [];
  id = 0;
  type = 0;
  unknown = [];
}

-- `MergeImpl(to, from)`: the fields that `from` has set; its unknown fields are added.
pub merge_from : RpcHeader → RpcHeader → RpcHeader
merge_from to from = record {
  service_name = if is_empty from.service_name then to.service_name else from.service_name;
  method_name = if is_empty from.method_name then to.method_name else from.method_name;
  payload = if is_empty from.payload then to.payload else from.payload;
  id = if from.id == 0 then to.id else from.id;
  type = if from.type == 0 then to.type else from.type;
  unknown = to.unknown ++ from.unknown;
}

-- `CopyFrom` between two different objects.
pub copy_from : RpcHeader → RpcHeader → RpcHeader
copy_from to from = merge_from (clear to) from

-- The copy constructor: names and payload if they are not empty, `id` and `type` by `memcpy`.
pub copy_of : RpcHeader → RpcHeader
copy_of from = record {
  service_name = if is_empty from.service_name then [] else from.service_name;
  method_name = if is_empty from.method_name then [] else from.method_name;
  payload = if is_empty from.payload then [] else from.payload;
  id = from.id;
  type = from.type;
  unknown = [] ++ from.unknown;
}

-- `InternalSwap`, field by field.
pub swap : RpcHeader × RpcHeader → RpcHeader × RpcHeader
swap (a, b) = (
  record {
    unknown = b.unknown;
    service_name = b.service_name;
    method_name = b.method_name;
    payload = b.payload;
    id = b.id;
    type = b.type;
  },
  record {
    unknown = a.unknown;
    service_name = a.service_name;
    method_name = a.method_name;
    payload = a.payload;
    id = a.id;
    type = a.type;
  },
)

module _ (rt : Runtime) where
  -- `WriteBytesMaybeAliased` under its guard `!empty()`.
  abbrev pub bytes_part : ℕ → Bytes → Bytes
  bytes_part n b = if is_empty b then [] else rt.write_bytes n b

  abbrev pub type_part : ℕ → Bytes
  type_part v = if v == 0 then [] else rt.write_enum 1 v

  abbrev pub id_part : ℕ → Bytes
  id_part v = if v == 0 then [] else rt.write_fixed64 2 v

  abbrev pub unknown_part : Bytes → Bytes
  unknown_part u = if is_empty u then [] else rt.write_unknown u

  -- `_InternalSerialize`: the fields in the order of their numbers, those that are not default.
  unfoldable pub serialize : RpcHeader → Bytes
  serialize h =
      type_part h.type
      ++ (id_part h.id
          ++ (bytes_part 3 h.service_name
              ++ (bytes_part 4 h.method_name
                  ++ (bytes_part 5 h.payload ++ unknown_part h.unknown))))

  -- `ByteSizeLong`.
  pub byte_size : RpcHeader → ℕ
  byte_size h =
      (if is_empty h.service_name then 0 else 1 + rt.bytes_size h.service_name)
      + (if is_empty h.method_name then 0 else 1 + rt.bytes_size h.method_name)
      + (if is_empty h.payload then 0 else 1 + rt.bytes_size h.payload)
      + (if h.id == 0 then 0 else 1 + 8)
      + (if h.type == 0 then 0 else 1 + rt.enum_size h.type)
      + rt.unknown_size h.unknown

  -- `_internal_set_type(static_cast<MessageType>(val))`: the low 32 bits of the varint.
  read_type : RpcHeader → Bytes → Step RpcHeader
  read_type h s = elim (rt.read_varint64 s) [
    | some (v, r) ↦ next (record h { type = v % 2 ^ 32 }) r
    | none ↦ fail
  ]

  read_id : RpcHeader → Bytes → Step RpcHeader
  read_id h s = elim (rt.load_fixed64 s) [
    | some (v, r) ↦ next (record h { id = v }) r
    | none ↦ fail
  ]

  read_service_name : RpcHeader → Bytes → Step RpcHeader
  read_service_name h s = elim (rt.read_string s) [
    | some (b, r) ↦ next (record h { service_name = b }) r
    | none ↦ fail
  ]

  read_method_name : RpcHeader → Bytes → Step RpcHeader
  read_method_name h s = elim (rt.read_string s) [
    | some (b, r) ↦ next (record h { method_name = b }) r
    | none ↦ fail
  ]

  read_payload : RpcHeader → Bytes → Step RpcHeader
  read_payload h s = elim (rt.read_string s) [
    | some (b, r) ↦ next (record h { payload = b }) r
    | none ↦ fail
  ]

  -- `handle_unusual`: the end of a group, or a field to keep among the unknown ones.
  handle_unusual : RpcHeader → ℕ → Bytes → Step RpcHeader
  handle_unusual h tag s =
      if (tag == 0) || (tag % 8 == 4)
      then stop h tag s
      else elim (rt.unknown_field tag h.unknown s) [
        | some (u, r) ↦ next (record h { unknown = u }) r
        | none ↦ fail
      ]

  -- `switch (tag >> 3)`, with the test of the low byte of the tag in each case.
  dispatch : RpcHeader → ℕ → Bytes → Step RpcHeader
  unfolding read_type read_id read_service_name read_method_name read_payload handle_unusual
  dispatch h tag s =
      if tag / 8 == 1
      then (if tag % 256 == 8 then read_type h s else handle_unusual h tag s)
      else if tag / 8 == 2
      then (if tag % 256 == 17 then read_id h s else handle_unusual h tag s)
      else if tag / 8 == 3
      then (if tag % 256 == 26 then read_service_name h s else handle_unusual h tag s)
      else if tag / 8 == 4
      then (if tag % 256 == 34 then read_method_name h s else handle_unusual h tag s)
      else if tag / 8 == 5
      then (if tag % 256 == 42 then read_payload h s else handle_unusual h tag s)
      else handle_unusual h tag s

  unfoldable pub read_field : RpcHeader → Bytes → Step RpcHeader
  unfolding dispatch
  read_field h s = elim (rt.read_tag s) [ some (tag, r) ↦ dispatch h tag r | none ↦ fail ]

  -- `_InternalParse`, into the header `h`.
  unfoldable pub parse : RpcHeader → Bytes → Outcome RpcHeader
  parse h s = parse_loop rt.done read_field (length s) h s
