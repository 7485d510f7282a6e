-- ===== src/User/ResultCode.antt =====
-- The generated class `ResultCode` of example/user.pb.cc.
pub mod RoundTrip
use proto_rpc_multi_reactor.Prelude.{
  ℕ, ◌+◌, ◌/◌, ◌%◌, ◌||◌, [], ◌++◌, Option, some, none, ◌==◌, if◌then◌else◌, is_empty, length,
}
use proto_rpc_multi_reactor.Prelude.Text.{Bytes}
use proto_rpc_multi_reactor.Wire.{Runtime}
use proto_rpc_multi_reactor.Wire.Nested.{Scalars}
use proto_rpc_multi_reactor.Wire.Loop.{Step, Outcome, next, stop, fail, parse_loop}

-- `errcode` is the bit pattern of an `int32_t`, `unknown` the set of unknown fields.
pub record ResultCode : Type 0 where
  pub errcode : ℕ
  pub errmsg : Bytes
  pub unknown : Bytes

abbrev pub new_result_code : ResultCode
new_result_code = record { errcode = 0; errmsg = []; unknown = [] }

-- `Clear`.
pub clear : ResultCode → ResultCode
clear m = record m { errcode = 0; errmsg = []; unknown = [] }

-- `MergeImpl(to, from)`.
unfoldable pub merge_from : ResultCode → ResultCode → ResultCode
merge_from to from = record {
  errcode = if from.errcode == 0 then to.errcode else from.errcode;
  errmsg = if is_empty from.errmsg then to.errmsg else from.errmsg;
  unknown = to.unknown ++ from.unknown;
}

-- `CopyFrom` between two different objects.
pub copy_from : ResultCode → ResultCode → ResultCode
unfolding clear merge_from
copy_from to from = merge_from (clear to) from

-- The copy constructor.
pub copy_of : ResultCode → ResultCode
copy_of from = record {
  errcode = from.errcode;
  errmsg = if is_empty from.errmsg then [] else from.errmsg;
  unknown = [] ++ from.unknown;
}

-- `InternalSwap`, field by field.
pub swap : ResultCode × ResultCode → ResultCode × ResultCode
swap (a, b) = (
  record { unknown = b.unknown; errmsg = b.errmsg; errcode = b.errcode },
  record { unknown = a.unknown; errmsg = a.errmsg; errcode = a.errcode },
)

module _ (rt : Runtime) (scalars : Scalars) where
  abbrev pub code_part : ℕ → Bytes
  code_part v = if v == 0 then [] else scalars.write_int32 1 v

  abbrev pub msg_part : Bytes → Bytes
  msg_part b = if is_empty b then [] else rt.write_bytes 2 b

  -- `_InternalSerialize`.
  unfoldable pub serialize : ResultCode → Bytes
  serialize m =
      code_part m.errcode
      ++ (msg_part m.errmsg ++ (if is_empty m.unknown then [] else rt.write_unknown m.unknown))

  -- `ByteSizeLong`.
  unfoldable pub byte_size : ResultCode → ℕ
  byte_size m =
      (if is_empty m.errmsg then 0 else 1 + rt.bytes_size m.errmsg)
      + (if m.errcode == 0 then 0 else scalars.int32_size_plus_one m.errcode)
      + rt.unknown_size m.unknown

  read_errcode : ResultCode → Bytes → Step ResultCode
  read_errcode m s = elim (scalars.read_varint32 s) [
    | some (v, r) ↦ next (record m { errcode = v }) r
    | none ↦ fail
  ]

  read_errmsg : ResultCode → Bytes → Step ResultCode
  read_errmsg m s = elim (rt.read_string s) [
    | some (b, r) ↦ next (record m { errmsg = b }) r
    | none ↦ fail
  ]

  handle_unusual : ResultCode → ℕ → Bytes → Step ResultCode
  handle_unusual m tag s =
      if (tag == 0) || (tag % 8 == 4)
      then stop m tag s
      else elim (rt.unknown_field tag m.unknown s) [
        | some (u, r) ↦ next (record m { unknown = u }) r
        | none ↦ fail
      ]

  dispatch : ResultCode → ℕ → Bytes → Step ResultCode
  unfolding read_errcode read_errmsg handle_unusual
  dispatch m tag s =
      if tag / 8 == 1
      then (if tag % 256 == 8 then read_errcode m s else handle_unusual m tag s)
      else if tag / 8 == 2
      then (if tag % 256 == 18 then read_errmsg m s else handle_unusual m tag s)
      else handle_unusual m tag s

  unfoldable pub read_field : ResultCode → Bytes → Step ResultCode
  unfolding dispatch
  read_field m s = elim (rt.read_tag s) [ some (tag, r) ↦ dispatch m tag r | none ↦ fail ]

  -- `_InternalParse`, into the message `m`.
  unfoldable pub parse : ResultCode → Bytes → Outcome ResultCode
  parse m s = parse_loop rt.done read_field (length s) m s
