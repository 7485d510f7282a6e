-- ===== src/User/LoginResponse.antt =====
-- The generated class `LoginResponse` of example/user.pb.cc.
pub mod RoundTrip
use proto_rpc_multi_reactor.Prelude.{
  ℕ, ◌+◌, ◌/◌, ◌%◌, ◌||◌, Bool, true, false, [], ◌++◌, Option, some, none, ◌==◌, if◌then◌else◌,
  is_empty, length,
}
use proto_rpc_multi_reactor.Prelude.Text.{Bytes}
use proto_rpc_multi_reactor.Wire.{Runtime}
use proto_rpc_multi_reactor.Wire.Nested.{Scalars, Nested}
use proto_rpc_multi_reactor.Wire.Loop.{Step, Outcome, next, stop, fail, parse_loop}
use proto_rpc_multi_reactor.User.ResultCode
use proto_rpc_multi_reactor.User.ResultCode.{ResultCode, new_result_code}

-- `result_` is a pointer to an object of its own, or null.
pub record LoginResponse : Type 0 where
  pub result : Option ResultCode
  pub success : Bool
  pub unknown : Bytes

abbrev pub new_login_response : LoginResponse
new_login_response = record { result = none; success = false; unknown = [] }

-- `mutable_result()`: the object, which is made if there is none.
abbrev pub mutable_result : Option ResultCode → ResultCode
mutable_result none = new_result_code
mutable_result (some m) = m

-- `result()`: the object, or the default instance.
unfoldable pub result_of : LoginResponse → ResultCode
result_of m = elim m.result [ none ↦ new_result_code | some code ↦ code ]

-- `Clear`.
pub clear : LoginResponse → LoginResponse
clear m = record m { result = none; success = false; unknown = [] }

abbrev pub merge_result : Option ResultCode → Option ResultCode → Option ResultCode
merge_result to none = to
merge_result to (some from) = some (ResultCode.merge_from (mutable_result to) from)

-- `MergeImpl(to, from)`.
unfoldable pub merge_from : LoginResponse → LoginResponse → LoginResponse
merge_from to from = record {
  result = merge_result to.result from.result;
  success = if from.success then from.success else to.success;
  unknown = to.unknown ++ from.unknown;
}

-- `CopyFrom` between two different objects.
pub copy_from : LoginResponse → LoginResponse → LoginResponse
unfolding clear merge_from
copy_from to from = merge_from (clear to) from

-- The copy constructor.
pub copy_of : LoginResponse → LoginResponse
copy_of from = record {
  result = elim from.result [ none ↦ none | some code ↦ some (ResultCode.copy_of code) ];
  success = from.success;
  unknown = [] ++ from.unknown;
}

-- `InternalSwap`, which exchanges the bytes of the two fields.
pub swap : LoginResponse × LoginResponse → LoginResponse × LoginResponse
swap (a, b) = (
  record { unknown = b.unknown; result = b.result; success = b.success },
  record { unknown = a.unknown; result = a.result; success = a.success },
)

module _ (rt : Runtime) (scalars : Scalars) (nested : Nested ResultCode) where
  -- The cached size is what `ByteSizeLong`, which runs before, found for the object.
  abbrev pub result_part : Option ResultCode → Bytes
  result_part none = []
  result_part (some m) =
      nested.write_message 1 (ResultCode.byte_size rt scalars m) (ResultCode.serialize rt scalars m)

  abbrev pub success_part : Bool → Bytes
  success_part b = if b then scalars.write_bool 2 b else []

  -- `_InternalSerialize`.
  unfoldable pub serialize : LoginResponse → Bytes
  serialize m =
      result_part m.result
      ++ (success_part m.success ++ (if is_empty m.unknown then [] else rt.write_unknown m.unknown))

  -- `ByteSizeLong`.
  pub byte_size : LoginResponse → ℕ
  byte_size m =
      (elim m.result [
        | none ↦ 0
        | some code ↦ 1 + nested.message_size (ResultCode.byte_size rt scalars code)
      ])
      + (if m.success then 1 + 1 else 0)
      + rt.unknown_size m.unknown

  read_result_field : LoginResponse → Bytes → Step LoginResponse
  read_result_field m s =
      elim (nested.parse_message (ResultCode.parse rt scalars (mutable_result m.result)) s) [
        | some (code, r) ↦ next (record m { result = some code }) r
        | none ↦ fail
      ]

  -- The conversion to `bool` is the test against 0.
  read_success_field : LoginResponse → Bytes → Step LoginResponse
  read_success_field m s = elim (rt.read_varint64 s) [
    | some (v, r) ↦ next (record m { success = if v == 0 then false else true }) r
    | none ↦ fail
  ]

  handle_unusual : LoginResponse → ℕ → Bytes → Step LoginResponse
  handle_unusual m tag s =
      if (tag == 0) || (tag % 8 == 4)
      then stop m tag s
      else elim (rt.unknown_field tag m.unknown s) [
        | some (u, r) ↦ next (record m { unknown = u }) r
        | none ↦ fail
      ]

  dispatch : LoginResponse → ℕ → Bytes → Step LoginResponse
  unfolding read_result_field read_success_field handle_unusual
  dispatch m tag s =
      if tag / 8 == 1
      then (if tag % 256 == 10 then read_result_field m s else handle_unusual m tag s)
      else if tag / 8 == 2
      then (if tag % 256 == 16 then read_success_field m s else handle_unusual m tag s)
      else handle_unusual m tag s

  unfoldable pub read_field : LoginResponse → Bytes → Step LoginResponse
  unfolding dispatch
  read_field m s = elim (rt.read_tag s) [ some (tag, r) ↦ dispatch m tag r | none ↦ fail ]

  -- `_InternalParse`, into the message `m`.
  unfoldable pub parse : LoginResponse → Bytes → Outcome LoginResponse
  parse m s = parse_loop rt.done read_field (length s) m s
