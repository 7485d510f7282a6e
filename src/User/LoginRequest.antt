-- ===== src/User/LoginRequest.antt =====
-- The generated class `LoginRequest` of example/user.pb.cc.
pub mod RoundTrip
use proto_rpc_multi_reactor.Prelude.{
  ℕ, ◌+◌, ◌/◌, ◌%◌, Bool, ◌||◌, List, [], ◌++◌, Option, some, none, ◌==◌, if◌then◌else◌, is_empty,
  length,
}
use proto_rpc_multi_reactor.Prelude.Text.{Bytes}
use proto_rpc_multi_reactor.Wire.{Runtime}
use proto_rpc_multi_reactor.Wire.Loop.{Step, Outcome, next, stop, fail, parse_loop}

-- `unknown` is the set of unknown fields of `_internal_metadata_`.
pub record LoginRequest : Type 0 where
  pub name : Bytes
  pub pwd : Bytes
  pub unknown : Bytes

abbrev pub new_login_request : LoginRequest
new_login_request = record { name = []; pwd = []; unknown = [] }

-- `Clear`.
pub clear : LoginRequest → LoginRequest
clear m = record m { name = []; pwd = []; unknown = [] }

-- `MergeImpl(to, from)`.
unfoldable pub merge_from : LoginRequest → LoginRequest → LoginRequest
merge_from to from = record {
  name = if is_empty from.name then to.name else from.name;
  pwd = if is_empty from.pwd then to.pwd else from.pwd;
  unknown = to.unknown ++ from.unknown;
}

-- `CopyFrom` between two different objects.
pub copy_from : LoginRequest → LoginRequest → LoginRequest
unfolding clear merge_from
copy_from to from = merge_from (clear to) from

-- The copy constructor.
pub copy_of : LoginRequest → LoginRequest
copy_of from = record {
  name = if is_empty from.name then [] else from.name;
  pwd = if is_empty from.pwd then [] else from.pwd;
  unknown = [] ++ from.unknown;
}

-- `InternalSwap`, field by field.
pub swap : LoginRequest × LoginRequest → LoginRequest × LoginRequest
swap (a, b) = (
  record { unknown = b.unknown; name = b.name; pwd = b.pwd },
  record { unknown = a.unknown; name = a.name; pwd = a.pwd },
)

module _ (rt : Runtime) where
  abbrev pub bytes_part : ℕ → Bytes → Bytes
  bytes_part n b = if is_empty b then [] else rt.write_bytes n b

  -- `_InternalSerialize`.
  unfoldable pub serialize : LoginRequest → Bytes
  serialize m =
      bytes_part 1 m.name
      ++ (bytes_part 2 m.pwd ++ (if is_empty m.unknown then [] else rt.write_unknown m.unknown))

  -- `ByteSizeLong`.
  pub byte_size : LoginRequest → ℕ
  byte_size m =
      (if is_empty m.name then 0 else 1 + rt.bytes_size m.name)
      + (if is_empty m.pwd then 0 else 1 + rt.bytes_size m.pwd)
      + rt.unknown_size m.unknown

  read_name : LoginRequest → Bytes → Step LoginRequest
  read_name m s = elim (rt.read_string s) [
    | some (b, r) ↦ next (record m { name = b }) r
    | none ↦ fail
  ]

  read_pwd : LoginRequest → Bytes → Step LoginRequest
  read_pwd m s = elim (rt.read_string s) [
    | some (b, r) ↦ next (record m { pwd = b }) r
    | none ↦ fail
  ]

  handle_unusual : LoginRequest → ℕ → Bytes → Step LoginRequest
  handle_unusual m tag s =
      if (tag == 0) || (tag % 8 == 4)
      then stop m tag s
      else elim (rt.unknown_field tag m.unknown s) [
        | some (u, r) ↦ next (record m { unknown = u }) r
        | none ↦ fail
      ]

  dispatch : LoginRequest → ℕ → Bytes → Step LoginRequest
  unfolding read_name read_pwd handle_unusual
  dispatch m tag s =
      if tag / 8 == 1
      then (if tag % 256 == 10 then read_name m s else handle_unusual m tag s)
      else if tag / 8 == 2
      then (if tag % 256 == 18 then read_pwd m s else handle_unusual m tag s)
      else handle_unusual m tag s

  unfoldable pub read_field : LoginRequest → Bytes → Step LoginRequest
  unfolding dispatch
  read_field m s = elim (rt.read_tag s) [ some (tag, r) ↦ dispatch m tag r | none ↦ fail ]

  -- `_InternalParse`, into the message `m`.
  unfoldable pub parse : LoginRequest → Bytes → Outcome LoginRequest
  parse m s = parse_loop rt.done read_field (length s) m s
