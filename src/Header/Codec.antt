-- ===== src/Header/Codec.antt =====
-- `SerializeToString` and `ParseFromString` of a `RpcHeader`, as src/RPCChannel.cc calls them: the
-- wrappers of the protobuf runtime round the generated functions of src/rpc.pb.cc.
use proto_rpc_multi_reactor.Prelude.{◌^◌, ◌<◌, ◌≡◌, ap, ◌∙◌, Option, some, length}
use proto_rpc_multi_reactor.Prelude.Text.{Bytes}
use proto_rpc_multi_reactor.Wire.{Runtime, Forward, ReadsBack}
use proto_rpc_multi_reactor.Wire.Loop.{Outcome, ended}
use proto_rpc_multi_reactor.Header.{RpcHeader, new_header, serialize, parse}
use proto_rpc_multi_reactor.Header.RoundTrip.{Fits, parse-serialize}
use proto_rpc_multi_reactor.Header.Merge.{merge-new_header}

-- `to_string` keeps the bytes or refuses them; `accept` takes what was parsed to the end.
pub record Wrappers : Type 0 where
  pub to_string : Bytes → Option Bytes
  pub accept : Outcome RpcHeader → Option RpcHeader

pub record WrapperLaws (w : Wrappers) : Type 0 where
  pub to_string_same : (s t : Bytes) → w.to_string s ≡ some t → t ≡ s
  pub to_string_total : (s : Bytes) → length s < 2 ^ 31 → w.to_string s ≡ some s
  pub accept_ended : (h : RpcHeader) → w.accept (ended h) ≡ some h

module _ (rt : Runtime) (w : Wrappers) where
  unfoldable pub serialize_to_string : RpcHeader → Option Bytes
  serialize_to_string h = w.to_string (serialize rt h)

  -- Into a new header.
  unfoldable pub parse_from_string : Bytes → Option RpcHeader
  parse_from_string s = w.accept (parse rt new_header s)

  -- A header that was serialized to a string parses back from that string to itself, whatever its
  -- fields are, within their ranges and without unknown fields.
  pub parse_from_string-serialize_to_string :
      Forward rt
      → ReadsBack rt
      → WrapperLaws w
      → (h : RpcHeader) (raw : Bytes) → Fits h
      → serialize_to_string h ≡ some raw
      → parse_from_string raw ≡ some h
  unfolding serialize_to_string parse_from_string
  parse_from_string-serialize_to_string forward back laws h raw fits e =
      ap parse_from_string (laws.to_string_same _ raw e)
      ∙ ap w.accept
          (parse-serialize rt forward back new_header h fits ∙ ap ended (merge-new_header h))
      ∙ laws.accept_ended h
