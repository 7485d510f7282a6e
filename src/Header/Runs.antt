-- ===== src/Header/Runs.antt =====
-- Runs of the header's functions, and its theorems at concrete headers.
use proto_rpc_multi_reactor.Prelude.{◌≡◌, refl, [], ◌∷◌, arith}
use proto_rpc_multi_reactor.Prelude.Text.{codes}
use proto_rpc_multi_reactor.Wire.Loop.{ended, parse_loop}
use proto_rpc_multi_reactor.Wire.Sample.{sample, sample-Forward, sample-ReadsBack}
use proto_rpc_multi_reactor.Header.{RpcHeader, new_header, serialize, parse, merge_from, read_field}
use proto_rpc_multi_reactor.Header.RoundTrip.{parse-serialize}

abbrev login_call : RpcHeader
login_call = record {
  service_name = codes "User";
  method_name = codes "Login";
  payload = 10 ∷ 0 ∷ 255 ∷ [];
  id = 7;
  type = 0;
  unknown = [];
}

abbrev login_reply : RpcHeader
login_reply = record {
  service_name = [];
  method_name = [];
  payload = 8 ∷ 1 ∷ [];
  id = 7;
  type = 1;
  unknown = [];
}

parse-login_call : parse sample new_header (serialize sample login_call) ≡ ended login_call
unfolding parse serialize read_field parse_loop
parse-login_call = refl

-- A field number that the message does not have is kept among the unknown fields.
parse_unknown :
    parse sample new_header (8 ∷ 1 ∷ 56 ∷ 3 ∷ [])
    ≡ ended (record {
      service_name = [];
      method_name = [];
      payload = [];
      id = 0;
      type = 1;
      unknown = 56 ∷ 3 ∷ [];
    })
unfolding parse read_field parse_loop
parse_unknown = refl

parse-serialize_example :
    parse sample login_reply (serialize sample login_call)
    ≡ ended (merge_from login_reply login_call)
parse-serialize_example =
    parse-serialize sample sample-Forward sample-ReadsBack login_reply login_call (record {
      type_fits = omega arith;
      id_fits = omega arith;
      service_name_fits = omega arith;
      method_name_fits = omega arith;
      payload_fits = omega arith;
      no_unknown = refl;
    })
