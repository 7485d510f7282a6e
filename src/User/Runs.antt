-- ===== src/User/Runs.antt =====
-- The theorems on the user messages at the sample runtime.
use proto_rpc_multi_reactor.Prelude.{some, true, false, ◌≡◌, refl, [], arith}
use proto_rpc_multi_reactor.Prelude.Text.{codes}
use proto_rpc_multi_reactor.Wire.Loop.{ended}
use proto_rpc_multi_reactor.Wire.Sample.{
  sample, sample-Forward, sample-ReadsBack, sample-Sizes, sample_scalars, sample-ScalarsLaws,
  sample_nested, sample-NestedLaws,
}
use proto_rpc_multi_reactor.User.ResultCode
use proto_rpc_multi_reactor.User.LoginResponse
use proto_rpc_multi_reactor.User.LoginResponse.{LoginResponse}
use proto_rpc_multi_reactor.User.LoginResponse.RoundTrip.{parse-serialize_response}
use proto_rpc_multi_reactor.User.LoginRequest.{LoginRequest}
use proto_rpc_multi_reactor.User.Service.{
  casts, invoke, request_prototype, response_prototype, casts_match,
}

abbrev request : LoginRequest
request = record { name = codes "ann"; pwd = codes "pw"; unknown = [] }

casts_match_example : casts (invoke 1) ≡ (request_prototype 1, response_prototype 1)
casts_match_example = casts_match 1

-- A response with a code and a message inside it, read into a response that has a result already.
abbrev refusal : LoginResponse
refusal = record {
  result = some (record { errcode = 1; errmsg = codes "no"; unknown = [] });
  success = true;
  unknown = [];
}

abbrev greeting : LoginResponse
greeting = record {
  result = some (record { errcode = 7; errmsg = codes "hi"; unknown = [] });
  success = false;
  unknown = [];
}

parse-serialize_response_example :
    LoginResponse.parse sample sample_scalars sample_nested greeting
      (LoginResponse.serialize sample sample_scalars sample_nested refusal)
    ≡ ended (LoginResponse.merge_from greeting refusal)
unfolding ResultCode.serialize
parse-serialize_response_example =
    parse-serialize_response sample sample_scalars sample_nested sample-Forward sample-ReadsBack
      sample-Sizes sample-ScalarsLaws sample-NestedLaws greeting refusal
      (record {
        result_fits = (
          record { errcode_fits = omega arith; errmsg_fits = omega arith; no_unknown = refl },
          omega arith,
        );
        no_unknown = refl;
      })
