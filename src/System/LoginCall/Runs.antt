-- ===== src/System/LoginCall/Runs.antt =====
-- A login over two sample channels.
use proto_rpc_multi_reactor.Prelude.{
  ◌+◌, ◌≡◌, ◌==◌, refl, true, false, [], ◌∷◌, some, arith, if◌then◌else◌,
}
use proto_rpc_multi_reactor.Prelude.Text.{Bytes, codes, bytes_eq, ℕ_eq, Bytes_eq}
use proto_rpc_multi_reactor.Prelude.Dict.{Dict, lookup}
use proto_rpc_multi_reactor.Wire.Loop.{ended}
use proto_rpc_multi_reactor.Wire.Sample.{
  sample, sample-Forward, sample-ReadsBack, sample-Sizes, sample_scalars, sample-ScalarsLaws,
  sample_nested, sample-NestedLaws,
}
use proto_rpc_multi_reactor.Header
use proto_rpc_multi_reactor.Header.Codec.{serialize_to_string}
use proto_rpc_multi_reactor.Channel.Monad.{Channel, ServiceInfo, Effect, after, ◌>>◌, return}
use proto_rpc_multi_reactor.Channel.{
  Env, Call, waiting, frame, call_header, reply_header, call_method, on_message, done_callback,
  new_channel,
}
use proto_rpc_multi_reactor.Channel.Framing.{BufferLaws}
use proto_rpc_multi_reactor.Channel.Replies.{without}
use proto_rpc_multi_reactor.Channel.Sample.{sample_env, sample-BufferLaws, decodes_sample, fits}
use proto_rpc_multi_reactor.Login.{LoginResult}
use proto_rpc_multi_reactor.Client.{Client, on_login_done}
use proto_rpc_multi_reactor.User.ResultCode
use proto_rpc_multi_reactor.User.LoginRequest
use proto_rpc_multi_reactor.User.LoginRequest.{LoginRequest, new_login_request}
use proto_rpc_multi_reactor.User.LoginResponse
use proto_rpc_multi_reactor.User.LoginResponse.{LoginResponse, new_login_response, result_of}
use proto_rpc_multi_reactor.System.LoginCall.Answered.{login_answered}
use proto_rpc_multi_reactor.System.LoginCall.{LoginCall, is_ended, response_of, serve_login}

-- A service that knows one password.
abbrev check : Bytes → Bytes → LoginResult
check name pwd =
    if bytes_eq pwd (codes "pw")
    then record { errcode = 0; errmsg = []; success = true }
    else record { errcode = 1; errmsg = codes "no"; success = false }

abbrev asked : LoginRequest
asked = record { name = codes "ann"; pwd = codes "pw"; unknown = [] }

abbrev client_env : Env
client_env = record sample_env {
  parse_response = λ r q.
      is_ended (LoginResponse.parse sample sample_scalars sample_nested new_login_response q);
}

abbrev server_env : Env
server_env = record sample_env {
  find_method = λ service name. some 0;
  parse_request = λ service md p. is_ended (LoginRequest.parse sample new_login_request p);
  call_service = λ service md p id.
      done_callback sample_env (serve_login sample sample_scalars sample_nested check p) id;
}

client-BufferLaws : BufferLaws client_env
client-BufferLaws = record {
  readable_bytes_lem = λ s. refl;
  length-net_bytes = λ n. refl;
  peek_int32-net_bytes = sample-BufferLaws.peek_int32-net_bytes;
  peek_int32-append = sample-BufferLaws.peek_int32-append;
  retrieve_lem = λ n s h. refl;
  retrieve_as_string_lem = λ n s h. refl;
}

server-BufferLaws : BufferLaws server_env
server-BufferLaws = record {
  readable_bytes_lem = λ s. refl;
  length-net_bytes = λ n. refl;
  peek_int32-net_bytes = sample-BufferLaws.peek_int32-net_bytes;
  peek_int32-append = sample-BufferLaws.peek_int32-append;
  retrieve_lem = λ n s h. refl;
  retrieve_as_string_lem = λ n s h. refl;
}

abbrev login_stub : Call
login_stub = record {
  service = codes "S";
  method = codes "L";
  controller = some 40;
  request_bytes = some (LoginRequest.serialize sample asked);
  response = some 70;
  done = some 71;
}

abbrev client : Channel
client = new_channel (some 3)

abbrev services : Dict Bytes ServiceInfo
services = (codes "S", record { service = 5; method_map = [] }) ∷ []

abbrev server : Channel
server = record { conn = some 4; id = 0; outstandings = []; services = some services }

abbrev request_bytes : Bytes
request_bytes = 10 ∷ 3 ∷ 97 ∷ 110 ∷ 110 ∷ 18 ∷ 2 ∷ 112 ∷ 119 ∷ []

abbrev response_bytes : Bytes
response_bytes = 10 ∷ 0 ∷ 16 ∷ 1 ∷ []

abbrev call_bytes : Bytes
call_bytes = 17 ∷ 1 ∷ 0 ∷ 0 ∷ 0 ∷ 0 ∷ 0 ∷ 0 ∷ 0 ∷ 26 ∷ 1 ∷ 83 ∷ 34 ∷ 1 ∷ 76 ∷ 42 ∷ 9 ∷ request_bytes

abbrev reply_bytes : Bytes
reply_bytes = 8 ∷ 1 ∷ 17 ∷ 1 ∷ 0 ∷ 0 ∷ 0 ∷ 0 ∷ 0 ∷ 0 ∷ 0 ∷ 42 ∷ 4 ∷ response_bytes

login_call :
    LoginCall sample sample_scalars sample_nested check client_env server_env client server
      login_stub asked
unfolding serialize_to_string Header.serialize call_header reply_header lookup
    LoginRequest.serialize LoginResponse.serialize response_of ResultCode.serialize
    ResultCode.byte_size done_callback frame
login_call = record {
  r = 70;
  d = 71;
  client_conn = 3;
  server_conn = 4;
  services = services;
  info = record { service = 5; method_map = [] };
  md = 0;
  call_raw = call_bytes;
  reply_raw = reply_bytes;
  response_eq = refl;
  done_eq = refl;
  room = omega arith;
  client_up = refl;
  server_up = refl;
  services_eq = refl;
  service_eq = refl;
  method_eq = refl;
  parses_requests = λ p. refl;
  serves = λ p id. refl;
  parses_responses = λ q. refl;
  request_fits = record { name_fits = omega arith; pwd_fits = omega arith; no_unknown = refl };
  response_fits = record {
    result_fits = (
      record { errcode_fits = omega arith; errmsg_fits = omega arith; no_unknown = refl },
      omega arith,
    );
    no_unknown = refl;
  };
  call_fits = fits _ (omega arith) refl;
  reply_fits = fits _ (omega arith) refl;
  call_eq = refl;
  reply_eq = refl;
  call_small = omega arith;
  reply_small = omega arith;
}

login_answered_example :
    (c' : Channel) × (there : Bytes) × (back : Bytes) × (p : Bytes) × (q : Bytes)
    × (n : LoginResponse) × (call_method client_env login_stub client
        ≡ some (tt, c', Effect.sent 3 there ∷ []))
    × (on_message server_env there 4 server
        ≡ some (
          waiting [],
          server,
          Effect.created_reply 5 0
              ∷ Effect.invoked 5 0 p 1
              ∷ Effect.sent 4 back
              ∷ Effect.deleted_reply
              ∷ [],
        ))
    × (on_message client_env back 3 c'
        ≡ after
            (Effect.filled 70 q ∷ Effect.ran 71 ∷ [])
            ((client_env.run_closure 71 >> return (waiting [])) (without 1 c')))
    × (LoginResponse.parse sample sample_scalars sample_nested new_login_response q ≡ ended n)
    × ((result_of n).errcode ≡ 0)
    × (n.success ≡ true)
    × ((k : Client)
        → (on_login_done (result_of n).errcode k).1.success_count
          ≡ (if 0 == 0 then k.success_count + 1 else k.success_count))
unfolding login_call
login_answered_example =
    login_answered sample sample_scalars sample_nested check sample-Forward sample-ReadsBack
      sample-Sizes sample-ScalarsLaws sample-NestedLaws client_env server_env client server
      login_stub asked (λ n h. refl) client-BufferLaws server-BufferLaws decodes_sample
      decodes_sample (refl, refl) refl login_call
