-- ===== src/System/LoginCall.antt =====
-- A login of the example from the client's stub to its `onLoginDone`: the messages of example/user.pb.cc
-- on the channels of src/RPCChannel.cc, and the RPC `Login` of the example servers between them.
pub mod Answered
mod Runs
use proto_rpc_multi_reactor.Prelude.{
  ℕ, ◌+◌, ◌^◌, ◌≤◌, ◌<◌, ◌≡◌, ◌==◌, refl, sym, ap, ◌∙◌, Bool, true, false, List, [], ◌∷◌, ◌++◌,
  Option, none, some, if◌then◌else◌, is_empty, length, arith,
}
use proto_rpc_multi_reactor.Prelude.Text.{Bytes, ℕ_eq, Bytes_eq}
use proto_rpc_multi_reactor.Prelude.Dict.{Dict, lookup}
use proto_rpc_multi_reactor.Wire.{Runtime, Forward, ReadsBack, Sizes}
use proto_rpc_multi_reactor.Wire.Nested.{Scalars, ScalarsLaws, Nested, NestedLaws}
use proto_rpc_multi_reactor.Wire.Loop.{Outcome, ended, stopped, failed, stuck}
use proto_rpc_multi_reactor.Header.RoundTrip
use proto_rpc_multi_reactor.Channel.Monad.{Channel, ServiceInfo, Effect, after, ◌>>◌, return}
use proto_rpc_multi_reactor.Channel.{
  Env, Call, waiting, max_message_len, call_header, reply_header, call_method, on_message,
  done_callback,
}
use proto_rpc_multi_reactor.Channel.Framing.{BufferLaws}
use proto_rpc_multi_reactor.Channel.Calls.{Counts}
use proto_rpc_multi_reactor.Channel.Replies.{without}
use proto_rpc_multi_reactor.Channel.EndToEnd.{Decodes, SameCodec, Exchange, call_answered}
use proto_rpc_multi_reactor.Login.{LoginResult}
use proto_rpc_multi_reactor.Client.{Client, on_login_done}
use proto_rpc_multi_reactor.User.ResultCode
use proto_rpc_multi_reactor.User.ResultCode.{ResultCode, new_result_code}
use proto_rpc_multi_reactor.User.LoginRequest
use proto_rpc_multi_reactor.User.LoginRequest.{LoginRequest, new_login_request}
use proto_rpc_multi_reactor.User.LoginRequest.RoundTrip.{parse-serialize_login}
use proto_rpc_multi_reactor.User.LoginResponse
use proto_rpc_multi_reactor.User.LoginResponse.{LoginResponse, new_login_response, result_of}
use proto_rpc_multi_reactor.User.LoginResponse.RoundTrip.{parse-serialize_response}

-- What the RPC `Login` makes of its empty response.
unfoldable pub response_of : LoginResult → LoginResponse
response_of l = record {
  result = some (record new_result_code { errcode = l.errcode; errmsg = l.errmsg });
  success = l.success;
  unknown = [];
}

-- `ParseFromString` on the outcome of `_InternalParse`.
abbrev pub is_ended : {M : Type 0} → Outcome M → Bool
is_ended (ended m) = true
is_ended (stopped m tag s) = false
is_ended failed = false
is_ended stuck = false

module _ (rt : Runtime) (scalars : Scalars) (nested : Nested ResultCode)
    (handle : Bytes → Bytes → LoginResult) where
  -- The response of `Login` for a request that was parsed, as `SerializeToString` gives it.
  answer_of : Outcome LoginRequest → Option Bytes
  answer_of (ended m) =
      some (LoginResponse.serialize rt scalars nested (response_of (handle m.name m.pwd)))
  answer_of (stopped m tag s) = none
  answer_of failed = none
  answer_of stuck = none

  -- The request is parsed, `Login` is called, and its response is written.
  unfoldable pub serve_login : Bytes → Option Bytes
  unfolding answer_of
  serve_login payload = answer_of (LoginRequest.parse rt new_login_request payload)

  -- A call of the stub's `Login` over two channels whose ends parse and write the user messages: the
  -- server has registered the method, which answers as `serve_login` says before it returns, the
  -- messages and the headers fit the wire, and the frames keep within 64 MB.
  pub record LoginCall (client server : Env) (c s : Channel) (call : Call) (req : LoginRequest)
      : Type 0 where
    pub r : ℕ
    pub d : ℕ
    pub client_conn : ℕ
    pub server_conn : ℕ
    pub services : Dict Bytes ServiceInfo
    pub info : ServiceInfo
    pub md : ℕ
    pub call_raw : Bytes
    pub reply_raw : Bytes
    pub response_eq : call.response ≡ some r
    pub done_eq : call.done ≡ some d
    pub room : c.id + 1 < 2 ^ 63
    pub client_up : c.conn ≡ some client_conn
    pub server_up : s.conn ≡ some server_conn
    pub services_eq : s.services ≡ some services
    pub service_eq : lookup call.service services ≡ some info
    pub method_eq : server.find_method info.service call.method ≡ some md
    pub parses_requests :
        (p : Bytes)
        → server.parse_request info.service md p
          ≡ is_ended (LoginRequest.parse rt new_login_request p)
    pub serves :
        (p : Bytes) (id : ℕ)
        → server.call_service info.service md p id ≡ done_callback server (serve_login p) id
    pub parses_responses :
        (q : Bytes)
        → client.parse_response r q
          ≡ is_ended (LoginResponse.parse rt scalars nested new_login_response q)
    pub request_fits : LoginRequest.RoundTrip.Fits req
    pub response_fits :
        LoginResponse.RoundTrip.Fits rt scalars (response_of (handle req.name req.pwd))
    pub call_fits :
        RoundTrip.Fits (call_header client (c.id + 1) call (LoginRequest.serialize rt req))
    pub reply_fits : RoundTrip.Fits (
        reply_header server
          (c.id + 1)
          (LoginResponse.serialize rt scalars nested (response_of (handle req.name req.pwd))))
    pub call_eq :
        client.serialize_header (call_header client (c.id + 1) call (LoginRequest.serialize rt req))
        ≡ some call_raw
    pub reply_eq :
        server.serialize_header (
          reply_header server
            (c.id + 1)
            (LoginResponse.serialize rt scalars nested (response_of (handle req.name req.pwd))))
        ≡ some reply_raw
    pub call_small : length call_raw + 4 ≤ max_message_len
    pub reply_small : length reply_raw + 4 ≤ max_message_len
