-- ===== src/System/LoginCall/Answered.antt =====
-- The theorem on a login from the client's stub to its `onLoginDone`.
use proto_rpc_multi_reactor.Prelude.{
  ℕ, ◌+◌, ◌≡◌, ◌==◌, refl, ap, ◌∙◌, Bool, true, false, [], ◌∷◌, Option, some, if◌then◌else◌,
  is_empty, arith,
}
use proto_rpc_multi_reactor.Prelude.Text.{Bytes, ℕ_eq, Bytes_eq}
use proto_rpc_multi_reactor.Wire.{Runtime, Forward, ReadsBack, Sizes}
use proto_rpc_multi_reactor.Wire.Nested.{Scalars, ScalarsLaws, Nested, NestedLaws}
use proto_rpc_multi_reactor.Wire.Loop.{ended}
use proto_rpc_multi_reactor.Channel.Monad.{Channel, Effect, after, ◌>>◌, return}
use proto_rpc_multi_reactor.Channel.{Env, Call, waiting, call_method, on_message, done_callback}
use proto_rpc_multi_reactor.Channel.Framing.{BufferLaws}
use proto_rpc_multi_reactor.Channel.Calls.{Counts}
use proto_rpc_multi_reactor.Channel.Replies.{without}
use proto_rpc_multi_reactor.Channel.EndToEnd.{Decodes, SameCodec, Exchange, call_answered}
use proto_rpc_multi_reactor.Login.{LoginResult}
use proto_rpc_multi_reactor.Client.{Client, on_login_done}
use proto_rpc_multi_reactor.User.ResultCode
use proto_rpc_multi_reactor.User.ResultCode.{ResultCode, new_result_code}
use proto_rpc_multi_reactor.User.LoginRequest
use proto_rpc_multi_reactor.User.LoginRequest.{LoginRequest, new_login_request}
use proto_rpc_multi_reactor.User.LoginRequest.RoundTrip.{parse-serialize_login}
use proto_rpc_multi_reactor.User.LoginResponse
use proto_rpc_multi_reactor.User.LoginResponse.{LoginResponse, new_login_response, result_of}
use proto_rpc_multi_reactor.User.LoginResponse.RoundTrip.{parse-serialize_response}
use proto_rpc_multi_reactor.System.LoginCall.{
  LoginCall, response_of, is_ended, answer_of, serve_login,
}

merged_bytes : (b : Bytes) → (if is_empty b then [] else b) ≡ b
merged_bytes [] = refl
merged_bytes (x ∷ b) = refl

merged_number : (n : ℕ) → (if n == 0 then 0 else n) ≡ n
merged_number n = ground arith

merged_bool : (b : Bool) → (if b then b else false) ≡ b
merged_bool true = refl
merged_bool false = refl

-- A new message with a login request, and with the response of `Login`, merged into it.
merged_request :
    (m : LoginRequest)
    → let n = LoginRequest.merge_from new_login_request m in (n.name ≡ m.name) × (n.pwd ≡ m.pwd)
unfolding LoginRequest.merge_from
merged_request m = (merged_bytes m.name, merged_bytes m.pwd)

merged_response :
    (l : LoginResult)
    → let n = LoginResponse.merge_from new_login_response (response_of l) in
      ((result_of n).errcode ≡ l.errcode) × (n.success ≡ l.success)
unfolding LoginResponse.merge_from ResultCode.merge_from response_of result_of
merged_response l = (merged_number l.errcode, merged_bool l.success)

module _ (rt : Runtime) (scalars : Scalars) (nested : Nested ResultCode)
    (handle : Bytes → Bytes → LoginResult) (forward : Forward rt) (back : ReadsBack rt)
    (sizes : Sizes rt) (laws : ScalarsLaws rt scalars) (nested_laws : NestedLaws rt nested) where
  parsed_request :
      (req : LoginRequest)
      → LoginRequest.RoundTrip.Fits req
      → LoginRequest.parse rt new_login_request (LoginRequest.serialize rt req)
        ≡ ended (LoginRequest.merge_from new_login_request req)
  parsed_request req fits = parse-serialize_login rt forward back new_login_request req fits

  served :
      (req : LoginRequest)
      → LoginRequest.RoundTrip.Fits req
      → serve_login rt scalars nested handle (LoginRequest.serialize rt req)
        ≡ some (LoginResponse.serialize rt scalars nested (response_of (handle req.name req.pwd)))
  unfolding serve_login answer_of
  served req fits =
      let (name_eq, pwd_eq) = merged_request req in
      ap (answer_of rt scalars nested handle) (parsed_request req fits)
      ∙ ap
          (λ (b : Bytes). some (
            LoginResponse.serialize rt scalars nested
              (response_of (handle b (LoginRequest.merge_from new_login_request req).pwd))))
          name_eq
      ∙ ap
          (λ (b : Bytes).
            some (LoginResponse.serialize rt scalars nested (response_of (handle req.name b))))
          pwd_eq

  -- The exchange of frames behind a call of `Login`.
  abbrev exchange_of :
      {client server : Env} {c s : Channel} {call : Call} (req : LoginRequest)
      → call.request_bytes ≡ some (LoginRequest.serialize rt req)
      → LoginCall rt scalars nested handle client server c s call req
      → Exchange client server c s call
  exchange_of {client} {server} {c} {s} {call} req request_eq x = record {
    p = LoginRequest.serialize rt req;
    q = LoginResponse.serialize rt scalars nested (response_of (handle req.name req.pwd));
    r = x.r;
    d = x.d;
    client_conn = x.client_conn;
    server_conn = x.server_conn;
    services = x.services;
    info = x.info;
    md = x.md;
    call_raw = x.call_raw;
    reply_raw = x.reply_raw;
    request_eq = request_eq;
    response_eq = x.response_eq;
    done_eq = x.done_eq;
    room = x.room;
    client_up = x.client_up;
    server_up = x.server_up;
    services_eq = x.services_eq;
    service_eq = x.service_eq;
    method_eq = x.method_eq;
    accepted = x.parses_requests _ ∙ ap is_ended (parsed_request req x.request_fits);
    answered =
        x.serves _ (c.id + 1)
        ∙ ap (λ (o : Option Bytes). done_callback server o (c.id + 1)) (served req x.request_fits);
    understood =
        x.parses_responses _
        ∙ ap is_ended (
            parse-serialize_response rt scalars nested forward back sizes laws nested_laws
              new_login_response _ x.response_fits);
    call_fits = x.call_fits;
    reply_fits = x.reply_fits;
    call_eq = x.call_eq;
    reply_eq = x.reply_eq;
    call_small = x.call_small;
    reply_small = x.reply_small;
  }

  -- A call of the stub's `Login` with a request that fits the wire, over two channels that parse and
  -- write the user messages, to a server whose method answers before it returns: the call sends one
  -- frame, the server's `onMessage` on it calls the method and sends one frame back, and the client's
  -- `onMessage` on that one fills the response object and runs the closure. What the object is filled
  -- with parses to a response with the result of `Login` for the name and the password of the request,
  -- so the client counts a success exactly if that result has the error code 0. This is for a method that
  -- the server has registered, messages and headers that fit the wire, and frames within 64 MB, over the
  -- documented behaviour of protobuf and of muduo's buffer.
  pub login_answered :
      (client server : Env) (c s : Channel) (call : Call) (req : LoginRequest)
      → Counts client
      → BufferLaws client
      → BufferLaws server
      → Decodes client
      → Decodes server
      → SameCodec client server
      → call.request_bytes ≡ some (LoginRequest.serialize rt req)
      → (x : LoginCall rt scalars nested handle client server c s call req)
      → let l = handle req.name req.pwd in
        (c' : Channel) × (there : Bytes) × (back : Bytes) × (p : Bytes) × (q : Bytes)
        × (n : LoginResponse) × (call_method client call c
            ≡ some (tt, c', Effect.sent x.client_conn there ∷ []))
        × (on_message server there x.server_conn s
            ≡ some (
              waiting [],
              s,
              Effect.created_reply x.info.service x.md
                  ∷ Effect.invoked x.info.service x.md p (c.id + 1)
                  ∷ Effect.sent x.server_conn back
                  ∷ Effect.deleted_reply
                  ∷ [],
            ))
        × (on_message client back x.client_conn c'
            ≡ after
                (Effect.filled x.r q ∷ Effect.ran x.d ∷ [])
                ((client.run_closure x.d >> return (waiting [])) (without (c.id + 1) c')))
        × (LoginResponse.parse rt scalars nested new_login_response q ≡ ended n)
        × ((result_of n).errcode ≡ l.errcode)
        × (n.success ≡ l.success)
        × ((k : Client)
            → (on_login_done (result_of n).errcode k).1.success_count
              ≡ (if l.errcode == 0 then k.success_count + 1 else k.success_count))
  unfolding on_login_done
  login_answered client server c s call req counts cb sb cd sd same request_eq x =
      let l = handle req.name req.pwd in
      let q = LoginResponse.serialize rt scalars nested (response_of l) in
      let n = LoginResponse.merge_from new_login_response (response_of l) in
      let (c', there, back', sends, serves, fills, _) =
        call_answered client server c s call counts cb sb cd sd same
          (exchange_of req request_eq x) in
      let (code_eq, success_eq) = merged_response l in
      (
        c',
        there,
        back',
        LoginRequest.serialize rt req,
        q,
        n,
        sends,
        serves,
        fills,
        parse-serialize_response rt scalars nested forward back sizes laws nested_laws
            new_login_response (response_of l) x.response_fits,
        code_eq,
        success_eq,
        λ k. ap (λ (e : ℕ). if e == 0 then k.success_count + 1 else k.success_count) code_eq,
      )
