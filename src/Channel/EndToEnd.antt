-- ===== src/Channel/EndToEnd.antt =====
-- A call from one channel to another and back: `CallMethod`, the server's `onMessage` and
-- `doneCallback`, and the client's `onMessage` together.
use mathlib.Core.Path.{fun_ext}
use proto_rpc_multi_reactor.Prelude.{
  none, ℕ, ◌+◌, ◌^◌, ◌%◌, ◌≤◌, ◌<◌, ◌≡◌, refl, ◌∙◌, sym, ap, true, List, [], ◌∷◌, ◌++◌, append-nil,
  some, length,
}
use proto_rpc_multi_reactor.Prelude.Text.{Bytes, ℕ_eq, Bytes_eq}
use proto_rpc_multi_reactor.Prelude.Dict.{Dict, lookup, lookup-insert_self, lookup-erase_self}
use proto_rpc_multi_reactor.Header.{RpcHeader}
use proto_rpc_multi_reactor.Header.RoundTrip.{Fits}
use proto_rpc_multi_reactor.Channel.Monad.{
  Channel, ServiceInfo, Effect, M, after, ◌>>◌, return, >>_some, >>_after,
}
use proto_rpc_multi_reactor.Channel.{
  Env, Call, Loop, waiting, max_message_len, frame, call_header, reply_header, call_method,
  on_rpc_message, on_message, done_callback, message_loop,
}
use proto_rpc_multi_reactor.Channel.Framing.{BufferLaws}
use proto_rpc_multi_reactor.Channel.Frames.{on_message-frame}
use proto_rpc_multi_reactor.Channel.Calls.{Counts, registered, call_method-sends}
use proto_rpc_multi_reactor.Channel.Replies.{without, reply_delivered}
use proto_rpc_multi_reactor.Channel.Requests.{request_served, done_callback-sends}

-- What a header is serialized to parses back to it.
abbrev pub Decodes : Env → Type 0
Decodes env =
    (h : RpcHeader) (raw : Bytes)
    → Fits h
    → env.serialize_header h ≡ some raw
    → env.parse_header raw ≡ some h

module _ (env : Env) (buffers : BufferLaws env) (decodes : Decodes env) where
  on_message-nil : (conn : ℕ) (c : Channel) → on_message env [] conn c ≡ some (waiting [], c, [])
  unfolding on_message message_loop
  on_message-nil conn c = rw (buffers.readable_bytes_lem [])

  -- One frame is the whole buffer.
  pub one_frame :
      (h : RpcHeader) (raw : Bytes) (conn : ℕ) (c : Channel)
      → Fits h
      → env.serialize_header h ≡ some raw
      → length raw + 4 ≤ max_message_len
      → on_message env (frame env raw) conn c ≡ (on_rpc_message env h >> return (waiting [])) c
  one_frame h raw conn c fits s small =
      ap (λ (b : Bytes). on_message env b conn c) (sym (append-nil (frame env raw)))
      ∙ ap (λ (m : M Loop). m c)
          (on_message-frame env buffers h raw [] conn (decodes h raw fits s) small)
      ∙ ap (λ (m : M Loop). (on_rpc_message env h >> m) c) (fun_ext (on_message-nil conn))

-- A call of `CallMethod` on the client's channel `c` with a service and a method that the server
-- has registered, the payload `p`, the response object `r` and the closure `d`; the method answers
-- with the payload `q` and runs its closure before it returns. Everything serializes, and the
-- frames keep within 64 MB.
pub record Exchange (client server : Env) (c s : Channel) (call : Call) : Type 0 where
  pub p : Bytes
  pub q : Bytes
  pub r : ℕ
  pub d : ℕ
  pub client_conn : ℕ
  pub server_conn : ℕ
  pub services : Dict Bytes ServiceInfo
  pub info : ServiceInfo
  pub md : ℕ
  pub call_raw : Bytes
  pub reply_raw : Bytes
  pub request_eq : call.request_bytes ≡ some p
  pub response_eq : call.response ≡ some r
  pub done_eq : call.done ≡ some d
  pub room : c.id + 1 < 2 ^ 63
  pub client_up : c.conn ≡ some client_conn
  pub server_up : s.conn ≡ some server_conn
  pub services_eq : s.services ≡ some services
  pub service_eq : lookup call.service services ≡ some info
  pub method_eq : server.find_method info.service call.method ≡ some md
  pub accepted : server.parse_request info.service md p ≡ true
  pub answered :
      server.call_service info.service md p (c.id + 1) ≡ done_callback server (some q) (c.id + 1)
  pub understood : client.parse_response r q ≡ true
  pub call_fits : Fits (call_header client (c.id + 1) call p)
  pub reply_fits : Fits (reply_header server (c.id + 1) q)
  pub call_eq : client.serialize_header (call_header client (c.id + 1) call p) ≡ some call_raw
  pub reply_eq : server.serialize_header (reply_header server (c.id + 1) q) ≡ some reply_raw
  pub call_small : length call_raw + 4 ≤ max_message_len
  pub reply_small : length reply_raw + 4 ≤ max_message_len

-- `serialize_header` and the length prefix are the same code at both ends.
abbrev pub SameCodec : Env → Env → Type 0
SameCodec a b = (a.serialize_header ≡ b.serialize_header) × (a.net_bytes ≡ b.net_bytes)

frame-same :
    (client server : Env)
    → client.net_bytes ≡ server.net_bytes
    → (raw : Bytes) → frame client raw ≡ frame server raw
unfolding frame
frame-same client server net raw = λ i. net i ((length raw + 4) % 2 ^ 32) ++ raw

-- The server's part of an exchange.
request_leg :
    (server : Env) (sb : BufferLaws server) (sd : Decodes server) (client : Env) (c s : Channel)
    (call : Call) (x : Exchange client server c s call)
    → client.serialize_header (call_header client (c.id + 1) call x.p)
      ≡ server.serialize_header (call_header client (c.id + 1) call x.p)
    → on_message server (frame server x.call_raw) x.server_conn s
      ≡ some (
        waiting [],
        s,
        Effect.created_reply x.info.service x.md
            ∷ Effect.invoked x.info.service x.md x.p (c.id + 1)
            ∷ Effect.sent x.server_conn (frame server x.reply_raw)
            ∷ Effect.deleted_reply
            ∷ [],
      )
unfolding call_header
request_leg server sb sd client c s call x ser =
    let h = call_header client (c.id + 1) call x.p in
    let started : List Effect =
      Effect.created_reply x.info.service x.md
      ∷ Effect.invoked x.info.service x.md x.p (c.id + 1)
      ∷ [] in
    one_frame server sb sd h x.call_raw x.server_conn s x.call_fits (sym ser ∙ x.call_eq)
      x.call_small
    ∙ >>_some (on_rpc_message server h) (return (waiting [])) s s _ (
        request_served server h s x.services x.info x.md refl x.services_eq x.service_eq x.method_eq
          x.accepted
        ∙ ap (λ (m : M (Unit {0})). after started (m s)) x.answered
        ∙ ap (after started) (
            done_callback-sends server s x.server_conn (c.id + 1) x.q x.reply_raw x.server_up
              x.reply_eq))

-- The client's part, once the reply is there.
reply_leg :
    (client : Env) (cb : BufferLaws client) (cd : Decodes client) (server : Env) (c s : Channel)
    (call : Call) (x : Exchange client server c s call)
    → client.serialize_header ≡ server.serialize_header
    → on_message client (frame client x.reply_raw) x.client_conn (registered call c)
      ≡ after
          (Effect.filled x.r x.q ∷ Effect.ran x.d ∷ [])
          ((client.run_closure x.d >> return (waiting [])) (without (c.id + 1) (registered call c)))
unfolding reply_header
reply_leg client cb cd server c s call x ser =
    let h = reply_header server (c.id + 1) x.q in
    let found : lookup (c.id + 1) (registered call c).outstandings
        ≡ some (record { response = some x.r; done = some x.d }) =
      lookup-insert_self (c.id + 1) _ c.outstandings ∙ rw (x.response_eq, x.done_eq) in
    one_frame client cb cd h x.reply_raw x.client_conn (registered call c) x.reply_fits
      ((λ i. ser i h) ∙ x.reply_eq) x.reply_small
    ∙ >>_after (on_rpc_message client h) (return (waiting [])) (registered call c)
        (Effect.filled x.r x.q ∷ Effect.ran x.d ∷ []) (client.run_closure x.d) _
        (reply_delivered client h (registered call c) x.r x.d refl found x.understood)

-- A call of `CallMethod` on the client's channel with a service and a method that the server has
-- registered, where everything serializes, the frames keep within 64 MB and the method answers
-- before it returns: the call sends one frame; the server's `onMessage` on that frame calls the
-- method with the payload, sends one frame back and deletes its response object, with its channel
-- as it was; and the client's `onMessage` on that frame fills the call's response object with the
-- method's answer and runs the call's closure, once the call is struck off.
pub call_answered :
    (client server : Env) (c s : Channel) (call : Call)
    → Counts client
    → BufferLaws client
    → BufferLaws server
    → Decodes client
    → Decodes server
    → SameCodec client server
    → (x : Exchange client server c s call)
    → (c' : Channel) × (there : Bytes) × (back : Bytes) × (call_method client call c
        ≡ some (tt, c', Effect.sent x.client_conn there ∷ []))
      × (on_message server there x.server_conn s
          ≡ some (
            waiting [],
            s,
            Effect.created_reply x.info.service x.md
                ∷ Effect.invoked x.info.service x.md x.p (c.id + 1)
                ∷ Effect.sent x.server_conn back
                ∷ Effect.deleted_reply
                ∷ [],
          ))
      × (on_message client back x.client_conn c'
          ≡ after
              (Effect.filled x.r x.q ∷ Effect.ran x.d ∷ [])
              ((client.run_closure x.d >> return (waiting [])) (without (c.id + 1) c')))
      × (lookup (c.id + 1) (without (c.id + 1) c').outstandings ≡ none)
call_answered client server c s call counts cb sb cd sd (ser, net) x = (
  registered call c,
  frame client x.call_raw,
  frame server x.reply_raw,
  call_method-sends client counts call c x.p x.room x.client_conn x.call_raw x.request_eq x.call_eq
      x.client_up,
  ap (λ (b : Bytes). on_message server b x.server_conn s) (frame-same client server net x.call_raw)
      ∙ request_leg server sb sd client c s call x
          (λ i. ser i (call_header client (c.id + 1) call x.p)),
  ap (λ (b : Bytes). on_message client b x.client_conn (registered call c))
        (sym (frame-same client server net x.reply_raw))
      ∙ reply_leg client cb cd server c s call x ser,
  lookup-erase_self (c.id + 1) (registered call c).outstandings,
)
