-- ===== src/Channel/Requests.antt =====
-- `onRPCMessage` of src/RPCChannel.cc on a REQUEST, and `doneCallback`.
use proto_rpc_multi_reactor.Prelude.{
  ℕ, ◌≡◌, ◌⊎◌, inl, inr, true, false, List, [], ◌∷◌, Option, none, some, arith, All, sym, ◌∙◌, suc,
  Option-cases,
}
use proto_rpc_multi_reactor.Prelude.Text.{Bytes, Bytes_eq}
use proto_rpc_multi_reactor.Prelude.Dict.{Dict, lookup}
use proto_rpc_multi_reactor.Header.{RpcHeader, request}
use proto_rpc_multi_reactor.Channel.Monad.{
  Channel, ServiceInfo, Effect, Out, after, after-nil, after-append,
}
use proto_rpc_multi_reactor.Channel.{Env, on_rpc_message, done_callback, frame, reply_header}

-- Nothing is sent to the other end.
abbrev pub IsSilent : Effect → Type 0
IsSilent (Effect.sent conn bytes) = ⊥
IsSilent _ = Unit {0}

-- Why a request cannot be served: no such service, no such method, or a payload that does not
-- parse as the method's request.
abbrev pub Unservable : Env → Dict Bytes ServiceInfo → RpcHeader → Type 0
Unservable env services h =
    (lookup h.service_name services ≡ none)
    ⊎ ((info : ServiceInfo) × (lookup h.service_name services ≡ some info)
        × ((env.find_method info.service h.method_name ≡ none)
            ⊎ ((md : ℕ) × (env.find_method info.service h.method_name ≡ some md)
                × (env.parse_request info.service md h.payload ≡ false))))

-- How often the server's response object is deleted.
abbrev pub deletions : List Effect → ℕ
deletions [] = 0
deletions (Effect.deleted_reply ∷ es) = suc (deletions es)
deletions (_ ∷ es) = deletions es

module _ (env : Env) where
  -- A request for a registered service and method whose payload parses makes a response object and
  -- calls the method with the payload and the id of the request.
  pub request_served :
      (h : RpcHeader) (c : Channel) (services : Dict Bytes ServiceInfo) (info : ServiceInfo)
      (md : ℕ)
      → h.type ≡ request
      → c.services ≡ some services
      → lookup h.service_name services ≡ some info
      → env.find_method info.service h.method_name ≡ some md
      → env.parse_request info.service md h.payload ≡ true
      → on_rpc_message env h c
        ≡ after
            (Effect.created_reply info.service md
              ∷ Effect.invoked info.service md h.payload h.id
              ∷ [])
            (env.call_service info.service md h.payload h.id c)
  unfolding on_rpc_message
  request_served h c services info md t s f m p =
      rw (t, on_rpc_message)
        (rw s (
          rw f (
            rw m (
              rw p (
                after-nil _
                ∙ after-append (Effect.created_reply info.service md ∷ [])
                    (Effect.invoked info.service md h.payload h.id ∷ []) _)))))

  -- A request that cannot be served is dropped: the channel is as before and nothing is sent, so
  -- that the caller gets no answer, not even an error.
  pub request_unanswered :
      (h : RpcHeader) (c : Channel) (services : Dict Bytes ServiceInfo)
      → h.type ≡ request
      → c.services ≡ some services
      → Unservable env services h
      → (es : List Effect) × (on_rpc_message env h c ≡ some (tt, c, es)) × All IsSilent es
  unfolding on_rpc_message
  request_unanswered h c services t s (inl f) =
      (Effect.log_error h.id ∷ [], rw (t, on_rpc_message) (rw s (rw f)), (tt, tt))
  request_unanswered h c services t s (inr (info, f, inl m)) =
      (Effect.log_error h.id ∷ [], rw (t, on_rpc_message) (rw s (rw f (rw m))), (tt, tt))
  request_unanswered h c services t s (inr (info, f, inr (md, m, p))) = (
    Effect.created_reply info.service md ∷ Effect.log_error h.id ∷ [],
    rw (t, on_rpc_message) (rw s (rw f (rw m (rw p)))),
    (tt, (tt, tt)),
  )

  pub done_callback-sends :
      (c : Channel) (conn id : ℕ) (payload raw : Bytes)
      → c.conn ≡ some conn
      → env.serialize_header (reply_header env id payload) ≡ some raw
      → done_callback env (some payload) id c
        ≡ some (tt, c, Effect.sent conn (frame env raw) ∷ Effect.deleted_reply ∷ [])
  unfolding done_callback
  done_callback-sends c conn id payload raw k s = rw (s, done_callback) (rw k)

  out_parts :
      (c c' : Channel) (es fs : List Effect)
      → ◌≡◌ {A = Option (Out (Unit {0}))} (some (tt, c, fs)) (some (tt, c', es))
      → (c' ≡ c) × (es ≡ fs)
  out_parts c c' es fs e = ground arith

  done_callback-ends :
      (o : Option Bytes) (id : ℕ) (c c' : Channel) (es : List Effect)
      → done_callback env o id c ≡ some (tt, c', es)
      → (c' ≡ c)
        × ((es ≡ Effect.log_error id ∷ Effect.deleted_reply ∷ [])
            ⊎ ((conn : ℕ) × (raw : Bytes) × (es
                  ≡ Effect.sent conn (frame env raw) ∷ Effect.deleted_reply ∷ [])))
  unfolding done_callback
  done_callback-ends none id c c' es e = let (p, q) = out_parts c c' es _ e in (p, inl q)
  done_callback-ends (some payload) id c c' es e =
      elim (Option-cases (env.serialize_header (reply_header env id payload))) [
        | inl p ↦ let (q, r) = out_parts c c' es _ (rw (p, done_callback) at e) in (q, inl r)
        | inr (raw, p) ↦ elim (Option-cases c.conn) [
          | inl k ↦ cc (rw k at (rw (p, done_callback) at e))
          | inr (conn, k) ↦
              let (q, r) =
                out_parts c c' es _ (sym (done_callback-sends c conn id payload raw k p) ∙ e) in
              (q, inr (conn, raw, r))
        ]
      ]

  -- Whether or not response and header serialize: `doneCallback`, where it is defined, leaves the
  -- channel as it was, deletes the response exactly once, and sends one frame or none.
  pub done_callback_deletes :
      (o : Option Bytes) (id : ℕ) (c c' : Channel) (es : List Effect)
      → done_callback env o id c ≡ some (tt, c', es)
      → (c' ≡ c)
        × (deletions es ≡ 1)
        × (All IsSilent es
            ⊎ ((conn : ℕ) × (raw : Bytes) × (es
                  ≡ Effect.sent conn (frame env raw) ∷ Effect.deleted_reply ∷ [])))
  done_callback_deletes o id c c' es e =
      let (p, ends) = done_callback-ends o id c c' es e in
      elim ends [
        | inl q ↦ (p, rw q, inl (rw q (tt, (tt, tt))))
        | inr (conn, raw, q) ↦ (p, rw q, inr (conn, raw, q))
      ]
