-- ===== src/Channel/Replies.antt =====
-- `onRPCMessage` of src/RPCChannel.cc on a RESPONSE: each reply is delivered to its call, once.
use proto_rpc_multi_reactor.Prelude.{
  ℕ, ◌≤◌, ◌≡◌, refl, ◌≢◌, ◌⊎◌, inl, inr, List, [], ◌∷◌, Option, none, some, true, arith,
  Option-cases, sym, ◌∙◌,
}
use proto_rpc_multi_reactor.Prelude.Text.{Bytes, ℕ_eq}
use proto_rpc_multi_reactor.Prelude.Dict.{
  lookup, erase, lookup-erase_self, lookup-erase_ne, lookup-erase-none,
}
use proto_rpc_multi_reactor.Header.{RpcHeader, response}
use proto_rpc_multi_reactor.Channel.Monad.{
  Channel, Effect, Out, after, ◌>>◌, >>-eq_some, after-nil, after-append, after-eq_some, emit,
}
use proto_rpc_multi_reactor.Channel.{Env, on_rpc_message, on_response, fill_response, run_done}
use proto_rpc_multi_reactor.Channel.Calls.{IsFresh}

-- A caller's closure may make new calls on the channel: it leaves the outstanding calls that are
-- there alone, and keeps ids fresh.
abbrev pub OnlyCalls : Channel → Channel → Type 0
OnlyCalls c c' =
    (c.id ≤ c'.id)
    × ((k : ℕ) → k ≤ c.id → lookup k c'.outstandings ≡ lookup k c.outstandings)
    × (IsFresh c → IsFresh c')

abbrev pub ClosuresOnlyCall : Env → Type 0
ClosuresOnlyCall env =
    (d : ℕ) (c c' : Channel) (es : List Effect)
    → env.run_closure d c ≡ some (tt, c', es)
    → OnlyCalls c c'

abbrev pub without : ℕ → Channel → Channel
without id c = record c { outstandings = erase id c.outstandings }

without-IsFresh : (id : ℕ) (c : Channel) → IsFresh c → IsFresh (without id c)
without-IsFresh id c fresh k h = lookup-erase-none id k c.outstandings (fresh k h)

state_eq :
    (c c' : Channel) (es : List Effect)
    → ◌≡◌ {A = Option (Out (Unit {0}))} (some (tt, c, [])) (some (tt, c', es))
    → c ≡ c'
state_eq c c' es e = ground arith

module _ (env : Env) where
  -- A reply to an outstanding call whose response object takes the payload: the call is struck off,
  -- then the object is filled, then the call's closure runs, on the channel without the call.
  pub reply_delivered :
      (h : RpcHeader) (c : Channel) (r d : ℕ)
      → h.type ≡ response
      → lookup h.id c.outstandings ≡ some (record { response = some r; done = some d })
      → env.parse_response r h.payload ≡ true
      → on_rpc_message env h c
        ≡ after (Effect.filled r h.payload ∷ Effect.ran d ∷ []) (env.run_closure d (without h.id c))
  unfolding on_rpc_message on_response
  reply_delivered h c r d t found parsed =
      rw (t, on_rpc_message)
        (rw found (
          rw (parsed, fill_response)
            (after-nil _
              ∙ after-nil _
              ∙ after-append (Effect.filled r h.payload ∷ []) (Effect.ran d ∷ [])
                  (env.run_closure d (without h.id c)))))

  module _ (closures : ClosuresOnlyCall env) where
    fill_response-same :
        (o : Option ℕ) (id : ℕ) (payload : Bytes) (c c' : Channel) (es : List Effect)
        → fill_response env o id payload c ≡ some (tt, c', es)
        → c ≡ c'
    unfolding fill_response
    fill_response-same o id payload c c' es e = ground arith

    run_done-OnlyCalls :
        (o : Option ℕ) (c c' : Channel) (es : List Effect)
        → run_done env o c ≡ some (tt, c', es)
        → OnlyCalls c c'
    unfolding run_done
    run_done-OnlyCalls none c c' es e =
        let p : c ≡ c' = ground arith in rw (← p) (omega arith, λ k _. refl, λ fresh. fresh)
    run_done-OnlyCalls (some d) c c' es e =
        let (m, fs, gs, emitted, run, _) =
          >>-eq_some (emit (Effect.ran d)) (env.run_closure d) c c' tt es e in
        let p : c ≡ m = ground arith in closures d c c' gs (rw (← p) at run)

    response_ends :
        (h : RpcHeader) (c c' : Channel) (es : List Effect)
        → h.type ≡ response
        → on_rpc_message env h c ≡ some (tt, c', es)
        → ((lookup h.id c.outstandings ≡ none) × (c' ≡ c)) ⊎ OnlyCalls (without h.id c) c'
    unfolding on_rpc_message on_response
    response_ends h c c' es t e = elim (Option-cases (lookup h.id c.outstandings)) [
      | inl p ↦ inl (p, sym (state_eq c c' es (rw (t, on_rpc_message, p) at e)))
      | inr (call, p) ↦
          let w = without h.id c in
          let fill = fill_response env call.response h.id h.payload in
          let finish = run_done env call.done in
          let (_, outer, _) =
            after-eq_some [] (after [] ((fill >> finish) w)) tt c' es
              (rw (t, on_rpc_message, p) at e) in
          let (fs, inner, _) = after-eq_some [] ((fill >> finish) w) tt c' _ outer in
          let (m, _, gs, filled, run, _) = >>-eq_some fill finish w c' tt fs inner in
          let same = fill_response-same call.response h.id h.payload w m _ filled in
          inr (rw (← same) at (run_done-OnlyCalls call.done m c' gs run))
    ]

    -- A reply is taken once. Whatever handling it does (the caller's closure may make new calls): a
    -- second message with the same id, whatever else it holds, changes nothing and has no effect.
    -- This is for an id that was given out, over closures that only make new calls.
    pub reply_once :
        (h h' : RpcHeader) (c c' : Channel) (es : List Effect)
        → h.type ≡ response
        → h.id ≤ c.id
        → on_rpc_message env h c ≡ some (tt, c', es)
        → h'.type ≡ response
        → h'.id ≡ h.id
        → on_rpc_message env h' c' ≡ some (tt, c', [])
    unfolding on_rpc_message on_response
    reply_once h h' c c' es t given e t' same = rw (t', on_rpc_message) (rw (same, gone))
      where
        gone : lookup h.id c'.outstandings ≡ none
        gone = elim (response_ends h c c' es t e) [
          | inl (p, q) ↦ rw q p
          | inr (_, keeps, _) ↦ keeps h.id given ∙ lookup-erase_self h.id c.outstandings
        ]

    -- A reply leaves all the other outstanding calls as they were, and ids fresh.
    pub reply_keeps_others :
        (h : RpcHeader) (c c' : Channel) (es : List Effect)
        → h.type ≡ response
        → on_rpc_message env h c ≡ some (tt, c', es)
        → ((k : ℕ) → k ≤ c.id → h.id ≢ k → lookup k c'.outstandings ≡ lookup k c.outstandings)
          × (c.id ≤ c'.id)
          × (IsFresh c → IsFresh c')
    reply_keeps_others h c c' es t e = elim (response_ends h c c' es t e) [
      | inl (p, q) ↦ rw q (λ k _ _. refl, omega arith, λ fresh. fresh)
      | inr (grows, keeps, keeps_fresh) ↦ (
        λ k given other. keeps k given ∙ lookup-erase_ne h.id k c.outstandings other,
        grows,
        λ fresh. keeps_fresh (without-IsFresh h.id c fresh),
      )
    ]
