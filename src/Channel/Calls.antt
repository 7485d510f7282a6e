-- ===== src/Channel/Calls.antt =====
-- `CallMethod` of src/RPCChannel.cc: ids, registration and failures.
use proto_rpc_multi_reactor.Prelude.{
  ℕ, ◌+◌, ◌^◌, ◌≤◌, ◌<◌, ◌≡◌, refl, ◌≢◌, ◌↔◌, ◌⊎◌, inl, inr, List, [], ◌∷◌, none, some, arith,
}
use proto_rpc_multi_reactor.Prelude.Text.{Bytes, codes, ℕ_eq}
use proto_rpc_multi_reactor.Prelude.Dict.{lookup, insert, lookup-insert, lookup-insert_self}
use proto_rpc_multi_reactor.Channel.Monad.{Channel, OutstandingCall, Effect}
use proto_rpc_multi_reactor.Channel.{
  Env, Call, frame, set_failed, call_header, send_call, call_payload, call_method,
}

-- Ids that were not given out yet name no outstanding call.
abbrev pub IsFresh : Channel → Type 0
IsFresh c = (k : ℕ) → c.id < k → lookup k c.outstandings ≡ none

-- `incrementAndGet` adds one, short of the largest `int64_t`.
abbrev pub Counts : Env → Type 0
Counts env = (n : ℕ) → n + 1 < 2 ^ 63 → env.increment_and_get n ≡ n + 1

abbrev pub pending : Call → OutstandingCall
pending call = record { response = call.response; done = call.done }

-- The channel once `call` is registered under the next id.
abbrev pub registered : Call → Channel → Channel
registered call c = record c {
  id = c.id + 1;
  outstandings = insert (c.id + 1) (pending call) c.outstandings;
}

registered-IsFresh : (call : Call) (c : Channel) → IsFresh c → IsFresh (registered call c)
registered-IsFresh call c fresh k h = rw lookup-insert (ground (arith, fresh k))

lookup-registered_ne :
    (call : Call) (c : Channel) (k : ℕ)
    → k ≢ c.id + 1
    → lookup k (registered call c).outstandings ≡ lookup k c.outstandings
lookup-registered_ne call c k h = rw lookup-insert (ground arith)

module _ (env : Env) where
  -- With a null controller every failure of `CallMethod` (request, header, connection) is a null
  -- dereference, and nothing else in it is undefined.
  pub call_method_null_controller :
      (call : Call) (c : Channel)
      → call.controller ≡ none
      → (call_method env call c ≡ none) ↔ (
          (call.request_bytes ≡ none)
          ⊎ ((payload : Bytes) × (call.request_bytes ≡ some payload)
              × ((env.serialize_header (call_header env (env.increment_and_get c.id) call payload)
                    ≡ none)
                  ⊎ (c.conn ≡ none))))
  unfolding call_method set_failed
  call_method_null_controller call c o = ground arith

module _ (env : Env) (counts : Counts env) where
  module _ (call : Call) (c : Channel) (payload : Bytes) (room : c.id + 1 < 2 ^ 63) where
    pub call_method-sends :
        (conn : ℕ) (raw : Bytes)
        → call.request_bytes ≡ some payload
        → env.serialize_header (call_header env (c.id + 1) call payload) ≡ some raw
        → c.conn ≡ some conn
        → call_method env call c
          ≡ some (tt, registered call c, Effect.sent conn (frame env raw) ∷ [])
    unfolding call_method
    call_method-sends conn raw r s k =
        rw (r, call_method)
          (rw (counts c.id room) (rw (s, call_payload) (rw (k, send_call) (rw (counts c.id room)))))

    call_method-unsent :
        (raw : Bytes) (controller : ℕ)
        → call.request_bytes ≡ some payload
        → env.serialize_header (call_header env (c.id + 1) call payload) ≡ some raw
        → c.conn ≡ none
        → call.controller ≡ some controller
        → call_method env call c
          ≡ some (
            tt,
            registered call c,
            Effect.failed_call controller (codes "No active connection.") ∷ [],
          )
    unfolding call_method set_failed
    call_method-unsent raw controller r s k o =
        rw (r, call_method)
          (rw (counts c.id room)
            (rw (s, call_payload) (rw (k, send_call) (rw (o, set_failed) (rw (counts c.id room))))))

  -- A call over a connection, of which request and header serialize, sends exactly one frame, which
  -- carries the header of the call under the next id. The id was free; it now names the call's
  -- response and closure; all other outstanding calls are as they were; ids stay fresh.
  pub call_method_sends :
      (call : Call) (c : Channel) (payload raw : Bytes) (conn : ℕ)
      → IsFresh c
      → c.id + 1 < 2 ^ 63
      → call.request_bytes ≡ some payload
      → env.serialize_header (call_header env (c.id + 1) call payload) ≡ some raw
      → c.conn ≡ some conn
      → (c' : Channel) × (call_method env call c
          ≡ some (tt, c', Effect.sent conn (frame env raw) ∷ []))
        × (lookup (c.id + 1) c.outstandings ≡ none)
        × (lookup (c.id + 1) c'.outstandings ≡ some (pending call))
        × ((k : ℕ) → k ≢ c.id + 1 → lookup k c'.outstandings ≡ lookup k c.outstandings)
        × IsFresh c'
  call_method_sends call c payload raw conn fresh room r s k = (
    registered call c,
    call_method-sends call c payload room conn raw r s k,
    fresh (c.id + 1) (omega arith),
    lookup-insert_self (c.id + 1) (pending call) c.outstandings,
    lookup-registered_ne call c,
    registered-IsFresh call c fresh,
  )

  -- Without a connection the call is reported as failed to its controller, and yet it stays
  -- registered under a used-up id, although nothing was sent that could be answered.
  pub call_method_unsent :
      (call : Call) (c : Channel) (payload raw : Bytes) (controller : ℕ)
      → c.id + 1 < 2 ^ 63
      → call.request_bytes ≡ some payload
      → env.serialize_header (call_header env (c.id + 1) call payload) ≡ some raw
      → c.conn ≡ none
      → call.controller ≡ some controller
      → (c' : Channel) × (call_method env call c
          ≡ some (tt, c', Effect.failed_call controller (codes "No active connection.") ∷ []))
        × (lookup (c.id + 1) c'.outstandings ≡ some (pending call))
        × (c'.id ≡ c.id + 1)
  call_method_unsent call c payload raw controller room r s k o = (
    registered call c,
    call_method-unsent call c payload room raw controller r s k o,
    lookup-insert_self (c.id + 1) (pending call) c.outstandings,
    refl,
  )

  call_method-ends :
      (call : Call) (c c' : Channel) (es : List Effect)
      → c.id + 1 < 2 ^ 63
      → call_method env call c ≡ some (tt, c', es)
      → (c' ≡ c) ⊎ (c' ≡ record c { id = c.id + 1 }) ⊎ (c' ≡ registered call c)
  unfolding call_method set_failed
  call_method-ends call c c' es room e = ground (arith, counts c.id room)

  -- Whatever becomes of a call, ids stay fresh and the counter does not go back.
  pub call_method-IsFresh :
      (call : Call) (c c' : Channel) (es : List Effect)
      → IsFresh c
      → c.id + 1 < 2 ^ 63
      → call_method env call c ≡ some (tt, c', es)
      → (c.id ≤ c'.id) × IsFresh c'
  call_method-IsFresh call c c' es fresh room e = elim (call_method-ends call c c' es room e) [
    | inl p ↦ rw p (omega arith, fresh)
    | inr (inl p) ↦ rw p (omega arith, λ k h. fresh k (omega arith))
    | inr (inr p) ↦ rw p (omega arith, registered-IsFresh call c fresh)
  ]
