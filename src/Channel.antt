-- ===== src/Channel.antt =====
-- src/RPCChannel.cc and src/include/RPCChannel.h: one end of a connection, which sends calls,
-- matches replies to them, and serves the calls of the other end.
--
-- A method is a function of the channel that returns the new channel and, in order, its effects
-- on the rest of the program; `none` stands for undefined behaviour (a null or an uninitialised
-- pointer is dereferenced). Addresses of response objects, closures, services and method
-- descriptors are numbers. The mutex guards each access to `outstandings_` and is left out: a run
-- of the methods is one order in which the threads enter them; the threads in shorter steps are
-- those of Channel/Threads.
pub mod Monad
pub mod Framing
pub mod Stream
pub mod Frames
pub mod Calls
pub mod Replies
pub mod Requests
pub mod EndToEnd
pub mod Threads
pub mod Sample
mod Runs
use proto_rpc_multi_reactor.Prelude.{
  ℕ, zero, suc, ◌+◌, ◌-◌, ◌*◌, ◌%◌, ◌^◌, Bool, true, false, ◌||◌, List, [], ◌∷◌, ◌++◌, Option, none,
  some, ltb, ◌==◌, if◌then◌else◌, length,
}
use proto_rpc_multi_reactor.Prelude.Text.{Bytes, codes, ℕ_eq, Bytes_eq}
use proto_rpc_multi_reactor.Prelude.Dict.{Dict, lookup, insert, erase}
use proto_rpc_multi_reactor.Header.{
  RpcHeader, request, response, new_header, set_type, set_id, set_service_name, set_method_name,
  set_payload,
}
use Monad.{
  Channel, OutstandingCall, ServiceInfo, Effect, M, ◌>>=◌, ◌>>◌, return, emit, get, put, fault,
}

-- What the channel uses of other code.
pub record Env : Type 0 where
  -- `SerializeToString` and `ParseFromString` of `RpcHeader`.
  pub serialize_header : RpcHeader → Option Bytes
  pub parse_header : Bytes → Option RpcHeader
  -- `AtomicInt64::incrementAndGet`: the new value, which is also the result.
  pub increment_and_get : ℕ → ℕ
  -- The four bytes of `htonl(len)` in memory.
  pub net_bytes : ℕ → Bytes
  -- muduo's `Buffer`, as its readable bytes: `readableBytes`, `peekInt32` (as a `uint32_t`),
  -- `retrieve(n)` and `retrieveAsString(n)`.
  pub readable_bytes : Bytes → ℕ
  pub peek_int32 : Bytes → ℕ
  pub retrieve : ℕ → Bytes → Bytes
  pub retrieve_as_string : ℕ → Bytes → Bytes × Bytes
  -- `FindMethodByName` of a service's descriptor, `ParseFromString` of a new request of a method,
  -- and `ParseFromString` of a response object.
  pub find_method : ℕ → Bytes → Option ℕ
  pub parse_request : ℕ → ℕ → Bytes → Bool
  pub parse_response : ℕ → Bytes → Bool
  -- `done->Run()` of a caller's closure, and `service->CallMethod` with the request that the
  -- payload holds and the closure that runs `done_callback` for the call id: what they do to this
  -- channel before they return.
  pub run_closure : ℕ → M (Unit {0})
  pub call_service : ℕ → ℕ → Bytes → ℕ → M (Unit {0})

-- The arguments of `CallMethod`: the names of the method and of its service, the controller (or
-- a null pointer), what `request->SerializeToString` gives, the response and the closure.
pub record Call : Type 0 where
  pub service : Bytes
  pub method : Bytes
  pub controller : Option ℕ
  pub request_bytes : Option Bytes
  pub response : Option ℕ
  pub done : Option ℕ

-- `controller->SetFailed(reason)`.
pub set_failed : Option ℕ → Bytes → M (Unit {0})
set_failed none reason = fault
set_failed (some controller) reason = emit (Effect.failed_call controller reason)

-- `kLenField` and `kMaxMessageLen`.
abbrev pub len_field : ℕ
len_field = 4

abbrev pub max_message_len : ℕ
max_message_len = 64 * 1024 * 1024

-- How a call of `onMessage` returns: for want of data, after a bad length, after a header that
-- does not parse. `stuck` is the end of the fuel.
pub data Loop : Type 0 where
  waiting rejected garbled : Bytes → Loop
  stuck : Loop

module _ (env : Env) where
  -- The length prefix and the header: `htonl(size + sizeof(len))` in 32 bits, then the bytes.
  unfoldable pub frame : Bytes → Bytes
  frame raw = env.net_bytes ((length raw + len_field) % 2 ^ 32) ++ raw

  unfoldable pub call_header : ℕ → Call → Bytes → RpcHeader
  call_header id call payload = set_payload payload (
      set_method_name call.method
        (set_service_name call.service (set_id id (set_type request new_header))))

  -- The end of `CallMethod`: registers the call, then sends it, if there is a connection.
  send_call : Call → ℕ → Bytes → M (Unit {0})
  send_call call id header_str = do
    c ← get
    put (record c {
      outstandings =
          insert id (record { response = call.response; done = call.done }) c.outstandings;
    })
    elim c.conn [
      | some conn ↦ emit (Effect.sent conn (frame header_str))
      | none ↦ set_failed call.controller (codes "No active connection.")
    ]

  -- `CallMethod`, once the request is serialized.
  call_payload : Call → Bytes → M (Unit {0})
  unfolding call_header send_call
  call_payload call payload = do
    c ← get
    let id = env.increment_and_get c.id
    put (record c { id = id })
    elim (env.serialize_header (call_header id call payload)) [
      | none ↦ set_failed call.controller (codes "serialize rpc header error")
      | some header_str ↦ send_call call id header_str
    ]

  pub call_method : Call → M (Unit {0})
  unfolding call_payload
  call_method call = elim call.request_bytes [
    | none ↦ set_failed call.controller (codes "Failed to serialize request.")
    | some payload ↦ call_payload call payload
  ]

  unfoldable pub reply_header : ℕ → Bytes → RpcHeader
  reply_header id payload = set_payload payload (set_id id (set_type response new_header))

  -- `conn_->send`, which needs a connection.
  send_reply : Bytes → M (Unit {0})
  send_reply raw = do
    c ← get
    elim c.conn [ some conn ↦ emit (Effect.sent conn (frame raw)) | none ↦ fault ]

  -- `doneCallback`; the argument is what `response->SerializeToString` gives. The `unique_ptr`
  -- deletes the response on every way out.
  unfoldable pub done_callback : Option Bytes → ℕ → M (Unit {0})
  unfolding reply_header send_reply
  done_callback none id = do emit (Effect.log_error id); emit Effect.deleted_reply
  done_callback (some payload) id = do
    elim (env.serialize_header (reply_header id payload)) [
      | none ↦ emit (Effect.log_error id)
      | some raw ↦ send_reply raw
    ]
    emit Effect.deleted_reply

  -- The end of the handling of a response: parse the payload, then run the closure.
  fill_response : Option ℕ → ℕ → Bytes → M (Unit {0})
  fill_response none id payload = return tt
  fill_response (some r) id payload =
      if env.parse_response r payload
      then emit (Effect.filled r payload)
      else emit (Effect.log_error id)

  run_done : Option ℕ → M (Unit {0})
  run_done none = return tt
  run_done (some d) = do emit (Effect.ran d); env.run_closure d

  pub on_response : RpcHeader → M (Unit {0})
  unfolding fill_response run_done
  on_response message = do
    c ← get
    elim (lookup message.id c.outstandings) [
      | none ↦ return tt
      | some call ↦ do
        put (record c { outstandings = erase message.id c.outstandings })
        fill_response call.response message.id message.payload
        run_done call.done
    ]

  -- The lookups of service and method, the request object and the call.
  serve : RpcHeader → ℕ → ℕ → M (Unit {0})
  serve message service md = do
    emit (Effect.created_reply service md)
    if env.parse_request service md message.payload
        then (do
          emit (Effect.invoked service md message.payload message.id)
          env.call_service service md message.payload message.id)
        else emit (Effect.log_error message.id)

  pub on_request : RpcHeader → M (Unit {0})
  unfolding serve
  on_request message = do
    c ← get
    elim c.services [
      | none ↦ fault
      | some services ↦ elim (lookup message.service_name services) [
        | none ↦ emit (Effect.log_error message.id)
        | some info ↦ elim (env.find_method info.service message.method_name) [
          | none ↦ emit (Effect.log_error message.id)
          | some md ↦ serve message info.service md
        ]
      ]
    ]

  pub on_rpc_message : RpcHeader → M (Unit {0})
  unfolding on_response on_request
  on_rpc_message message =
      if message.type == response
      then on_response message
      else if message.type == request
      then on_request message
      else return tt

  -- The rest of a round: parses the header that was taken off the buffer and handles it; `again`
  -- is the next round.
  pub take_message : Bytes × Bytes → (Bytes → M Loop) → M Loop
  take_message (raw, rest) again = elim (env.parse_header raw) [
    | none ↦ return (garbled rest)
    | some message ↦ do on_rpc_message message; again rest
  ]

  -- The loop of `onMessage` on the buffer. Each round takes four bytes at least.
  pub message_loop : ℕ → Bytes → ℕ → M Loop
  message_loop zero buf conn = return stuck
  message_loop (suc fuel) buf conn =
      let again = λ (rest : Bytes). message_loop fuel rest conn in
      if ltb (env.readable_bytes buf) len_field
      then return (waiting buf)
      else let msg_len = env.peek_int32 buf in
        if ltb msg_len len_field || ltb max_message_len msg_len
        then (do emit (Effect.shut_down conn); return (rejected buf))
        else if ltb (env.readable_bytes buf) msg_len
        then return (waiting buf)
        else take_message
            (env.retrieve_as_string (msg_len - len_field) (env.retrieve len_field buf)) again

  -- `onMessage(conn, buf, …)`; the result holds what is left in the buffer.
  pub on_message : Bytes → ℕ → M Loop
  on_message buf conn = message_loop (suc (length buf)) buf conn

-- `setConnection` and `setServices`.
pub set_connection : ℕ → M (Unit {0})
set_connection conn = do c ← get; put (record c { conn = some conn })

unfoldable pub set_services : Dict Bytes ServiceInfo → M (Unit {0})
set_services services = do c ← get; put (record c { services = some services })

-- The two constructors: `id_` starts at 0, and `services_` is not set.
abbrev pub new_channel : Option ℕ → Channel
new_channel conn = record { conn = conn; id = 0; outstandings = []; services = none }

-- The destructor deletes the response and the closure of each outstanding call.
delete_call : OutstandingCall → List Effect
delete_call out = Effect.deleted_response out.response ∷ Effect.deleted_closure out.done ∷ []

pub destroy : Dict ℕ OutstandingCall → List Effect
unfolding delete_call
destroy [] = []
destroy ((id, out) ∷ rest) = delete_call out ++ destroy rest
