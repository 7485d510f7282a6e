-- ===== src/Channel/Runs.antt =====
-- Runs of a channel, and its theorems at concrete channels: a call and its answer, calls alone.
mod Streams
mod Replies
use proto_rpc_multi_reactor.Prelude.{
  ℕ, ◌+◌, ◌^◌, ◌<◌, ◌≤◌, ◌≡◌, refl, ◌≢◌, ◌↔◌, ◌⊎◌, inl, inr, true, false, List, [], ◌∷◌, ◌++◌,
  Option, none, some, arith, ltb, leb, length, All,
}
use proto_rpc_multi_reactor.Prelude.Text.{Bytes, codes, ℕ_eq, Bytes_eq}
use proto_rpc_multi_reactor.Prelude.Dict.{Dict, lookup, insert, erase}
use proto_rpc_multi_reactor.Wire.Loop.{parse_loop}
use proto_rpc_multi_reactor.Wire.Sample.{sample, sample-Forward, sample-ReadsBack}
use proto_rpc_multi_reactor.Header.{RpcHeader, request, response, serialize, parse, read_field}
use proto_rpc_multi_reactor.Header.RoundTrip.{Fits}
use proto_rpc_multi_reactor.Header.Codec.{
  serialize_to_string, parse_from_string, parse_from_string-serialize_to_string,
}
use proto_rpc_multi_reactor.Channel.Monad.{
  Channel, ServiceInfo, OutstandingCall, Effect, after, ◌>>◌, return, emit,
}
use proto_rpc_multi_reactor.Channel.{
  Env, Call, waiting, garbled, rejected, stuck, frame, call_header, reply_header, call_method,
  set_failed, on_message, on_rpc_message, on_response, message_loop, take_message, done_callback,
  new_channel,
}
use proto_rpc_multi_reactor.Channel.Stream.{on_message-ne-stuck, on_message-append}
use proto_rpc_multi_reactor.Channel.Frames.{
  handle_all, stream, on_message-stream, on_message_garbled, on_message_rejected,
}
use proto_rpc_multi_reactor.Channel.Calls.{
  IsFresh, pending, registered, call_method_null_controller, call_method_sends, call_method_unsent,
  call_method-IsFresh,
}
use proto_rpc_multi_reactor.Channel.Replies.{
  without, reply_delivered, reply_once, reply_keeps_others,
}
use proto_rpc_multi_reactor.Channel.Requests.{
  IsSilent, request_served, request_unanswered, done_callback_deletes, deletions,
}
use proto_rpc_multi_reactor.Channel.EndToEnd.{Exchange, call_answered}
use proto_rpc_multi_reactor.Channel.Sample.{
  sample_env, sample_wrappers, sample-WrapperLaws, sample-BufferLaws, server_env, server-BufferLaws,
  decodes_sample, fits,
}

abbrev echo_call : Call
echo_call = record {
  service = codes "S";
  method = codes "Echo";
  controller = some 40;
  request_bytes = some (1 ∷ 2 ∷ []);
  response = some 70;
  done = some 71;
}

abbrev client : Channel
client = new_channel (some 3)

abbrev services : Dict Bytes ServiceInfo
services = (codes "S", record { service = 5; method_map = [] }) ∷ []

abbrev server : Channel
server = record { conn = some 4; id = 0; outstandings = []; services = some services }

abbrev call_bytes : Bytes
call_bytes =
    17 ∷ 1 ∷ 0 ∷ 0 ∷ 0 ∷ 0 ∷ 0 ∷ 0 ∷ 0 ∷ 26 ∷ 1 ∷ 83 ∷ 34 ∷ 4 ∷ 69 ∷ 99 ∷ 104 ∷ 111 ∷ 42 ∷ 2 ∷ 1 ∷ 2
    ∷ []

abbrev reply_bytes : Bytes
reply_bytes = 8 ∷ 1 ∷ 17 ∷ 1 ∷ 0 ∷ 0 ∷ 0 ∷ 0 ∷ 0 ∷ 0 ∷ 0 ∷ 42 ∷ 2 ∷ 1 ∷ 2 ∷ []

IsFresh-client : IsFresh client
unfolding lookup
IsFresh-client k h = refl

exchange : Exchange sample_env server_env client server echo_call
unfolding serialize_to_string serialize call_header reply_header lookup done_callback frame
exchange = record {
  p = 1 ∷ 2 ∷ [];
  q = 1 ∷ 2 ∷ [];
  r = 70;
  d = 71;
  client_conn = 3;
  server_conn = 4;
  services = services;
  info = record { service = 5; method_map = [] };
  md = 0;
  call_raw = call_bytes;
  reply_raw = reply_bytes;
  request_eq = refl;
  response_eq = refl;
  done_eq = refl;
  room = omega arith;
  client_up = refl;
  server_up = refl;
  services_eq = refl;
  service_eq = refl;
  method_eq = refl;
  accepted = refl;
  answered = refl;
  understood = refl;
  call_fits = fits _ (omega arith) refl;
  reply_fits = fits _ (omega arith) refl;
  call_eq = refl;
  reply_eq = refl;
  call_small = omega arith;
  reply_small = omega arith;
}

call_answered_example :
    (c' : Channel) × (there : Bytes) × (back : Bytes) × (call_method sample_env echo_call client
      ≡ some (tt, c', Effect.sent 3 there ∷ []))
    × (on_message server_env there 4 server
        ≡ some (
          waiting [],
          server,
          Effect.created_reply 5 0
              ∷ Effect.invoked 5 0 (1 ∷ 2 ∷ []) 1
              ∷ Effect.sent 4 back
              ∷ Effect.deleted_reply
              ∷ [],
        ))
    × (on_message sample_env back 3 c'
        ≡ after
            (Effect.filled 70 (1 ∷ 2 ∷ []) ∷ Effect.ran 71 ∷ [])
            ((sample_env.run_closure 71 >> return (waiting [])) (without 1 c')))
    × (lookup 1 (without 1 c').outstandings ≡ none)
unfolding exchange
call_answered_example =
    call_answered sample_env server_env client server echo_call (λ n h. refl) sample-BufferLaws
      server-BufferLaws decodes_sample decodes_sample (refl, refl) exchange

call_method_sends_example :
    (c' : Channel) × (call_method sample_env echo_call client
      ≡ some (tt, c', Effect.sent 3 (frame sample_env call_bytes) ∷ []))
    × (lookup 1 client.outstandings ≡ none)
    × (lookup 1 c'.outstandings ≡ some (pending echo_call))
    × ((k : ℕ) → k ≢ 1 → lookup k c'.outstandings ≡ lookup k client.outstandings)
    × IsFresh c'
unfolding serialize_to_string serialize call_header
call_method_sends_example =
    call_method_sends sample_env (λ n h. refl) echo_call client (1 ∷ 2 ∷ []) call_bytes 3
      IsFresh-client (omega arith) refl refl refl

abbrev unconnected : Channel
unconnected = new_channel none

call_method_unsent_example :
    (c' : Channel) × (call_method sample_env echo_call unconnected
      ≡ some (tt, c', Effect.failed_call 40 (codes "No active connection.") ∷ []))
    × (lookup 1 c'.outstandings ≡ some (pending echo_call))
    × (c'.id ≡ 1)
unfolding serialize_to_string serialize call_header
call_method_unsent_example =
    call_method_unsent sample_env (λ n h. refl) echo_call unconnected (1 ∷ 2 ∷ []) call_bytes 40
      (omega arith) refl refl refl refl

-- A call as the example clients make it: with a null controller.
abbrev bare_call : Call
bare_call = record echo_call { controller = none }

unsent_run :
    call_method sample_env echo_call unconnected
    ≡ some (
      tt,
      registered echo_call unconnected,
      Effect.failed_call 40 (codes "No active connection.") ∷ [],
    )
unfolding call_method serialize_to_string serialize set_failed
unsent_run = refl
