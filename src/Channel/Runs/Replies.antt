-- ===== src/Channel/Runs/Replies.antt =====
-- The theorems on replies and requests at concrete messages.
use proto_rpc_multi_reactor.Prelude.{◌≡◌, refl, inl, inr, List, [], ◌∷◌, none, some, arith, All}
use proto_rpc_multi_reactor.Prelude.Text.{codes, ℕ_eq, Bytes_eq}
use proto_rpc_multi_reactor.Prelude.Dict.{lookup}
use proto_rpc_multi_reactor.Header.{RpcHeader, serialize}
use proto_rpc_multi_reactor.Header.Codec.{serialize_to_string}
use proto_rpc_multi_reactor.Channel.Monad.{Channel, Effect}
use proto_rpc_multi_reactor.Channel.{frame, on_rpc_message, done_callback}
use proto_rpc_multi_reactor.Channel.Replies.{ClosuresOnlyCall, without, reply_once}
use proto_rpc_multi_reactor.Channel.Requests.{IsSilent, request_unanswered}
use proto_rpc_multi_reactor.Channel.Sample.{sample_env}
use proto_rpc_multi_reactor.Channel.Runs.{server, services, reply_bytes}

-- Calls 1 and 2 are outstanding.
abbrev busy : Channel
busy = record {
  conn = some 3;
  id = 2;
  outstandings =
      (1, record { response = some 70; done = some 71 })
      ∷ (2, record { response = none; done = some 72 })
      ∷ [];
  services = none;
}

abbrev reply_one : RpcHeader
reply_one = record {
  service_name = [];
  method_name = [];
  payload = 5 ∷ [];
  id = 1;
  type = 1;
  unknown = [];
}

quiet : ClosuresOnlyCall sample_env
quiet d c c' es e =
    let p : c ≡ c' = ground arith in rw (← p) (omega arith, λ k _. refl, λ fresh. fresh)

delivered :
    on_rpc_message sample_env reply_one busy
    ≡ some (tt, without 1 busy, Effect.filled 70 (5 ∷ []) ∷ Effect.ran 71 ∷ [])
unfolding on_rpc_message lookup
delivered = refl

reply_once_example :
    on_rpc_message sample_env (record reply_one { payload = [] }) (without 1 busy)
    ≡ some (tt, without 1 busy, [])
reply_once_example =
    reply_once sample_env quiet reply_one (record reply_one { payload = [] }) busy (without 1 busy)
      (Effect.filled 70 (5 ∷ []) ∷ Effect.ran 71 ∷ []) refl (omega arith) delivered refl refl

abbrev echo_request : RpcHeader
echo_request = record {
  service_name = codes "S";
  method_name = codes "Echo";
  payload = 5 ∷ [];
  id = 8;
  type = 0;
  unknown = [];
}

request_unanswered_example :
    (es : List Effect) × (on_rpc_message sample_env
        (record echo_request { method_name = codes "Ping" })
        server
      ≡ some (tt, server, es))
    × All IsSilent es
unfolding lookup
request_unanswered_example =
    request_unanswered sample_env (record echo_request { method_name = codes "Ping" }) server
      services refl refl (inr (record { service = 5; method_map = [] }, refl, inl refl))

done_run :
    done_callback sample_env (some (1 ∷ 2 ∷ [])) 1 server
    ≡ some (tt, server, Effect.sent 4 (frame sample_env reply_bytes) ∷ Effect.deleted_reply ∷ [])
unfolding done_callback serialize_to_string serialize
done_run = refl
