-- ===== src/Server/Lifecycle/Runs.antt =====
-- The theorems on the life of a server at a server with one connection.
use proto_rpc_multi_reactor.Prelude.{◌≡◌, refl, [], ◌∷◌, ◌++◌, some, false, arith}
use proto_rpc_multi_reactor.Prelude.Text.{ℕ_eq, Bytes_eq}
use proto_rpc_multi_reactor.Prelude.Dict.{lookup, insert}
use proto_rpc_multi_reactor.Channel.{new_channel, set_services}
use proto_rpc_multi_reactor.Server.Lifecycle.{
  Loop, Task, enter_loop, connection_changed, stop_server, run_tasks, run_front, on_sigterm, Reach,
  here, after, opened, interrupted,
}
use proto_rpc_multi_reactor.Server.Lifecycle.Counting.{IsCounted, pending_counts}
use proto_rpc_multi_reactor.Server.Lifecycle.Stopping.{signals_end, stop_finds, found}
use proto_rpc_multi_reactor.Zookeeper.{close}
use proto_rpc_multi_reactor.Server.{on_connection, cleanup, delete_all}
use proto_rpc_multi_reactor.Server.Runs.{zookeeper, one_service}

-- One connection came up, and SIGINT came.
abbrev one_open : Loop
one_open = record (enter_loop one_service) {
  server = record one_service {
    contexts = (3, record (new_channel (some 3)) { services = some one_service.service_map }) ∷ [];
    pending_requests = 1;
  };
}

abbrev interrupted_loop : Loop
interrupted_loop = record one_open { tasks = Task.check_connections ∷ [] }

opened_reach : Reach zookeeper one_service [] (one_open, [])
unfolding connection_changed on_connection set_services insert lookup
opened_reach = after here (opened 3 refl refl refl)

interrupted_reach : Reach zookeeper one_service [] (interrupted_loop, [])
unfolding stop_server cleanup delete_all close
interrupted_reach = after opened_reach (interrupted refl)

pending_counts_example : IsCounted one_open.server
unfolding lookup
pending_counts_example =
    pending_counts zookeeper one_service [] (one_open, [])
      (record { distinct = tt; counted = refl }) opened_reach

signals_end_example :
    ((run_tasks 2 (on_sigterm interrupted_loop)).running ≡ false)
    × ((run_tasks 3 (stop_server zookeeper interrupted_loop []).0).running ≡ false)
signals_end_example = signals_end zookeeper interrupted_loop []

stop_finds_example :
    ((run_front interrupted_loop).closes ≡ [] ++ (found interrupted_loop.server.contexts ∷ []))
    × ((run_front interrupted_loop).accepting ≡ false)
    × ((run_front interrupted_loop).tasks ≡ [] ++ (Task.quit ∷ []))
stop_finds_example =
    stop_finds zookeeper one_service [] (interrupted_loop, []) [] refl refl interrupted_reach refl
      (omega arith)
