-- ===== src/Server.antt =====
-- src/RPCServer.cc: the registration of services, their publication in ZooKeeper, and the channels
-- of the connections.
--
-- `none` is the end of the process by `exit`, or undefined behaviour (`sprintf` past its buffer).
pub mod Registry
pub mod Publish
pub mod Creating
pub mod Tree
pub mod Lifecycle
pub mod Sample
mod Runs
use proto_rpc_multi_reactor.Prelude.{
  ℕ, ◌+◌, ◌-◌, ◌%◌, ◌^◌, Bool, true, false, List, [], ◌∷◌, ◌++◌, Option, none, some, ltb, length,
  if◌then◌else◌,
}
use proto_rpc_multi_reactor.Prelude.Text.{Bytes, codes, ℕ_eq, Bytes_eq}
use proto_rpc_multi_reactor.Prelude.Dict.{Dict, insert, emplace, erase}
use proto_rpc_multi_reactor.Channel.Monad.{Channel, ServiceInfo}
use proto_rpc_multi_reactor.Channel.{new_channel, set_services}
use proto_rpc_multi_reactor.Zookeeper.{
  Api, ZkClient, Mode, persistent, ephemeral, new_client, start, create, delete, close,
}
use proto_rpc_multi_reactor.Discovery.{slash, method_path}

-- `service_map`, `instance_paths_`, the bit pattern of `pending_requests_`, `zkclient_`, and the
-- channel in the context of each connection.
pub record Server : Type 0 where
  pub service_map : Dict Bytes ServiceInfo
  pub instance_paths : List Bytes
  pub pending_requests : ℕ
  pub zk_client : ZkClient
  pub contexts : Dict ℕ Channel

abbrev pub new_server : Server
new_server = record {
  service_map = [];
  instance_paths = [];
  pending_requests = 0;
  zk_client = new_client;
  contexts = [];
}

-- What a service's descriptor says: its name, and the names and descriptors of its methods.
pub record Descriptor : Type 0 where
  pub name : Bytes
  pub methods : List (Bytes × ℕ)

-- The loop of `NotifyService`.
unfoldable pub add_methods : List (Bytes × ℕ) → Dict Bytes ℕ → Dict Bytes ℕ
add_methods [] m = m
add_methods ((name, md) ∷ rest) m = add_methods rest (emplace name md m)

unfoldable pub notify_service : ℕ → Descriptor → Server → Server
unfolding add_methods
notify_service service psd s = record s {
  service_map =
      emplace psd.name (record { service = service; method_map = add_methods psd.methods [] })
        s.service_map;
}

-- The name of this server's node below a method, which is also the node's content: "ip:port".
unfoldable pub instance_name : (ℕ → Bytes) → Bytes → ℕ → Bytes
instance_name to_string ip port = ip ++ codes ":" ++ to_string port

module _ {W : Type 0} (api : Api W) where
  -- What `Run` does for a method: the method's node, then this server's node below it.
  publish_method : ZkClient → Bytes → Bytes → Bytes → List Bytes × W → Option (List Bytes × W)
  publish_method z inst service method (paths, w) =
      let path = method_path service method in
      let instance_path = path ++ (slash ∷ inst) in
      elim (create api z path [] persistent w) [
        | none ↦ none
        | some w' ↦
            if ltb (length inst) 128
            then elim (create api z instance_path inst ephemeral w') [
              | none ↦ none
              | some w'' ↦ some (paths ++ (instance_path ∷ []), w'')
            ]
            else none
      ]

  publish_methods :
      ZkClient → Bytes → Bytes → Dict Bytes ℕ → List Bytes × W → Option (List Bytes × W)
  unfolding publish_method
  publish_methods z inst service [] out = some out
  publish_methods z inst service ((method, md) ∷ rest) out =
      elim (publish_method z inst service method out) [
        | none ↦ none
        | some out' ↦ publish_methods z inst service rest out'
      ]

  publish_service :
      ZkClient → Bytes → Bytes → Dict Bytes ℕ → List Bytes × W → Option (List Bytes × W)
  unfolding publish_methods
  publish_service z inst service methods (paths, w) =
      elim (create api z (slash ∷ service) [] persistent w) [
        | none ↦ none
        | some w' ↦ publish_methods z inst service methods (paths, w')
      ]

  -- The loop of `Run` over the services.
  pub publish : ZkClient → Bytes → Dict Bytes ServiceInfo → List Bytes × W → Option (List Bytes × W)
  unfolding publish_service
  publish z inst [] out = some out
  publish z inst ((service, info) ∷ rest) out =
      elim (publish_service z inst service info.method_map out) [
        | none ↦ none
        | some out' ↦ publish z inst rest out'
      ]

  -- `Run`, up to the start of the event loop: the client is a local variable, not the member.
  run_with : Bytes → Server → Option (ZkClient × W) → Option (Server × W)
  unfolding publish
  run_with inst s none = none
  run_with inst s (some (z, w)) = elim (publish z inst s.service_map (s.instance_paths, w)) [
    | none ↦ none
    | some (paths, w') ↦ some (record s { instance_paths = paths }, w')
  ]

  pub run : (ℕ → Bytes) → Bytes → ℕ → Bytes → Bytes → Server → W → Option (Server × W)
  unfolding run_with
  run to_string ip port zook_ip zook_port s w =
      run_with (instance_name to_string ip port) s (start api zook_ip zook_port w)

  -- `Cleanup`: deletes the recorded paths with the member client, and closes it.
  delete_all : ZkClient → List Bytes → W → W
  delete_all z [] w = w
  delete_all z (path ∷ paths) w = delete_all z paths (delete api z path w)

  pub cleanup : Server → W → Server × W
  unfolding delete_all
  cleanup s w =
      let (z, w') = close api s.zk_client (delete_all s.zk_client s.instance_paths w) in
      (record s { zk_client = z }, w')

-- `OnConnection`. The channel gets a pointer to the services of the server; every program registers
-- its services before `Run`, so that the services it finds there later are those of now.
pub on_connection : ℕ → Bool → Server → Option Server
on_connection conn true s = elim (set_services s.service_map (new_channel (some conn))) [
  | none ↦ none
  | some (_, channel, _) ↦ some (record s {
    contexts = insert conn channel s.contexts;
    pending_requests = (s.pending_requests + 1) % 2 ^ 32;
  })
]
on_connection conn false s = some (record s {
  contexts = erase conn s.contexts;
  pending_requests = (s.pending_requests + 2 ^ 32 - 1) % 2 ^ 32;
})
