-- ===== src/Server/Runs.antt =====
-- The theorems on the server at a server with one service.
use proto_rpc_multi_reactor.Prelude.{◌≡◌, List, [], ◌∷◌, some, true}
use proto_rpc_multi_reactor.Prelude.Text.{Bytes, codes, ℕ_eq, Bytes_eq}
use proto_rpc_multi_reactor.Prelude.Dict.{Dict, lookup}
use proto_rpc_multi_reactor.Channel.Monad.{Channel, ServiceInfo}
use proto_rpc_multi_reactor.Zookeeper.{Api, Code, zok}
use proto_rpc_multi_reactor.Server.{Server, Descriptor, new_server, notify_service, on_connection}
use proto_rpc_multi_reactor.Server.Registry.{first_of, first_named, registered_found}

-- A ZooKeeper that keeps the paths of its nodes.
abbrev pub zookeeper : Api (List Bytes)
zookeeper = record {
  init = λ connection w. (some 1, w);
  close = λ h w. w;
  exists = λ z path w. Code.znonode;
  create = λ z path content mode w. (zok, path ∷ w);
  delete = λ z path w. (zok, w);
  get = λ z path w. (zok, 0 ∷ []);
  get_children = λ z path w. (zok, []);
  wget_children = λ z path w. (some [], w);
  wget = λ z path w. ([], some 0, w);
}

abbrev login_service : Descriptor
login_service = record { name = codes "S"; methods = (codes "m", 7) ∷ (codes "n", 8) ∷ [] }

abbrev pub one_service : Server
one_service = record new_server {
  service_map =
      (codes "S", record { service = 5; method_map = (codes "m", 7) ∷ (codes "n", 8) ∷ [] }) ∷ [];
}

registered_found_example :
    (s' : Server) × (c : Channel) × (services : Dict Bytes ServiceInfo) × (info : ServiceInfo)
    × (on_connection 3 true (notify_service 5 login_service new_server) ≡ some s')
    × (lookup 3 s'.contexts ≡ some c)
    × (c.services ≡ some services)
    × (lookup (codes "S") services ≡ first_of (lookup (codes "S") []) (some info))
    × (info.service ≡ 5)
    × ((name : Bytes) → lookup name info.method_map ≡ first_named name login_service.methods)
registered_found_example = registered_found 5 3 login_service new_server
