-- ===== src/Server/Publish.antt =====
-- The paths of the nodes that `Run` of src/RPCServer.cc makes in ZooKeeper.
use proto_rpc_multi_reactor.Prelude.{
  ℕ, ◌≡◌, sym, ◌∙◌, ap, List, [], ◌∷◌, ◌++◌, append-nil, append_assoc,
}
use proto_rpc_multi_reactor.Prelude.Text.{Bytes}
use proto_rpc_multi_reactor.Prelude.Dict.{Dict}
use proto_rpc_multi_reactor.Channel.Monad.{ServiceInfo}
use proto_rpc_multi_reactor.Discovery.{slash, method_path}
use proto_rpc_multi_reactor.Discovery.Paths.{path_of}

-- The path of this server below each method of a service, and of all services.
abbrev pub of_methods : Bytes → Bytes → Dict Bytes ℕ → List Bytes
of_methods inst service [] = []
of_methods inst service ((method, md) ∷ rest) =
    path_of (service ∷ method ∷ inst ∷ []) ∷ of_methods inst service rest

abbrev pub of_services : Bytes → Dict Bytes ServiceInfo → List Bytes
of_services inst [] = []
of_services inst ((service, info) ∷ rest) =
    of_methods inst service info.method_map ++ of_services inst rest

pub path_of-instance :
    (service method inst : Bytes)
    → method_path service method ++ (slash ∷ inst) ≡ path_of (service ∷ method ∷ inst ∷ [])
path_of-instance service method inst =
    append_assoc (slash ∷ service) (slash ∷ method) (slash ∷ inst)
    ∙ ap (λ i. (slash ∷ service) ++ ((slash ∷ method) ++ (slash ∷ i))) (sym (append-nil inst))
