-- ===== src/Discovery/Published.antt =====
-- An instance that is published in the nodes of ZooKeeper, as src/ServiceDiscovery.cc looks for it.
use proto_rpc_multi_reactor.Prelude.{◌≡◌, ◌∙◌, false, ◌∷◌, ◌++◌, some, take}
use proto_rpc_multi_reactor.Prelude.Text.{Bytes, codes, bytes_eq, Bytes_eq}
use proto_rpc_multi_reactor.Discovery.{slash, method_path}
use proto_rpc_multi_reactor.Discovery.Paths.{IsName}
use proto_rpc_multi_reactor.Discovery.Tree.{Nodes, Same, Exists}

module _ {W : Type 0} (nodes : Nodes W) (service method inst : Bytes) where
  -- The service, the method and the instance have nodes, and the instance's holds its name.
  pub record IsPublished (w : W) : Type 0 where
    pub service_name : IsName service
    pub method_name : IsName method
    pub inst_name : IsName inst
    pub short : take 128 inst ≡ inst
    pub not_system : bytes_eq service (codes "zookeeper") ≡ false
    pub has_service : Exists nodes w (slash ∷ service)
    pub has_method : Exists nodes w (method_path service method)
    pub has_inst : nodes w (method_path service method ++ (slash ∷ inst)) ≡ some (some inst)

  pub IsPublished-Same : (w w' : W) → Same nodes w w' → IsPublished w → IsPublished w'
  IsPublished-Same w w' same p = record {
    service_name = p.service_name;
    method_name = p.method_name;
    inst_name = p.inst_name;
    short = p.short;
    not_system = p.not_system;
    has_service = (p.has_service.0, same _ ∙ p.has_service.1);
    has_method = (p.has_method.0, same _ ∙ p.has_method.1);
    has_inst = same _ ∙ p.has_inst;
  }
