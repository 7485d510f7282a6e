-- ===== src/System.antt =====
-- The components together: a server of src/RPCServer.cc publishes its methods in ZooKeeper, a client
-- finds them with src/ServiceDiscovery.cc and takes the address apart as the clients of
-- example/LoginRegisterService do.
pub mod Main
pub mod Clients
pub mod LoginCall
mod Runs
use proto_rpc_multi_reactor.Prelude.{
  ℕ, sym, ◌%◌, ◌^◌, ◌≡◌, refl, ap, ◌∙◌, ◌≢◌, ◌⊎◌, inl, inr, List, [], ◌∷◌, Option, none, some, true,
  false, ltb, length, All, Elem,
}
use proto_rpc_multi_reactor.Prelude.Text.{Bytes, codes, bytes_eq}
use proto_rpc_multi_reactor.Channel.Monad.{ServiceInfo}
use proto_rpc_multi_reactor.Zookeeper.{Api, start}
use proto_rpc_multi_reactor.Discovery.{
  Discovery, WorkerState, slash, init, pick_host, process_events, zk_watcher, method_path,
}
use proto_rpc_multi_reactor.Discovery.Refresh.{child_event_refreshes}
use proto_rpc_multi_reactor.Discovery.Paths.{IsName, path_of}
use proto_rpc_multi_reactor.Discovery.Tree.{Nodes, Same, AllData, TreeLaws, start-Same}
use proto_rpc_multi_reactor.Discovery.Published.{IsPublished-Same}
use proto_rpc_multi_reactor.Discovery.Fill.{init_finds}
use proto_rpc_multi_reactor.Discovery.Known.{Knows-pick_host}
use proto_rpc_multi_reactor.Server.{Server, run, instance_name}
use proto_rpc_multi_reactor.Server.Creating.{AllNames, CreateLaws, HasRoom}
use proto_rpc_multi_reactor.Server.Tree.{run_publishes}
use proto_rpc_multi_reactor.Client.{get_addr}
use proto_rpc_multi_reactor.Client.Address.{published_address}

module _ {W : Type 0} (api : Api W) (nodes : Nodes W) (laws : TreeLaws api nodes) where
  -- A server whose session comes up, who may create nodes below nodes that are there, and for whose
  -- nodes ZooKeeper has room (their paths are admitted, and where a service or a method of it has a
  -- node, it is not an ephemeral one) gets to its event loop. A client that starts its
  -- `ServiceDiscovery` after that fills its cache; for each registered method of the
  -- server, `pickHost` can pick the server (for some choice of the random index), and `getAddr` makes
  -- the server's host, and its port modulo 2 ^ 16, of what was picked. This is over the documented
  -- behaviour of ZooKeeper, for names without a slash, a host without a colon, a `stoi` that reads
  -- what `to_string` writes, no other data in the server's nodes, and nodes that all have data.
  pub published_is_found :
      (stoi : Bytes → Option ℕ) (to_string : ℕ → Bytes) (ip : Bytes) (port : ℕ)
      (zook_ip zook_port : Bytes) (s : Server) (w v : W) (h : ℕ) (service method : Bytes)
      (info : ServiceInfo) (md : ℕ) (d : Discovery)
      → start api zook_ip zook_port w ≡ some (some h, v)
      → (creates : CreateLaws api nodes laws h)
      → HasRoom api nodes laws h creates s.service_map (instance_name to_string ip port) v
      → AllData nodes v
      → All IsName (service ∷ method ∷ instance_name to_string ip port ∷ [])
      → ltb (length (instance_name to_string ip port)) 128 ≡ true
      → bytes_eq service (codes "zookeeper") ≡ false
      → AllNames s.service_map
      → Elem (service, info) s.service_map
      → Elem (method, md) info.method_map
      → (let target = path_of (service ∷ method ∷ instance_name to_string ip port ∷ []) in
          (nodes v target ≡ none)
          ⊎ (nodes v target ≡ some (some (instance_name to_string ip port))))
      → All (λ b. b ≢ 58) ip
      → stoi (to_string port) ≡ some port
      → ((u : W) → (k : ℕ) × (u' : W) × (start api zook_ip zook_port u ≡ some (some k, u')))
      → (s' : Server) × (w' : W) × (d' : Discovery) × (w'' : W) × (i : ℕ) × (run api to_string ip
            port zook_ip zook_port s w
          ≡ some (s', w'))
        × (init api zook_ip zook_port d w' ≡ some (d', w''))
        × (pick_host service method (λ _. i) d' ≡ some (instance_name to_string ip port))
        × (get_addr stoi (pick_host service method (λ _. i) d') ≡ some (ip, port % 2 ^ 16))
  published_is_found stoi to_string ip port zook_ip zook_port s w v h service method info md d up
        creates room full names short other all_names in_map in_methods own plain back starts =
      let inst = instance_name to_string ip port in
      let (w', runs, published, grew) =
        run_publishes api nodes laws to_string ip port zook_ip zook_port s w v h creates service
          method info md up room names short other all_names in_map in_methods own in
      let (k, u, up') = starts w' in
      let same = start-Same api nodes laws zook_ip zook_port w' u k up' in
      let (d', w'', fills, knows) =
        init_finds api nodes laws zook_ip zook_port service method inst d w' u k up'
          (IsPublished-Same nodes service method inst w' u same published)
          (λ p e. grew full p (sym (same p) ∙ e)) in
      let (i, picked) = (Knows-pick_host nodes u d' service method inst knows).0 in
      let (address, _) = published_address stoi to_string ip port plain back in
      (_, w', d', w'', i, runs, fills, picked, ap (get_addr stoi) picked ∙ address)

  -- A server joins while a client runs: its session comes up, it may create nodes below nodes that are
  -- there, and ZooKeeper has room for its nodes. It gets to its event loop, and once the client's
  -- worker has handled the event of a change below one of the server's methods, `pickHost` can pick
  -- the server for that method, and `getAddr` makes the server's host, and its port modulo 2 ^ 16,
  -- of what was picked. This is over the documented behaviour of ZooKeeper, for names without a slash, a
  -- host without a colon, a `stoi` that reads what `to_string` writes, no other data in the server's
  -- nodes, nodes that all have data, and a worker that has no other event to handle and was not asked
  -- to stop.
  pub joined_is_found :
      (stoi : Bytes → Option ℕ) (to_string : ℕ → Bytes) (ip : Bytes) (port : ℕ)
      (zook_ip zook_port : Bytes) (s : Server) (w v : W) (h : ℕ) (service method : Bytes)
      (info : ServiceInfo) (md : ℕ) (k : ℕ) (d : Discovery)
      → start api zook_ip zook_port w ≡ some (some h, v)
      → (creates : CreateLaws api nodes laws h)
      → HasRoom api nodes laws h creates s.service_map (instance_name to_string ip port) v
      → AllData nodes v
      → All IsName (service ∷ method ∷ instance_name to_string ip port ∷ [])
      → ltb (length (instance_name to_string ip port)) 128 ≡ true
      → bytes_eq service (codes "zookeeper") ≡ false
      → AllNames s.service_map
      → Elem (service, info) s.service_map
      → Elem (method, md) info.method_map
      → (let target = path_of (service ∷ method ∷ instance_name to_string ip port ∷ []) in
          (nodes v target ≡ none)
          ⊎ (nodes v target ≡ some (some (instance_name to_string ip port))))
      → All (λ b. b ≢ 58) ip
      → stoi (to_string port) ≡ some port
      → d.zk_client ≡ some k
      → d.events ≡ []
      → d.stop ≡ false
      → (s' : Server) × (w' : W) × (d' : Discovery) × (w'' : W) × (i : ℕ) × (run api to_string ip
            port zook_ip zook_port s w
          ≡ some (s', w'))
        × (process_events api 2 (zk_watcher 4 (method_path service method) d) w'
            ≡ WorkerState.waits d' w'')
        × (pick_host service method (λ _. i) d' ≡ some (instance_name to_string ip port))
        × (get_addr stoi (pick_host service method (λ _. i) d') ≡ some (ip, port % 2 ^ 16))
  joined_is_found stoi to_string ip port zook_ip zook_port s w v h service method info md k d up
        creates room full names short other all_names in_map in_methods own plain back session quiet
        running =
      let inst = instance_name to_string ip port in
      let (w', runs, published, grew) =
        run_publishes api nodes laws to_string ip port zook_ip zook_port s w v h creates service
          method info md up room names short other all_names in_map in_methods own in
      let (d', w'', handles, _, refreshed, _) =
        child_event_refreshes api nodes laws k service method published.service_name
          published.method_name d w' session quiet running published.has_method
          (grew full _, λ n. grew full _) in
      let (i, cut) = (refreshed inst inst published.inst_name published.has_inst).0 in
      let picked = cut ∙ ap (λ (b : Bytes). some b) published.short in
      let (address, _) = published_address stoi to_string ip port plain back in
      (_, w', d', w'', i, runs, handles, picked, ap (get_addr stoi) picked ∙ address)
