-- ===== src/System/Main.antt =====
-- `main` of the example servers, example/LoginRegisterService/MyRpcServerImp.cc and
-- example/MySQLServer/LoginRegisterServer.cc: options, registration, publication, and the event loop.
--
-- `none` is the end of the process by `exit` or by an exception.
use proto_rpc_multi_reactor.Prelude.{
  All, Elem, ◌⊎◌, ◌∷◌, inl, false, ℕ, ◌≡◌, refl, ap, true, List, [], Option, none, some, ltb,
  length, Bool,
}
use proto_rpc_multi_reactor.Prelude.Text.{Bytes, codes, bytes_eq}
use proto_rpc_multi_reactor.Prelude.Dict.{emplace}
use proto_rpc_multi_reactor.Application.{
  Application, Opt, construct, instance, instance-construct, get_config,
}
use proto_rpc_multi_reactor.Zookeeper.{Api, start}
use proto_rpc_multi_reactor.Login.{LoginResult}
use proto_rpc_multi_reactor.Server.{
  Server, Descriptor, new_server, notify_service, add_methods, run, instance_name,
}
use proto_rpc_multi_reactor.Server.Publish.{of_services}
use proto_rpc_multi_reactor.Server.Creating.{AllNames, CreateLaws, HasRoom}
use proto_rpc_multi_reactor.Server.Tree.{run_publishes}
use proto_rpc_multi_reactor.Discovery.Published.{IsPublished}
use proto_rpc_multi_reactor.Discovery.Paths.{IsName, path_of}
use proto_rpc_multi_reactor.Discovery.Tree.{Nodes, TreeLaws}
use proto_rpc_multi_reactor.Server.Lifecycle.{Loop, enter_loop}

-- The service of MyRpcServerImp.cc: its local `Login`, and the response of the RPC.
pub local_login : Bytes → Bytes → Bool
local_login name pwd = true

pub stub_login : Bytes → Bytes → LoginResult
unfolding local_login
stub_login name pwd = record { errcode = 0; errmsg = []; success = local_login name pwd }

module _ {W : Type 0} (api : Api W) (stoi : Bytes → Option ℕ) (to_string : ℕ → Bytes)
    (files : Bytes → Option (List Bytes)) (psd : Descriptor) where
  -- The last part of both: `Run` with what the options say.
  run_loop : Option (Server × W) → Option (Loop × W)
  run_loop none = none
  run_loop (some (s, w)) = some (enter_loop s, w)

  -- A service is registered, and the server run.
  serve_app : Application → ℕ → W → Option (Loop × W)
  unfolding run_loop
  serve_app app service w = run_loop (
      run api to_string app.server_host app.server_port app.zk_host (to_string app.zk_port)
        (notify_service service psd new_server) w)

  -- MyRpcServerImp.cc, up to its event loop.
  pub server_main : ℕ → List Opt → W → Option (Loop × W)
  unfolding serve_app
  server_main service opts w = elim (instance stoi files opts none) [
    | none ↦ none
    | some (app, _) ↦ serve_app app service w
  ]

  -- LoginRegisterServer.cc: the service is made with the user and the password of the configuration.
  pub login_server_main : (Bytes → Bytes → ℕ) → List Opt → W → Option (Loop × W)
  unfolding serve_app
  login_server_main make_service opts w = elim (instance stoi files opts none) [
    | none ↦ none
    | some (app, _) ↦
        serve_app app
          (make_service (get_config (codes "db_username") app) (get_config (codes "db_passwd") app))
          w
  ]

  -- A server whose options make sense, whose session comes up, who may create nodes below nodes that are
  -- there, and for whose nodes ZooKeeper has room gets to its event loop. It has recorded one path for each method of its service
  -- under the address of the options, and each of these methods is published in ZooKeeper: the service,
  -- the method and below it the server have nodes, and the server's holds that address. This is over the
  -- documented behaviour of ZooKeeper, for names without a slash and no other data in the server's node.
  pub main_serves :
      (nodes : Nodes W) (laws : TreeLaws api nodes) (service : ℕ) (opts : List Opt)
      (app : Application) (w v : W) (h : ℕ) (creates : CreateLaws api nodes laws h) (method : Bytes)
      (md : ℕ)
      → construct stoi files opts ≡ some app
      → start api app.zk_host (to_string app.zk_port) w ≡ some (some h, v)
      → (let s = notify_service service psd new_server in
          let inst = instance_name to_string app.server_host app.server_port in
          let target = path_of (psd.name ∷ method ∷ inst ∷ []) in
          HasRoom api nodes laws h creates s.service_map inst v
          × All IsName (psd.name ∷ method ∷ inst ∷ [])
          × AllNames s.service_map
          × ((nodes v target ≡ none) ⊎ (nodes v target ≡ some (some inst))))
      → ltb (length (instance_name to_string app.server_host app.server_port)) 128 ≡ true
      → bytes_eq psd.name (codes "zookeeper") ≡ false
      → Elem (method, md) (add_methods psd.methods [])
      → let inst = instance_name to_string app.server_host app.server_port in
        (l : Loop) × (w' : W) × (server_main service opts w ≡ some (l, w'))
        × (l.server.instance_paths
            ≡ of_services inst (notify_service service psd new_server).service_map)
        × IsPublished nodes psd.name method inst w'
  unfolding server_main serve_app run_loop notify_service emplace
  main_serves nodes laws service opts app w v h creates method md made up (room, named, names, own)
        short other in_methods =
      let s = notify_service service psd new_server in
      let inst = instance_name to_string app.server_host app.server_port in
      let (w', runs, published, _) =
        run_publishes api nodes laws to_string app.server_host app.server_port app.zk_host
          (to_string app.zk_port) s w v h creates psd.name method
          (record { service = service; method_map = add_methods psd.methods [] }) md up room named
          short other names (inl refl) in_methods own in
      (
        enter_loop (record s { instance_paths = of_services inst s.service_map }),
        w',
        rw ((instance-construct stoi files opts opts app made).0, server_main) (ap run_loop runs),
        refl,
        published,
      )
