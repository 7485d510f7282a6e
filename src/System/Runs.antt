-- ===== src/System/Runs.antt =====
-- A server and a client over a small ZooKeeper.
use proto_rpc_multi_reactor.Prelude.{
  List, ◌++◌, ℕ, ◌-◌, Bool-cases, ◌%◌, ◌^◌, ◌≡◌, refl, inl, inr, false, [], ◌∷◌, Option, none, some,
  arith,
}
use proto_rpc_multi_reactor.Prelude.Text.{Bytes, bytes_eq, codes, ℕ_eq, Bytes_eq}
use proto_rpc_multi_reactor.Prelude.Dict.{lookup}
use proto_rpc_multi_reactor.Zookeeper.{start}
use proto_rpc_multi_reactor.Discovery.{Discovery, new_discovery, init, pick_host}
use proto_rpc_multi_reactor.Discovery.Sample.{
  Tree, zookeeper, nodes, zookeeper-TreeLaws, no_slash-All, all_full-AllData, all_valid,
}
use proto_rpc_multi_reactor.Server.{Server, new_server, run, instance_name}
use proto_rpc_multi_reactor.Server.Creating.{HasRoom}
use proto_rpc_multi_reactor.Server.Sample.{is_clear, zookeeper-CreateLaws}
use proto_rpc_multi_reactor.Server.{add_methods}
use proto_rpc_multi_reactor.Prelude.Dict.{emplace}
use proto_rpc_multi_reactor.Discovery.Published.{IsPublished}
use proto_rpc_multi_reactor.Client.Program.{arguments_concc}
use proto_rpc_multi_reactor.Client.{get_addr}
use proto_rpc_multi_reactor.Discovery.Paths.{IsName}
use proto_rpc_multi_reactor.Discovery.{slash, waits, process_events, zk_watcher}
use proto_rpc_multi_reactor.System.{published_is_found, joined_is_found}
use proto_rpc_multi_reactor.Client.{new_client, new_concurrent}
use proto_rpc_multi_reactor.Client.Program.{Arguments, arguments, arguments_from}
use proto_rpc_multi_reactor.System.Clients.{
  Launched, basic_main, reconnecting_main, concurrent_main, IsOnly, Dials, clients_dial,
}
use proto_rpc_multi_reactor.System.Main.{server_main, main_serves}
use proto_rpc_multi_reactor.Application.{
  Application, Opt, instance, new_application, construct, parse_args, parse_arg, set_zk, set_server,
  cut,
}
use proto_rpc_multi_reactor.Server.{Descriptor, notify_service}
use proto_rpc_multi_reactor.Server.Publish.{of_services}
use proto_rpc_multi_reactor.Server.Lifecycle.{Loop}

abbrev one_service : Server
one_service = record new_server {
  service_map = (codes "S", record { service = 5; method_map = (codes "m", 7) ∷ [] }) ∷ [];
}

abbrev to_string : ℕ → Bytes
to_string port = codes "80"

abbrev stoi : Bytes → Option ℕ
stoi s = some 80

-- A node that is there already.
abbrev full : Tree
full = (codes "/S", some []) ∷ (codes "/T", some (codes "x")) ∷ []

-- It has room for the server.
room :
    HasRoom zookeeper nodes zookeeper-TreeLaws 1 zookeeper-CreateLaws one_service.service_map
      (codes "h:80")
      full
unfolding instance_name
room = record {
  valid_dirs = λ q dir. all_valid q;
  valid_instances = λ s m info md in_map in_methods. all_valid _;
  clear = λ q dir. is_clear full q;
}

published_is_found_example :
    (s' : Server) × (w' : Tree) × (d' : Discovery) × (w'' : Tree) × (i : ℕ) × (run zookeeper
        to_string
        (codes "h")
        80
        (codes "z")
        (codes "2181")
        one_service
        full
      ≡ some (s', w'))
    × (init zookeeper (codes "z") (codes "2181") new_discovery w' ≡ some (d', w''))
    × (pick_host (codes "S") (codes "m") (λ _. i) d'
        ≡ some (instance_name to_string (codes "h") 80))
    × (get_addr stoi (pick_host (codes "S") (codes "m") (λ _. i) d')
        ≡ some (codes "h", 80 % 2 ^ 16))
unfolding start instance_name lookup
published_is_found_example =
    published_is_found zookeeper nodes zookeeper-TreeLaws stoi to_string (codes "h") 80 (codes "z")
      (codes "2181") one_service full full 1 (codes "S") (codes "m")
      (record { service = 5; method_map = (codes "m", 7) ∷ [] }) 7 new_discovery refl
      zookeeper-CreateLaws room (all_full-AllData full refl)
      (
        (refl, no_slash-All (codes "S") refl),
        ((refl, no_slash-All (codes "m") refl), ((refl, no_slash-All (codes "h:80") refl), tt)),
      )
      refl refl
      (((refl, no_slash-All (codes "S") refl), ((refl, no_slash-All (codes "m") refl), tt)), tt)
      (inl refl) (inl refl) (inl refl) (omega arith, tt) refl (λ u. (1, u, refl))

abbrev service : Descriptor
service = record { name = codes "S"; methods = (codes "m", 7) ∷ [] }

abbrev options : List Opt
options = Opt.z (codes "z:2181") ∷ Opt.s (codes "h:80") ∷ []

abbrev configured : Application
configured = record new_application {
  zk_host = codes "z";
  zk_port = 80;
  server_host = codes "h";
  server_port = 80;
}

main_serves_example :
    (l : Loop) × (w' : Tree) × (server_main zookeeper stoi to_string
        (λ path. none)
        service
        5
        options
        full
      ≡ some (l, w'))
    × (l.server.instance_paths
        ≡ of_services
            (instance_name to_string (codes "h") 80)
            (notify_service 5 service new_server).service_map)
    × IsPublished nodes (codes "S") (codes "m") (codes "h:80") w'
unfolding start instance_name construct parse_args parse_arg set_zk set_server cut lookup emplace
    notify_service add_methods
main_serves_example =
    main_serves zookeeper stoi to_string (λ path. none) service nodes zookeeper-TreeLaws 5 options
      configured full full 1 zookeeper-CreateLaws (codes "m") 7 refl refl
      (
        room,
        (
          (refl, no_slash-All (codes "S") refl),
          ((refl, no_slash-All (codes "m") refl), ((refl, no_slash-All (codes "h:80") refl), tt)),
        ),
        (((refl, no_slash-All (codes "S") refl), ((refl, no_slash-All (codes "m") refl), tt)), tt),
        inl refl,
      )
      refl refl (inl refl)

-- A client that runs and knows another server of the method.
abbrev running_client : Discovery
running_client = record {
  zk_client = some 1;
  cache = (codes "S/m", codes "old:9" ∷ []) ∷ [];
  events = [];
  stop = false;
}

joined_is_found_example :
    (s' : Server) × (w' : Tree) × (d' : Discovery) × (w'' : Tree) × (i : ℕ) × (run zookeeper
        to_string
        (codes "h")
        80
        (codes "z")
        (codes "2181")
        one_service
        full
      ≡ some (s', w'))
    × (process_events zookeeper 2 (zk_watcher 4 (codes "/S/m") running_client) w' ≡ waits d' w'')
    × (pick_host (codes "S") (codes "m") (λ _. i) d'
        ≡ some (instance_name to_string (codes "h") 80))
    × (get_addr stoi (pick_host (codes "S") (codes "m") (λ _. i) d')
        ≡ some (codes "h", 80 % 2 ^ 16))
unfolding start instance_name lookup
joined_is_found_example =
    joined_is_found zookeeper nodes zookeeper-TreeLaws stoi to_string (codes "h") 80 (codes "z")
      (codes "2181") one_service full full 1 (codes "S") (codes "m")
      (record { service = 5; method_map = (codes "m", 7) ∷ [] }) 7 1 running_client refl
      zookeeper-CreateLaws room (all_full-AllData full refl)
      (
        (refl, no_slash-All (codes "S") refl),
        ((refl, no_slash-All (codes "m") refl), ((refl, no_slash-All (codes "h:80") refl), tt)),
      )
      refl refl
      (((refl, no_slash-All (codes "S") refl), ((refl, no_slash-All (codes "m") refl), tt)), tt)
      (inl refl) (inl refl) (inl refl) (omega arith, tt) refl refl refl refl

-- The nodes of one server, and a client with two threads of three requests each.
abbrev one_server : Tree
one_server =
    (codes "/S", some []) ∷ (codes "/S/m", some []) ∷ (codes "/S/m/h:80", some (codes "h:80")) ∷ []

abbrev argv : List Bytes
argv =
    codes "client"
    ∷ codes "-z"
    ∷ codes "z:2181"
    ∷ codes "S"
    ∷ codes "m"
    ∷ codes "2"
    ∷ codes "3"
    ∷ []

abbrev asked : Arguments
asked = record { service = codes "S"; method = codes "m"; num_threads = 2; requests_per_client = 3 }

abbrev atoi : Bytes → ℕ
atoi [] = 0
atoi (b ∷ bs) = b - 48

only_one :
    (n c : Bytes)
    → IsName n
    → nodes one_server (codes "/S/m" ++ (slash ∷ n)) ≡ some (some c)
    → c ≡ codes "h:80"
unfolding lookup
only_one n c named e = elim (Bool-cases (bytes_eq (codes "h:80") n)) [
  | inl same ↦ let f : some (some (codes "h:80")) ≡ some (some c) = rw same at e in cc
  | inr other ↦ let f : none ≡ some (some c) = rw other at e in cc
]

abbrev argv_concc : List Bytes
argv_concc = codes "client" ∷ codes "S" ∷ codes "m" ∷ codes "2" ∷ codes "3" ∷ []

only :
    IsOnly zookeeper stoi to_string
      (λ path. none)
      (λ args. options)
      nodes
      asked
      (codes "h")
      80
      one_server
unfolding instance_name lookup
only = record {
  published = record {
    service_name = (refl, no_slash-All (codes "S") refl);
    method_name = (refl, no_slash-All (codes "m") refl);
    inst_name = (refl, no_slash-All (codes "h:80") refl);
    short = refl;
    not_system = refl;
    has_service = (some [], refl);
    has_method = (some [], refl);
    has_inst = refl;
  };
  only = only_one;
  full = all_full-AllData one_server refl;
}

-- Two threads each.
abbrev SampleDials : {S : Type 0} → (ℕ → S) → Launched Tree S → Type 0
SampleDials make result =
    Dials zookeeper stoi to_string (λ path. none) (λ args. options) (λ n. n) make asked
      (codes "h", 80) result

clients_dial_example :
    SampleDials new_client
      (basic_main zookeeper stoi to_string (λ path. none) (λ args. options) atoi argv one_server)
    × SampleDials new_client (
        reconnecting_main zookeeper stoi to_string
          (λ path. none)
          (λ args. options)
          atoi
          argv
          one_server)
    × SampleDials new_concurrent (
        concurrent_main zookeeper stoi to_string
          (λ path. none)
          (λ args. options)
          atoi
          argv_concc
          one_server)
unfolding start instance_name arguments arguments_concc arguments_from instance construct parse_args
    parse_arg set_zk set_server cut lookup
clients_dial_example =
    clients_dial zookeeper stoi to_string (λ path. none) (λ args. options) nodes zookeeper-TreeLaws
      atoi argv argv_concc asked configured (codes "h") 80 one_server one_server 1 (λ n. n) refl
      refl refl refl refl refl only (omega arith, tt) refl (λ n. omega arith)
