-- ===== src/System/Clients.antt =====
-- `main` of RpcClient.cc, RpcClientWithReconn.cc and RpcClientConcc.cc in example/LoginRegisterService, up
-- to the loops of its threads: options, the addresses from ZooKeeper, and a client in each thread.
--
-- The log, the clock and the printed summary are left out.
use proto_rpc_multi_reactor.Prelude.{
  ℕ, zero, suc, true, ltb, length, [], if◌then◌else◌, ◌≡◌, ◌≢◌, ◌≤◌, ◌%◌, ◌^◌, refl, sym, ap, ◌∙◌,
  List, ◌∷◌, ◌++◌, Option, none, some, take, All,
}
use proto_rpc_multi_reactor.Prelude.Text.{Bytes}
use proto_rpc_multi_reactor.Application.{Application, Opt, instance}
use proto_rpc_multi_reactor.Zookeeper.{Api, start}
use proto_rpc_multi_reactor.Discovery.{
  Discovery, new_discovery, slash, method_path, init, pick_host,
}
use proto_rpc_multi_reactor.Discovery.Paths.{IsName}
use proto_rpc_multi_reactor.Discovery.Tree.{Nodes, AllData, TreeLaws, start-Same}
use proto_rpc_multi_reactor.Discovery.Published.{IsPublished, IsPublished-Same}
use proto_rpc_multi_reactor.Discovery.Fill.{init_finds}
use proto_rpc_multi_reactor.Discovery.Known.{Knows-pick_host}
use proto_rpc_multi_reactor.Server.{instance_name}
use proto_rpc_multi_reactor.Client.{
  Client, new_client, Concurrent, new_concurrent, get_addr, get_addr_concc,
}
use proto_rpc_multi_reactor.Client.Address.{published_address}
use proto_rpc_multi_reactor.Client.Loop.{Session, started}
use proto_rpc_multi_reactor.Client.Program.{Arguments, arguments, arguments_concc}

-- A thread's client in its loop, and the address that it connects to.
pub record Dialing (S : Type 0) : Type 0 where
  pub address : Bytes × ℕ
  pub session : Session S

-- How far `main` gets: the message on the usage, the end of the process by `exit`, an exception or
-- undefined behaviour, or its threads, which share the cache of the addresses. A thread's body takes
-- the index that it draws and the cache at that time.
pub data Launched (W S : Type 0) : Type 0 where
  usage ended : Launched W S
  launched : Discovery → W → List ((ℕ → ℕ) → Discovery → Option (Dialing S)) → Launched W S

-- The body of a thread, for the addresses at the time and the index that is drawn.
pub thread_main :
    {S : Type 0}
    → (Option Bytes → Option (Bytes × ℕ))
    → (ℕ → S)
    → Arguments
    → (ℕ → ℕ)
    → Discovery
    → Option (Dialing S)
thread_main address_of make a random d = elim (address_of (pick_host a.service a.method random d)) [
  | none ↦ none
  | some address ↦
      some (record { address = address; session = started (make a.requests_per_client) })
]

-- The threads of RpcClient.cc, RpcClientWithReconn.cc and RpcClientConcc.cc.
abbrev pub basic_thread :
    (Bytes → Option ℕ) → Arguments → (ℕ → ℕ) → Discovery → Option (Dialing Client)
basic_thread stoi = thread_main (get_addr stoi) new_client

abbrev pub reconnecting_thread :
    (Bytes → Option ℕ) → Arguments → (ℕ → ℕ) → Discovery → Option (Dialing Client)
reconnecting_thread stoi = thread_main (get_addr stoi) new_client

abbrev pub concurrent_thread :
    (Bytes → Option ℕ) → Arguments → (ℕ → ℕ) → Discovery → Option (Dialing Concurrent)
concurrent_thread stoi = thread_main (get_addr_concc stoi) new_concurrent

module _ {W : Type 0} (api : Api W) (stoi : Bytes → Option ℕ) (to_string : ℕ → Bytes)
    (files : Bytes → Option (List Bytes)) (getopt : List Bytes → List Opt) where
  -- The loop over the threads.
  start_bodies : {T : Type 0} → ℕ → T → List T
  start_bodies zero body = []
  start_bodies (suc k) body = body ∷ start_bodies k body

  -- After `ServiceDiscovery::init`: `reserve` throws for a negative number of threads.
  after_init :
      {S : Type 0}
      → (Arguments → (ℕ → ℕ) → Discovery → Option (Dialing S))
      → Arguments
      → Option (Discovery × W)
      → Launched W S
  unfolding start_bodies
  after_init body a none = ended
  after_init body a (some (d, w)) =
      if ltb a.num_threads (2 ^ 31)
      then launched d w (start_bodies a.num_threads (body a))
      else ended

  -- `main`, for what it reads off its arguments.
  client_main_with :
      {S : Type 0}
      → (Arguments → (ℕ → ℕ) → Discovery → Option (Dialing S))
      → Option Arguments
      → List Bytes
      → W
      → Launched W S
  unfolding after_init
  client_main_with body none argv w = usage
  client_main_with body (some a) argv w = elim (instance stoi files (getopt argv) none) [
    | none ↦ ended
    | some (app, _) ↦
        after_init body a (init api app.zk_host (to_string app.zk_port) new_discovery w)
  ]

  pub client_main :
      {S : Type 0}
      → (Arguments → (ℕ → ℕ) → Discovery → Option (Dialing S))
      → (List Bytes → Option Arguments)
      → List Bytes
      → W
      → Launched W S
  unfolding client_main_with
  client_main body read_arguments argv w = client_main_with body (read_arguments argv) argv w

  -- The three programs.
  abbrev pub basic_main : (Bytes → ℕ) → List Bytes → W → Launched W Client
  basic_main atoi = client_main (basic_thread stoi) (arguments atoi)

  abbrev pub reconnecting_main : (Bytes → ℕ) → List Bytes → W → Launched W Client
  reconnecting_main atoi = client_main (reconnecting_thread stoi) (arguments atoi)

  abbrev pub concurrent_main : (Bytes → ℕ) → List Bytes → W → Launched W Concurrent
  concurrent_main atoi = client_main (concurrent_thread stoi) (arguments_concc atoi)

  start_bodies-All :
      {T : Type 0} (P : T → Type 0) (k : ℕ) (body : T)
      → P body
      → (length (start_bodies k body) ≡ k) × All P (start_bodies k body)
  unfolding start_bodies
  start_bodies-All P zero body p = (refl, tt)
  start_bodies-All P (suc k) body p =
      let (count, all) = start_bodies-All P k body p in (ap suc count, (p, all))

  -- The threads of a `main` that gets that far, with their cache: as many as asked for, and each, when
  -- it draws like this, connects to the address and has all its requests before it.
  abbrev pub Dials :
      {S : Type 0} → (ℕ → ℕ) → (ℕ → S) → Arguments → Bytes × ℕ → Launched W S → Type 0
  Dials {S} random make a address result =
      (d : Discovery) × (w' : W) × (threads : List ((ℕ → ℕ) → Discovery → Option (Dialing S)))
      × (result ≡ launched d w' threads)
      × (length threads ≡ a.num_threads)
      × All
          (λ thread.
            thread random d
            ≡ some (record { address = address; session = started (make a.requests_per_client) }))
          threads

  module _ (nodes : Nodes W) (a : Arguments) (ip : Bytes) (port : ℕ) (w : W) where
    -- One server is published for the method, and its instance is all that the method has.
    pub record IsOnly : Type 0 where
      pub published : IsPublished nodes a.service a.method (instance_name to_string ip port) w
      pub only :
          (n c : Bytes)
          → IsName n
          → nodes w (method_path a.service a.method ++ (slash ∷ n)) ≡ some (some c)
          → c ≡ instance_name to_string ip port
      pub full : AllData nodes w

  module _ (nodes : Nodes W) (laws : TreeLaws api nodes) (a : Arguments) (app : Application)
      (ip : Bytes) (port : ℕ) (w v : W) (h : ℕ) where
    abbrev inst : Bytes
    inst = instance_name to_string ip port

    main-Dials :
        {S : Type 0} (address_of : Option Bytes → Option (Bytes × ℕ)) (make : ℕ → S)
        (read_arguments : List Bytes → Option Arguments) (argv : List Bytes) (random : ℕ → ℕ)
        → read_arguments argv ≡ some a
        → ltb a.num_threads (2 ^ 31) ≡ true
        → instance stoi files (getopt argv) none ≡ some (app, some app)
        → start api app.zk_host (to_string app.zk_port) w ≡ some (some h, v)
        → IsOnly nodes a ip port w
        → address_of (some inst) ≡ some (ip, port % 2 ^ 16)
        → ((n : ℕ) → random n ≤ n)
        → Dials random make a
            (ip, port % 2 ^ 16)
            (client_main (thread_main address_of make) read_arguments argv w)
    unfolding client_main client_main_with after_init thread_main
    main-Dials address_of make read_arguments argv random read some_threads made up one dialed
          range =
        let body = thread_main address_of make a in
        let same = start-Same api nodes laws app.zk_host (to_string app.zk_port) w v h up in
        let (d, w', fills, knows) =
          init_finds api nodes laws app.zk_host (to_string app.zk_port) a.service a.method inst
            new_discovery w v h up
            (IsPublished-Same nodes a.service a.method inst w v same one.published)
            (λ p e. one.full p (sym (same p) ∙ e)) in
        let (x, picked, (n, c, named, at, x_eq)) =
          (Knows-pick_host nodes v d a.service a.method inst knows).1 random range in
        let found =
          picked
          ∙ ap (λ (b : Bytes). some b)
              (x_eq
                ∙ ap (take 128) (one.only n c named (sym (same _) ∙ at))
                ∙ one.published.short) in
        let (count, all) =
          start_bodies-All
            (λ thread.
              thread random d
              ≡ some (record {
                address = (ip, port % 2 ^ 16);
                session = started (make a.requests_per_client);
              }))
            a.num_threads body (rw (ap address_of found ∙ dialed, thread_main) refl) in
        (
          d,
          w',
          start_bodies a.num_threads body,
          rw (read, client_main)
              (rw (made, client_main_with)
                (ap (after_init (thread_main address_of make) a) fills
                  ∙ ap (λ b. if b then launched d w' (start_bodies a.num_threads body) else ended)
                      some_threads)),
          count,
          all,
        )

  -- The `main` of each client, with enough arguments, of which the number of threads is not negative, and
  -- options that make sense, where the session with ZooKeeper comes up, all nodes have data and exactly
  -- one server is published for the method: it starts as many threads as asked for, and whatever index
  -- in range a thread draws, it connects to the host of the server and to its port modulo 2 ^ 16, with all its
  -- requests before it. This is over the documented behaviour of ZooKeeper, for a host without a colon
  -- and a `stoi` that reads what `to_string` writes.
  pub clients_dial :
      (nodes : Nodes W) (laws : TreeLaws api nodes) (atoi : Bytes → ℕ)
      (argv argv_concc : List Bytes) (a : Arguments) (app : Application) (ip : Bytes) (port : ℕ)
      (w v : W) (h : ℕ) (random : ℕ → ℕ)
      → arguments atoi argv ≡ some a
      → arguments_concc atoi argv_concc ≡ some a
      → ltb a.num_threads (2 ^ 31) ≡ true
      → instance stoi files (getopt argv) none ≡ some (app, some app)
      → instance stoi files (getopt argv_concc) none ≡ some (app, some app)
      → start api app.zk_host (to_string app.zk_port) w ≡ some (some h, v)
      → IsOnly nodes a ip port w
      → All (λ b. b ≢ 58) ip
      → stoi (to_string port) ≡ some port
      → ((n : ℕ) → random n ≤ n)
      → Dials random new_client a (ip, port % 2 ^ 16) (basic_main atoi argv w)
        × Dials random new_client a (ip, port % 2 ^ 16) (reconnecting_main atoi argv w)
        × Dials random new_concurrent a (ip, port % 2 ^ 16) (concurrent_main atoi argv_concc w)
  clients_dial nodes laws atoi argv argv_concc a app ip port w v h random read read_concc
        some_threads made made_concc up one plain back range =
      let (dialed, dialed_concc) = published_address stoi to_string ip port plain back in
      (
        main-Dials nodes laws a app ip port w v h (get_addr stoi) new_client (arguments atoi) argv
            random read some_threads made up one dialed range,
        main-Dials nodes laws a app ip port w v h (get_addr stoi) new_client (arguments atoi) argv
            random read some_threads made up one dialed range,
        main-Dials nodes laws a app ip port w v h (get_addr_concc stoi) new_concurrent
            (arguments_concc atoi) argv_concc random read_concc some_threads made_concc up one
            dialed_concc range,
      )
