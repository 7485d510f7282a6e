-- ===== src/Discovery.antt =====
-- src/ServiceDiscovery.cc and src/include/ServiceDiscovery.h: the cache of the addresses of each
-- method, filled from ZooKeeper and kept up by the events of its watchers.
--
-- `none` stands for undefined behaviour, and for the exception of a string made of a negative
-- length. The cache mutex and the queue mutex each guard one access and are left out.
pub mod Paths
pub mod Cache
pub mod Threads
mod Alone
pub mod Worker
pub mod Tree
pub mod Published
pub mod Known
pub mod Fill
pub mod Refresh
pub mod Sample
mod Runs
use proto_rpc_multi_reactor.Prelude.{
  ℕ, zero, suc, ◌≡◌, Bool, true, false, List, [], ◌∷◌, ◌++◌, Option, none, some, ◌==◌, ◌||◌, ◌%◌,
  take, length, if◌then◌else◌, is_empty, get_elem?,
}
use proto_rpc_multi_reactor.Prelude.Text.{Bytes, codes, bytes_eq, Bytes_eq}
use proto_rpc_multi_reactor.Prelude.Dict.{Dict, lookup, insert}
use proto_rpc_multi_reactor.Zookeeper.{Api, ZkClient, get_children, start, get_data}

-- `'/'`.
abbrev pub slash : ℕ
slash = 47

-- The parts of a string between delimiters. The first one may be the rest of `item`.
split_item : Bytes → Bytes → ℕ → List Bytes
split_item item [] delim = if is_empty item then [] else item ∷ []
split_item item (b ∷ bs) delim =
    let closed = split_item [] bs delim in
    let longer = split_item (item ++ (b ∷ [])) bs delim in
    if b == delim then (if is_empty item then closed else item ∷ closed) else longer

-- `split`: each `getline` to the delimiter, if it is not empty.
pub split : Bytes → ℕ → List Bytes
unfolding split_item
split s delim = split_item [] s delim

pub record ZkEvent : Type 0 where
  pub path : Bytes
  pub type : ℕ

-- `cache_` by "service/method", `events_` front first, and `stop_`.
pub record Discovery : Type 0 where
  pub zk_client : ZkClient
  pub cache : Dict Bytes (List Bytes)
  pub events : List ZkEvent
  pub stop : Bool

-- The constructor; `worker_` starts in `processEvents`.
abbrev pub new_discovery : Discovery
new_discovery = record { zk_client = none; cache = []; events = []; stop = false }

-- How `processEvents` goes on: it returns, it waits on `queueCv_`, or a handler is undefined.
pub data WorkerState (W : Type 0) : Type 0 where
  returned waits : Discovery → W → WorkerState W
  undefined out_of_fuel : WorkerState W

-- The paths and the key of a method.
abbrev pub method_path : Bytes → Bytes → Bytes
method_path service method = (slash ∷ service) ++ (slash ∷ method)

abbrev pub cache_key : Bytes → Bytes → Bytes
cache_key service method = service ++ (slash ∷ method)

module _ {W : Type 0} (api : Api W) where
  -- One `GetDataW` into a new buffer, and the string made of it.
  pub fetch_host : ZkClient → Bytes → W → Option (Bytes × W)
  fetch_host z path w =
      let (buf, len, w') = api.wget z path w in
      elim len [ none ↦ none | some n ↦ some (take n buf, w') ]

  -- Puts a host in front of those that are fetched after it.
  cons_host : Bytes → Option (List Bytes × W) → Option (List Bytes × W)
  cons_host host none = none
  cons_host host (some (hosts, w)) = some (host ∷ hosts, w)

  -- The loop over the instances of a path.
  fetch_hosts : ZkClient → Bytes → List Bytes → W → Option (List Bytes × W)
  unfolding fetch_host cons_host
  fetch_hosts z path [] w = some ([], w)
  fetch_hosts z path (child ∷ children) w = elim (fetch_host z (path ++ (slash ∷ child)) w) [
    | none ↦ none
    | some (host, w') ↦ cons_host host (fetch_hosts z path children w')
  ]

  -- From the vector of children on: the data of the node, or of each instance.
  fetch_of : ZkClient → Bytes → Option (List Bytes) → W → Option (List Bytes × W)
  unfolding fetch_hosts
  fetch_of z path none w = none
  fetch_of z path (some []) w = elim (fetch_host z path w) [
    | none ↦ none
    | some (host, w') ↦ some (host ∷ [], w')
  ]
  fetch_of z path (some (c ∷ cs)) w = fetch_hosts z path (c ∷ cs) w

  -- What `init` and `handleEvent` read for a path, with a watch on all of it.
  pub read_hosts : ZkClient → Bytes → W → Option (List Bytes × W)
  unfolding fetch_of
  read_hosts z path w = let (av, w') = api.wget_children z path w in fetch_of z path av w'

  -- `cache_[key] = hosts`.
  pub store : Bytes → Discovery → Option (List Bytes × W) → Option (Discovery × W)
  store key d none = none
  store key d (some (hosts, w)) = some (record d { cache = insert key hosts d.cache }, w)

  -- `handleEvent`, for the parts of the path. With less than two it reads past the end of them.
  handle_parts : Bytes → List Bytes → Discovery → W → Option (Discovery × W)
  unfolding read_hosts store
  handle_parts path [] d w = none
  handle_parts path (part ∷ []) d w = none
  handle_parts path (service ∷ method ∷ parts) d w =
      store (cache_key service method) d (read_hosts d.zk_client path w)

  pub handle_event : Bytes → Discovery → W → Option (Discovery × W)
  unfolding handle_parts split
  handle_event path d w = handle_parts path (split path slash) d w

  -- One method in `init`.
  pub init_method : Bytes → Bytes → Discovery → W → Option (Discovery × W)
  unfolding read_hosts store
  init_method service method d w =
      store (cache_key service method) d (read_hosts d.zk_client (method_path service method) w)

  init_methods : Bytes → List Bytes → Discovery → W → Option (Discovery × W)
  unfolding init_method
  init_methods service [] d w = some (d, w)
  init_methods service (method ∷ methods) d w = elim (init_method service method d w) [
    | none ↦ none
    | some (d', w') ↦ init_methods service methods d' w'
  ]

  init_services : List Bytes → Discovery → W → Option (Discovery × W)
  unfolding init_methods
  init_services [] d w = some (d, w)
  init_services (service ∷ services) d w = elim (bytes_eq service (codes "zookeeper")) [
    | true ↦ init_services services d w
    | false ↦ elim (init_methods service (get_children api d.zk_client (slash ∷ service) w) d w) [
      | none ↦ none
      | some (d', w') ↦ init_services services d' w'
    ]
  ]

  pub init : Bytes → Bytes → Discovery → W → Option (Discovery × W)
  unfolding init_services
  init host port d w = elim (start api host port w) [
    | none ↦ none
    | some (z, w') ↦
        init_services (get_children api z (slash ∷ []) w') (record d { zk_client = z }) w'
  ]

  -- `QueryServiceHost`, for what `rand()` gives: the index, where -1 is `none`, and the data.
  query_children : ZkClient → Bytes → List Bytes → ℕ → W → Option ℕ × Option Bytes
  query_children z path [] random w = (none, get_data api z path w)
  query_children z path (c ∷ cs) random w =
      let idx = random % length (c ∷ cs) in
      elim (get_elem? (c ∷ cs) idx) [
        | none ↦ (some idx, none)
        | some child ↦ (some idx, get_data api z (path ++ (slash ∷ child)) w)
      ]

  pub query_service_host : ZkClient → Bytes → Bytes → ℕ → W → Option ℕ × Option Bytes
  unfolding query_children
  query_service_host z service method random w =
      let path = method_path service method in
      query_children z path (get_children api z path w) random w

  -- One round of the worker that found an event, and what comes after it.
  handle_front : ZkEvent → Discovery → W → (Discovery → W → WorkerState W) → WorkerState W
  unfolding handle_event
  handle_front ev d w again = elim (handle_event ev.path d w) [
    | none ↦ undefined
    | some (d', w') ↦ again d' w'
  ]

  -- `processEvents`, until it returns or waits: `fuel` bounds its rounds.
  pub process_events : ℕ → Discovery → W → WorkerState W
  unfolding handle_front
  process_events zero d w = out_of_fuel
  process_events (suc fuel) d w = elim d.events [
    | [] ↦ if d.stop then returned d w else waits d w
    | ev ∷ rest ↦
        handle_front ev (record d { events = rest }) w (λ d' w'. process_events fuel d' w')
  ]

-- `pickHost`, where `random` is what the distribution on the indices gives; an exception is `none`.
pub pick_host : Bytes → Bytes → (ℕ → ℕ) → Discovery → Option Bytes
pick_host service method random d = elim (lookup (cache_key service method) d.cache) [
  | none ↦ none
  | some [] ↦ none
  | some (h ∷ hs) ↦ get_elem? (h ∷ hs) (random (length hs))
]

-- `enqueueEvent`, and `zkWatcher`, which enqueues child (4) and data (3) events.
pub enqueue_event : Bytes → ℕ → Discovery → Discovery
enqueue_event path type d = record d {
  events = d.events ++ (record { path = path; type = type } ∷ []);
}

pub zk_watcher : ℕ → Bytes → Discovery → Discovery
unfolding enqueue_event
zk_watcher type path d = if type == 4 || type == 3 then enqueue_event path type d else d

-- The destructor's part under the lock; it then wakes the worker and joins it.
pub request_stop : Discovery → Discovery
request_stop d = record d { stop = true }
