-- ===== src/Discovery/Threads.antt =====
-- The worker's thread of src/ServiceDiscovery.cc beside the thread of the ZooKeeper library that
-- enqueues events and the server that changes. The queue mutex is held while an event is put in or taken
-- off, the cache mutex while an entry is stored; between any two calls of ZooKeeper the others run.
use proto_rpc_multi_reactor.Prelude.{◌≡◌, List, [], ◌∷◌, ◌++◌, map, some}
use proto_rpc_multi_reactor.Prelude.Text.{Bytes, Bytes_eq}
use proto_rpc_multi_reactor.Prelude.Dict.{Dict, insert}
use proto_rpc_multi_reactor.Zookeeper.{Api, ZkClient}
use proto_rpc_multi_reactor.Discovery.{
  Discovery, ZkEvent, split, slash, cache_key, fetch_host, enqueue_event, request_stop,
}

-- What the worker is at: it waits, it has taken an event off the queue, or it is in `handleEvent`, with
-- the key, the paths whose data is still to be read, and the hosts read so far.
pub data WorkerTask : Type 0 where
  idle : WorkerTask
  taken : ZkEvent → WorkerTask
  reading : ZkEvent → Bytes → List Bytes → List Bytes → WorkerTask

pub record Threads (W : Type 0) : Type 0 where
  pub discovery : Discovery
  pub world : W
  pub task : WorkerTask

-- The event that is being handled.
abbrev pub current : WorkerTask → List ZkEvent
current idle = []
current (taken ev) = ev ∷ []
current (reading ev key paths hosts) = ev ∷ []

-- What was asked for and is still to be done.
abbrev pub todo : {W : Type 0} → Threads W → List ZkEvent
todo t = current t.task ++ t.discovery.events

-- The paths that `handleEvent` reads: those of the children, or the path itself if it has none.
unfoldable pub to_read : Bytes → List Bytes → List Bytes
to_read path [] = path ∷ []
to_read path (c ∷ cs) = map (λ child. path ++ (slash ∷ child)) (c ∷ cs)

-- Two lists of one length, of which the members at one place are related.
abbrev pub Both : {A B : Type 0} → (A → B → Type 0) → List A → List B → Type 0
Both R [] [] = Unit
Both R [] (b ∷ bs) = ⊥
Both R (a ∷ xs) [] = ⊥
Both R (a ∷ xs) (b ∷ bs) = R a b × Both R xs bs

-- The cache after these entries are stored, the first first.
abbrev pub stored : List (Bytes × List Bytes) → Dict Bytes (List Bytes) → Dict Bytes (List Bytes)
stored [] cache = cache
stored ((key, hosts) ∷ entries) cache = stored entries (insert key hosts cache)

module _ {W : Type 0} (api : Api W) where
  -- The steps of the threads; the lists are the events enqueued, and handled, since the start.
  pub data Runs (s : Threads W) : List ZkEvent → List ZkEvent → Threads W → Type 0 where
    begin : Runs s [] [] s
    -- The library's thread enqueues an event.
    enqueue :
        {asked handled : List ZkEvent} {t : Threads W} (ev : ZkEvent)
        → Runs s asked handled t
        → Runs s
            (asked ++ (ev ∷ []))
            handled
            (record t { discovery = enqueue_event ev.path ev.type t.discovery })
    -- The worker takes an event off the queue.
    take_off :
        {asked handled : List ZkEvent} {t : Threads W} {ev : ZkEvent} {rest : List ZkEvent}
        → Runs s asked handled t
        → t.task ≡ idle
        → t.discovery.events ≡ ev ∷ rest
        → Runs s asked handled
            (record t { discovery = record t.discovery { events = rest }; task = taken ev })
    -- It asks for the children of the path.
    ask_children :
        {asked handled : List ZkEvent} {t : Threads W} {ev : ZkEvent} {service method : Bytes}
        {parts children : List Bytes} {w : W}
        → Runs s asked handled t
        → t.task ≡ taken ev
        → split ev.path slash ≡ service ∷ method ∷ parts
        → api.wget_children t.discovery.zk_client ev.path t.world ≡ (some children, w)
        → Runs s asked handled (record t {
          world = w;
          task = reading ev (cache_key service method) (to_read ev.path children) [];
        })
    -- It reads the data of one node.
    ask_data :
        {asked handled : List ZkEvent} {t : Threads W} {ev : ZkEvent} {key path host : Bytes}
        {paths hosts : List Bytes} {w : W}
        → Runs s asked handled t
        → t.task ≡ reading ev key (path ∷ paths) hosts
        → fetch_host api t.discovery.zk_client path t.world ≡ some (host, w)
        → Runs s asked handled
            (record t { world = w; task = reading ev key paths (hosts ++ (host ∷ [])) })
    -- It stores the hosts, and is done with the event.
    store_hosts :
        {asked handled : List ZkEvent} {t : Threads W} {ev : ZkEvent} {key : Bytes}
        {hosts : List Bytes}
        → Runs s asked handled t
        → t.task ≡ reading ev key [] hosts
        → Runs s asked (handled ++ (ev ∷ [])) (record t {
          discovery = record t.discovery { cache = insert key hosts t.discovery.cache };
          task = idle;
        })
    -- The server changes by itself.
    outside :
        {asked handled : List ZkEvent} {t : Threads W} (w : W)
        → Runs s asked handled t
        → Runs s asked handled (record t { world = w })
    -- The destructor asks the worker to stop.
    stopping :
        {asked handled : List ZkEvent} {t : Threads W}
        → Runs s asked handled t
        → Runs s asked handled (record t { discovery = request_stop t.discovery })

  -- At some time the node of this path had this data.
  abbrev pub WasRead : ZkClient → Bytes → Bytes → Type 0
  WasRead z path host = (w : W) × (w' : W) × (fetch_host api z path w ≡ some (host, w'))

  -- At some time the node of the path had these children.
  abbrev pub HadChildren : ZkClient → Bytes → List Bytes → Type 0
  HadChildren z path children =
      (w : W) × (w' : W) × (api.wget_children z path w ≡ (some children, w'))

  -- What is read for an event: under the key of its path, the data of the paths to read but these, one
  -- host for each, each read at some time, where these were the children at some time.
  pub record IsEntry (z : ZkClient) (ev : ZkEvent) (key : Bytes) (paths hosts : List Bytes)
      : Type 0 where
    pub service : Bytes
    pub method : Bytes
    pub parts : List Bytes
    pub children : List Bytes
    pub splits : split ev.path slash ≡ service ∷ method ∷ parts
    pub keyed : key ≡ cache_key service method
    pub had : HadChildren z ev.path children
    pub read : List Bytes
    pub all_paths : read ++ paths ≡ to_read ev.path children
    pub hosts_read : Both (WasRead z) read hosts

  abbrev pub EntryOf : ZkClient → ZkEvent → Bytes × List Bytes → Type 0
  EntryOf z ev entry = IsEntry z ev entry.0 [] entry.1

  -- The specification of what is handled: an entry stored for each event.
  pub record IsServed (s : Threads W) (handled : List ZkEvent) (t : Threads W) : Type 0 where
    pub entries : List (Bytes × List Bytes)
    pub for_each : Both (EntryOf s.discovery.zk_client) handled entries
    pub cached : t.discovery.cache ≡ stored entries s.discovery.cache

  abbrev TaskIsSound : ZkClient → WorkerTask → Type 0
  TaskIsSound z idle = Unit
  TaskIsSound z (taken ev) = Unit
  TaskIsSound z (reading ev key paths hosts) = IsEntry z ev key paths hosts
