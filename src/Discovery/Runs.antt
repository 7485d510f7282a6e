-- ===== src/Discovery/Runs.antt =====
-- The theorems on the cache of addresses at a small ZooKeeper.
use proto_rpc_multi_reactor.Prelude.{
  ℕ, take, ◌≡◌, ◌⊎◌, refl, [], ◌∷◌, some, arith, false, ◌++◌, if◌then◌else◌,
}
use proto_rpc_multi_reactor.Prelude.Text.{Bytes, codes, bytes_eq, Bytes_eq}
use proto_rpc_multi_reactor.Prelude.Dict.{lookup}
use proto_rpc_multi_reactor.Zookeeper.{Api, zok}
use proto_rpc_multi_reactor.Discovery.{
  Discovery, cache_key, handle_event, read_hosts, fetch_of, fetch_host, ZkEvent, undefined,
  returned, waits, process_events,
}
use proto_rpc_multi_reactor.Discovery.Threads.{Threads, idle}
use proto_rpc_multi_reactor.Discovery.Worker.{process_events_drains}
use proto_rpc_multi_reactor.Discovery.{slash, zk_watcher, pick_host}
use proto_rpc_multi_reactor.Discovery.Sample.{
  Tree, zookeeper, nodes, zookeeper-TreeLaws, no_slash-All, all_full-HasData,
}
use proto_rpc_multi_reactor.Discovery.Tree.{Same, IsInstance}
use proto_rpc_multi_reactor.Discovery.Refresh.{child_event_refreshes}
use proto_rpc_multi_reactor.Discovery.Paths.{IsName, path_of}
use proto_rpc_multi_reactor.Discovery.Cache.{event_stores}

-- A server with one instance, "a", below each method, whose data is its name.
abbrev server : Api ℕ
server = record {
  init = λ connection w. (some 1, w);
  close = λ h w. w;
  exists = λ z path w. zok;
  create = λ z path content mode w. (zok, w);
  delete = λ z path w. (zok, w);
  get = λ z path w. (zok, 97 ∷ 0 ∷ []);
  get_children = λ z path w. (zok, codes "a" ∷ []);
  wget_children =
      λ z path w. (if bytes_eq path (codes "/S/m") then some (codes "a" ∷ []) else some [], w);
  wget = λ z path w. (97 ∷ 0 ∷ [], some 1, w);
}

-- Two instances are known.
abbrev cached : Discovery
cached = record {
  zk_client = some 1;
  cache = (codes "S/m", codes "a" ∷ codes "b" ∷ []) ∷ [];
  events = [];
  stop = false;
}

S-IsName : IsName (codes "S")
S-IsName = (refl, (ground arith, tt))

m-IsName : IsName (codes "m")
m-IsName = (refl, (ground arith, tt))

a-IsName : IsName (codes "a")
a-IsName = (refl, (ground arith, tt))

-- The instance "a" changes its data: the instance "b" is lost.
event_stores_example :
    (d' : Discovery) × (handle_event server
        (path_of (codes "S" ∷ codes "m" ∷ codes "a" ∷ []))
        cached
        0
      ≡ some (d', 0))
    × ((key : Bytes)
        → lookup key d'.cache ≡ (
            if bytes_eq (cache_key (codes "S") (codes "m")) key
            then some (codes "a" ∷ [])
            else lookup key cached.cache))
unfolding read_hosts fetch_of fetch_host
event_stores_example =
    event_stores server (codes "S") (codes "m") (codes "a" ∷ []) cached 0 0 (codes "a" ∷ [])
      S-IsName m-IsName (a-IsName, tt) refl

abbrev node_event : ZkEvent
node_event = record { path = codes "/S/m"; type = 4 }

-- An event is enqueued and taken off; the server changes while it is handled.
abbrev at_rest : Threads ℕ
at_rest = record { discovery = cached; world = 0; task = idle }

abbrev served : Threads ℕ
served = record {
  discovery = record cached { cache = (codes "S/m", codes "a" ∷ []) ∷ [] };
  world = 5;
  task = idle;
}

process_events_drains_example :
    let d = record cached { events = node_event ∷ [] } in
    let end = process_events server 2 d 0 in
    (end ≡ undefined)
    ⊎ ((d' : Discovery) × (w' : ℕ) × (end ≡ (if d.stop then returned d' w' else waits d' w'))
        × (d'.events ≡ []))
process_events_drains_example =
    process_events_drains server (record cached { events = node_event ∷ [] }) 0

-- A method with two instances, and a client that knows one that has left.
abbrev two_instances : Tree
two_instances =
    (codes "/S", some [])
    ∷ (codes "/S/m", some [])
    ∷ (codes "/S/m/a", some (codes "a:1"))
    ∷ (codes "/S/m/b", some (codes "b:2"))
    ∷ []

abbrev stale : Discovery
stale = record {
  zk_client = some 1;
  cache = (codes "S/m", codes "old:9" ∷ []) ∷ (codes "S/n", codes "c:3" ∷ []) ∷ [];
  events = [];
  stop = false;
}

child_event_refreshes_example :
    (d' : Discovery) × (w' : Tree) × (process_events zookeeper 2
        (zk_watcher 4 (codes "/S/m") stale)
        two_instances
      ≡ waits d' w')
    × Same nodes two_instances w'
    × ((n c : Bytes)
        → IsName n
        → nodes two_instances (codes "/S/m" ++ (slash ∷ n)) ≡ some (some c)
        → ((i : ℕ) × (pick_host (codes "S") (codes "m") (λ _. i) d' ≡ some (take 128 c)))
          × ((random : ℕ → ℕ) (x : Bytes)
              → pick_host (codes "S") (codes "m") random d' ≡ some x
              → IsInstance nodes two_instances (codes "/S/m") x))
    × ((key : Bytes)
        → bytes_eq (codes "S/m") key ≡ false
        → lookup key d'.cache ≡ lookup key stale.cache)
unfolding lookup
child_event_refreshes_example =
    child_event_refreshes zookeeper nodes zookeeper-TreeLaws 1 (codes "S") (codes "m")
      (refl, no_slash-All (codes "S") refl) (refl, no_slash-All (codes "m") refl) stale
      two_instances refl refl refl (some [], refl)
      (all_full-HasData two_instances (codes "/S/m") refl)
