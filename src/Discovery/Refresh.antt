-- ===== src/Discovery/Refresh.antt =====
-- The cache of src/ServiceDiscovery.cc beside the nodes of ZooKeeper: what an event of a method's
-- children leaves to pick.
use proto_rpc_multi_reactor.Prelude.{
  ℕ, Bool, ◌≡◌, refl, ap, ◌∙◌, false, List, [], ◌∷◌, ◌++◌, some, take, length, Elem, Elem-get_elem?,
  if◌then◌else◌,
}
use proto_rpc_multi_reactor.Prelude.Text.{Bytes, bytes_eq, Bytes_eq}
use proto_rpc_multi_reactor.Prelude.Dict.{lookup, insert, lookup-insert, lookup-insert_self}
use proto_rpc_multi_reactor.Zookeeper.{Api}
use proto_rpc_multi_reactor.Discovery.{
  Discovery, ZkEvent, WorkerState, read_hosts, slash, method_path, cache_key, store, handle_event,
  handle_front, init_method, process_events, zk_watcher, enqueue_event, pick_host,
}
use proto_rpc_multi_reactor.Discovery.Paths.{IsName}
use proto_rpc_multi_reactor.Discovery.Cache.{event_refreshes, get_elem?-Elem}
use proto_rpc_multi_reactor.Discovery.Tree.{
  Nodes, Same, Exists, TreeLaws, HasData, IsInstance, read_hosts-data,
}

-- What is picked stands in the method's entry.
pick_host-Elem :
    (service method : Bytes) (random : ℕ → ℕ) (d : Discovery) (hosts : List Bytes) (x : Bytes)
    → lookup (cache_key service method) d.cache ≡ some hosts
    → pick_host service method random d ≡ some x
    → Elem x hosts
unfolding pick_host
pick_host-Elem service method random d [] x e picked = let p = rw (e, pick_host) at picked in cc
pick_host-Elem service method random d (h ∷ hs) x e picked =
    get_elem?-Elem (h ∷ hs) (random (length hs)) x (rw (e, pick_host) at picked)

Elem-pick_host :
    (service method : Bytes) (d : Discovery) (hosts : List Bytes) (x : Bytes)
    → lookup (cache_key service method) d.cache ≡ some hosts
    → Elem x hosts
    → (i : ℕ) × (pick_host service method (λ _. i) d ≡ some x)
unfolding pick_host
Elem-pick_host service method d [] x e m = absurd m
Elem-pick_host service method d (h ∷ hs) x e m =
    let (i, at) = Elem-get_elem? x (h ∷ hs) m in (i, rw (e, pick_host) at)

-- An event that comes alone: its handler runs, and the worker waits again.
one_event :
    {W : Type 0} (api : Api W) (path : Bytes) (d e : Discovery) (w w' : W)
    → d.events ≡ []
    → e.stop ≡ false
    → let d' = record e { events = [] } in
      handle_event api path (record d { events = [] }) w ≡ some (d', w')
      → process_events api 2 (zk_watcher 4 path d) w ≡ WorkerState.waits d' w'
unfolding process_events zk_watcher enqueue_event
one_event api path d e w w' quiet running handled =
    let d' = record e { events = [] } in
    let ev : ZkEvent = record { path = path; type = 4 } in
    let last : process_events api 1 d' w' ≡ WorkerState.waits d' w' =
      ap (λ b. if b then WorkerState.returned d' w' else WorkerState.waits d' w') running in
    let first : handle_front api ev (record d { events = [] }) w (λ k u. process_events api 1 k u)
        ≡ WorkerState.waits d' w' =
      rw (handled, handle_front) last in
    ap (λ (es : List ZkEvent). process_events api 2 (record d { events = es ++ (ev ∷ []) }) w) quiet
    ∙ first

-- The hosts are read again and stored.
init_method-stored :
    {W : Type 0} (api : Api W) (service method : Bytes) (d : Discovery) (w w' : W)
    (hosts : List Bytes)
    → read_hosts api d.zk_client (method_path service method) w ≡ some (hosts, w')
    → init_method api service method d w
      ≡ some (record d { cache = insert (cache_key service method) hosts d.cache }, w')
unfolding init_method store
init_method-stored api service method d w w' hosts got = rw (got, store) refl

module _ {W : Type 0} (api : Api W) (nodes : Nodes W) (laws : TreeLaws api nodes) (h : ℕ)
    (service method : Bytes) (service_name : IsName service) (method_name : IsName method) where
  abbrev path : Bytes
  path = method_path service method

  -- A worker without other events, when the library reports a change of the children of a method:
  -- it handles the event and waits again. Then each instance of the method that is in ZooKeeper can be
  -- picked; if there is one, nothing is picked that is not such an instance; and no other method's
  -- entry has changed. An instance is picked by its data, cut to 128 bytes. This is over the documented
  -- behaviour of ZooKeeper, for names without a slash, a session that is up, a method with a node,
  -- and nodes of the method that have data.
  pub child_event_refreshes :
      (d : Discovery) (w : W)
      → d.zk_client ≡ some h
      → d.events ≡ []
      → d.stop ≡ false
      → Exists nodes w path
      → HasData nodes w path
      → (d' : Discovery) × (w' : W) × (process_events api 2 (zk_watcher 4 path d) w
          ≡ WorkerState.waits d' w')
        × Same nodes w w'
        × ((n c : Bytes)
            → IsName n
            → nodes w (path ++ (slash ∷ n)) ≡ some (some c)
            → ((i : ℕ) × (pick_host service method (λ _. i) d' ≡ some (take 128 c)))
              × ((random : ℕ → ℕ) (x : Bytes)
                  → pick_host service method random d' ≡ some x
                  → IsInstance nodes w path x))
        × ((key : Bytes)
            → bytes_eq (cache_key service method) key ≡ false
            → lookup key d'.cache ≡ lookup key d.cache)
  child_event_refreshes d w up quiet running exists full =
      let (hosts, w', got, same, found, sound) =
        read_hosts-data api nodes laws h path w exists full in
      let key = cache_key service method in
      let d0 = record d { events = [] } in
      let d' = record d0 { cache = insert key hosts d.cache } in
      let entry = lookup-insert_self key hosts d.cache in
      (
        d',
        w',
        one_event api path d d' w w' quiet running (
            event_refreshes api service method d0 w service_name method_name
            ∙ init_method-stored api service method d0 w w' hosts
                (ap (λ z. read_hosts api z path w) up ∙ got)),
        same,
        (λ n c named e. (
          Elem-pick_host service method d' hosts (take 128 c) entry (found n c named e),
          λ random x picked.
              sound n (some c) named e x
                (pick_host-Elem service method random d' hosts x entry picked),
        )),
        λ k other.
            lookup-insert key k hosts d.cache
            ∙ ap (λ (b : Bool). if b then some hosts else lookup k d.cache) other,
      )
