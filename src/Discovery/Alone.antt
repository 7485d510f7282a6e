-- ===== src/Discovery/Alone.antt =====
-- `handleEvent` of src/ServiceDiscovery.cc, as one function and as the steps of the worker.
use proto_rpc_multi_reactor.Prelude.{
  ◌≡◌, refl, sym, ap, subst, ◌∙◌, inl, inr, List, [], ◌∷◌, ◌++◌, map, append_assoc, append-nil,
  some, Option-cases,
}
use proto_rpc_multi_reactor.Prelude.Text.{Bytes, Bytes_eq}
use proto_rpc_multi_reactor.Prelude.Dict.{insert}
use proto_rpc_multi_reactor.Zookeeper.{Api}
use proto_rpc_multi_reactor.Discovery.{
  Discovery, ZkEvent, split, slash, cache_key, fetch_host, fetch_hosts, fetch_of, cons_host,
  read_hosts, store, handle_parts, handle_event,
}
use proto_rpc_multi_reactor.Discovery.Threads.{
  Threads, taken, reading, idle, to_read, Runs, ask_children, ask_data, store_hosts,
}

module _ {W : Type 0} (api : Api W) (s : Threads W) (asked handled : List ZkEvent)
    (ev : ZkEvent) where
  -- The event is handled, with these hosts under the key.
  abbrev Stores : Bytes → List Bytes → Discovery → W → Type 0
  Stores key hosts d w =
      Runs api s asked (handled ++ (ev ∷ [])) (record {
        discovery = record d { cache = insert key hosts d.cache };
        world = w;
        task = idle;
      })

  fetch_hosts-Stores :
      (path key : Bytes) (children hosts more : List Bytes) (t : Threads W) (w : W)
      → Runs api s asked handled t
      → t.task ≡ reading ev key (map (λ child. path ++ (slash ∷ child)) children) hosts
      → fetch_hosts api t.discovery.zk_client path children t.world ≡ some (more, w)
      → Stores key (hosts ++ more) t.discovery w
  unfolding fetch_hosts cons_host
  fetch_hosts-Stores path key [] hosts more t w r e f =
      let more_eq : [] ≡ more = cc in
      let w_eq : t.world ≡ w = cc in
      subst (λ u. Stores key (hosts ++ more) t.discovery u) w_eq
        (subst (λ l. Stores key l t.discovery t.world)
          (sym (append-nil hosts) ∙ ap (λ l. hosts ++ l) more_eq) (store_hosts r e))
  fetch_hosts-Stores path key (c ∷ cs) hosts more t w r e f =
      let z = t.discovery.zk_client in
      elim (Option-cases (fetch_host api z (path ++ (slash ∷ c)) t.world)) [
        | inl g ↦ let f' = rw (g, fetch_hosts) at f in cc
        | inr ((host, v), g) ↦ elim (Option-cases (fetch_hosts api z path cs v)) [
          | inl k ↦ let f' = rw (k, cons_host) at (rw (g, fetch_hosts) at f) in cc
          | inr ((rest, u), k) ↦
              let f' : some (host ∷ rest, u) ≡ some (more, w) =
                rw (k, cons_host) at (rw (g, fetch_hosts) at f) in
              let more_eq : host ∷ rest ≡ more = cc in
              let u_eq : u ≡ w = cc in
              subst (λ x. Stores key (hosts ++ more) t.discovery x) u_eq
                (subst (λ l. Stores key l t.discovery u)
                  (append_assoc hosts (host ∷ []) rest ∙ ap (λ l. hosts ++ l) more_eq)
                  (fetch_hosts-Stores path key cs (hosts ++ (host ∷ [])) rest
                    (record t {
                      world = v;
                      task =
                          reading ev key (map (λ child. path ++ (slash ∷ child)) cs)
                            (hosts ++ (host ∷ []));
                    })
                    u (ask_data r e g) refl k))
        ]
      ]

  fetch_of-Stores :
      (path key : Bytes) (children hosts : List Bytes) (t : Threads W) (w : W)
      → Runs api s asked handled t
      → t.task ≡ reading ev key (to_read path children) []
      → fetch_of api t.discovery.zk_client path (some children) t.world ≡ some (hosts, w)
      → Stores key hosts t.discovery w
  unfolding fetch_of to_read
  fetch_of-Stores path key [] hosts t w r e f =
      elim (Option-cases (fetch_host api t.discovery.zk_client path t.world)) [
        | inl g ↦ let f' = rw (g, fetch_of) at f in cc
        | inr ((host, v), g) ↦
            let f' : some (host ∷ [], v) ≡ some (hosts, w) = rw (g, fetch_of) at f in
            let hosts_eq : host ∷ [] ≡ hosts = cc in
            let v_eq : v ≡ w = cc in
            subst (λ x. Stores key hosts t.discovery x) v_eq
              (subst (λ l. Stores key l t.discovery v) hosts_eq (store_hosts (ask_data r e g) refl))
      ]
  fetch_of-Stores path key (c ∷ cs) hosts t w r e f =
      fetch_hosts-Stores path key (c ∷ cs) [] hosts t w r e f

  -- A worker that has taken an event off its queue, and whose steps nothing interleaves with, does what
  -- `handleEvent` does as one function: if that returns, the steps lead to its result, and the event
  -- is handled.
  handle_event-Runs :
      (t : Threads W) (d : Discovery) (w : W)
      → Runs api s asked handled t
      → t.task ≡ taken ev
      → handle_event api ev.path t.discovery t.world ≡ some (d, w)
      → Runs api s asked (handled ++ (ev ∷ [])) (record { discovery = d; world = w; task = idle })
  unfolding handle_event handle_parts read_hosts
  handle_event-Runs t d w r e f = by_parts (split ev.path slash) refl f
    where
      by_parts :
          (parts : List Bytes)
          → split ev.path slash ≡ parts
          → handle_parts api ev.path parts t.discovery t.world ≡ some (d, w)
          → Runs api s asked
              (handled ++ (ev ∷ []))
              (record { discovery = d; world = w; task = idle })
      by_parts [] cut g = cc
      by_parts (p ∷ []) cut g = cc
      by_parts (service ∷ method ∷ parts) cut g =
          let key = cache_key service method in
          let z = t.discovery.zk_client in
          let v = (api.wget_children z ev.path t.world).1 in
          elim (Option-cases (api.wget_children z ev.path t.world).0) [
            | inl none_eq ↦ let g' = rw none_eq at g in cc
            | inr (children, listed) ↦
                elim (Option-cases (fetch_of api z ev.path (some children) v)) [
                  | inl none_eq ↦ let g' = rw (listed, none_eq) at g in cc
                  | inr ((hosts, u), some_eq) ↦
                      let g' : some
                            (record t.discovery { cache = insert key hosts t.discovery.cache }, u)
                          ≡ some (d, w) =
                        rw (listed, some_eq, store) at g in
                      let d_eq : record t.discovery { cache = insert key hosts t.discovery.cache }
                          ≡ d =
                        cc in
                      let u_eq : u ≡ w = cc in
                      subst
                        (λ x.
                          Runs api s asked (handled ++ (ev ∷ []))
                            (record { discovery = d; world = x; task = idle }))
                        u_eq
                        (subst
                          (λ x.
                            Runs api s asked (handled ++ (ev ∷ []))
                              (record { discovery = x; world = u; task = idle }))
                          d_eq
                          (fetch_of-Stores ev.path key children hosts
                            (record t {
                              world = v;
                              task = reading ev key (to_read ev.path children) [];
                            })
                            u (ask_children r e cut (ap (λ o. (o, v)) listed)) refl some_eq))
                ]
          ]
