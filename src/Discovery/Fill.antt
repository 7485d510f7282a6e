-- ===== src/Discovery/Fill.antt =====
-- `init` of src/ServiceDiscovery.cc over the tree of ZooKeeper's nodes: it ends, and finds what is
-- there.
use proto_rpc_multi_reactor.Prelude.{
  ℕ, ◌≡◌, refl, sym, ap, subst, ◌∙◌, ◌⊎◌, inl, inr, ◌≢◌, true, false, List, [], ◌∷◌, ◌++◌, Option,
  some, take, arith, All, Elem, is_empty, Bool-cases,
}
use proto_rpc_multi_reactor.Prelude.Text.{Bytes, codes, bytes_eq, bytes_eq_iff, Bytes_eq}
use proto_rpc_multi_reactor.Prelude.Dict.{insert, lookup-insert}
use proto_rpc_multi_reactor.Zookeeper.{Api, ZkClient, get_children, start}
use proto_rpc_multi_reactor.Discovery.{
  Discovery, slash, split, method_path, cache_key, store, init_method, init_methods, init_services,
  init,
}
use proto_rpc_multi_reactor.Discovery.Paths.{IsName, split-method_path}
use proto_rpc_multi_reactor.Discovery.Tree.{
  Nodes, Same, Exists, Lists, TreeLaws, read_hosts-data, All-map, HasData-Same, AllData, IsInstance,
}
use proto_rpc_multi_reactor.Discovery.Published.{IsPublished}
use proto_rpc_multi_reactor.Discovery.Known.{Current, Knows}

-- The key of a cache entry tells its service and its method.
cache_key-injective :
    (s m s' m' : Bytes)
    → IsName s
    → IsName m
    → IsName s'
    → IsName m'
    → cache_key s m ≡ cache_key s' m'
    → (s ≡ s') × (m ≡ m')
cache_key-injective s m s' m' a b a' b' e =
    let parts : s ∷ m ∷ [] ≡ s' ∷ m' ∷ [] =
      sym (split-method_path s m a b)
      ∙ ap (λ k. split (slash ∷ k) slash) e
      ∙ split-method_path s' m' a' b' in
    (ground arith, ground arith)

not_root : (s : Bytes) → is_empty s ≡ false → (slash ∷ s) ≢ slash ∷ []
not_root [] full e = cc
not_root (b ∷ s) full e = ground arith

-- One service in the loop of `init`.
init_services-step :
    {W : Type 0} (api : Api W) (s : Bytes) (ss ms : List Bytes) (d d' : Discovery) (w w' : W)
    → bytes_eq s (codes "zookeeper") ≡ false
    → get_children api d.zk_client (slash ∷ s) w ≡ ms
    → init_methods api s ms d w ≡ some (d', w')
    → init_services api (s ∷ ss) d w ≡ init_services api ss d' w'
unfolding init_services
init_services-step api s ss ms d d' w w' plain got first =
    rw (plain, init_services) (rw got (rw first refl))

module _ {W : Type 0} (api : Api W) (nodes : Nodes W) (laws : TreeLaws api nodes) (h : ℕ)
    (service method inst : Bytes) (w0 : W) (published : IsPublished nodes service method inst w0)
    (full : AllData nodes w0) where
  abbrev Known : Discovery → Type 0
  Known d = Knows nodes w0 d service method inst

  -- What a part of `init` gives, if it has to find the instance when `Found` holds.
  abbrev Fills : Discovery → Type 0 → Option (Discovery × W) → Type 0
  Fills d Found o =
      (d' : Discovery) × (w' : W) × (o ≡ some (d', w'))
      × Same nodes w0 w'
      × (d'.zk_client ≡ some h)
      × (Known d ⊎ Found → Known d')

  Known-after :
      (s m : Bytes) (hosts : List Bytes) (d : Discovery)
      → IsName s
      → IsName m
      → ((s ≡ service) × (m ≡ method) → Current nodes w0 service method inst hosts)
      → Known d ⊎ ((s ≡ service) × (m ≡ method))
      → Known (record d { cache = insert (cache_key s m) hosts d.cache })
  Known-after s m hosts d sn mn holds k =
      elim (Bool-cases (bytes_eq (cache_key s m) (cache_key service method))) [
        | inl b ↦ (
          hosts,
          lookup-insert (cache_key s m) (cache_key service method) hosts d.cache ∙ rw b refl,
          holds (
              cache_key-injective s m service method sn mn published.service_name
                published.method_name ((bytes_eq_iff _ _).0 b)),
        )
        | inr b ↦ elim k [
          | inl (hs, found, mem) ↦ (
            hs,
            lookup-insert (cache_key s m) (cache_key service method) hosts d.cache ∙ rw b found,
            mem,
          )
          | inr (p, q) ↦ absurd (differ b (ap (λ x. cache_key x m) p ∙ ap (cache_key service) q))
        ]
      ]
    where
      differ : {xs ys : Bytes} → bytes_eq xs ys ≡ false → xs ≡ ys → ⊥
      differ {xs} {ys} b e = ground (arith, (bytes_eq_iff xs ys).1 e)

  init_method-Fills :
      (s m : Bytes) (d : Discovery) (w : W)
      → IsName s
      → IsName m
      → Exists nodes w0 (method_path s m)
      → d.zk_client ≡ some h
      → Same nodes w0 w
      → Fills d ((s ≡ service) × (m ≡ method)) (init_method api s m d w)
  unfolding init_method store
  init_method-Fills s m d w sn mn (c, e) z same =
      let (hosts, w', got, same', found, sound) =
        read_hosts-data api nodes laws h (method_path s m) w (c, same _ ∙ e)
          (HasData-Same nodes w0 w (method_path s m) same (full _, λ n. full _)) in
      let d' = record d { cache = insert (cache_key s m) hosts d.cache } in
      (
        d',
        w',
        rw (z, init_method) (rw (got, store) refl),
        (λ q. same' q ∙ same q),
        z,
        Known-after s m hosts d sn mn
            (λ (p, q). (found_inst hosts p q found, all_current hosts p q sound)),
      )
    where
      found_inst :
          (hosts : List Bytes)
          → s ≡ service
          → m ≡ method
          → ((n c : Bytes)
              → IsName n
              → nodes w (method_path s m ++ (slash ∷ n)) ≡ some (some c)
              → Elem (take 128 c) hosts)
          → Elem inst hosts
      found_inst hosts p q found =
          subst (λ b. Elem b hosts) published.short
            (found inst inst published.inst_name (same _ ∙ rw (p, q) published.has_inst))

      all_current :
          (hosts : List Bytes)
          → s ≡ service
          → m ≡ method
          → ((n : Bytes) (b : Option Bytes)
              → IsName n
              → nodes w (method_path s m ++ (slash ∷ n)) ≡ some b
              → (x : Bytes) → Elem x hosts
              → IsInstance nodes w (method_path s m) x)
          → (x : Bytes) → Elem x hosts
          → IsInstance nodes w0 (method_path service method) x
      all_current hosts p q sound x mem =
          let (n, b, named, e, x_eq) =
            sound inst (some inst) published.inst_name (same _ ∙ rw (p, q) published.has_inst) x
              mem in
          (n, b, named, sym (same _) ∙ rw (← p, ← q) e, x_eq)

  init_methods-Fills :
      (s : Bytes) (ms : List Bytes) (d : Discovery) (w : W)
      → IsName s
      → All (λ m. IsName m × Exists nodes w0 (method_path s m)) ms
      → d.zk_client ≡ some h
      → Same nodes w0 w
      → Fills d ((s ≡ service) × Elem method ms) (init_methods api s ms d w)
  unfolding init_methods
  init_methods-Fills s [] d w sn all z same =
      (d, w, refl, same, z, λ k. elim k [ inl known ↦ known | inr (p, m) ↦ absurd m ])
  init_methods-Fills s (m ∷ ms) d w sn ((mn, there), all) z same =
      let (d', w', first, same', z', fills) = init_method-Fills s m d w sn mn there z same in
      let (d'', w'', rest, same'', z'', fills') = init_methods-Fills s ms d' w' sn all z' same' in
      (
        d'',
        w'',
        rw (first, init_methods) rest,
        same'',
        z'',
        λ k. fills' (elim k [
          | inl known ↦ inl (fills (inl known))
          | inr (p, inl q) ↦ inl (fills (inr (p, sym q)))
          | inr (p, inr q) ↦ inr (p, q)
        ]),
      )

  children :
      (s : Bytes) (z : ZkClient) (w : W)
      → z ≡ some h
      → IsName s
      → Exists nodes w0 (slash ∷ s)
      → Same nodes w0 w
      → (names : List Bytes) × (get_children api z (slash ∷ s) w ≡ names)
        × Lists nodes w0 (slash ∷ s) names
  unfolding get_children
  children s z w z_eq (full, _) (c, e) same =
      let (names, got, (all, listed)) =
        laws.children_of h (slash ∷ s) w (not_root s full) (c, same _ ∙ e) in
      (
        names,
        rw z_eq (rw (got, get_children) (rw got refl)),
        (
          All-map _ (λ n. IsName n × Exists nodes w0 (slash ∷ (s ++ (slash ∷ n))))
              (λ n (plain, (b, x)). (plain, (b, sym (same _) ∙ x))) names all,
          λ n b plain x. listed n b plain (same _ ∙ x),
        ),
      )

  init_services-Fills :
      (ss : List Bytes) (d : Discovery) (w : W)
      → All (λ s. IsName s × Exists nodes w0 (slash ∷ s)) ss
      → d.zk_client ≡ some h
      → Same nodes w0 w
      → Fills d (Elem service ss) (init_services api ss d w)
  unfolding init_services
  init_services-Fills [] d w all z same =
      (d, w, refl, same, z, λ k. elim k [ inl known ↦ known | inr m ↦ absurd m ])
  init_services-Fills (s ∷ ss) d w ((sn, there), all) z same =
      elim (Bool-cases (bytes_eq s (codes "zookeeper"))) [
        | inl system ↦
            let (d', w', rest, same', z', fills) = init_services-Fills ss d w all z same in
            (
              d',
              w',
              rw (system, init_services) rest,
              same',
              z',
              λ k. fills (elim k [
                | inl known ↦ inl known
                | inr (inl p) ↦ absurd (differ (rw (← p) at system))
                | inr (inr p) ↦ inr p
              ]),
            )
        | inr plain ↦
            let (ms, got, (each, listed)) = children s d.zk_client w z sn there same in
            let (d', w', first, same', z', fills) = init_methods-Fills s ms d w sn each z same in
            let (d'', w'', rest, same'', z'', fills') = init_services-Fills ss d' w' all z' same' in
            (
              d'',
              w'',
              init_services-step api s ss ms d d' w w' plain got first ∙ rest,
              same'',
              z'',
              λ k. fills' (elim k [
                | inl known ↦ inl (fills (inl known))
                | inr (inl p) ↦ inl (fills (inr (sym p, has_method s p ms listed)))
                | inr (inr p) ↦ inr p
              ]),
            )
      ]
    where
      differ : bytes_eq service (codes "zookeeper") ≡ true → ⊥
      differ e = let n = published.not_system in ground arith

      has_method :
          (s : Bytes)
          → service ≡ s
          → (ms : List Bytes)
          → ((n : Bytes) (c : Option Bytes)
              → IsName n
              → nodes w0 ((slash ∷ s) ++ (slash ∷ n)) ≡ some c
              → Elem n ms)
          → Elem method ms
      has_method s p ms listed =
          let (c, e) = published.has_method in listed method c published.method_name (rw (← p) e)

-- `init` ends, and the cache it leaves knows every instance that is published in ZooKeeper at the
-- time: the method's entry holds the instance's address, which is its name. This is for a session
-- that comes up, over the documented behaviour of the client library.
pub init_finds :
    {W : Type 0} (api : Api W) (nodes : Nodes W) (laws : TreeLaws api nodes)
    (host port service method inst : Bytes) (d : Discovery) (w w0 : W) (h : ℕ)
    → start api host port w ≡ some (some h, w0)
    → IsPublished nodes service method inst w0
    → AllData nodes w0
    → (d' : Discovery) × (w' : W) × (init api host port d w ≡ some (d', w'))
      × Knows nodes w0 d' service method inst
unfolding init get_children
init_finds api nodes laws host port service method inst d w w0 h up published full =
    let (names, got, (all, listed)) = laws.children_of_root h w0 in
    let (c, e) = published.has_service in
    let (d', w', runs, _, _, fills) =
      init_services-Fills api nodes laws h service method inst w0 published full names
        (record d { zk_client = some h }) w0 all refl (λ q. refl) in
    (
      d',
      w',
      rw (up, init) (rw (got, get_children) (rw got runs)),
      fills (inr (listed service c published.service_name e)),
    )
