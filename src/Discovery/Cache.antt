-- ===== src/Discovery/Cache.antt =====
-- The cache of src/ServiceDiscovery.cc: what an event and `init` do to it, and what is picked.
use proto_rpc_multi_reactor.Prelude.{
  ℕ, suc, ◌<◌, ◌≤◌, ◌≡◌, refl, ◌∙◌, ap, ◌⊎◌, inl, inr, List, [], ◌∷◌, ◌-◌, zero, if◌then◌else◌,
  none, some, arith, get_elem?, length, All, Elem, Option-cases,
}
use proto_rpc_multi_reactor.Prelude.Text.{Bytes, bytes_eq, Bytes_eq}
use proto_rpc_multi_reactor.Prelude.Dict.{lookup, insert, lookup-insert}
use proto_rpc_multi_reactor.Zookeeper.{Api}
use proto_rpc_multi_reactor.Discovery.{
  Discovery, method_path, cache_key, read_hosts, store, handle_parts, handle_event, init_method,
  pick_host,
}
use proto_rpc_multi_reactor.Discovery.Paths.{IsName, path_of, split-path_of, split-method_path}

module _ {W : Type 0} (api : Api W) where
  -- What an event on a path below a method (or on the method itself) does.
  handle_event-path :
      (service method : Bytes) (parts : List Bytes) (d : Discovery) (w : W)
      → IsName service
      → IsName method
      → All IsName parts
      → let path = path_of (service ∷ method ∷ parts) in
        handle_event api path d w
        ≡ store api (cache_key service method) d (read_hosts api d.zk_client path w)
  unfolding handle_event handle_parts
  handle_event-path service method parts d w s m ps =
      rw (split-path_of (service ∷ method ∷ parts) (s, (m, ps)), handle_parts) refl

  -- A watcher's event on a method does what `init` does for the method: it reads the addresses of
  -- the method again and stores them as the method's.
  pub event_refreshes :
      (service method : Bytes) (d : Discovery) (w : W)
      → IsName service
      → IsName method
      → handle_event api (method_path service method) d w ≡ init_method api service method d w
  unfolding handle_event handle_parts init_method
  event_refreshes service method d w s m =
      rw (split-method_path service method s m, handle_parts) refl

  -- An event below a method: the cache entry of the method becomes the addresses that are
  -- read at the path of the event (not at the method's path), and no other entry changes.
  pub event_stores :
      (service method : Bytes) (parts : List Bytes) (d : Discovery) (w w' : W) (hosts : List Bytes)
      → IsName service
      → IsName method
      → All IsName parts
      → read_hosts api d.zk_client (path_of (service ∷ method ∷ parts)) w ≡ some (hosts, w')
      → (d' : Discovery) × (handle_event api (path_of (service ∷ method ∷ parts)) d w
          ≡ some (d', w'))
        × ((key : Bytes)
            → lookup key d'.cache ≡ (
                if bytes_eq (cache_key service method) key then some hosts else lookup key d.cache))
  unfolding store
  event_stores service method parts d w w' hosts s m ps r = (
    record d { cache = insert (cache_key service method) hosts d.cache },
    handle_event-path service method parts d w s m ps
        ∙ ap (store api (cache_key service method) d) r,
    λ key. lookup-insert (cache_key service method) key hosts d.cache,
  )

pub get_elem?-some :
    {A : Type 0} (i : ℕ) (xs : List A) → i < length xs → (x : A) × (get_elem? xs i ≡ some x)
get_elem?-some i [] h = ground arith
get_elem?-some zero (x ∷ xs) h = (x, refl)
get_elem?-some (suc i) (x ∷ xs) h = get_elem?-some i xs (omega arith)

pub get_elem?-Elem :
    {A : Type 0} (xs : List A) (i : ℕ) (x : A) → get_elem? xs i ≡ some x → Elem x xs
get_elem?-Elem [] i x e = ground arith
get_elem?-Elem (y ∷ ys) zero x e = inl (ground arith)
get_elem?-Elem (y ∷ ys) (suc i) x e = inr (get_elem?-Elem ys i x e)

-- With an index in range, `pickHost` throws exactly when the method has no entry or an entry
-- without hosts; otherwise it returns the host of the entry that stands at the index.
pub pick_host_cases :
    (service method : Bytes) (random : ℕ → ℕ) (d : Discovery)
    → ((n : ℕ) → random n ≤ n)
    → let entry = lookup (cache_key service method) d.cache in
      let picked = pick_host service method random d in
      (((entry ≡ none) ⊎ (entry ≡ some [])) × (picked ≡ none))
      ⊎ ((host : Bytes) × (hosts : List Bytes) × (entry ≡ some hosts)
          × (get_elem? hosts (random (length hosts - 1)) ≡ some host)
          × (picked ≡ some host))
unfolding pick_host
pick_host_cases service method random d range =
    elim (Option-cases (lookup (cache_key service method) d.cache)) [
      | inl e ↦ rw (e, pick_host) (inl (inl refl, refl))
      | inr ([], e) ↦ rw (e, pick_host) (inl (inr refl, refl))
      | inr (h ∷ hs, e) ↦
          let (host, at) =
            get_elem?-some (random (length hs)) (h ∷ hs) (omega (arith, range (length hs))) in
          let last : suc (length hs) - 1 ≡ length hs = omega arith in
          rw (e, pick_host) (inr (host, h ∷ hs, refl, rw last at, at))
    ]
