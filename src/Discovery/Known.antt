-- ===== src/Discovery/Known.antt =====
-- The cached addresses of a method of src/ServiceDiscovery.cc that are those of its instances.
use proto_rpc_multi_reactor.Prelude.{
  length, ◌≤◌, ℕ, ◌≡◌, List, [], ◌∷◌, some, arith, Elem, Elem-get_elem?,
}
use proto_rpc_multi_reactor.Prelude.Text.{Bytes, Bytes_eq}
use proto_rpc_multi_reactor.Prelude.Dict.{lookup}
use proto_rpc_multi_reactor.Discovery.{Discovery, method_path, cache_key, pick_host}
use proto_rpc_multi_reactor.Discovery.Tree.{Nodes, IsInstance}
use proto_rpc_multi_reactor.Discovery.Cache.{get_elem?-some, get_elem?-Elem}

-- The hosts of a method: the instance is one of them, and all of them are instances.
abbrev pub Current : {W : Type 0} → Nodes W → W → Bytes → Bytes → Bytes → List Bytes → Type 0
Current nodes w service method inst hosts =
    Elem inst hosts
    × ((x : Bytes) → Elem x hosts → IsInstance nodes w (method_path service method) x)

abbrev pub Knows : {W : Type 0} → Nodes W → W → Discovery → Bytes → Bytes → Bytes → Type 0
Knows nodes w d service method inst =
    (hosts : List Bytes) × (lookup (cache_key service method) d.cache ≡ some hosts)
    × Current nodes w service method inst hosts

-- A known instance is picked for some choice of the index, and only instances are picked.
pub Knows-pick_host :
    {W : Type 0} (nodes : Nodes W) (w : W) (d : Discovery) (service method inst : Bytes)
    → Knows nodes w d service method inst
    → ((i : ℕ) × (pick_host service method (λ _. i) d ≡ some inst))
      × ((random : ℕ → ℕ)
          → ((n : ℕ) → random n ≤ n)
          → (x : Bytes) × (pick_host service method random d ≡ some x)
            × IsInstance nodes w (method_path service method) x)
unfolding pick_host
Knows-pick_host nodes w d service method inst ([], found, (m, sound)) = absurd m
Knows-pick_host nodes w d service method inst (h ∷ hs, found, (m, sound)) =
    let (i, e) = Elem-get_elem? inst (h ∷ hs) m in
    (
      (i, rw (found, pick_host) e),
      λ random range.
          let (x, at) =
            get_elem?-some (random (length hs)) (h ∷ hs) (omega (arith, range (length hs))) in
          (
            x,
            rw (found, pick_host) at,
            sound x (get_elem?-Elem (h ∷ hs) (random (length hs)) x at),
          ),
    )
