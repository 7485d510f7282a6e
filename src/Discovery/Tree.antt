-- ===== src/Discovery/Tree.antt =====
-- What src/ServiceDiscovery.cc reads off the tree of ZooKeeper's nodes.
use proto_rpc_multi_reactor.Prelude.{
  ℕ, Bool, true, ◌≡◌, ◌≢◌, refl, sym, ap, subst, ◌∙◌, ◌⊎◌, inl, inr, List, [], ◌∷◌, ◌++◌, Option,
  none, some, take, arith, All, Elem, List-cases,
}
use proto_rpc_multi_reactor.Prelude.Text.{Bytes, codes}
use proto_rpc_multi_reactor.Zookeeper.{Api, Mode, Code, zok, start}
use proto_rpc_multi_reactor.Discovery.{
  slash, fetch_host, cons_host, fetch_hosts, fetch_of, read_hosts,
}
use proto_rpc_multi_reactor.Discovery.Paths.{IsName}

-- The nodes of a state: the data at each path. A node may be without data, which is not empty data.
abbrev pub Nodes : Type 0 → Type 0
Nodes W = W → Bytes → Option (Option Bytes)

module _ {W : Type 0} (nodes : Nodes W) where
  -- Two states have the same nodes.
  abbrev pub Same : W → W → Type 0
  Same w w' = (p : Bytes) → nodes w' p ≡ nodes w p

  abbrev pub Exists : W → Bytes → Type 0
  Exists w p = (c : Option Bytes) × (nodes w p ≡ some c)

  -- The node of a path and those directly below it, as far as there are such, have data.
  abbrev pub HasData : W → Bytes → Type 0
  HasData w p = (nodes w p ≢ some none) × ((n : Bytes) → nodes w (p ++ (slash ∷ n)) ≢ some none)

  -- All nodes have data.
  abbrev pub AllData : W → Type 0
  AllData w = (p : Bytes) → nodes w p ≢ some none

  pub HasData-Same : (w w' : W) (p : Bytes) → Same w w' → HasData w p → HasData w' p
  HasData-Same w w' p same (here, below) =
      (λ e. here (sym (same _) ∙ e), λ n e. below n (sym (same _) ∙ e))

  pub data_of :
      (w : W) (p : Bytes)
      → nodes w p ≢ some none
      → Exists w p
      → (c : Bytes) × (nodes w p ≡ some (some c))
  data_of w p full (none, e) = absurd (full e)
  data_of w p full (some c, e) = (c, e)

  -- The names are those of the nodes directly below a path.
  abbrev pub Lists : W → Bytes → List Bytes → Type 0
  Lists w p names =
      All (λ n. IsName n × Exists w (p ++ (slash ∷ n))) names
      × ((n : Bytes) (c : Option Bytes)
          → IsName n
          → nodes w (p ++ (slash ∷ n)) ≡ some c
          → Elem n names)

  -- A host that is read at a path: the data of an instance below it.
  abbrev pub IsInstance : W → Bytes → Bytes → Type 0
  IsInstance w p x =
      (n : Bytes) × (c : Bytes) × IsName n
      × (nodes w (p ++ (slash ∷ n)) ≡ some (some c))
      × (x ≡ take 128 c)

-- What is documented of ZooKeeper's C client for a session `h` that is up: `zoo_exists` tells a path that
-- ZooKeeper admits for a node from one that has no node; data may be empty and is cut to the size of the
-- buffer; a read changes no node. Nothing is said of `zoo_wget` for a node without data.
-- The path of the root is "/", although its children's paths begin with one slash.
pub record TreeLaws {W : Type 0} (api : Api W) (nodes : Nodes W) : Type 0 where
  -- The paths that ZooKeeper admits.
  pub is_valid : Bytes → Bool
  pub init_same : (connection : Bytes) (w : W) → Same nodes w (api.init connection w).1
  pub exists_some :
      (h : ℕ) (p : Bytes) (c : Option Bytes) (w : W)
      → nodes w p ≡ some c
      → api.exists (some h) p w ≡ zok
  pub exists_none :
      (h : ℕ) (p : Bytes) (w : W)
      → is_valid p ≡ true
      → nodes w p ≡ none
      → api.exists (some h) p w ≡ Code.znonode
  pub create_one :
      (h : ℕ) (p c : Bytes) (mode : Mode) (w w' : W)
      → api.create (some h) p c mode w ≡ (zok, w')
      → (nodes w' p ≡ some (some c)) × ((q : Bytes) → (q ≡ p) ⊎ (nodes w' q ≡ nodes w q))
  pub children_of_root :
      (h : ℕ) (w : W)
      → (names : List Bytes) × (api.get_children (some h) (slash ∷ []) w ≡ (zok, names))
        × Lists nodes w [] names
  pub children_of :
      (h : ℕ) (p : Bytes) (w : W)
      → p ≢ slash ∷ []
      → Exists nodes w p
      → (names : List Bytes) × (api.get_children (some h) p w ≡ (zok, names))
        × Lists nodes w p names
  pub watched_children :
      (h : ℕ) (p : Bytes) (w : W)
      → Exists nodes w p
      → (names : List Bytes) × (w' : W) × (api.wget_children (some h) p w ≡ (some names, w'))
        × Lists nodes w p names
        × Same nodes w w'
  pub watched_data :
      (h : ℕ) (p c : Bytes) (w : W)
      → nodes w p ≡ some (some c)
      → (buf : Bytes) × (n : ℕ) × (w' : W) × (api.wget (some h) p w ≡ (buf, some n, w'))
        × (take n buf ≡ take 128 c)
        × Same nodes w w'

pub All-map :
    (P Q : Bytes → Type 0) → ((n : Bytes) → P n → Q n) → (ns : List Bytes) → All P ns → All Q ns
All-map P Q f [] h = tt
All-map P Q f (n ∷ ns) (p, h) = (f n p, All-map P Q f ns h)

module _ {W : Type 0} (api : Api W) (nodes : Nodes W) (laws : TreeLaws api nodes) (h : ℕ) where
  fetch_host-data :
      (p c : Bytes) (w : W)
      → nodes w p ≡ some (some c)
      → (w' : W) × (fetch_host api (some h) p w ≡ some (take 128 c, w')) × Same nodes w w'
  unfolding fetch_host
  fetch_host-data p c w e =
      let (buf, n, w', got, data_eq, same) = laws.watched_data h p c w e in
      (w', rw (got, fetch_host) (rw got (ap (λ s. some (s, w')) data_eq)), same)

  -- The data of all children of a path.
  fetch_hosts-data :
      (p : Bytes) (names : List Bytes) (w : W)
      → ((n : Bytes) → nodes w (p ++ (slash ∷ n)) ≢ some none)
      → All (λ n. IsName n × Exists nodes w (p ++ (slash ∷ n))) names
      → (hosts : List Bytes) × (w' : W) × (fetch_hosts api (some h) p names w ≡ some (hosts, w'))
        × Same nodes w w'
        × ((n c : Bytes)
            → nodes w (p ++ (slash ∷ n)) ≡ some (some c)
            → Elem n names
            → Elem (take 128 c) hosts)
        × ((x : Bytes) → Elem x hosts → IsInstance nodes w p x)
  unfolding fetch_hosts
  fetch_hosts-data p [] w full all = ([], w, refl, (λ q. refl), (λ n c e m. m), λ x m. absurd m)
  fetch_hosts-data p (name ∷ names) w full ((plain, there), all) =
      let (c, e) = data_of nodes w (p ++ (slash ∷ name)) (full name) there in
      let (v, first, same) = fetch_host-data (p ++ (slash ∷ name)) c w e in
      let (hosts, w', rest, same', found, sound) =
        fetch_hosts-data p names v (λ n d. full n (sym (same _) ∙ d))
          (All-map (λ n. IsName n × Exists nodes w (p ++ (slash ∷ n))) _
            (λ n (plain, (c, e)). (plain, (c, same _ ∙ e))) names all) in
      (
        take 128 c ∷ hosts,
        w',
        rw (first, fetch_hosts) (rw (rest, cons_host) refl),
        (λ q. same' q ∙ same q),
        (λ n b d m. elim m [
          | inl n_eq ↦
              let both : some (some b) ≡ some (some c) =
                sym d ∙ ap (λ k. nodes w (p ++ (slash ∷ k))) n_eq ∙ e in
              let data_eq : b ≡ c = cc in inl (ap (take 128) data_eq)
          | inr m' ↦ inr (found n b (same _ ∙ d) m')
        ]),
        λ x m. elim m [
          | inl x_eq ↦ (name, c, plain, e, x_eq)
          | inr m' ↦
              let (n, b, named, d, x_eq) = sound x m' in (n, b, named, sym (same _) ∙ d, x_eq)
        ],
      )

  -- The hosts of a path: the data of its children, all of them, and nothing else where it has one.
  pub read_hosts-data :
      (p : Bytes) (w : W)
      → Exists nodes w p
      → HasData nodes w p
      → (hosts : List Bytes) × (w' : W) × (read_hosts api (some h) p w ≡ some (hosts, w'))
        × Same nodes w w'
        × ((n c : Bytes)
            → IsName n
            → nodes w (p ++ (slash ∷ n)) ≡ some (some c)
            → Elem (take 128 c) hosts)
        × ((n : Bytes) (b : Option Bytes)
            → IsName n
            → nodes w (p ++ (slash ∷ n)) ≡ some b
            → (x : Bytes) → Elem x hosts
            → IsInstance nodes w p x)
  unfolding read_hosts fetch_of
  read_hosts-data p w there (here, below) =
      let (c, e) = data_of nodes w p here there in
      let (names, v, got, (all, listed), same) = laws.watched_children h p w there in
      elim (List-cases names) [
        | inl none_eq ↦
            let (w', one, same') = fetch_host-data p c v (same p ∙ e) in
            (
              take 128 c ∷ [],
              w',
              rw (got, read_hosts) (rw (none_eq, fetch_of) (rw (one, fetch_of) refl)),
              (λ q. same' q ∙ same q),
              (λ n b plain d. absurd (subst (Elem n) none_eq (listed n (some b) plain d))),
              λ n b plain d. absurd (subst (Elem n) none_eq (listed n b plain d)),
            )
        | inr (k, ks, some_eq) ↦
            let (hosts, w', many, same', found, sound) =
              fetch_hosts-data p names v (λ n d. below n (sym (same _) ∙ d))
                (All-map _ (λ n. IsName n × Exists nodes v (p ++ (slash ∷ n)))
                  (λ n (plain, (b, d)). (plain, (b, same _ ∙ d))) names all) in
            (
              hosts,
              w',
              rw (got, read_hosts) (rw (some_eq, fetch_of) (rw some_eq at many)),
              (λ q. same' q ∙ same q),
              (λ n b plain d. found n b (same _ ∙ d) (listed n (some b) plain d)),
              λ n b plain d x m.
                  let (k', c', named, e', x_eq) = sound x m in
                  (k', c', named, sym (same _) ∙ e', x_eq),
            )
      ]

-- Starting a session changes no node.
pub start-Same :
    {W : Type 0} (api : Api W) (nodes : Nodes W) (laws : TreeLaws api nodes) (host port : Bytes)
    (w v : W) (h : ℕ)
    → start api host port w ≡ some (some h, v)
    → Same nodes w v
unfolding start
start-Same {W = W} api nodes laws host port w v h e =
    let same = laws.init_same (host ++ codes ":" ++ port) w in
    let last : (api.init (host ++ codes ":" ++ port) w).1 ≡ v =
      session (api.init (host ++ codes ":" ++ port) w) e in
    subst (Same nodes w) last same
  where
    session :
        (o : Option ℕ × W)
        → ◌≡◌ {A = Option (Option ℕ × W)}
            (elim o.0 [ none ↦ none | some k ↦ some (some k, o.1) ])
            (some (some h, v))
        → o.1 ≡ v
    session (none, u) f = cc
    session (some k, u) f = ground arith
