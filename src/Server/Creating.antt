-- ===== src/Server/Creating.antt =====
-- What `Create` of src/Zookeeperutil.cc does to the nodes of ZooKeeper, for src/RPCServer.cc.
use proto_rpc_multi_reactor.Prelude.{
  ℕ, ◌++◌, ◌∷◌, [], Bool, true, Elem, refl, ◌≡◌, sym, ap, subst, ◌∙◌, ◌⊎◌, inl, inr, List, none,
  some, All, Option-cases,
}
use proto_rpc_multi_reactor.Prelude.Text.{Bytes}
use proto_rpc_multi_reactor.Prelude.Dict.{Dict}
use proto_rpc_multi_reactor.Channel.Monad.{ServiceInfo}
use proto_rpc_multi_reactor.Zookeeper.{Api, Code, Mode, persistent, Code, zok, create, create_node}
use proto_rpc_multi_reactor.Discovery.{slash, split, method_path}
use proto_rpc_multi_reactor.Discovery.Paths.{IsName, path_of, split-path_of}
use proto_rpc_multi_reactor.Discovery.Tree.{Nodes, Exists, TreeLaws}

-- The names of services and methods are names of nodes.
abbrev pub AllNames : Dict Bytes ServiceInfo → Type 0
AllNames services =
    All
      (λ (s : Bytes × ServiceInfo). IsName s.0 × All (λ (m : Bytes × ℕ). IsName m.0) s.1.method_map)
      services

pub path_of-injective :
    (ps qs : List Bytes) → All IsName ps → All IsName qs → path_of ps ≡ path_of qs → ps ≡ qs
path_of-injective ps qs p q e =
    sym (split-path_of ps p) ∙ ap (λ s. split s slash) e ∙ split-path_of qs q

pub All-Elem : {A : Type 0} (P : A → Type 0) (xs : List A) (x : A) → All P xs → Elem x xs → P x
All-Elem P [] x all m = absurd m
All-Elem P (y ∷ ys) x (p, all) (inl e) = subst P (sym e) p
All-Elem P (y ∷ ys) x (p, all) (inr m) = All-Elem P ys x all m

-- What is documented of `zoo_create` for a client who may create nodes, with a session `h` that is up: it
-- makes a node at a path that is admitted and free, if the node above is there and is not an ephemeral
-- one, which cannot have nodes below it. Of a node whose parent is missing nothing is said.
pub record CreateLaws {W : Type 0} (api : Api W) (nodes : Nodes W) (laws : TreeLaws api nodes)
    (h : ℕ) : Type 0 where
  -- The node is there and is not ephemeral; the root is such a node.
  pub is_lasting : W → Bytes → Bool
  pub root_lasting : (w : W) → is_lasting w [] ≡ true
  pub create_some :
      (p n c : Bytes) (mode : Mode) (w : W)
      → is_lasting w p ≡ true
      → IsName n
      → laws.is_valid (p ++ (slash ∷ n)) ≡ true
      → nodes w (p ++ (slash ∷ n)) ≡ none
      → (w' : W) × (api.create (some h) (p ++ (slash ∷ n)) c mode w ≡ (zok, w'))
  pub create_lasting :
      (p c : Bytes) (w w' : W)
      → api.create (some h) p c persistent w ≡ (zok, w')
      → is_lasting w' p ≡ true
  pub create_keeps :
      (p c : Bytes) (mode : Mode) (w w' : W) (q : Bytes)
      → api.create (some h) p c mode w ≡ (zok, w')
      → is_lasting w q ≡ true
      → is_lasting w' q ≡ true

-- The paths of the services and of their methods.
abbrev pub Dirs : Dict Bytes ServiceInfo → Bytes → Type 0
Dirs services q =
    (s : Bytes) × (info : ServiceInfo) × Elem (s, info) services
    × ((q ≡ slash ∷ s)
        ⊎ ((m : Bytes) × (md : ℕ) × Elem (m, md) info.method_map × (q ≡ method_path s m)))

module _ {W : Type 0} (api : Api W) (nodes : Nodes W) (laws : TreeLaws api nodes) (h : ℕ)
    (creates : CreateLaws api nodes laws h) where
  -- Where a service or a method has a node already, it is not an ephemeral one.
  abbrev pub Clear : Dict Bytes ServiceInfo → W → Type 0
  Clear services w =
      (q : Bytes) → Dirs services q → (nodes w q ≡ none) ⊎ (creates.is_lasting w q ≡ true)

  -- ZooKeeper has room for the nodes of a server: it admits their paths, and no ephemeral node stands
  -- where a service or a method is to be.
  pub record HasRoom (services : Dict Bytes ServiceInfo) (inst : Bytes) (w : W) : Type 0 where
    pub valid_dirs : (q : Bytes) → Dirs services q → laws.is_valid q ≡ true
    pub valid_instances :
        (s m : Bytes) (info : ServiceInfo) (md : ℕ)
        → Elem (s, info) services
        → Elem (m, md) info.method_map
        → laws.is_valid (method_path s m ++ (slash ∷ inst)) ≡ true
    pub clear : Clear services w

  -- `Create` below a node that may have nodes below it: the node is there, and nothing changes, or it
  -- is not, and it is made.
  pub create-cases :
      (p n c : Bytes) (mode : Mode) (w : W)
      → creates.is_lasting w p ≡ true
      → IsName n
      → laws.is_valid (p ++ (slash ∷ n)) ≡ true
      → let q = p ++ (slash ∷ n) in
        (Exists nodes w q × (create api (some h) q c mode w ≡ some w))
        ⊎ ((nodes w q ≡ none)
            × (w' : W) × (api.create (some h) q c mode w ≡ (zok, w'))
            × (create api (some h) q c mode w ≡ some w'))
  unfolding create create_node
  create-cases p n c mode w lasting named valid =
      let q = p ++ (slash ∷ n) in
      elim (Option-cases (nodes w q)) [
        | inr (x, there) ↦ inl ((x, there), rw (laws.exists_some h q x w there, create) refl)
        | inl new ↦
            let (w', made) = creates.create_some p n c mode w lasting named valid new in
            inr (
              new,
              w',
              made,
              rw (laws.exists_none h q w valid new, create)
                  (ap (λ (o : Code × W). elim o.0 [ Code.zok ↦ some o.1 | _ ↦ none ]) made),
            )
      ]
