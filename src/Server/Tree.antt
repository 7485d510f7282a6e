-- ===== src/Server/Tree.antt =====
-- What `Run` of src/RPCServer.cc leaves in the tree of ZooKeeper's nodes.
use proto_rpc_multi_reactor.Prelude.{
  ℕ, Option, append_assoc, ◌≡◌, refl, sym, ap, subst, ◌∙◌, ◌⊎◌, inl, inr, List, [], ◌∷◌, ◌++◌,
  append-nil, none, some, true, false, take-all, ltb→lt, arith, ltb, length, All, Elem,
}
use proto_rpc_multi_reactor.Prelude.Text.{Bytes, codes, bytes_eq}
use proto_rpc_multi_reactor.Prelude.Dict.{Dict}
use proto_rpc_multi_reactor.Channel.Monad.{ServiceInfo}
use proto_rpc_multi_reactor.Zookeeper.{Api, Mode, zok, create, persistent, ephemeral, start}
use proto_rpc_multi_reactor.Discovery.{slash, method_path}
use proto_rpc_multi_reactor.Discovery.Paths.{IsName, path_of}
use proto_rpc_multi_reactor.Discovery.Published.{IsPublished}
use proto_rpc_multi_reactor.Discovery.Tree.{Nodes, Exists, AllData, TreeLaws}
use proto_rpc_multi_reactor.Server.{
  Server, publish_method, publish_methods, publish_service, publish, run_with, run, instance_name,
}
use proto_rpc_multi_reactor.Server.Publish.{of_methods, of_services, path_of-instance}
use proto_rpc_multi_reactor.Server.Creating.{
  AllNames, All-Elem, path_of-injective, CreateLaws, Dirs, Clear, HasRoom, create-cases,
}

module _ {W : Type 0} (api : Api W) (nodes : Nodes W) (laws : TreeLaws api nodes) (h : ℕ)
    (creates : CreateLaws api nodes laws h) (inst : Bytes) (short : ltb (length inst) 128 ≡ true)
    (services : Dict Bytes ServiceInfo) (all_names : AllNames services)
    (valid_dirs : (q : Bytes) → Dirs services q → laws.is_valid q ≡ true)
    (valid_instances : (s m : Bytes) (i : ServiceInfo) (k : ℕ)
      → Elem (s, i) services
      → Elem (m, k) i.method_map
      → laws.is_valid (method_path s m ++ (slash ∷ inst)) ≡ true)
    (service method : Bytes) (names : All IsName (service ∷ method ∷ inst ∷ [])) where
  -- The node of this server below the method.
  abbrev target : Bytes
  target = path_of (service ∷ method ∷ inst ∷ [])

  -- That node is not somebody else's.
  abbrev Own : W → Type 0
  Own w = (nodes w target ≡ none) ⊎ (nodes w target ≡ some (some inst))

  -- From `w` to `w'`, nodes were only added, with data, and none that is in the way.
  pub record Grew (w w' : W) : Type 0 where
    pub own : Own w → Own w'
    pub keep : (q : Bytes) (c : Option Bytes) → nodes w q ≡ some c → nodes w' q ≡ some c
    pub full : AllData nodes w → AllData nodes w'
    pub clear :
        Clear api nodes laws h creates services w → Clear api nodes laws h creates services w'
    pub lasting : (q : Bytes) → creates.is_lasting w q ≡ true → creates.is_lasting w' q ≡ true

  Grew-refl : (w : W) → Grew w w
  Grew-refl w = record {
    own = λ o. o;
    keep = λ q c e. e;
    full = λ d. d;
    clear = λ c. c;
    lasting = λ q e. e;
  }

  Grew-trans : (u v w : W) → Grew u v → Grew v w → Grew u w
  Grew-trans u v w a b = record {
    own = λ o. b.own (a.own o);
    keep = λ q c e. b.keep q c (a.keep q c e);
    full = λ d. b.full (a.full d);
    clear = λ c. b.clear (a.clear c);
    lasting = λ q e. b.lasting q (a.lasting q e);
  }

  -- A node that is made: at the target it holds this server's name, and where a service or a method is
  -- to be it is not ephemeral.
  made-Grew :
      (q c : Bytes) (mode : Mode) (w w' : W)
      → nodes w q ≡ none
      → api.create (some h) q c mode w ≡ (zok, w')
      → (target ≡ q → c ≡ inst)
      → (Dirs services q → creates.is_lasting w' q ≡ true)
      → Grew w w'
  made-Grew q c mode w w' new made at_target lasting =
      let (there, others) = laws.create_one h q c mode w w' made in
      record {
        own = λ own. elim (others target) [
          | inl here ↦ inr (ap (nodes w') here ∙ there ∙ ap (λ x. some (some x)) (at_target here))
          | inr same ↦ elim own [ inl o ↦ inl (same ∙ o) | inr o ↦ inr (same ∙ o) ]
        ];
        keep = λ x b e. elim (others x) [
          | inl here ↦ let clash : none ≡ some b = sym new ∙ sym (ap (nodes w) here) ∙ e in cc
          | inr same ↦ same ∙ e
        ];
        full = λ f x e. elim (others x) [
          | inl here ↦
              let clash : some (some c) ≡ some none = sym there ∙ sym (ap (nodes w') here) ∙ e in cc
          | inr same ↦ f x (sym same ∙ e)
        ];
        clear = λ clear x dir. elim (others x) [
          | inl here ↦ inr (
              subst (λ y. creates.is_lasting w' y ≡ true) (sym here)
                (lasting (subst (Dirs services) here dir)))
          | inr same ↦ elim (clear x dir) [
            | inl free ↦ inl (same ∙ free)
            | inr lasts ↦ inr (creates.create_keeps q c mode w w' x made lasts)
          ]
        ];
        lasting = λ x e. creates.create_keeps q c mode w w' x made e;
      }

  -- The node of a service or a method.
  create-dir :
      (p n : Bytes) (w : W)
      → creates.is_lasting w p ≡ true
      → IsName n
      → Dirs services (p ++ (slash ∷ n))
      → (target ≡ p ++ (slash ∷ n) → [] ≡ inst)
      → Clear api nodes laws h creates services w
      → let q = p ++ (slash ∷ n) in
        (w' : W) × (create api (some h) q [] persistent w ≡ some w')
        × Grew w w'
        × (creates.is_lasting w' q ≡ true)
        × Exists nodes w' q
  create-dir p n w lasting named dir at_target clear =
      let q = p ++ (slash ∷ n) in
      elim (create-cases api nodes laws h creates p n [] persistent w lasting named
        (valid_dirs q dir)) [
          | inl (there, e) ↦ (
            w,
            e,
            Grew-refl w,
            elim (clear q dir) [
              | inl free ↦ let clash : none ≡ some there.0 = sym free ∙ there.1 in cc
              | inr lasts ↦ lasts
            ],
            there,
          )
          | inr (new, w', made, e) ↦
              let lasts = creates.create_lasting q [] w w' made in
              (
                w',
                e,
                made-Grew q [] persistent w w' new made at_target (λ _. lasts),
                lasts,
                (some [], (laws.create_one h q [] persistent w w' made).0),
              )
        ]

  -- The node of this server below a method.
  create-instance :
      (p : Bytes) (w : W)
      → creates.is_lasting w p ≡ true
      → laws.is_valid (p ++ (slash ∷ inst)) ≡ true
      → (Dirs services (p ++ (slash ∷ inst)) → ⊥)
      → let q = p ++ (slash ∷ inst) in
        (w' : W) × (create api (some h) q inst ephemeral w ≡ some w')
        × Grew w w'
        × Exists nodes w' q
  create-instance p w lasting valid apart =
      let q = p ++ (slash ∷ inst) in
      elim (create-cases api nodes laws h creates p inst inst ephemeral w lasting names.1.1.0
        valid) [
          | inl (there, e) ↦ (w, e, Grew-refl w, there)
          | inr (new, w', made, e) ↦ (
            w',
            e,
            made-Grew q inst ephemeral w w' new made (λ _. refl) (λ dir. absurd (apart dir)),
            (some inst, (laws.create_one h q inst ephemeral w w' made).0),
          )
        ]

  -- What this server needs of a method: its node and this server's below it.
  abbrev HasNodes : W → Type 0
  HasNodes w = Exists nodes w (method_path service method) × Exists nodes w target

  HasNodes-Grew : (v w : W) → Grew v w → HasNodes v → HasNodes w
  HasNodes-Grew v w grew ((a, e), (b, f)) = ((a, grew.keep _ a e), (b, grew.keep _ b f))

  target-ne-method : (s m : Bytes) → IsName s → IsName m → target ≡ method_path s m → [] ≡ inst
  target-ne-method s m sn mn e =
      let lists : service ∷ method ∷ inst ∷ [] ≡ s ∷ m ∷ [] =
        path_of-injective _ (s ∷ m ∷ []) names (sn, (mn, tt))
          (e ∙ ap (λ x. (slash ∷ s) ++ (slash ∷ x)) (sym (append-nil m))) in
      cc

  target-ne-service : (s : Bytes) → IsName s → target ≡ slash ∷ s → [] ≡ inst
  target-ne-service s sn e =
      let lists : service ∷ method ∷ inst ∷ [] ≡ s ∷ [] =
        path_of-injective _ (s ∷ []) names (sn, tt)
          (e ∙ ap (λ x. slash ∷ x) (sym (append-nil s))) in
      cc

  -- The names of a service and of its methods.
  names_of :
      (s : Bytes) (i : ServiceInfo)
      → Elem (s, i) services
      → IsName s × ((m : Bytes) (k : ℕ) → Elem (m, k) i.method_map → IsName m)
  names_of s i mem =
      let (sn, each) =
        All-Elem
          (λ (x : Bytes × ServiceInfo).
            IsName x.0 × All (λ (m : Bytes × ℕ). IsName m.0) x.1.method_map)
          services (s, i) all_names mem in
      (sn, λ m k mem'. All-Elem (λ (x : Bytes × ℕ). IsName x.0) i.method_map (m, k) each mem')

  -- This server's node below a method is not where a service or a method is to be.
  instance-apart :
      (s m : Bytes) → IsName s → IsName m → Dirs services (method_path s m ++ (slash ∷ inst)) → ⊥
  instance-apart s m sn mn (s', i, mem, inl e) =
      let lists : s ∷ m ∷ inst ∷ [] ≡ s' ∷ [] =
        path_of-injective _ (s' ∷ []) (sn, (mn, (names.1.1.0, tt))) ((names_of s' i mem).0, tt)
          (sym (path_of-instance s m inst) ∙ e ∙ ap (λ x. slash ∷ x) (sym (append-nil s'))) in
      cc
  instance-apart s m sn mn (s', i, mem, inr (m', k, mem', e)) =
      let (sn', each) = names_of s' i mem in
      let lists : s ∷ m ∷ inst ∷ [] ≡ s' ∷ m' ∷ [] =
        path_of-injective _ (s' ∷ m' ∷ []) (sn, (mn, (names.1.1.0, tt))) (sn', (each m' k mem', tt))
          (sym (path_of-instance s m inst)
            ∙ e
            ∙ ap (λ x. (slash ∷ s') ++ (slash ∷ x)) (sym (append-nil m'))) in
      cc

  publish_method-nodes :
      (s m : Bytes) (i : ServiceInfo) (k : ℕ) (paths : List Bytes) (w : W)
      → Elem (s, i) services
      → Elem (m, k) i.method_map
      → creates.is_lasting w (slash ∷ s) ≡ true
      → Clear api nodes laws h creates services w
      → (w' : W) × (publish_method api (some h) inst s m (paths, w)
          ≡ some (paths ++ (path_of (s ∷ m ∷ inst ∷ []) ∷ []), w'))
        × Grew w w'
        × (s ≡ service → m ≡ method → HasNodes w')
  unfolding publish_method
  publish_method-nodes s m i k paths w mem mem' lasting clear =
      let path = method_path s m in
      let (sn, each) = names_of s i mem in
      let mn = each m k mem' in
      let (v, a, grew, lasts, (c, there)) =
        create-dir (slash ∷ s) m w lasting mn (s, i, mem, inr (m, k, mem', refl))
          (target-ne-method s m sn mn) clear in
      let (u, b, grew', there') =
        create-instance path v lasts (valid_instances s m i k mem mem')
          (instance-apart s m sn mn) in
      (
        u,
        rw (a, short, b, publish_method)
            (ap (λ p. some (paths ++ (p ∷ []), u)) (path_of-instance s m inst)),
        Grew-trans w v u grew grew',
        λ p q. (
          subst (Exists nodes u) (ap (λ x. method_path x m) p ∙ ap (method_path service) q)
              (c, grew'.keep path c there),
          subst (Exists nodes u)
              (path_of-instance s m inst
                ∙ ap (λ x. path_of (x ∷ m ∷ inst ∷ [])) p
                ∙ ap (λ x. path_of (service ∷ x ∷ inst ∷ [])) q)
              there',
        ),
      )

  publish_methods-nodes :
      (s : Bytes) (i : ServiceInfo) (ms : Dict Bytes ℕ) (paths : List Bytes) (w : W)
      → Elem (s, i) services
      → ((m : Bytes) (k : ℕ) → Elem (m, k) ms → Elem (m, k) i.method_map)
      → creates.is_lasting w (slash ∷ s) ≡ true
      → Clear api nodes laws h creates services w
      → (w' : W) × (publish_methods api (some h) inst s ms (paths, w)
          ≡ some (paths ++ of_methods inst s ms, w'))
        × Grew w w'
        × ((md : ℕ) → s ≡ service → Elem (method, md) ms → HasNodes w')
  unfolding publish_methods
  publish_methods-nodes s i [] paths w mem sub lasting clear =
      (w, ap (λ p. some (p, w)) (sym (append-nil paths)), Grew-refl w, λ md p m. absurd m)
  publish_methods-nodes s i ((m, k) ∷ ms) paths w mem sub lasting clear =
      let first = path_of (s ∷ m ∷ inst ∷ []) ∷ [] in
      let (v, a, grew, has) =
        publish_method-nodes s m i k paths w mem (sub m k (inl refl)) lasting clear in
      let (u, b, grew', has') =
        publish_methods-nodes s i ms (paths ++ first) v mem (λ n j x. sub n j (inr x))
          (grew.lasting _ lasting) (grew.clear clear) in
      (
        u,
        rw (a, publish_methods)
            (b ∙ ap (λ p. some (p, u)) (append_assoc paths first (of_methods inst s ms))),
        Grew-trans w v u grew grew',
        λ md p x. elim x [
          | inl e ↦ HasNodes-Grew v u grew' (has p (sym (ap (λ (y : Bytes × ℕ). y.0) e)))
          | inr rest ↦ has' md p rest
        ],
      )

  publish_service-nodes :
      (s : Bytes) (i : ServiceInfo) (paths : List Bytes) (w : W)
      → Elem (s, i) services
      → Clear api nodes laws h creates services w
      → (w' : W) × (publish_service api (some h) inst s i.method_map (paths, w)
          ≡ some (paths ++ of_methods inst s i.method_map, w'))
        × Grew w w'
        × Exists nodes w' (slash ∷ s)
        × ((md : ℕ) → s ≡ service → Elem (method, md) i.method_map → HasNodes w')
  unfolding publish_service
  publish_service-nodes s i paths w mem clear =
      let (sn, _) = names_of s i mem in
      let (v, a, grew, lasts, (c, there)) =
        create-dir [] s w (creates.root_lasting w) sn (s, i, mem, inl refl) (target-ne-service s sn)
          clear in
      let (u, b, grew', has) =
        publish_methods-nodes s i i.method_map paths v mem (λ m k x. x) lasts (grew.clear clear) in
      (
        u,
        rw (a, publish_service) b,
        Grew-trans w v u grew grew',
        (c, grew'.keep (slash ∷ s) c there),
        has,
      )

  publish-nodes :
      (rest : Dict Bytes ServiceInfo) (paths : List Bytes) (w : W)
      → ((s : Bytes) (i : ServiceInfo) → Elem (s, i) rest → Elem (s, i) services)
      → Clear api nodes laws h creates services w
      → (w' : W) × (publish api (some h) inst rest (paths, w)
          ≡ some (paths ++ of_services inst rest, w'))
        × Grew w w'
        × ((info : ServiceInfo) (md : ℕ)
            → Elem (service, info) rest
            → Elem (method, md) info.method_map
            → Exists nodes w' (slash ∷ service) × HasNodes w')
  unfolding publish
  publish-nodes [] paths w sub clear =
      (w, ap (λ p. some (p, w)) (sym (append-nil paths)), Grew-refl w, λ info md m. absurd m)
  publish-nodes ((s, i) ∷ rest) paths w sub clear =
      let first = of_methods inst s i.method_map in
      let (v, a, grew, (c, there), has) =
        publish_service-nodes s i paths w (sub s i (inl refl)) clear in
      let (u, b, grew', found) =
        publish-nodes rest (paths ++ first) v (λ t j x. sub t j (inr x)) (grew.clear clear) in
      (
        u,
        rw (a, publish)
            (b ∙ ap (λ p. some (p, u)) (append_assoc paths first (of_services inst rest))),
        Grew-trans w v u grew grew',
        λ info md mem m. elim mem [
          | inl e ↦
              let s_eq : s ≡ service = sym (ap (λ (x : Bytes × ServiceInfo). x.0) e) in
              (
                subst (λ x. Exists nodes u (slash ∷ x)) s_eq (c, grew'.keep (slash ∷ s) c there),
                HasNodes-Grew v u grew' (
                    has md s_eq (
                      subst (λ (x : ServiceInfo). Elem (method, md) x.method_map)
                        (ap (λ (x : Bytes × ServiceInfo). x.1) e) m)),
              )
          | inr other ↦ found info md other m
        ],
      )

-- When the session comes up, the client may create nodes and ZooKeeper has room for them, `Run` gets to
-- its event loop. It has recorded one path for each method of each registered service, in the order of
-- the map, and changed nothing else of the server; each method is published: this server's node below
-- it holds its name, unless somebody else wrote other data into a node of that name; and where all nodes
-- had data they still have.
pub run_publishes :
    {W : Type 0} (api : Api W) (nodes : Nodes W) (laws : TreeLaws api nodes) (to_string : ℕ → Bytes)
    (ip : Bytes) (port : ℕ) (zook_ip zook_port : Bytes) (s : Server) (w v : W) (h : ℕ)
    (creates : CreateLaws api nodes laws h) (service method : Bytes) (info : ServiceInfo) (md : ℕ)
    → start api zook_ip zook_port w ≡ some (some h, v)
    → HasRoom api nodes laws h creates s.service_map (instance_name to_string ip port) v
    → All IsName (service ∷ method ∷ instance_name to_string ip port ∷ [])
    → ltb (length (instance_name to_string ip port)) 128 ≡ true
    → bytes_eq service (codes "zookeeper") ≡ false
    → AllNames s.service_map
    → Elem (service, info) s.service_map
    → Elem (method, md) info.method_map
    → (let target = path_of (service ∷ method ∷ instance_name to_string ip port ∷ []) in
        (nodes v target ≡ none) ⊎ (nodes v target ≡ some (some (instance_name to_string ip port))))
    → (w' : W) × (run api to_string ip port zook_ip zook_port s w
        ≡ some (
          record s {
            instance_paths =
                s.instance_paths ++ of_services (instance_name to_string ip port) s.service_map;
          },
          w',
        ))
      × IsPublished nodes service method (instance_name to_string ip port) w'
      × (AllData nodes v → AllData nodes w')
unfolding run run_with
run_publishes api nodes laws to_string ip port zook_ip zook_port s w v h creates service method info
      md up room (sn, (mn, (inn, _))) short other all_names in_map in_methods own =
    let inst = instance_name to_string ip port in
    let target = path_of (service ∷ method ∷ inst ∷ []) in
    let (w', runs, grew, found) =
      publish-nodes api nodes laws h creates inst short s.service_map all_names room.valid_dirs
        room.valid_instances service method (sn, (mn, (inn, tt))) s.service_map s.instance_paths v
        (λ t j x. x) room.clear in
    let (has_service, (has_method, (c, there))) = found info md in_map in_methods in
    (
      w',
      rw (up, run_with) (rw (runs, run_with) refl),
      record {
        service_name = sn;
        method_name = mn;
        inst_name = inn;
        short = take-all 128 inst (omega (arith, ltb→lt (length inst) 128 short));
        not_system = other;
        has_service = has_service;
        has_method = has_method;
        has_inst =
            ap (nodes w') (path_of-instance service method inst)
            ∙ elim (grew.own own) [ inl none_eq ↦ cc | inr some_eq ↦ some_eq ];
      },
      grew.full,
    )
