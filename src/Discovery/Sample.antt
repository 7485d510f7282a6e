-- ===== src/Discovery/Sample.antt =====
-- A small ZooKeeper for the runs: a dictionary of nodes by their paths. It keeps the laws of the
-- tree.
use proto_rpc_multi_reactor.Prelude.{
  ℕ, ◌≡◌, ◌≢◌, refl, sym, ap, subst, ◌∙◌, ◌⊎◌, inl, inr, Bool, true, false, List, [], ◌∷◌, ◌++◌,
  Option, none, some, take, arith, ◌==◌, ==_iff, ◌&&◌, if◌then◌else◌, is_empty, length, take-all,
  All, Elem, Option-cases, Bool-cases,
}
use proto_rpc_multi_reactor.Prelude.Text.{Bytes, bytes_eq, bytes_eq_iff, Bytes_eq}
use proto_rpc_multi_reactor.Prelude.Dict.{Dict, lookup, insert, lookup-insert, lookup-insert_self}
use proto_rpc_multi_reactor.Zookeeper.{Api, Mode, Code, zok}
use proto_rpc_multi_reactor.Discovery.{slash}
use proto_rpc_multi_reactor.Discovery.Paths.{IsName}
use proto_rpc_multi_reactor.Discovery.Tree.{Nodes, Same, Exists, Lists, TreeLaws, HasData, AllData}

abbrev pub Tree : Type 0
Tree = Dict Bytes (Option Bytes)

-- What follows a prefix.
abbrev strip : Bytes → Bytes → Option Bytes
strip [] q = some q
strip (a ∷ p) [] = none
strip (a ∷ p) (b ∷ q) = if a == b then strip p q else none

abbrev has_no_slash : Bytes → Bool
has_no_slash [] = true
has_no_slash (b ∷ bs) = if b == slash then false else has_no_slash bs

-- The name of the node `q`, if it is directly below `p`.
abbrev name_of : Option Bytes → Option Bytes
name_of none = none
name_of (some []) = none
name_of (some (b ∷ n)) =
    if b == slash && (if is_empty n then false else has_no_slash n) then some n else none

abbrev names_below : Bytes → Tree → List Bytes
names_below p [] = []
names_below p ((q, c) ∷ m) = elim (name_of (strip p q)) [
  | none ↦ names_below p m
  | some n ↦ n ∷ names_below p m
]

-- Whether the node above a path is there; the root always is.
abbrev pub is_below : Bytes → Bytes → Bool
is_below p q = elim (name_of (strip p q)) [ none ↦ false | some n ↦ true ]

abbrev pub has_parent : Bytes → Tree → Bool
has_parent q [] = is_below [] q
has_parent q ((p, c) ∷ m) = if is_below p q then true else has_parent q m

abbrev pub zookeeper : Api Tree
zookeeper = record {
  init = λ connection w. (some 1, w);
  close = λ h w. w;
  exists = λ z p w. elim (lookup p w) [ none ↦ Code.znonode | some c ↦ zok ];
  create = λ z p c mode w. if has_parent p w then (zok, insert p (some c) w) else (Code.znonode, w);
  delete = λ z p w. (zok, w);
  get = λ z p w. (zok, elim (lookup p w) [ some (some c) ↦ take 64 (c ++ (0 ∷ [])) | _ ↦ [] ]);
  get_children = λ z p w. (zok, names_below (if bytes_eq p (slash ∷ []) then [] else p) w);
  wget_children = λ z p w. (some (names_below p w), w);
  wget = λ z p w. elim (lookup p w) [
    | none ↦ ([], none, w)
    | some none ↦ ([], none, w)
    | some (some c) ↦ (take 128 c, some (length (take 128 c)), w)
  ];
}

abbrev pub nodes : Nodes Tree
nodes w p = lookup p w

strip-append : (p r : Bytes) → strip p (p ++ r) ≡ some r
strip-append [] r = refl
strip-append (a ∷ p) r = rw ((==_iff a a).1 refl) (strip-append p r)

strip-some : (p q r : Bytes) → strip p q ≡ some r → q ≡ p ++ r
strip-some [] q r e = ground arith
strip-some (a ∷ p) [] r e = cc
strip-some (a ∷ p) (b ∷ q) r e = elim (Bool-cases (a == b)) [
  | inl same ↦
      let ab : a ≡ b = (==_iff a b).0 same in
      let rest : q ≡ p ++ r = strip-some p q r (rw same at e) in
      ap (λ x. x ∷ q) (sym ab) ∙ ap (λ l. a ∷ l) rest
  | inr other ↦ cc
]

pub no_slash-All : (n : Bytes) → has_no_slash n ≡ true → All (λ b. b ≢ slash) n
no_slash-All [] e = tt
no_slash-All (b ∷ n) e = elim (Bool-cases (b == slash)) [
  | inl same ↦ let e' = rw same at e in cc
  | inr other ↦ (ground arith, no_slash-All n (rw other at e))
]

All-no_slash : (n : Bytes) → All (λ b. b ≢ slash) n → has_no_slash n ≡ true
All-no_slash [] all = refl
All-no_slash (b ∷ n) (other, all) =
    let ne : (b == slash) ≡ false = ground arith in rw ne (All-no_slash n all)

name_of-some :
    (r : Option Bytes) (n : Bytes) → name_of r ≡ some n → IsName n × (r ≡ some (slash ∷ n))
name_of-some none n e = cc
name_of-some (some []) n e = cc
name_of-some (some (b ∷ k)) n e =
    elim (Bool-cases (b == slash && (if is_empty k then false else has_no_slash k))) [
      | inl both ↦
          let same : b ≡ slash = (==_iff b slash).0 (ground arith) in
          let plain : has_no_slash k ≡ true = ground arith in
          let full : is_empty k ≡ false = ground arith in
          let k_eq : some k ≡ some n = rw both at e in
          let n_eq : k ≡ n = cc in
          (
            subst IsName n_eq (full, no_slash-All k plain),
            ap (λ x. some (x ∷ k)) same ∙ ap (λ x. some (slash ∷ x)) n_eq,
          )
      | inr other ↦ let e' = rw other at e in cc
    ]

name_of-IsName : (n : Bytes) → IsName n → name_of (some (slash ∷ n)) ≡ some n
name_of-IsName n (full, plain) = rw (full, All-no_slash n plain) refl

-- The names are names, of paths with a property that all keys have.
names_below-All :
    (P : Bytes → Type 0) (p : Bytes) (m : Tree)
    → All (λ (e : Bytes × Option Bytes). P e.0) m
    → All (λ n. IsName n × P (p ++ (slash ∷ n))) (names_below p m)
names_below-All P p [] all = tt
names_below-All P p ((q, c) ∷ m) (here, all) = elim (Option-cases (name_of (strip p q))) [
  | inl e ↦ rw (e, All) (names_below-All P p m all)
  | inr (n, e) ↦
      let (plain, got) = name_of-some (strip p q) n e in
      let q_eq : q ≡ p ++ (slash ∷ n) = strip-some p q (slash ∷ n) got in
      rw (e, All) ((plain, subst P q_eq here), names_below-All P p m all)
]

lookup-names_below :
    (p n : Bytes) (c : Option Bytes) (m : Tree)
    → IsName n
    → lookup (p ++ (slash ∷ n)) m ≡ some c
    → Elem n (names_below p m)
unfolding lookup
lookup-names_below p n c [] plain e = cc
lookup-names_below p n c ((q, d) ∷ m) plain e = elim (Bool-cases (bytes_eq q (p ++ (slash ∷ n)))) [
  | inl same ↦
      let q_eq : q ≡ p ++ (slash ∷ n) = (bytes_eq_iff q (p ++ (slash ∷ n))).0 same in
      rw q_eq (rw (strip-append p (slash ∷ n), Elem) (rw (name_of-IsName n plain, Elem) (inl refl)))
  | inr other ↦
      let rest : Elem n (names_below p m) = lookup-names_below p n c m plain (rw other at e) in
      elim (Option-cases (name_of (strip p q))) [
        | inl none_eq ↦ rw (none_eq, Elem) rest
        | inr (k, some_eq) ↦ rw (some_eq, Elem) (inr rest)
      ]
]

Exists-cons :
    (q : Bytes) (c : Option Bytes) (m rest : Tree)
    → All (λ (e : Bytes × Option Bytes). Exists nodes m e.0) rest
    → All (λ (e : Bytes × Option Bytes). Exists nodes ((q, c) ∷ m) e.0) rest
unfolding lookup
Exists-cons q c m [] all = tt
Exists-cons q c m ((p, d) ∷ rest) ((b, e), all) = (
  elim (Bool-cases (bytes_eq q p)) [ inl same ↦ (c, rw same refl) | inr other ↦ (b, rw other e) ],
  Exists-cons q c m rest all,
)

keys-Exists : (m : Tree) → All (λ (e : Bytes × Option Bytes). Exists nodes m e.0) m
unfolding lookup
keys-Exists [] = tt
keys-Exists ((q, c) ∷ m) =
    ((c, rw ((bytes_eq_iff q q).1 refl) refl), Exists-cons q c m m (keys-Exists m))

names_below-Lists : (p : Bytes) (w : Tree) → Lists nodes w p (names_below p w)
names_below-Lists p w = (
  names_below-All (Exists nodes w) p w (keys-Exists w),
  λ n c plain e. lookup-names_below p n c w plain e,
)

exists_some :
    (h : ℕ) (p : Bytes) (c : Option Bytes) (w : Tree)
    → nodes w p ≡ some c
    → zookeeper.exists (some h) p w ≡ zok
exists_some h p c w e =
    ap (λ (o : Option (Option Bytes)). elim o [ none ↦ Code.znonode | some c ↦ zok ]) e

exists_none :
    (h : ℕ) (p : Bytes) (w : Tree) → nodes w p ≡ none → zookeeper.exists (some h) p w ≡ Code.znonode
exists_none h p w e =
    ap (λ (o : Option (Option Bytes)). elim o [ none ↦ Code.znonode | some c ↦ zok ]) e

create_one :
    (h : ℕ) (p c : Bytes) (mode : Mode) (w w' : Tree)
    → zookeeper.create (some h) p c mode w ≡ (zok, w')
    → (nodes w' p ≡ some (some c)) × ((q : Bytes) → (q ≡ p) ⊎ (nodes w' q ≡ nodes w q))
create_one h p c mode w w' e = elim (Bool-cases (has_parent p w)) [
  | inr orphan ↦ let f = rw orphan at e in cc
  | inl parent ↦
      let w_eq : insert p (some c) w ≡ w' = ap (λ (r : Code × Tree). r.1) (rw parent at e) in
      (
        ap (lookup p) (sym w_eq) ∙ lookup-insert_self p (some c) w,
        λ q. elim (Bool-cases (bytes_eq p q)) [
          | inl same ↦ inl (sym ((bytes_eq_iff p q).0 same))
          | inr other ↦ inr (
              ap (lookup q) (sym w_eq)
              ∙ lookup-insert p q (some c) w
              ∙ ap (λ b. if b then some (some c) else lookup q w) other)
        ],
      )
]

children_of :
    (h : ℕ) (p : Bytes) (w : Tree)
    → p ≢ slash ∷ []
    → Exists nodes w p
    → (names : List Bytes) × (zookeeper.get_children (some h) p w ≡ (zok, names))
      × Lists nodes w p names
children_of h p w other e =
    let ne : bytes_eq p (slash ∷ []) ≡ false = ground (arith, bytes_eq_iff p (slash ∷ [])) in
    (names_below p w, rw ne refl, names_below-Lists p w)

watched_data :
    (h : ℕ) (p c : Bytes) (w : Tree)
    → nodes w p ≡ some (some c)
    → (buf : Bytes) × (n : ℕ) × (w' : Tree) × (zookeeper.wget (some h) p w ≡ (buf, some n, w'))
      × (take n buf ≡ take 128 c)
      × Same nodes w w'
watched_data h p c w e = (
  take 128 c,
  length (take 128 c),
  w,
  rw (e, zookeeper) refl,
  take-all _ (take 128 c) (omega arith),
  λ q. refl,
)

-- The dictionary is a tree of nodes.
pub zookeeper-TreeLaws : TreeLaws zookeeper nodes
zookeeper-TreeLaws = record {
  is_valid = λ p. true;
  init_same = λ connection w q. refl;
  exists_some = exists_some;
  exists_none = λ h p w valid e. exists_none h p w e;
  create_one = create_one;
  children_of_root = λ h w. (names_below [] w, refl, names_below-Lists [] w);
  children_of = children_of;
  watched_children = λ h p w e. (names_below p w, w, refl, names_below-Lists p w, λ q. refl);
  watched_data = watched_data;
}

-- All nodes of a tree have data.
abbrev all_full : Tree → Bool
all_full [] = true
all_full ((p, none) ∷ m) = false
all_full ((p, some c) ∷ m) = all_full m

pub all_full-AllData : (w : Tree) → all_full w ≡ true → AllData nodes w
unfolding lookup
all_full-AllData [] e p f = cc
all_full-AllData ((q, none) ∷ m) e p f = cc
all_full-AllData ((q, some c) ∷ m) e p f = elim (Bool-cases (bytes_eq q p)) [
  | inl same ↦ let g : some (some c) ≡ some none = rw same at f in cc
  | inr other ↦ all_full-AllData m e p (rw other at f)
]

pub is_below-child : (p n : Bytes) → IsName n → is_below p (p ++ (slash ∷ n)) ≡ true
is_below-child p n named =
    ap (λ r. elim (name_of r) [ none ↦ false | some k ↦ true ]) (strip-append p (slash ∷ n))
    ∙ ap (λ o. elim o [ none ↦ false | some k ↦ true ]) (name_of-IsName n named)

pub has_parent-root : (q : Bytes) (m : Tree) → is_below [] q ≡ true → has_parent q m ≡ true
has_parent-root q [] e = e
has_parent-root q ((p, c) ∷ m) e = elim (Bool-cases (is_below p q)) [
  | inl below ↦ rw below refl
  | inr other ↦ rw other (has_parent-root q m e)
]

pub has_parent-lookup :
    (p q : Bytes) (c : Option Bytes) (m : Tree)
    → lookup p m ≡ some c
    → is_below p q ≡ true
    → has_parent q m ≡ true
unfolding lookup
has_parent-lookup p q c [] e below = cc
has_parent-lookup p q c ((r, d) ∷ m) e below = elim (Bool-cases (is_below r q)) [
  | inl above ↦ rw above refl
  | inr other ↦ rw other (elim (Bool-cases (bytes_eq r p)) [
    | inl same ↦
        let r_eq : r ≡ p = (bytes_eq_iff r p).0 same in
        let no : is_below p q ≡ false = subst (λ x. is_below x q ≡ false) r_eq other in cc
    | inr differs ↦ has_parent-lookup p q c m (rw differs at e) below
  ])
]

pub all_full-HasData : (w : Tree) (p : Bytes) → all_full w ≡ true → HasData nodes w p
all_full-HasData w p e = (all_full-AllData w e p, λ n. all_full-AllData w e (p ++ (slash ∷ n)))

-- The sample admits all paths.
pub all_valid : (q : Bytes) → zookeeper-TreeLaws.is_valid q ≡ true
unfolding zookeeper-TreeLaws
all_valid q = refl
