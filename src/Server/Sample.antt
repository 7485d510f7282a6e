-- ===== src/Server/Sample.antt =====
-- The small ZooKeeper of the runs as one where a server may create nodes.
use proto_rpc_multi_reactor.Prelude.{
  ℕ, ◌≡◌, refl, sym, ap, ◌∙◌, inl, inr, Bool, true, false, [], ◌∷◌, ◌++◌, Option, none, some, ◌⊎◌,
  Bool-cases, Option-cases, if◌then◌else◌,
}
use proto_rpc_multi_reactor.Prelude.Text.{Bytes, bytes_eq, Bytes_eq}
use proto_rpc_multi_reactor.Prelude.Dict.{lookup, insert, lookup-insert, lookup-insert_self}
use proto_rpc_multi_reactor.Zookeeper.{Code, Mode, persistent, zok}
use proto_rpc_multi_reactor.Discovery.{slash}
use proto_rpc_multi_reactor.Discovery.Paths.{IsName}
use proto_rpc_multi_reactor.Discovery.Sample.{
  Tree, zookeeper, nodes, zookeeper-TreeLaws, has_parent, is_below-child, has_parent-root,
  has_parent-lookup,
}
use proto_rpc_multi_reactor.Server.Creating.{CreateLaws}

abbrev found : Option (Option Bytes) → Bool
found none = false
found (some c) = true

-- No node of the sample is ephemeral.
is_there : Tree → Bytes → Bool
is_there w [] = true
is_there w (b ∷ p) = found (lookup (b ∷ p) w)

is_there-some :
    (w : Tree) (p : Bytes) (c : Option Bytes) → lookup p w ≡ some c → is_there w p ≡ true
unfolding is_there
is_there-some w [] c e = refl
is_there-some w (b ∷ p) c e = ap found e

is_there-has_parent :
    (p n : Bytes) (w : Tree)
    → is_there w p ≡ true
    → IsName n
    → has_parent (p ++ (slash ∷ n)) w ≡ true
unfolding is_there
is_there-has_parent [] n w there named = has_parent-root (slash ∷ n) w (is_below-child [] n named)
is_there-has_parent (b ∷ p) n w there named = elim (Option-cases (lookup (b ∷ p) w)) [
  | inl e ↦ let f = sym (ap found e) ∙ there in cc
  | inr (c, e) ↦
      has_parent-lookup (b ∷ p) ((b ∷ p) ++ (slash ∷ n)) c w e (is_below-child (b ∷ p) n named)
]

made :
    (p c : Bytes) (mode : Mode) (w : Tree)
    → has_parent p w ≡ true
    → zookeeper.create (some 1) p c mode w ≡ (zok, insert p (some c) w)
made p c mode w e = rw e refl

made_eq :
    (h : ℕ) (p c : Bytes) (mode : Mode) (w w' : Tree)
    → zookeeper.create (some h) p c mode w ≡ (zok, w')
    → insert p (some c) w ≡ w'
made_eq h p c mode w w' e = elim (Bool-cases (has_parent p w)) [
  | inl parent ↦ ap (λ (r : Code × Tree). r.1) (rw parent at e)
  | inr orphan ↦ let f = rw orphan at e in cc
]

insert-is_there :
    (p q : Bytes) (c : Option Bytes) (w : Tree)
    → is_there w q ≡ true
    → is_there (insert p c w) q ≡ true
unfolding is_there
insert-is_there p [] c w there = refl
insert-is_there p (b ∷ q) c w there = elim (Bool-cases (bytes_eq p (b ∷ q))) [
  | inl same ↦
      is_there-some (insert p c w) (b ∷ q) c
        (lookup-insert p (b ∷ q) c w ∙ ap (λ x. if x then some c else lookup (b ∷ q) w) same)
  | inr other ↦
      ap found
        (lookup-insert p (b ∷ q) c w ∙ ap (λ x. if x then some c else lookup (b ∷ q) w) other)
      ∙ there
]

pub zookeeper-CreateLaws : CreateLaws zookeeper nodes zookeeper-TreeLaws 1
unfolding is_there
zookeeper-CreateLaws = record {
  is_lasting = is_there;
  root_lasting = λ w. refl;
  create_some = λ p n c mode w there named valid new.
      (_, made (p ++ (slash ∷ n)) c mode w (is_there-has_parent p n w there named));
  create_lasting = λ p c w w' e.
      ap (λ x. is_there x p) (sym (made_eq 1 p c persistent w w' e))
      ∙ is_there-some (insert p (some c) w) p (some c) (lookup-insert_self p (some c) w);
  create_keeps = λ p c mode w w' q e there.
      ap (λ x. is_there x q) (sym (made_eq 1 p c mode w w' e))
      ∙ insert-is_there p q (some c) w there;
}

pub is_clear :
    (w : Tree) (q : Bytes) → (nodes w q ≡ none) ⊎ (zookeeper-CreateLaws.is_lasting w q ≡ true)
unfolding zookeeper-CreateLaws
is_clear w q = elim (Option-cases (lookup q w)) [
  | inl e ↦ inl e
  | inr (c, e) ↦ inr (is_there-some w q c e)
]
