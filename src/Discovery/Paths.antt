-- ===== src/Discovery/Paths.antt =====
-- `split` of src/ServiceDiscovery.cc on the paths of ZooKeeper.
use proto_rpc_multi_reactor.Prelude.{
  ◌≡◌, refl, ◌∙◌, sym, ap, ◌≢◌, false, List, [], ◌∷◌, ◌++◌, append-nil, append_assoc, arith,
  if◌then◌else◌, is_empty, All,
}
use proto_rpc_multi_reactor.Prelude.Text.{Bytes}
use proto_rpc_multi_reactor.Discovery.{slash, split, split_item, method_path}

-- The name of a node: not empty, and without a slash.
abbrev pub IsName : Bytes → Type 0
IsName s = (is_empty s ≡ false) × All (λ b. b ≢ slash) s

-- The path of a list of names: each behind a slash.
abbrev pub path_of : List Bytes → Bytes
path_of [] = []
path_of (p ∷ ps) = (slash ∷ p) ++ path_of ps

split_item-append :
    (item s rest : Bytes)
    → All (λ b. b ≢ slash) s
    → split_item item (s ++ rest) slash ≡ split_item (item ++ s) rest slash
unfolding split_item
split_item-append item [] rest plain = ap (λ i. split_item i rest slash) (sym (append-nil item))
split_item-append item (b ∷ s) rest (other, plain) =
    step
    ∙ split_item-append (item ++ (b ∷ [])) s rest plain
    ∙ ap (λ i. split_item i rest slash) (append_assoc item (b ∷ []) s)
  where
    step : split_item item (b ∷ (s ++ rest)) slash ≡ split_item (item ++ (b ∷ [])) (s ++ rest) slash
    step = ground arith

split_item-path :
    (item : Bytes) (ps : List Bytes)
    → All IsName ps
    → split_item item (path_of ps) slash ≡ (if is_empty item then ps else item ∷ ps)
unfolding split_item
split_item-path item [] names = refl
split_item-path item (p ∷ ps) ((full, plain), names) =
    let rest : split_item [] (p ++ path_of ps) slash ≡ p ∷ ps =
      split_item-append [] p (path_of ps) plain
      ∙ split_item-path p ps names
      ∙ ap (λ e. if e then ps else p ∷ ps) full in
    ap (λ r. if is_empty item then r else item ∷ r) rest

-- A path of names splits into the names.
pub split-path_of : (ps : List Bytes) → All IsName ps → split (path_of ps) slash ≡ ps
unfolding split
split-path_of ps names = split_item-path [] ps names

-- The parts of a method's path.
pub split-method_path :
    (service method : Bytes)
    → IsName service
    → IsName method
    → split (method_path service method) slash ≡ service ∷ method ∷ []
split-method_path service method s m =
    ap (λ p. split ((slash ∷ service) ++ (slash ∷ p)) slash) (sym (append-nil method))
    ∙ split-path_of (service ∷ method ∷ []) (s, (m, tt))
