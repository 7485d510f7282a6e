-- ===== src/Prelude/Dict.antt =====
-- `std::map` and `std::unordered_map` as association lists. The order of the entries stands for
-- the order in which the program walks the container.
use proto_rpc_multi_reactor.Prelude.{
  ◌≡◌, refl, ◌≢◌, List, [], ◌∷◌, Option, none, some, arith, if◌then◌else◌, Eq, inl, inr,
  Option-cases,
}

abbrev pub Dict {ℓ κ} : Type ℓ → Type κ → Type (ℓ ⊔ κ)
Dict K V = List (K × V)

module _ {ℓ κ} {K : Type ℓ} {V : Type κ} ⦃e : Eq K⦄ where
  -- `find`, whose `end()` is `none`.
  unfoldable pub lookup : K → Dict K V → Option V
  lookup k [] = none
  lookup k ((j, v) ∷ m) = if e.beq j k then some v else lookup k m

  -- `m[k] = v`.
  unfoldable pub insert : K → V → Dict K V → Dict K V
  insert k v [] = (k, v) ∷ []
  insert k v ((j, w) ∷ m) = if e.beq j k then (k, v) ∷ m else (j, w) ∷ insert k v m

  -- `m.emplace(k, v)`, which keeps an entry that is there.
  unfoldable pub emplace : K → V → Dict K V → Dict K V
  emplace k v [] = (k, v) ∷ []
  emplace k v ((j, w) ∷ m) = if e.beq j k then (j, w) ∷ m else (j, w) ∷ emplace k v m

  -- `m.erase(k)`.
  unfoldable pub erase : K → Dict K V → Dict K V
  erase k [] = []
  erase k ((j, w) ∷ m) = let rest = erase k m in if e.beq j k then rest else (j, w) ∷ rest

  pub lookup-insert :
      (k j : K) (v : V) (m : Dict K V)
      → lookup j (insert k v m) ≡ (if e.beq k j then some v else lookup j m)
  unfolding lookup insert
  lookup-insert k j v [] = refl
  lookup-insert k j v ((i, w) ∷ m) =
      ground (arith, e.beq_iff k j, e.beq_iff i k, e.beq_iff i j, lookup-insert k j v m)

  pub lookup-insert_self : (k : K) (v : V) (m : Dict K V) → lookup k (insert k v m) ≡ some v
  lookup-insert_self k v m = rw (lookup-insert, (e.beq_iff k k).1 refl)

  pub lookup-insert_ne :
      (k j : K) (v : V) (m : Dict K V) → k ≢ j → lookup j (insert k v m) ≡ lookup j m
  lookup-insert_ne k j v m h = rw lookup-insert (ground (arith, e.beq_iff k j))

  pub lookup-emplace :
      (k j : K) (v : V) (m : Dict K V)
      → lookup j (emplace k v m)
        ≡ elim (lookup j m) [ some w ↦ some w | none ↦ if e.beq k j then some v else none ]
  unfolding lookup emplace
  lookup-emplace k j v [] = refl
  lookup-emplace k j v ((i, w) ∷ m) =
      ground (arith, e.beq_iff k j, e.beq_iff i k, e.beq_iff i j, lookup-emplace k j v m)

  pub lookup-emplace_self :
      (k : K) (v : V) (m : Dict K V)
      → lookup k (emplace k v m) ≡ elim (lookup k m) [ some w ↦ some w | none ↦ some v ]
  lookup-emplace_self k v m = elim (Option-cases (lookup k m)) [
    | inl h ↦ rw (lookup-emplace, h, (e.beq_iff k k).1 refl) refl
    | inr (w, h) ↦ rw (lookup-emplace, h) refl
  ]

  pub lookup-erase :
      (k j : K) (m : Dict K V) → lookup j (erase k m) ≡ (if e.beq k j then none else lookup j m)
  unfolding lookup erase
  lookup-erase k j [] = ground arith
  lookup-erase k j ((i, w) ∷ m) =
      ground (arith, e.beq_iff k j, e.beq_iff i k, e.beq_iff i j, lookup-erase k j m)

  pub lookup-erase_self : (k : K) (m : Dict K V) → lookup k (erase k m) ≡ none
  lookup-erase_self k m = rw (lookup-erase, (e.beq_iff k k).1 refl)

  pub lookup-erase_ne : (k j : K) (m : Dict K V) → k ≢ j → lookup j (erase k m) ≡ lookup j m
  lookup-erase_ne k j m h = rw lookup-erase (ground (arith, e.beq_iff k j))

  pub lookup-erase-none : (k j : K) (m : Dict K V) → lookup j m ≡ none → lookup j (erase k m) ≡ none
  lookup-erase-none k j m h = rw lookup-erase (ground arith)
