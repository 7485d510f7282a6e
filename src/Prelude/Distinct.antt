-- ===== src/Prelude/Distinct.antt =====
-- Dictionaries whose keys are distinct, and how many entries they have.
use proto_rpc_multi_reactor.Prelude.{
  suc, ◌≡◌, refl, ap, ◌∙◌, ◌≢◌, inl, inr, [], ◌∷◌, none, some, arith, Eq, Bool-cases, length,
}
use proto_rpc_multi_reactor.Prelude.Dict.{
  Dict, lookup, insert, erase, lookup-insert_ne, lookup-erase-none,
}

module _ {K V : Type 0} ⦃e : Eq K⦄ where
  abbrev pub Distinct : Dict K V → Type 0
  Distinct [] = Unit
  Distinct ((k, v) ∷ m) = (lookup k m ≡ none) × Distinct m

  pub insert-Distinct : (k : K) (v : V) (m : Dict K V) → Distinct m → Distinct (insert k v m)
  unfolding insert lookup
  insert-Distinct k v [] d = (refl, tt)
  insert-Distinct k v ((j, w) ∷ m) (fresh, d) = elim (Bool-cases (e.beq j k)) [
    | inl same ↦
        let k_eq : j ≡ k = (e.beq_iff j k).0 same in
        let fresh' : lookup k m ≡ none = rw k_eq at fresh in rw (same, Distinct) (fresh', d)
    | inr other ↦
        let ne : k ≢ j = ground (arith, e.beq_iff j k) in
        rw (other, Distinct) (lookup-insert_ne k j v m ne ∙ fresh, insert-Distinct k v m d)
  ]

  pub length-insert_fresh :
      (k : K) (v : V) (m : Dict K V) → lookup k m ≡ none → length (insert k v m) ≡ suc (length m)
  unfolding insert lookup
  length-insert_fresh k v [] h = refl
  length-insert_fresh k v ((j, w) ∷ m) h = elim (Bool-cases (e.beq j k)) [
    | inl same ↦ let h' = rw same at h in cc
    | inr other ↦ rw (other, length) (ap (λ n. suc n) (length-insert_fresh k v m (rw other at h)))
  ]

  pub erase-Distinct : (k : K) (m : Dict K V) → Distinct m → Distinct (erase k m)
  unfolding erase
  erase-Distinct k [] d = tt
  erase-Distinct k ((j, w) ∷ m) (fresh, d) = elim (Bool-cases (e.beq j k)) [
    | inl same ↦ rw (same, Distinct) (erase-Distinct k m d)
    | inr other ↦ rw (other, Distinct) (lookup-erase-none k j m fresh, erase-Distinct k m d)
  ]

  pub length-erase_fresh :
      (k : K) (m : Dict K V) → lookup k m ≡ none → length (erase k m) ≡ length m
  unfolding erase lookup
  length-erase_fresh k [] h = refl
  length-erase_fresh k ((j, w) ∷ m) h = elim (Bool-cases (e.beq j k)) [
    | inl same ↦ let h' = rw same at h in cc
    | inr other ↦ rw (other, length) (ap (λ n. suc n) (length-erase_fresh k m (rw other at h)))
  ]

  pub length-erase :
      (k : K) (v : V) (m : Dict K V)
      → Distinct m
      → lookup k m ≡ some v
      → suc (length (erase k m)) ≡ length m
  unfolding erase lookup
  length-erase k v [] d h = cc
  length-erase k v ((j, w) ∷ m) (fresh, d) h = elim (Bool-cases (e.beq j k)) [
    | inl same ↦
        let k_eq : j ≡ k = (e.beq_iff j k).0 same in
        let fresh' : lookup k m ≡ none = rw k_eq at fresh in
        rw (same, length) (ap (λ n. suc n) (length-erase_fresh k m fresh'))
    | inr other ↦ rw (other, length) (ap (λ n. suc n) (length-erase k v m d (rw other at h)))
  ]
