-- ===== src/Wire/Loop.antt =====
-- The loop `while (!ctx->Done(&ptr))` of a generated `_InternalParse`, over the function that
-- reads one field. Fuel counts the rounds; every round takes a byte, so the length of the input
-- is enough.
use proto_rpc_multi_reactor.Prelude.{
  ℕ, zero, suc, ◌≤◌, ◌<◌, ◌≡◌, refl, ◌≢◌, ◌⊎◌, inl, inr, Bool, true, false, [], ◌∷◌, arith, length,
  is_empty,
}
use proto_rpc_multi_reactor.Prelude.Text.{Bytes}

-- One round: on to the next field; out of the loop with a last tag; or a null pointer.
pub data Step (M : Type 0) : Type 0 where
  next : M → Bytes → Step M
  stop : M → ℕ → Bytes → Step M
  fail : Step M

-- What `_InternalParse` leaves: the end of the input, a last tag, or a null pointer. `stuck` is
-- the end of the fuel.
pub data Outcome (M : Type 0) : Type 0 where
  ended : M → Outcome M
  stopped : M → ℕ → Bytes → Outcome M
  failed stuck : Outcome M

module _ {M : Type 0} (done : Bytes → Bool) (field : M → Bytes → Step M) where
  unfoldable pub parse_loop : ℕ → M → Bytes → Outcome M
  parse_loop zero m s = elim (done s) [ true ↦ ended m | false ↦ stuck ]
  parse_loop (suc fuel) m s = elim (done s) [
    | true ↦ ended m
    | false ↦ elim (field m s) [
      | next m' r ↦ parse_loop fuel m' r
      | stop m' t r ↦ stopped m' t r
      | fail ↦ failed
    ]
  ]

  -- A run of the loop to the end of the input, with no count of its rounds.
  pub data Parses (m' : M) : M → Bytes → Type 0 where
    finish : {s : Bytes} → done s ≡ true → Parses m' m' s
    round :
        {m n : M} {s r : Bytes}
        → done s ≡ false
        → field m s ≡ next n r
        → length r < length s
        → Parses m' n r
        → Parses m' m s

  pub parse_loop-Parses :
      {m' m : M} {s : Bytes}
      → Parses m' m s
      → (fuel : ℕ) → length s ≤ fuel
      → parse_loop fuel m s ≡ ended m'
  unfolding parse_loop
  parse_loop-Parses (finish d) zero h = rw (d, parse_loop)
  parse_loop-Parses (finish d) (suc fuel) h = rw (d, parse_loop)
  parse_loop-Parses (round d e l p) zero h = absurd (omega arith)
  parse_loop-Parses (round d e l p) (suc fuel) h =
      rw (d, e, parse_loop) (parse_loop-Parses p fuel (omega arith))

  Step-cases :
      (t : Step M)
      → ((m : M) × (r : Bytes) × (t ≡ next m r))
        ⊎ ((m : M) × (k : ℕ) × (r : Bytes) × (t ≡ stop m k r))
        ⊎ (t ≡ fail)
  Step-cases (next m r) = inl (m, r, refl)
  Step-cases (stop m k r) = inr (inl (m, k, r, refl))
  Step-cases fail = inr (inr refl)

  -- If every round takes a byte, the loop ends before its fuel does.
  pub parse_loop-ne-stuck :
      ((s : Bytes) → done s ≡ is_empty s)
      → ((m n : M) (s r : Bytes) → field m s ≡ next n r → length r < length s)
      → (fuel : ℕ) (m : M) (s : Bytes) → length s ≤ fuel
      → parse_loop fuel m s ≢ stuck
  unfolding parse_loop
  parse_loop-ne-stuck d f zero m [] h = rw (d [], parse_loop) (λ e. cc)
  parse_loop-ne-stuck d f zero m (b ∷ s) h = absurd (omega arith)
  parse_loop-ne-stuck d f (suc fuel) m [] h = rw (d [], parse_loop) (λ e. cc)
  parse_loop-ne-stuck d f (suc fuel) m (b ∷ s) h = elim (Step-cases (field m (b ∷ s))) [
    | inl (n, r, e) ↦
        rw (d (b ∷ s), e, parse_loop)
          (parse_loop-ne-stuck d f fuel n r (omega (arith, f m n (b ∷ s) r e)))
    | inr (inl (n, k, r, e)) ↦ rw (d (b ∷ s), e, parse_loop) (λ p. cc)
    | inr (inr e) ↦ rw (d (b ∷ s), e, parse_loop) (λ p. cc)
  ]
