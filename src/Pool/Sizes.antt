-- ===== src/Pool/Sizes.antt =====
-- The maximal size of the pool of example/MySQLServer/ConnectionPool.h, which no method changes.
use proto_rpc_multi_reactor.Prelude.{
  ℕ, zero, suc, ◌≡◌, refl, sym, ap, subst, ◌∙◌, inl, inr, Bool, [], Option, none, some, ltb, ◌&&◌,
  is_empty, if◌then◌else◌, Bool-cases, List-cases,
}
use proto_rpc_multi_reactor.Pool.{
  Config, push_new, fill, new_pool, start, Mysql, Pool, System, Got, connection, null, waits,
  create_connection, take_front, hand_out, get_connection, release_connection, entered, released,
  give_back, Step, enter, resume, spurious, release, Reach, here, next,
}
use proto_rpc_multi_reactor.Pool.Borrowing.{notify_one-pool}

module _ {W : Type 0} (sql : Mysql W) where
  push_new-max_size : (r : Option ℕ × W) (p : Pool) → (push_new sql r p).0.max_size ≡ p.max_size
  unfolding push_new
  push_new-max_size (none, w) p = refl
  push_new-max_size (some h, w) p = refl

  fill-max_size : (n : ℕ) (p : Pool) (w : W) → (fill sql n p w).0.max_size ≡ p.max_size
  unfolding fill
  fill-max_size zero p w = refl
  fill-max_size (suc n) p w =
      let r = create_connection sql p.config w in
      fill-max_size n (push_new sql r p).0 (push_new sql r p).1 ∙ push_new-max_size r p

  -- At the start nothing is held.
  pub start_unheld :
      (config : Config) (initial_size max_size : ℕ) (w : W)
      → ((start sql config initial_size max_size w).held ≡ [])
        × ((start sql config initial_size max_size w).pool.max_size ≡ max_size)
  unfolding start new_pool
  start_unheld config initial_size max_size w = (refl, fill-max_size initial_size _ w)

  hand_out-max_size : (r : Option ℕ × W) (p : Pool) → (hand_out sql r p).1.max_size ≡ p.max_size
  unfolding hand_out
  hand_out-max_size (none, w) p = refl
  hand_out-max_size (some h, w) p = refl

  take_front-max_size : (p : Pool) (w : W) → (take_front sql p w).1.max_size ≡ p.max_size
  unfolding take_front
  take_front-max_size p w = elim (List-cases p.idle) [
    | inl e ↦ rw (e, take_front) refl
    | inr (h, rest, e) ↦ rw (e, take_front) refl
  ]

  get_connection-max_size : (p : Pool) (w : W) → (get_connection sql p w).1.max_size ≡ p.max_size
  unfolding get_connection
  get_connection-max_size p w =
      let got : Bool → Got × Pool × W =
        λ b. if b then hand_out sql (create_connection sql p.config w) p else take_front sql p w in
      elim (Bool-cases (is_empty p.idle && ltb p.current_count p.max_size)) [
        | inl grow ↦ subst (λ b. (got b).1.max_size ≡ p.max_size) (sym grow) (hand_out-max_size _ p)
        | inr other ↦
            subst (λ b. (got b).1.max_size ≡ p.max_size) (sym other) (take_front-max_size p w)
      ]

  entered-max_size :
      (g : Got × Pool × W) (s : System W) → (entered g s).pool.max_size ≡ g.1.max_size
  unfolding entered
  entered-max_size (connection h, p, w) s = refl
  entered-max_size (null, p, w) s = refl
  entered-max_size (waits, p, w) s = refl

  Step-max_size : (s t : System W) → Step sql s t → t.pool.max_size ≡ s.pool.max_size
  unfolding released release_connection
  Step-max_size s t enter = entered-max_size _ s ∙ get_connection-max_size s.pool s.world
  Step-max_size s t (resume {n = n} e) =
      entered-max_size _ (record s { woken = n }) ∙ take_front-max_size s.pool s.world
  Step-max_size s t (spurious e) = refl
  Step-max_size s t (release h has) =
      ap (λ (p : Pool). p.max_size)
        (notify_one-pool
          (record s { pool = release_connection h s.pool; held = give_back h s.held })).1

  pub Reach-max_size : (s t : System W) → Reach sql s t → t.pool.max_size ≡ s.pool.max_size
  Reach-max_size s t here = refl
  Reach-max_size s t (next {t = u} before step) = Step-max_size u t step ∙ Reach-max_size s u before
