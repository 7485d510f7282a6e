-- ===== src/Pool/Borrowing.antt =====
-- A thread that takes a connection of example/MySQLServer/ConnectionPool.h and gives it back.
use proto_rpc_multi_reactor.Prelude.{
  ℕ, zero, suc, ◌+◌, ◌≤◌, ◌<◌, ◌≡◌, refl, sym, ap, subst, ◌∙◌, inl, inr, Bool, true, List, ◌∷◌,
  Option, none, some, arith, ltb, ◌==◌, ==_iff, ℕ-cases, ◌&&◌, is_empty, if◌then◌else◌, length,
  lt→ltb, Bool-cases, List-cases,
}
use proto_rpc_multi_reactor.Pool.Ledger.{bit, count-give_back}
use proto_rpc_multi_reactor.Pool.{
  Config, start, Mysql, Pool, System, Got, connection, null, waits, give_back, count,
  create_connection, take_front, hand_out, get_connection, release_connection, notify_one, entered,
  released,
}

give_back-front : (h : ℕ) (held : List ℕ) → give_back h (h ∷ held) ≡ held
unfolding give_back
give_back-front h held = rw ((==_iff h h).1 refl) refl

module _ {W : Type 0} where
  pub notify_one-pool :
      (s : System W) → ((notify_one s).held ≡ s.held) × ((notify_one s).pool ≡ s.pool)
  unfolding notify_one
  notify_one-pool s =
      elim s.blocked
        as (λ b.
          ((elim b as (λ _. System W) [
            | zero ↦ s
            | suc n ↦ record s { blocked = n; woken = s.woken + 1 }
          ]).held
            ≡ s.held)
          × ((elim b as (λ _. System W) [
            | zero ↦ s
            | suc n ↦ record s { blocked = n; woken = s.woken + 1 }
          ]).pool
              ≡ s.pool)) [ zero ↦ (refl, refl) | suc n ↦ (refl, refl) ]

  -- A connection that was taken and given back is not held, and the pool's size stays.
  pub given_back :
      (h : ℕ) (p : Pool) (w : W) (s : System W)
      → ((released h (entered (connection h, p, w) s)).held ≡ s.held)
        × ((released h (entered (connection h, p, w) s)).pool.max_size ≡ p.max_size)
  unfolding entered released release_connection
  given_back h p w s =
      let (held_eq, pool_eq) =
        notify_one-pool (record s {
          pool = release_connection h p;
          world = w;
          held = give_back h (h ∷ s.held);
        }) in
      (held_eq ∙ give_back-front h s.held, ap (λ (p : Pool). p.max_size) pool_eq)

  pub held_front :
      (h : ℕ) (p : Pool) (w : W) (s : System W) → 0 < count h (entered (connection h, p, w) s).held
  unfolding entered count
  held_front h p w s = rw ((==_iff h h).1 refl) (omega arith)

pub entered_null :
    {W : Type 0} (p : Pool) (w : W) (s : System W)
    → ((entered (null, p, w) s).held ≡ s.held) × ((entered (null, p, w) s).pool ≡ p)
unfolding entered
entered_null p w s = (refl, refl)

module _ {W : Type 0} (sql : Mysql W) where
  pub start_unwaited :
      (config : Config) (initial_size max_size : ℕ) (w : W)
      → (start sql config initial_size max_size w).blocked
          + (start sql config initial_size max_size w).woken
        ≡ 0
  unfolding start
  start_unwaited config initial_size max_size w = omega arith

  -- While nothing is held and the pool may have a connection, `getConnection` does not wait.
  abbrev pub Answers : ℕ → Got × Pool × W → Type 0
  Answers max (connection h, p, w) = p.max_size ≡ max
  Answers max (null, p, w) = p.max_size ≡ max
  Answers max (waits, p, w) = ⊥

  hand_out-Answers : (p : Pool) (r : Option ℕ × W) → Answers p.max_size (hand_out sql r p)
  unfolding hand_out
  hand_out-Answers p (none, w) = refl
  hand_out-Answers p (some h, w) = refl

  pub get_connection-Answers :
      (p : Pool) (w : W)
      → p.current_count ≡ length p.idle
      → 1 ≤ p.max_size
      → Answers p.max_size (get_connection sql p w)
  unfolding get_connection take_front
  get_connection-Answers p w counted some_size =
      let got : Bool → Got × Pool × W =
        λ b. if b then hand_out sql (create_connection sql p.config w) p else take_front sql p w in
      elim (Bool-cases (is_empty p.idle && ltb p.current_count p.max_size)) [
        | inl grow ↦
            subst (λ b. Answers p.max_size (got b)) (sym grow)
              (hand_out-Answers p (create_connection sql p.config w))
        | inr other ↦
            subst (λ b. Answers p.max_size (got b)) (sym other)
              (elim (List-cases p.idle) [
                | inl e ↦
                    let room : (is_empty p.idle && ltb p.current_count p.max_size) ≡ true =
                      rw e
                        (lt→ltb p.current_count p.max_size (omega (arith, counted, ap length e))) in
                    cc
                | inr (h, rest, e) ↦ rw (e, take_front, Answers) refl
              ])
      ]

-- What a thread holds and how many wait, by what `getConnection` gave.
abbrev pub taken : {W : Type 0} → ℕ → Got × Pool × W → ℕ
taken j (connection h, p, w) = bit (h == j)
taken j (null, p, w) = 0
taken j (waits, p, w) = 0

abbrev pub waiting_bit : {W : Type 0} → Got × Pool × W → ℕ
waiting_bit (connection h, p, w) = 0
waiting_bit (null, p, w) = 0
waiting_bit (waits, p, w) = 1

module _ {W : Type 0} where
  notify_one-waiting :
      (s : System W) → (notify_one s).blocked + (notify_one s).woken ≡ s.blocked + s.woken
  unfolding notify_one
  notify_one-waiting s = elim (ℕ-cases s.blocked) [
    | inl e ↦ rw (e, notify_one) (omega (arith, e))
    | inr (n, e) ↦ rw (e, notify_one) (omega (arith, e))
  ]

  pub entered_tally :
      (g : Got × Pool × W) (s : System W)
      → ((j : ℕ) → count j (entered g s).held ≡ taken j g + count j s.held)
        × ((entered g s).blocked ≡ s.blocked + waiting_bit g)
        × ((entered g s).woken ≡ s.woken)
  unfolding entered count
  entered_tally (connection h, p, w) s = (λ j. ground arith, omega arith, refl)
  entered_tally (null, p, w) s = (λ j. omega arith, omega arith, refl)
  entered_tally (waits, p, w) s = (λ j. omega arith, refl, refl)

  pub released_tally :
      (h : ℕ) (s : System W)
      → 0 < count h s.held
      → ((j : ℕ) → count j (released h s).held + bit (h == j) ≡ count j s.held)
        × ((released h s).blocked + (released h s).woken ≡ s.blocked + s.woken)
  unfolding released release_connection
  released_tally h s has =
      let given : System W = record s {
        pool = release_connection h s.pool;
        held = give_back h s.held;
      } in
      (
        λ j. omega (arith, ap (count j) (notify_one-pool given).0, count-give_back h j s.held has),
        notify_one-waiting given,
      )
