-- ===== src/Pool/Waiting.antt =====
-- example/MySQLServer/ConnectionPool.h: the threads that wait on `cond_`, and who wakes them.
use proto_rpc_multi_reactor.Prelude.{
  ℕ, suc, ◌+◌, ◌≤◌, ◌<◌, ◌≡◌, refl, inl, inr, false, List, [], ◌∷◌, Option, none, some, ap, arith,
  ltb, ◌&&◌, is_empty, length, length-append, Bool-cases, List-cases, ℕ-cases,
}
use proto_rpc_multi_reactor.Pool.{
  Config, Mysql, Pool, System, Got, connection, null, waits, count, create_connection, take_front,
  hand_out, get_connection, release_connection, notify_one, entered, released, Step, enter, resume,
  spurious, release, start, Reach, here, next,
}
use proto_rpc_multi_reactor.Pool.Ledger.{MysqlLaws}
use proto_rpc_multi_reactor.Pool.Invariant.{pool_sound}

-- While a thread waits, each idle connection has a notified thread that will take it; and a thread
-- waits, or was notified, only when the pool is at its maximal size.
pub record Awake (p : Pool) (blocked woken : ℕ) : Type 0 where
  pub taken : 0 < blocked → length p.idle ≤ woken
  pub full : 0 < blocked + woken → p.max_size ≤ p.current_count

module _ {W : Type 0} (sql : Mysql W) where
  abbrev After : Got × Pool × W → ℕ → ℕ → Type 0
  After (connection h, p, w) blocked woken = Awake p blocked woken
  After (null, p, w) blocked woken = Awake p blocked woken
  After (waits, p, w) blocked woken = Awake p (blocked + 1) woken

  take_front-Awake :
      (p : Pool) (w : W) (blocked woken : ℕ)
      → (0 < blocked → length p.idle ≤ woken + 1)
      → (0 < blocked + woken → p.max_size ≤ p.current_count)
      → (length p.idle ≡ 0 → p.max_size ≤ p.current_count)
      → After (take_front sql p w) blocked woken
  unfolding take_front
  take_front-Awake p w blocked woken t f g = elim (List-cases p.idle) [
    | inl e ↦
        rw (e, take_front) (record { taken = λ _. rw e (omega arith); full = λ _. g (ap length e) })
    | inr (h, rest, e) ↦
        rw (e, take_front)
          (record { taken = λ b. let u = rw e at (t b) in omega (arith, u); full = f })
  ]

  hand_out-Awake :
      (p : Pool) (r : Option ℕ × W) (blocked woken : ℕ)
      → Awake p blocked woken
      → After (hand_out sql r p) blocked woken
  unfolding hand_out
  hand_out-Awake p (none, w) blocked woken a = a
  hand_out-Awake p (some h, w) blocked woken a = record {
    taken = a.taken;
    full = λ b. let f = a.full b in omega (arith, f);
  }

  get_connection-Awake :
      (p : Pool) (w : W) (blocked woken : ℕ)
      → Awake p blocked woken
      → After (get_connection sql p w) blocked woken
  unfolding get_connection
  get_connection-Awake p w blocked woken a =
      elim (Bool-cases (is_empty p.idle && ltb p.current_count p.max_size)) [
        | inl grow ↦
            rw (grow, get_connection)
              (hand_out-Awake p (create_connection sql p.config w) blocked woken a)
        | inr full ↦
            rw (full, get_connection)
              (take_front-Awake p w blocked woken (λ b. let t = a.taken b in omega (arith, t))
                a.full (λ e. at_max p e full))
      ]
    where
      at_max :
          (p : Pool)
          → length p.idle ≡ 0
          → (is_empty p.idle && ltb p.current_count p.max_size) ≡ false
          → p.max_size ≤ p.current_count
      at_max p e full = elim (List-cases p.idle) [
        | inl q ↦ ground (arith, (rw q at full))
        | inr (h, rest, q) ↦ omega (arith, ap length q)
      ]

  entered-Awake :
      (r : Got × Pool × W) (s : System W)
      → After r s.blocked s.woken
      → Awake (entered r s).pool (entered r s).blocked (entered r s).woken
  unfolding entered
  entered-Awake (connection h, p, w) s k = k
  entered-Awake (null, p, w) s k = k
  entered-Awake (waits, p, w) s k = k

  released-Awake :
      (h : ℕ) (s : System W)
      → Awake s.pool s.blocked s.woken
      → Awake (released h s).pool (released h s).blocked (released h s).woken
  unfolding released release_connection notify_one
  released-Awake h s a = elim (ℕ-cases s.blocked) [
    | inl e ↦
        rw (e, notify_one)
          (record { taken = λ b. omega (arith, b); full = λ b. a.full (omega (arith, e, b)) })
    | inr (n, e) ↦
        rw (e, notify_one)
          (record {
            taken = λ b.
                let t = a.taken (omega (arith, e)) in
                omega (arith, t, length-append s.pool.idle (h ∷ []));
            full = λ b. a.full (omega (arith, e));
          })
  ]

  step-Awake :
      {s t : System W}
      → Step sql s t
      → Awake s.pool s.blocked s.woken
      → Awake t.pool t.blocked t.woken
  step-Awake (enter {s = s}) a =
      entered-Awake (get_connection sql s.pool s.world) s
        (get_connection-Awake s.pool s.world s.blocked s.woken a)
  step-Awake (resume {s = s} {n = n} e) a =
      entered-Awake (take_front sql s.pool s.world) (record s { woken = n })
        (take_front-Awake s.pool s.world s.blocked n (λ b. let t = a.taken b in omega (arith, t, e))
          (λ b. a.full (omega (arith, e))) (λ _. a.full (omega (arith, e))))
  step-Awake (spurious {s = s} e) a = record {
    taken = λ b. let t = a.taken (omega (arith, e)) in omega (arith, t);
    full = λ b. a.full (omega (arith, e));
  }
  step-Awake (release {s = s} h has) a = released-Awake h s a

  pub Reach-Awake :
      {s t : System W}
      → Awake s.pool s.blocked s.woken
      → Reach sql s t
      → Awake t.pool t.blocked t.woken
  Reach-Awake a here = a
  Reach-Awake a (next r step) = step-Awake step (Reach-Awake a r)

  -- The next thread that runs on after a release takes the connection at the front.
  serve_next :
      (s : System W) (n h : ℕ)
      → s.pool.idle ≡ []
      → s.blocked ≡ suc n
      → s.woken ≡ 0
      → let t = released h s in
        take_front sql t.pool t.world ≡ (connection h, record t.pool { idle = [] }, t.world)
        × (t.blocked ≡ n)
        × (t.woken ≡ 1)
  unfolding released release_connection notify_one take_front
  serve_next s n h i b k = rw (b, notify_one) (rw (i, take_front) (refl, refl, omega (arith, k)))

pub start-Awake :
    {W : Type 0} (sql : Mysql W) (config : Config) (initial_size max_size : ℕ) (w : W)
    → let s = start sql config initial_size max_size w in Awake s.pool s.blocked s.woken
unfolding start
start-Awake sql config initial_size max_size w = record {
  taken = λ e. omega (arith, e);
  full = λ e. omega (arith, e);
}

module _ {W : Type 0} (sql : Mysql W) (laws : MysqlLaws sql) where
  -- No wake-up is lost. After any steps of the threads from a new pool that opened no connection
  -- before, when a thread waits and no notified thread is about to run on, then no connection is
  -- idle and the held ones are as many as the maximal size or more; and when one of them is
  -- released, one waiting thread is notified, and running on it takes that connection.
  pub no_lost_wakeup :
      (config : Config) (initial_size max_size : ℕ) (w : W) (s : System W) (n h : ℕ)
      → ((j : ℕ) → laws.is_open w j ≡ false)
      → Reach sql (start sql config initial_size max_size w) s
      → s.blocked ≡ suc n
      → s.woken ≡ 0
      → 0 < count h s.held
      → let t = released h s in
        (s.pool.idle ≡ [])
        × (s.pool.max_size ≤ length s.held)
        × (take_front sql t.pool t.world ≡ (connection h, record t.pool { idle = [] }, t.world))
        × (t.blocked ≡ n)
        × (t.woken ≡ 1)
  unfolding start
  no_lost_wakeup config initial_size max_size w s n h shut r b k has =
      let a : Awake s.pool s.blocked s.woken =
        Reach-Awake sql (start-Awake sql config initial_size max_size w) r in
      let (once, counted, bounded) =
        pool_sound sql laws config initial_size max_size (initial_size + max_size) w s (omega arith)
          (omega arith) shut r in
      let t = a.taken (omega (arith, b)) in
      let f = a.full (omega (arith, b)) in
      let i : s.pool.idle ≡ [] = empty s.pool.idle (omega (arith, t, k)) in
      let (front, rest, one) = serve_next sql s n h i b k in
      (i, omega (arith, f, counted, ap length i), front, rest, one)
    where
      empty : (xs : List ℕ) → length xs ≤ 0 → xs ≡ []
      empty [] e = refl
      empty (x ∷ xs) e = ground arith
