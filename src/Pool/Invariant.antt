-- ===== src/Pool/Invariant.antt =====
-- example/MySQLServer/ConnectionPool.h: what holds of a pool after any steps of its threads.
use proto_rpc_multi_reactor.Prelude.{
  ℕ, zero, suc, ◌+◌, ◌≤◌, ◌<◌, ◌≡◌, inl, inr, false, List, [], ◌∷◌, Option, none, some, ap, arith,
  List-cases, ltb, ◌&&◌, is_empty, length, length-append, Bool-cases,
}
use proto_rpc_multi_reactor.Pool.{
  Config, Mysql, Pool, System, Got, connection, null, waits, give_back, count, create_connection,
  push_new, fill, new_pool, take_front, hand_out, get_connection, release_connection, entered,
  released, Step, enter, resume, spurious, release, start, Reach, here, next,
}
use proto_rpc_multi_reactor.Pool.Ledger.{
  bit, MysqlLaws, Made, Made-bit, create_connection-Made, count-append, count-cons, count-nil,
  count-give_back, length-give_back, notify_one-keeps,
}

module _ {W : Type 0} (sql : Mysql W) (laws : MysqlLaws sql) where
  -- Each open connection is idle or held, once, no other connection is either, `current_count`
  -- counts both, and is at most `bound`.
  pub record Sound (bound : ℕ) (p : Pool) (w : W) (held : List ℕ) : Type 0 where
    pub once : (j : ℕ) → count j p.idle + count j held ≡ bit (laws.is_open w j)
    pub counted : p.current_count ≡ length p.idle + length held
    pub bounded : p.current_count ≤ bound
    pub max_bounded : p.max_size ≤ bound

  module _ (bound : ℕ) where
    -- The pool when a thread took what `getConnection` gave.
    abbrev After : Got × Pool × W → List ℕ → Type 0
    After (connection h, p, w) held = Sound bound p w (h ∷ held)
    After (null, p, w) held = Sound bound p w held
    After (waits, p, w) held = Sound bound p w held

    take_front-Sound :
        (p : Pool) (w : W) (held : List ℕ) → Sound bound p w held → After (take_front sql p w) held
    unfolding take_front
    take_front-Sound p w held s = elim (List-cases p.idle) [
      | inl e ↦ rw (e, take_front) s
      | inr (h, rest, e) ↦
          rw (e, take_front)
            (record {
              once = λ j.
                  omega (arith, s.once j, count-cons j h rest, count-cons j h held, ap (count j) e);
              counted = omega (arith, s.counted, ap length e);
              bounded = s.bounded;
              max_bounded = s.max_bounded;
            })
    ]

    hand_out-Sound :
        (p : Pool) (w w' : W) (held : List ℕ) (r : Option ℕ)
        → p.current_count < bound
        → Sound bound p w held
        → Made sql laws w r w'
        → After (hand_out sql (r, w') p) held
    unfolding hand_out
    hand_out-Sound p w w' held none room s m = record {
      once = λ j. ground (arith, s.once j, m j);
      counted = s.counted;
      bounded = s.bounded;
      max_bounded = s.max_bounded;
    }
    hand_out-Sound p w w' held (some h) room s (closed, opened) = record {
      once = λ j.
          omega (arith, count-cons j h held, s.once j, Made-bit sql laws w w' h (closed, opened) j);
      counted = omega (arith, s.counted);
      bounded = omega arith;
      max_bounded = s.max_bounded;
    }

    get_connection-Sound :
        (p : Pool) (w : W) (held : List ℕ)
        → Sound bound p w held
        → After (get_connection sql p w) held
    unfolding get_connection
    get_connection-Sound p w held s =
        elim (Bool-cases (is_empty p.idle && ltb p.current_count p.max_size)) [
          | inl grow ↦
              rw (grow, get_connection)
                (hand_out-Sound p w (create_connection sql p.config w).1 held
                  (create_connection sql p.config w).0 (ground (arith, s.max_bounded)) s
                  (create_connection-Made sql laws p.config w))
          | inr full ↦ rw (full, get_connection) (take_front-Sound p w held s)
        ]

    -- The constructor.
    push_new-Sound :
        (p : Pool) (w w' : W) (r : Option ℕ)
        → p.current_count < bound
        → Sound bound p w []
        → Made sql laws w r w'
        → Sound bound (push_new sql (r, w') p).0 (push_new sql (r, w') p).1 []
    unfolding push_new
    push_new-Sound p w w' none room s m = record {
      once = λ j. ground (arith, s.once j, m j);
      counted = s.counted;
      bounded = s.bounded;
      max_bounded = s.max_bounded;
    }
    push_new-Sound p w w' (some h) room s (closed, opened) = record {
      once = λ j. omega (
        arith,
        count-append j p.idle (h ∷ []),
        count-cons j h [],
        count-nil j,
        s.once j,
        Made-bit sql laws w w' h (closed, opened) j,
      );
      counted = omega (arith, s.counted, length-append p.idle (h ∷ []));
      bounded = omega arith;
      max_bounded = s.max_bounded;
    }

    push_new-count :
        (made : Option ℕ × W) (p : Pool)
        → (push_new sql made p).0.current_count ≤ p.current_count + 1
    unfolding push_new
    push_new-count (none, w) p = omega arith
    push_new-count (some h, w) p = omega arith

    fill-Sound :
        (n : ℕ) (p : Pool) (w : W)
        → p.current_count + n ≤ bound
        → Sound bound p w []
        → Sound bound (fill sql n p w).0 (fill sql n p w).1 []
    unfolding fill
    fill-Sound zero p w room s = s
    fill-Sound (suc n) p w room s =
        let made = create_connection sql p.config w in
        fill-Sound n (push_new sql made p).0 (push_new sql made p).1
          (omega (arith, push_new-count made p))
          (push_new-Sound p w made.1 made.0 (omega arith) s
            (create_connection-Made sql laws p.config w))

    -- What a thread does keeps the pool sound.
    entered-Sound :
        (r : Got × Pool × W) (s : System W)
        → After r s.held
        → Sound bound (entered r s).pool (entered r s).world (entered r s).held
    unfolding entered
    entered-Sound (connection h, p, w) s k = k
    entered-Sound (null, p, w) s k = k
    entered-Sound (waits, p, w) s k = k

    released-Sound :
        (h : ℕ) (s : System W)
        → 0 < count h s.held
        → Sound bound s.pool s.world s.held
        → Sound bound (released h s).pool (released h s).world (released h s).held
    unfolding released release_connection
    released-Sound h s has k =
        notify_one-keeps (λ p w held. Sound bound p w held)
          (record s { pool = release_connection h s.pool; held = give_back h s.held })
          (record {
            once = λ j. omega (
              arith,
              k.once j,
              count-append j s.pool.idle (h ∷ []),
              count-cons j h [],
              count-nil j,
              count-give_back h j s.held has,
            );
            counted = omega (
              arith,
              k.counted,
              length-append s.pool.idle (h ∷ []),
              length-give_back h s.held has,
            );
            bounded = k.bounded;
            max_bounded = k.max_bounded;
          })

    step-Sound :
        {s t : System W}
        → Step sql s t
        → Sound bound s.pool s.world s.held
        → Sound bound t.pool t.world t.held
    step-Sound (enter {s = s}) k =
        entered-Sound (get_connection sql s.pool s.world) s
          (get_connection-Sound s.pool s.world s.held k)
    step-Sound (resume {s = s} {n = n} e) k =
        entered-Sound (take_front sql s.pool s.world) (record s { woken = n })
          (take_front-Sound s.pool s.world s.held k)
    step-Sound (spurious e) k = k
    step-Sound (release {s = s} h has) k = released-Sound h s has k

  start-Sound :
      (config : Config) (initial_size max_size bound : ℕ) (w : W)
      → initial_size ≤ bound
      → max_size ≤ bound
      → ((j : ℕ) → laws.is_open w j ≡ false)
      → let s = start sql config initial_size max_size w in Sound bound s.pool s.world s.held
  unfolding start new_pool
  start-Sound config initial_size max_size bound w i m shut =
      fill-Sound bound initial_size
        (record { config = config; idle = []; max_size = max_size; current_count = 0 }) w
        (omega arith)
        (record {
          once = λ j. omega (arith, count-nil j, ap bit (shut j));
          counted = omega arith;
          bounded = omega arith;
          max_bounded = m;
        })

  -- A pool starts with no connection open. After any steps of any number of threads, where a thread
  -- releases only connections that are held, each open connection is idle or held, exactly once;
  -- what is idle or held is open; `current_count` is their number; and it is at most the larger of
  -- the initial and the maximal size.
  pub pool_sound :
      (config : Config) (initial_size max_size bound : ℕ) (w : W) (t : System W)
      → initial_size ≤ bound
      → max_size ≤ bound
      → ((j : ℕ) → laws.is_open w j ≡ false)
      → Reach sql (start sql config initial_size max_size w) t
      → ((j : ℕ) → count j t.pool.idle + count j t.held ≡ bit (laws.is_open t.world j))
        × (t.pool.current_count ≡ length t.pool.idle + length t.held)
        × (t.pool.current_count ≤ bound)
  pool_sound config initial_size max_size bound w t i m shut r =
      let s = Reach-Sound r in (s.once, s.counted, s.bounded)
    where
      Reach-Sound :
          {u : System W}
          → Reach sql (start sql config initial_size max_size w) u
          → Sound bound u.pool u.world u.held
      Reach-Sound here = start-Sound config initial_size max_size bound w i m shut
      Reach-Sound (next r step) = step-Sound bound step (Reach-Sound r)
