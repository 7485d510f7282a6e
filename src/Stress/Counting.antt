-- ===== src/Stress/Counting.antt =====
-- The stress test of the connection pool: who holds which connection, and the counts.
use proto_rpc_multi_reactor.Prelude.{
  ℕ, suc, ◌+◌, ◌*◌, ◌≤◌, ◌≡◌, refl, ap, ◌∙◌, Bool, false, arith, if◌then◌else◌, All, length,
}
use proto_rpc_multi_reactor.Pool
use proto_rpc_multi_reactor.Pool.{
  Config, Mysql, Pool, System, Got, connection, null, waits, take_front, get_connection, entered,
  released, start, count, enter, resume, spurious, release,
}
use proto_rpc_multi_reactor.Pool.Ledger.{MysqlLaws, bit, count-nil}
use proto_rpc_multi_reactor.Pool.Invariant.{pool_sound}
use proto_rpc_multi_reactor.Pool.Sizes.{start_unheld}
use proto_rpc_multi_reactor.Pool.Borrowing.{start_unwaited}
use proto_rpc_multi_reactor.Stress.{
  ready, waiting, counting, holding, queried, Test, after_query, use_connection, Acts, get, go_on,
  query, hand_back, count_query, Step, act, wake, Reach, here, next, start_test,
}
use proto_rpc_multi_reactor.Stress.Sums.{
  sum_of, holds, is_waiting, unfinished, uncounted, start_sums, sum_of-ready, unheld,
}
use proto_rpc_multi_reactor.Stress.Acting.{Sound, get-Sound, put-Sound, hand_back-Sound}

success_step : (ok : Bool) (k n : ℕ) → (if ok then k + 1 else k) + n + 0 ≤ k + n + 1
success_step ok k n = ground arith

module _ {W : Type 0} (sql : Mysql W) (first : System W) (work : ℕ) where
  act-Sound : (s t : Test W) → Sound sql first work s → Acts sql s t → Sound sql first work t
  unfolding after_query
  act-Sound s t i (get pre post n e) =
      get-Sound sql first work s pre post s.system (ready (suc n)) n
        (get_connection sql s.system.pool s.system.world) (Pool.next i.reached enter)
        (λ j. i.held j ∙ ap (sum_of (holds j)) e)
        (omega (arith, i.waiters, ap (sum_of is_waiting) e)) (λ j. refl) refl refl
        (omega (arith, i.rounds, ap (sum_of unfinished) e))
        (omega (arith, i.successes, ap (sum_of uncounted) e))
  act-Sound s t i (go_on pre post n k e woken_eq) =
      get-Sound sql first work s pre post (record s.system { woken = k }) (waiting n) n
        (take_front sql s.system.pool s.system.world) (Pool.next i.reached (resume woken_eq))
        (λ j. i.held j ∙ ap (sum_of (holds j)) e)
        (omega (arith, i.waiters, woken_eq, ap (sum_of is_waiting) e)) (λ j. refl) refl refl
        (omega (arith, i.rounds, ap (sum_of unfinished) e))
        (omega (arith, i.successes, ap (sum_of uncounted) e))
  act-Sound s t i (query pre post h n db table_name e) =
      put-Sound sql first work s pre post (holding h n) (queried h n) s.total _ e i (λ j. refl) refl
        (omega arith) (success_step (use_connection db table_name h).0 s.successful s.total)
  act-Sound s t i (hand_back pre post h n e) = hand_back-Sound sql first work s pre post h n e i
  act-Sound s t i (count_query pre post n e) =
      put-Sound sql first work s pre post (counting n) (ready n) (s.total + 1) s.successful e i
        (λ j. refl) refl (omega arith) (omega arith)

  Step-Sound : (s t : Test W) → Sound sql first work s → Step sql s t → Sound sql first work t
  Step-Sound s t i (act a) = act-Sound s t i a
  Step-Sound s t i (wake n e) = record {
    reached = Pool.next i.reached (spurious e);
    held = i.held;
    waiters = omega (arith, i.waiters, e);
    rounds = i.rounds;
    successes = i.successes;
  }

  pub Reach-Sound : (s t : Test W) → Sound sql first work s → Reach sql s t → Sound sql first work t
  Reach-Sound s t i here = i
  Reach-Sound s t i (next {t = u} before step) = Step-Sound u t (Reach-Sound s u i before) step

module _ {W : Type 0} (sql : Mysql W) (laws : MysqlLaws sql) (config : Config)
    (initial_size max_size threads iterations : ℕ) (w : W)
    (shut : (j : ℕ) → laws.is_open w j ≡ false) where
  pub start-Sound :
      Sound sql
        (start sql config initial_size max_size w)
        (threads * iterations)
        (start_test sql config initial_size max_size threads iterations w)
  unfolding start_test
  start-Sound = record {
    reached = Pool.here;
    held = λ j. omega (
      arith,
      ap (count j) (start_unheld sql config initial_size max_size w).0,
      count-nil j,
      start_sums (holds j) threads iterations,
    );
    waiters = omega (
      arith,
      start_unwaited sql config initial_size max_size w,
      start_sums is_waiting threads iterations,
    );
    rounds = omega (arith, start_sums unfinished threads iterations);
    successes = omega arith;
  }

  pub reached-Sound :
      (t : Test W)
      → Reach sql (start_test sql config initial_size max_size threads iterations w) t
      → Sound sql (start sql config initial_size max_size w) (threads * iterations) t
  reached-Sound t r = Reach-Sound sql _ _ _ t start-Sound r

  -- Wherever the threads have got to, in any order of their steps: each open connection is idle or with
  -- exactly one thread, and no other connection is either. So no two threads use one connection. This is
  -- over the documented behaviour of the MySQL client, and where no connection is open at first.
  pub threads_exclusive :
      (t : Test W) (j : ℕ)
      → Reach sql (start_test sql config initial_size max_size threads iterations w) t
      → count j t.system.pool.idle + sum_of (holds j) t.workers
        ≡ bit (laws.is_open t.system.world j)
  threads_exclusive t j r =
      let i = reached-Sound t r in
      let (once, counted, bounded) =
        pool_sound sql laws config initial_size max_size (initial_size + max_size) w t.system
          (omega arith) (omega arith) shut i.reached in
      omega (arith, once j, i.held j)

  -- Once all threads are through their loops: the counted queries and the refused connections are as many
  -- as threads times rounds, no more are successful than are counted, and all connections of the pool
  -- are idle. This is over the documented behaviour of the MySQL client, and where no connection is open
  -- at first.
  pub totals_add_up :
      (t : Test W)
      → Reach sql (start_test sql config initial_size max_size threads iterations w) t
      → All (λ x. x ≡ ready 0) t.workers
      → (t.total + t.refused ≡ threads * iterations)
        × (t.successful ≤ t.total)
        × (t.system.pool.current_count ≡ length t.system.pool.idle)
  totals_add_up t r finished =
      let i = reached-Sound t r in
      let (once, counted, bounded) =
        pool_sound sql laws config initial_size max_size (initial_size + max_size) w t.system
          (omega arith) (omega arith) shut i.reached in
      (
        omega (arith, i.rounds, sum_of-ready unfinished refl t.workers finished),
        omega (arith, i.successes, sum_of-ready uncounted refl t.workers finished),
        omega (
          arith,
          counted,
          unheld t.system.held (λ j. i.held j ∙ sum_of-ready (holds j) refl t.workers finished),
        ),
      )
