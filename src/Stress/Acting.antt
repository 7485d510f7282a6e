-- ===== src/Stress/Acting.antt =====
-- The invariant of the stress test, and what one step of a thread does to it.
use proto_rpc_multi_reactor.Prelude.{ℕ, suc, ◌+◌, ◌<◌, ◌≤◌, ◌≡◌, ap, List, ◌∷◌, ◌++◌, arith}
use proto_rpc_multi_reactor.Pool
use proto_rpc_multi_reactor.Pool.{
  Config, Mysql, Pool, System, Got, connection, null, waits, take_front, get_connection, entered,
  released, start, count, enter, resume, spurious, release,
}
use proto_rpc_multi_reactor.Pool.Borrowing.{entered_tally, released_tally}
use proto_rpc_multi_reactor.Stress.{Worker, counting, queried, Test, worker_of, put, after_get}
use proto_rpc_multi_reactor.Stress.Sums.{
  sum_of, sum_of-append, holds, is_waiting, unfinished, uncounted, bit_self, worker_of-holds,
  worker_of-is_waiting, worker_of-unfinished, worker_of-uncounted, unheld,
}

module _ {W : Type 0} (sql : Mysql W) (first : System W) (work : ℕ) where
  -- The pool went through steps of its own; a connection is held as often as threads have it; the
  -- waiting threads are those that the pool knows; no round is lost.
  pub record Sound (s : Test W) : Type 0 where
    pub reached : Pool.Reach sql first s.system
    pub held : (j : ℕ) → count j s.system.held ≡ sum_of (holds j) s.workers
    pub waiters : s.system.blocked + s.system.woken ≡ sum_of is_waiting s.workers
    pub rounds : s.total + s.refused + sum_of unfinished s.workers ≡ work
    pub successes : s.successful ≤ s.total + sum_of uncounted s.workers

module _ {W : Type 0} (sql : Mysql W) (first : System W) (work : ℕ) (s : Test W)
    (pre post : List Worker) where
  pub get-Sound :
      (t : System W) (w : Worker) (n : ℕ) (g : Got × Pool × W)
      → Pool.Reach sql first (entered g t)
      → ((j : ℕ) → count j t.held ≡ sum_of (holds j) (pre ++ (w ∷ post)))
      → t.blocked + t.woken + is_waiting w ≡ sum_of is_waiting (pre ++ (w ∷ post))
      → ((j : ℕ) → holds j w ≡ 0)
      → unfinished w ≡ suc n
      → uncounted w ≡ 0
      → s.total + s.refused + sum_of unfinished (pre ++ (w ∷ post)) ≡ work
      → s.successful ≤ s.total + sum_of uncounted (pre ++ (w ∷ post))
      → Sound sql first work (after_get pre n post g (record s { system = t }))
  unfolding after_get
  get-Sound t w n g reach held queue unheld left quiet rounds successes =
      let (now_held, now_blocked, now_woken) = entered_tally g t in
      record {
        reached = reach;
        held = λ j. omega (
          arith,
          now_held j,
          held j,
          unheld j,
          sum_of-append (holds j) pre post w,
          sum_of-append (holds j) pre post (worker_of g n),
          worker_of-holds j g n,
        );
        waiters = omega (
          arith,
          now_blocked,
          now_woken,
          queue,
          sum_of-append is_waiting pre post w,
          sum_of-append is_waiting pre post (worker_of g n),
          worker_of-is_waiting g n,
        );
        rounds = omega (
          arith,
          left,
          rounds,
          sum_of-append unfinished pre post w,
          sum_of-append unfinished pre post (worker_of g n),
          worker_of-unfinished g n,
        );
        successes = omega (
          arith,
          quiet,
          successes,
          sum_of-append uncounted pre post w,
          sum_of-append uncounted pre post (worker_of g n),
          worker_of-uncounted g n,
        );
      }

  -- A step of a thread that leaves the pool alone.
  pub put-Sound :
      (w w' : Worker) (total' successful' : ℕ)
      → s.workers ≡ pre ++ (w ∷ post)
      → Sound sql first work s
      → ((j : ℕ) → holds j w' ≡ holds j w)
      → is_waiting w' ≡ is_waiting w
      → total' + unfinished w' ≡ s.total + unfinished w
      → successful' + s.total + uncounted w ≤ s.successful + total' + uncounted w'
      → Sound sql first work
          (put pre w' post (record s { total = total'; successful = successful' }))
  put-Sound w w' total' successful' e i held queue rounds successes = record {
    reached = i.reached;
    held = λ j. omega (
      arith,
      i.held j,
      held j,
      ap (sum_of (holds j)) e,
      sum_of-append (holds j) pre post w,
      sum_of-append (holds j) pre post w',
    );
    waiters = omega (
      arith,
      i.waiters,
      queue,
      ap (sum_of is_waiting) e,
      sum_of-append is_waiting pre post w,
      sum_of-append is_waiting pre post w',
    );
    rounds = omega (
      arith,
      i.rounds,
      rounds,
      ap (sum_of unfinished) e,
      sum_of-append unfinished pre post w,
      sum_of-append unfinished pre post w',
    );
    successes = omega (
      arith,
      i.successes,
      successes,
      ap (sum_of uncounted) e,
      sum_of-append uncounted pre post w,
      sum_of-append uncounted pre post w',
    );
  }

  pub hand_back-Sound :
      (h n : ℕ)
      → s.workers ≡ pre ++ (queried h n ∷ post)
      → Sound sql first work s
      → Sound sql first work (put pre (counting n) post (record s { system = released h s.system }))
  hand_back-Sound h n e i =
      let has : 0 < count h s.system.held = omega (
        arith,
        i.held h,
        ap (sum_of (holds h)) e,
        sum_of-append (holds h) pre post (queried h n),
        bit_self h,
      ) in
      let (given, waiting_eq) = released_tally h s.system has in
      record {
        reached = Pool.next i.reached (release h has);
        held = λ j. omega (
          arith,
          given j,
          i.held j,
          ap (sum_of (holds j)) e,
          sum_of-append (holds j) pre post (queried h n),
          sum_of-append (holds j) pre post (counting n),
        );
        waiters = omega (
          arith,
          waiting_eq,
          i.waiters,
          ap (sum_of is_waiting) e,
          sum_of-append is_waiting pre post (queried h n),
          sum_of-append is_waiting pre post (counting n),
        );
        rounds = omega (
          arith,
          i.rounds,
          ap (sum_of unfinished) e,
          sum_of-append unfinished pre post (queried h n),
          sum_of-append unfinished pre post (counting n),
        );
        successes = omega (
          arith,
          i.successes,
          ap (sum_of uncounted) e,
          sum_of-append uncounted pre post (queried h n),
          sum_of-append uncounted pre post (counting n),
        );
      }
