-- ===== src/Stress/Progress.antt =====
-- The stress test of the connection pool never comes to a stop before its threads are through.
use proto_rpc_multi_reactor.Prelude.{
  ℕ, zero, suc, ◌+◌, ◌<◌, ◌≤◌, ◌≡◌, refl, ap, ◌∙◌, false, ◌⊎◌, inl, inr, List, [], ◌∷◌, ◌++◌, arith,
  All, ℕ-cases,
}
use proto_rpc_multi_reactor.Login.{Database}
use proto_rpc_multi_reactor.Prelude.Text.{Bytes}
use proto_rpc_multi_reactor.Pool.{Config, Mysql}
use proto_rpc_multi_reactor.Pool.Ledger.{MysqlLaws}
use proto_rpc_multi_reactor.Pool.Invariant.{pool_sound}
use proto_rpc_multi_reactor.Pool.Waiting.{Awake, start-Awake, Reach-Awake}
use proto_rpc_multi_reactor.Pool.Sizes.{start_unheld, Reach-max_size}
use proto_rpc_multi_reactor.Stress.{
  Worker, ready, waiting, counting, holding, queried, Test, Acts, get, go_on, query, hand_back,
  count_query, Reach, start_test,
}
use proto_rpc_multi_reactor.Stress.Counting.{reached-Sound}
use proto_rpc_multi_reactor.Stress.Sums.{
  sum_of, sum_of-append, holds, is_waiting, unfinished, unheld,
}

-- A thread that is through, or that waits.
abbrev Rests : Worker → Type 0
Rests (ready zero) = Unit
Rests (ready (suc n)) = ⊥
Rests (waiting n) = Unit
Rests (counting n) = ⊥
Rests (holding h n) = ⊥
Rests (queried h n) = ⊥

abbrev Runs : Worker → Type 0
Runs (ready zero) = ⊥
Runs (ready (suc n)) = Unit
Runs (waiting n) = ⊥
Runs (counting n) = Unit
Runs (holding h n) = Unit
Runs (queried h n) = Unit

Worker-cases : (x : Worker) → Rests x ⊎ Runs x
Worker-cases (ready zero) = inl tt
Worker-cases (ready (suc n)) = inr tt
Worker-cases (waiting n) = inl tt
Worker-cases (counting n) = inr tt
Worker-cases (holding h n) = inr tt
Worker-cases (queried h n) = inr tt

abbrev Somewhere : (Worker → Type 0) → List Worker → Type 0
Somewhere P ws =
    (pre : List Worker) × (x : Worker) × (post : List Worker) × (ws ≡ pre ++ (x ∷ post)) × P x

find_running : (ws : List Worker) → All Rests ws ⊎ Somewhere Runs ws
find_running [] = inl tt
find_running (x ∷ ws) = elim (Worker-cases x) [
  | inr runs ↦ inr ([], x, ws, refl, runs)
  | inl rests ↦ elim (find_running ws) [
    | inl all ↦ inl (rests, all)
    | inr (pre, y, post, e, runs) ↦ inr (x ∷ pre, y, post, ap (λ l. x ∷ l) e, runs)
  ]
]

-- Where all rest and a round is left, a thread waits.
find_waiting :
    (ws : List Worker)
    → All Rests ws
    → 0 < sum_of unfinished ws
    → (pre : List Worker) × (n : ℕ) × (post : List Worker) × (ws ≡ pre ++ (waiting n ∷ post))
find_waiting [] all some_left = absurd (omega (arith, some_left))
find_waiting (ready zero ∷ ws) (rests, all) some_left =
    let (pre, n, post, e) = find_waiting ws all (omega (arith, some_left)) in
    (ready zero ∷ pre, n, post, ap (λ l. ready zero ∷ l) e)
find_waiting (ready (suc n) ∷ ws) (rests, all) some_left = absurd rests
find_waiting (waiting n ∷ ws) (rests, all) some_left = ([], n, ws, refl)
find_waiting (counting n ∷ ws) (rests, all) some_left = absurd rests
find_waiting (holding h n ∷ ws) (rests, all) some_left = absurd rests
find_waiting (queried h n ∷ ws) (rests, all) some_left = absurd rests

resting_unheld : (j : ℕ) (ws : List Worker) → All Rests ws → sum_of (holds j) ws ≡ 0
resting_unheld j [] all = refl
resting_unheld j (ready zero ∷ ws) (rests, all) = omega (arith, resting_unheld j ws all)
resting_unheld j (ready (suc n) ∷ ws) (rests, all) = absurd rests
resting_unheld j (waiting n ∷ ws) (rests, all) = omega (arith, resting_unheld j ws all)
resting_unheld j (counting n ∷ ws) (rests, all) = absurd rests
resting_unheld j (holding h n ∷ ws) (rests, all) = absurd rests
resting_unheld j (queried h n ∷ ws) (rests, all) = absurd rests

module _ {W : Type 0} (sql : Mysql W) (db : Database) (table_name : Bytes) (t : Test W) where
  running_acts : Somewhere Runs t.workers → (u : Test W) × Acts sql t u
  running_acts (pre, ready zero, post, e, runs) = absurd runs
  running_acts (pre, ready (suc n), post, e, runs) = (_, get pre post n e)
  running_acts (pre, waiting n, post, e, runs) = absurd runs
  running_acts (pre, counting n, post, e, runs) = (_, count_query pre post n e)
  running_acts (pre, holding h n, post, e, runs) = (_, query pre post h n db table_name e)
  running_acts (pre, queried h n, post, e, runs) = (_, hand_back pre post h n e)

module _ {W : Type 0} (sql : Mysql W) (laws : MysqlLaws sql) (config : Config)
    (initial_size max_size threads iterations : ℕ) (w : W)
    (shut : (j : ℕ) → laws.is_open w j ≡ false) where
  -- If the pool may have a connection, then wherever the threads have got to, while a round is left a
  -- thread can act: there is no deadlock, and no thread waits for a wake-up that does not come. This is
  -- over the documented behaviour of the MySQL client, and where no connection is open at first.
  pub never_deadlocked :
      (db : Database) (table_name : Bytes) (t : Test W)
      → 1 ≤ max_size
      → Reach sql (start_test sql config initial_size max_size threads iterations w) t
      → 0 < sum_of unfinished t.workers
      → (u : Test W) × Acts sql t u
  never_deadlocked db table_name t some_size r some_left =
      let i = reached-Sound sql laws config initial_size max_size threads iterations w shut t r in
      elim (find_running t.workers) [
        | inr running ↦ running_acts sql db table_name t running
        | inl resting ↦
            let (pre, n, post, e) = find_waiting t.workers resting some_left in
            elim (ℕ-cases t.system.woken) [
              | inr (k, woken_eq) ↦ (_, go_on pre post n k e woken_eq)
              | inl asleep ↦
                  let a : Awake t.system.pool t.system.blocked t.system.woken =
                    Reach-Awake sql (start-Awake sql config initial_size max_size w) i.reached in
                  let (once, counted, bounded) =
                    pool_sound sql laws config initial_size max_size (initial_size + max_size) w
                      t.system (omega arith) (omega arith) shut i.reached in
                  let none_held =
                    unheld t.system.held (λ j. i.held j ∙ resting_unheld j t.workers resting) in
                  let some_blocked : 0 < t.system.blocked = omega (
                    arith,
                    i.waiters,
                    asleep,
                    ap (sum_of is_waiting) e,
                    sum_of-append is_waiting pre post (waiting n),
                  ) in
                  let none_idle = a.taken some_blocked in
                  let at_max = a.full (omega (arith, some_blocked)) in
                  let size_eq =
                    Reach-max_size sql _ t.system i.reached
                    ∙ (start_unheld sql config initial_size max_size w).1 in
                  absurd (
                    omega
                      (arith, none_held, none_idle, asleep, at_max, size_eq, counted, some_size))
            ]
      ]
