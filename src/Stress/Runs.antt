-- ===== src/Stress/Runs.antt =====
-- A run of the stress test, and its theorems at a small database.
use proto_rpc_multi_reactor.Prelude.{
  ℕ, ◌+◌, ◌*◌, ◌≤◌, ◌≡◌, refl, true, false, ◌&&◌, [], ◌∷◌, some, arith, length, ltb, ◌==◌,
  if◌then◌else◌,
}
use proto_rpc_multi_reactor.Prelude.Text.{codes}
use proto_rpc_multi_reactor.Login.{Database}
use proto_rpc_multi_reactor.Pool.{
  count, start, new_pool, fill, push_new, create_connection, connect, get_connection, take_front,
  entered, released, give_back, release_connection, notify_one,
}
use proto_rpc_multi_reactor.Pool.Ledger.{bit}
use proto_rpc_multi_reactor.Pool.Sample.{World, database, database-MysqlLaws, unused, config}
use proto_rpc_multi_reactor.Stress.{
  Test, ready, holding, start_workers, start_test, use_connection, after_get, after_query,
  worker_of, refusals, Acts, get, query, hand_back, count_query, act, Reach, here, next,
}
use proto_rpc_multi_reactor.Stress.Counting.{threads_exclusive, totals_add_up}
use proto_rpc_multi_reactor.Stress.Progress.{never_deadlocked}

-- A database that answers each query.
abbrev users : Database
users = record {
  escape = λ conn name. name;
  query_ok = λ conn sql. true;
  store_result = λ conn sql. some 9;
  num_rows = λ result. 1;
  fetch_row = λ result. some (some (codes "pw"));
}

none_open : (j : ℕ) → (ltb j 0 && false) ≡ false
none_open j = ground arith

abbrev one_open : World
one_open = (1, λ j. if 0 == j then true else false)

-- A thread that has the only connection.
abbrev using : Test World
using = record {
  system = record {
    pool = record { config = config; idle = []; max_size = 1; current_count = 1 };
    world = one_open;
    held = 0 ∷ [];
    blocked = 0;
    woken = 0;
  };
  workers = holding 0 0 ∷ [];
  total = 0;
  successful = 0;
  refused = 0;
}

-- The thread is through.
abbrev finished : Test World
finished = record {
  system = record {
    pool = record { config = config; idle = 0 ∷ []; max_size = 1; current_count = 1 };
    world = one_open;
    held = [];
    blocked = 0;
    woken = 0;
  };
  workers = ready 0 ∷ [];
  total = 1;
  successful = 1;
  refused = 0;
}

Reach-using : Reach database (start_test database config 1 1 1 1 unused) using
unfolding start_test start_workers start new_pool fill push_new create_connection connect
    get_connection take_front entered after_get worker_of refusals
Reach-using = next here (act (get [] [] 0 refl))

Reach-finished : Reach database (start_test database config 1 1 1 1 unused) finished
unfolding released give_back release_connection notify_one after_query use_connection
Reach-finished =
    next
      (next (next Reach-using (act (query [] [] 0 0 users (codes "user") refl)))
        (act (hand_back [] [] 0 0 refl)))
      (act (count_query [] [] 0 refl))

threads_exclusive_example :
    count 0 using.system.pool.idle + (bit (0 == 0) + 0) ≡ bit (ltb 0 1 && one_open.1 0)
threads_exclusive_example =
    threads_exclusive database database-MysqlLaws config 1 1 1 1 unused none_open using 0
      Reach-using

totals_add_up_example :
    (finished.total + finished.refused ≡ 1 * 1)
    × (1 ≤ 1)
    × (finished.system.pool.current_count ≡ length finished.system.pool.idle)
totals_add_up_example =
    totals_add_up database database-MysqlLaws config 1 1 1 1 unused none_open finished
      Reach-finished (refl, tt)

never_deadlocked_example : (u : Test World) × Acts database using u
never_deadlocked_example =
    never_deadlocked database database-MysqlLaws config 1 1 1 1 unused none_open users
      (codes "user") using (omega arith) Reach-using (omega arith)
