-- ===== src/Pool/Runs.antt =====
-- Runs of a connection pool, and its theorems at a concrete one.
use proto_rpc_multi_reactor.Prelude.{
  ℕ, ◌+◌, ◌≡◌, ◌≤◌, refl, true, false, ◌&&◌, [], ◌∷◌, arith, ltb, ◌==◌, if◌then◌else◌,
}
use proto_rpc_multi_reactor.Pool.{
  System, connection, count, take_front, get_connection, create_connection, hand_out, entered,
  released, enter, start, Reach, here, next, new_pool, fill, push_new, connect,
}
use proto_rpc_multi_reactor.Pool.Ledger.{bit}
use proto_rpc_multi_reactor.Pool.Sample.{World, database, database-MysqlLaws, unused, config}
use proto_rpc_multi_reactor.Pool.Invariant.{pool_sound}
use proto_rpc_multi_reactor.Pool.Waiting.{no_lost_wakeup}

-- Two threads that hold a connection each, and one that waits for one.
abbrev two_held : System World
two_held = record {
  pool = record { config = config; idle = []; max_size = 2; current_count = 2 };
  world = (2, λ j. if 1 == j then true else if 0 == j then true else false);
  held = 1 ∷ 0 ∷ [];
  blocked = 1;
  woken = 0;
}

Reach-two_held : Reach database (start database config 1 2 unused) two_held
unfolding start new_pool fill push_new create_connection connect entered get_connection hand_out
    take_front
Reach-two_held = next (next (next here enter) enter) enter

none_open : (j : ℕ) → (ltb j 0 && false) ≡ false
none_open j = ground arith

pool_sound_example :
    ((j : ℕ) → count j [] + count j (1 ∷ 0 ∷ []) ≡ bit (ltb j 2 && two_held.world.1 j))
    × (2 ≡ 0 + 2)
    × (2 ≤ 2)
pool_sound_example =
    pool_sound database database-MysqlLaws config 1 2 2 unused two_held (omega arith) (omega arith)
      none_open Reach-two_held

no_lost_wakeup_example :
    let t = released 0 two_held in
    (two_held.pool.idle ≡ [])
    × (2 ≤ 2)
    × (take_front database t.pool t.world ≡ (connection 0, record t.pool { idle = [] }, t.world))
    × (t.blocked ≡ 0)
    × (t.woken ≡ 1)
unfolding count
no_lost_wakeup_example =
    no_lost_wakeup database database-MysqlLaws config 1 2 unused two_held 0 0 none_open
      Reach-two_held refl refl (omega arith)
