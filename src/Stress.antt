-- ===== src/Stress.antt =====
-- example/UnitTest/UnitTest_MySQLConnPoolStressTest.cc: threads that query the database with the
-- connections of one pool.
--
-- The random names and the clock are left out: the code asks for one fixed name. The loop over the
-- rows of a result does nothing with them.
pub mod Sums
pub mod Acting
pub mod Counting
pub mod Progress
mod Runs
use proto_rpc_multi_reactor.Prelude.{
  ℕ, zero, suc, ◌+◌, ◌≡◌, Bool, true, false, List, [], ◌∷◌, ◌++◌, Option, none, some, if◌then◌else◌,
}
use proto_rpc_multi_reactor.Prelude.Text.{Bytes, codes}
use proto_rpc_multi_reactor.Login.{Database, Use}
use proto_rpc_multi_reactor.Pool.{
  Config, Mysql, Pool, System, Got, connection, null, waits, take_front, get_connection, entered,
  released, start,
}

-- The query that a thread sends.
pub test_query : Bytes → Bytes
test_query table_name =
    codes "SELECT password FROM `"
    ++ (table_name ++ (codes "` WHERE name='" ++ (codes "zhangsan" ++ codes "'")))

-- What a thread does with its connection, and whether it counts the query as successful.
pub use_connection : Database → Bytes → ℕ → Bool × List Use
unfolding test_query
use_connection db table_name conn =
    let sql = test_query table_name in
    if db.query_ok conn sql
    then elim (db.store_result conn sql) [
      | none ↦ (false, Use.queried conn sql ∷ [])
      | some res ↦ (true, Use.queried conn sql ∷ Use.stored res ∷ Use.freed res ∷ [])
    ]
    else (false, Use.queried conn sql ∷ [])

-- Where a thread is in its loop, and how many rounds it has left: at its head; in the wait of
-- `getConnection`; with a connection before the query, and after it; after the release. But for the
-- first, one round more is under way.
pub data Worker : Type 0 where
  ready waiting counting : ℕ → Worker
  holding queried : ℕ → ℕ → Worker

-- The pool, the threads, `totalQueries`, `successfulQueries`, and how often `getConnection` returned
-- a null pointer.
pub record Test (W : Type 0) : Type 0 where
  pub system : System W
  pub workers : List Worker
  pub total : ℕ
  pub successful : ℕ
  pub refused : ℕ

-- A thread after `getConnection`.
pub worker_of : {W : Type 0} → Got × Pool × W → ℕ → Worker
worker_of (connection h, p, w) n = holding h n
worker_of (null, p, w) n = ready n
worker_of (waits, p, w) n = waiting n

pub refusals : {W : Type 0} → Got × Pool × W → ℕ
refusals (connection h, p, w) = 0
refusals (null, p, w) = 1
refusals (waits, p, w) = 0

module _ {W : Type 0} where
  -- The state with another thread between `pre` and `post`.
  abbrev pub put : List Worker → Worker → List Worker → Test W → Test W
  put pre worker post s = record s { workers = pre ++ (worker ∷ post) }

  pub after_get : List Worker → ℕ → List Worker → Got × Pool × W → Test W → Test W
  unfolding worker_of refusals
  after_get pre n post g s =
      put pre (worker_of g n) post
        (record s { system = entered g s.system; refused = s.refused + refusals g })

  pub after_query : Bool → Test W → Test W
  after_query ok s = record s { successful = if ok then s.successful + 1 else s.successful }

module _ {W : Type 0} (sql : Mysql W) where
  -- One step of a thread: `getConnection`, and going on in it after a wake-up; the query, at any
  -- state of the database; `releaseConnection`; the count.
  pub data Acts (s : Test W) : Test W → Type 0 where
    get :
        (pre post : List Worker) (n : ℕ)
        → s.workers ≡ pre ++ (ready (suc n) ∷ post)
        → Acts s (after_get pre n post (get_connection sql s.system.pool s.system.world) s)
    go_on :
        (pre post : List Worker) (n k : ℕ)
        → s.workers ≡ pre ++ (waiting n ∷ post)
        → s.system.woken ≡ suc k
        → Acts s (
            after_get pre n post
              (take_front sql s.system.pool s.system.world)
              (record s { system = record s.system { woken = k } }))
    query :
        (pre post : List Worker) (h n : ℕ) (db : Database) (table_name : Bytes)
        → s.workers ≡ pre ++ (holding h n ∷ post)
        → Acts s (put pre (queried h n) post (after_query (use_connection db table_name h).0 s))
    hand_back :
        (pre post : List Worker) (h n : ℕ)
        → s.workers ≡ pre ++ (queried h n ∷ post)
        → Acts s (put pre (counting n) post (record s { system = released h s.system }))
    count_query :
        (pre post : List Worker) (n : ℕ)
        → s.workers ≡ pre ++ (counting n ∷ post)
        → Acts s (put pre (ready n) post (record s { total = s.total + 1 }))

  -- A thread acts, or a waiting one wakes without a notification.
  pub data Step (s : Test W) : Test W → Type 0 where
    act : {t : Test W} → Acts s t → Step s t
    wake :
        (n : ℕ)
        → s.system.blocked ≡ suc n
        → Step s (record s { system = record s.system { blocked = n; woken = s.system.woken + 1 } })

  pub data Reach (s : Test W) : Test W → Type 0 where
    here : Reach s s
    next : {t u : Test W} → Reach s t → Step t u → Reach s u

-- The threads of `main`.
pub start_workers : ℕ → ℕ → List Worker
start_workers zero iterations = []
start_workers (suc threads) iterations = ready iterations ∷ start_workers threads iterations

-- `main` once the pool is made and the threads are started.
pub start_test : {W : Type 0} → Mysql W → Config → ℕ → ℕ → ℕ → ℕ → W → Test W
unfolding start_workers
start_test sql config initial_size max_size threads iterations w = record {
  system = start sql config initial_size max_size w;
  workers = start_workers threads iterations;
  total = 0;
  successful = 0;
  refused = 0;
}
