-- ===== src/Pool.antt =====
-- example/MySQLServer/ConnectionPool.h: a pool of database connections that threads share.
--
-- A connection is the address of its `MYSQL` object. The MySQL client library is a parameter, over
-- a type `W` of its states. `int` sizes are natural numbers: the code treats a negative size as it
-- treats 0. Each method holds the mutex from its first access to its end, except while it waits,
-- so it is one function of the pool; `Step` is the steps of the threads that use it.
pub mod Ledger
pub mod Invariant
pub mod Waiting
pub mod Borrowing
pub mod Sizes
pub mod Sample
mod Runs
use proto_rpc_multi_reactor.Prelude.{
  ℕ, zero, suc, ◌+◌, Bool, true, false, List, [], ◌∷◌, ◌++◌, Option, none, some, ltb, ◌==◌, ◌&&◌,
  if◌then◌else◌, is_empty, ◌<◌, ◌≡◌,
}
use proto_rpc_multi_reactor.Prelude.Text.{Bytes}

-- Where and as whom the pool connects.
pub record Config : Type 0 where
  pub host : Bytes
  pub user : Bytes
  pub password : Bytes
  pub database : Bytes
  pub port : ℕ

-- `mysql_init(nullptr)`, `mysql_real_connect` and `mysql_close`.
pub record Mysql (W : Type 0) : Type 0 where
  pub init : W → Option ℕ × W
  pub real_connect : ℕ → Config → W → Bool × W
  pub close : ℕ → W → W

-- `pool_`, front first, with the fields that the methods read.
pub record Pool : Type 0 where
  pub config : Config
  pub idle : List ℕ
  pub max_size : ℕ
  pub current_count : ℕ

-- How `getConnection` goes: a connection, a null pointer, or the thread waits.
pub data Got : Type 0 where
  connection : ℕ → Got
  null waits : Got

-- The pool that its threads share: the connections that they hold, how many wait on `cond_`, and
-- how many of those were notified and did not run on yet.
pub record System (W : Type 0) : Type 0 where
  pub pool : Pool
  pub world : W
  pub held : List ℕ
  pub blocked : ℕ
  pub woken : ℕ

-- One occurrence of a connection less.
unfoldable pub give_back : ℕ → List ℕ → List ℕ
give_back h [] = []
give_back h (x ∷ xs) = let rest = give_back h xs in if x == h then xs else x ∷ rest

-- How often a connection occurs.
pub count : ℕ → List ℕ → ℕ
count h [] = 0
count h (x ∷ xs) = let n = count h xs in if x == h then suc n else n

module _ {W : Type 0} (sql : Mysql W) where
  -- The rest of `createConnection` for a handle: connects it, or closes it.
  unfoldable pub connect : ℕ → Config → W → Option ℕ × W
  connect h config w =
      let (ok, w') = sql.real_connect h config w in
      if ok then (some h, w') else (none, sql.close h w')

  unfoldable pub create_connection : Config → W → Option ℕ × W
  unfolding connect
  create_connection config w =
      let (made, w') = sql.init w in elim made [ none ↦ (none, w') | some h ↦ connect h config w' ]

  -- One round of the constructor's loop, for what `createConnection` returned.
  unfoldable pub push_new : Option ℕ × W → Pool → Pool × W
  push_new (none, w) p = (p, w)
  push_new (some h, w) p =
      (record p { idle = p.idle ++ (h ∷ []); current_count = p.current_count + 1 }, w)

  -- The constructor's loop, of `n` rounds.
  unfoldable pub fill : ℕ → Pool → W → Pool × W
  unfolding push_new
  fill zero p w = (p, w)
  fill (suc n) p w = let (p', w') = push_new (create_connection p.config w) p in fill n p' w'

  unfoldable pub new_pool : Config → ℕ → ℕ → W → Pool × W
  unfolding fill
  new_pool config initial_size max_size w =
      fill initial_size
        (record { config = config; idle = []; max_size = max_size; current_count = 0 }) w

  -- The end of `getConnection`: the front of the queue, or to wait for one.
  unfoldable pub take_front : Pool → W → Got × Pool × W
  take_front p w = elim p.idle [
    | [] ↦ (waits, p, w)
    | h ∷ rest ↦ (connection h, record p { idle = rest }, w)
  ]

  -- What `getConnection` does with a new connection.
  hand_out : Option ℕ × W → Pool → Got × Pool × W
  hand_out (none, w) p = (null, p, w)
  hand_out (some h, w) p = (connection h, record p { current_count = p.current_count + 1 }, w)

  unfoldable pub get_connection : Pool → W → Got × Pool × W
  unfolding take_front hand_out
  get_connection p w =
      if is_empty p.idle && ltb p.current_count p.max_size
      then hand_out (create_connection p.config w) p
      else take_front p w

  -- The destructor closes what is idle.
  pub close_all : List ℕ → W → W
  close_all [] w = w
  close_all (h ∷ rest) w = close_all rest (sql.close h w)

-- `releaseConnection` of a connection: `pool_.push(conn)`.
unfoldable pub release_connection : ℕ → Pool → Pool
release_connection h p = record p { idle = p.idle ++ (h ∷ []) }

-- `cond_.notify_one()`: one of the waiting threads, if there is one, will run on.
unfoldable pub notify_one : {W : Type 0} → System W → System W
notify_one s = elim s.blocked [ zero ↦ s | suc n ↦ record s { blocked = n; woken = s.woken + 1 } ]

module _ {W : Type 0} where
  -- A thread that enters `getConnection` leaves with a connection, leaves without, or waits.
  unfoldable pub entered : Got × Pool × W → System W → System W
  entered (connection h, p, w) s = record s { pool = p; world = w; held = h ∷ s.held }
  entered (null, p, w) s = record s { pool = p; world = w }
  entered (waits, p, w) s = record s { pool = p; world = w; blocked = s.blocked + 1 }

  unfoldable pub released : ℕ → System W → System W
  unfolding give_back release_connection notify_one
  released h s =
      notify_one (record s { pool = release_connection h s.pool; held = give_back h s.held })

module _ {W : Type 0} (sql : Mysql W) where
  -- A notified thread tests `pool_.empty()` again, and takes a connection or waits again.
  pub data Step : System W → System W → Type 0 where
    enter : {s : System W} → Step s (entered (get_connection sql s.pool s.world) s)
    resume :
        {s : System W} {n : ℕ}
        → s.woken ≡ suc n
        → Step s (entered (take_front sql s.pool s.world) (record s { woken = n }))
    -- A wake-up without a notification.
    spurious :
        {s : System W} {n : ℕ}
        → s.blocked ≡ suc n
        → Step s (record s { blocked = n; woken = s.woken + 1 })
    -- A thread releases a connection that is held.
    release : {s : System W} (h : ℕ) → 0 < count h s.held → Step s (released h s)

  unfoldable pub start : Config → ℕ → ℕ → W → System W
  start config initial_size max_size w =
      let (p, w') = new_pool sql config initial_size max_size w in
      record { pool = p; world = w'; held = []; blocked = 0; woken = 0 }

  pub data Reach (s : System W) : System W → Type 0 where
    here : Reach s s
    next : {t u : System W} → Reach s t → Step t u → Reach s u
