-- ===== src/Login.antt =====
-- example/MySQLServer/LoginRegisterServer.cc: the login of the example server, which borrows a
-- connection from the pool (example/MySQLServer/ConnectionPool.h) for one query.
--
-- `getConnection` and the MySQL client library are parameters. A method returns its result and, in
-- order, what it does with the connection and the result set.
pub mod Borrowing
mod Runs
use proto_rpc_multi_reactor.Prelude.{
  ℕ, ◌<◌, ◌≡◌, refl, ◌≢◌, ◌↔◌, ◌⊎◌, inl, inr, Bool, true, false, List, [], ◌∷◌, ◌++◌, Option, none,
  some, arith, ltb, if◌then◌else◌, All, Bool-cases, Option-cases,
}
use proto_rpc_multi_reactor.Prelude.Text.{Bytes, codes, bytes_eq, bytes_eq_iff}

-- What the server answers: `mysql_real_escape_string`, whether `mysql_query` returns 0,
-- `mysql_store_result`, `mysql_num_rows`, and `mysql_fetch_row`, where the row and its first column
-- may be null.
pub record Database : Type 0 where
  pub escape : ℕ → Bytes → Bytes
  pub query_ok : ℕ → Bytes → Bool
  pub store_result : ℕ → Bytes → Option ℕ
  pub num_rows : ℕ → ℕ
  pub fetch_row : ℕ → Option (Option Bytes)

pub data Use : Type 0 where
  queried : ℕ → Bytes → Use
  stored freed released : ℕ → Use

module _ (db : Database) where
  pub login_query : ℕ → Bytes → Bytes
  login_query conn name =
      codes "SELECT password FROM user WHERE name='" ++ (db.escape conn name ++ codes "'")

  -- The comparison with the first column of the first row.
  same_password : Option (Option Bytes) → Bytes → Bool
  same_password none pwd = false
  same_password (some none) pwd = false
  same_password (some (some password)) pwd = bytes_eq password pwd

  check_rows : ℕ → Bytes → Bool
  unfolding same_password
  check_rows result pwd =
      if ltb 0 (db.num_rows result) then same_password (db.fetch_row result) pwd else false

  -- From `mysql_store_result` on.
  read_result : ℕ → Option ℕ → Bytes → Bool × List Use
  unfolding check_rows
  read_result conn none pwd = (false, Use.released conn ∷ [])
  read_result conn (some result) pwd =
      (check_rows result pwd, Use.stored result ∷ Use.freed result ∷ Use.released conn ∷ [])

  run_query : ℕ → Bytes → Bytes → Bool × List Use
  unfolding read_result
  run_query conn query pwd =
      let (ok, uses) = read_result conn (db.store_result conn query) pwd in
      if db.query_ok conn query
      then (ok, Use.queried conn query ∷ uses)
      else (false, Use.queried conn query ∷ Use.released conn ∷ [])

  -- `Login`, for what `getConnection` returned.
  pub login : Option ℕ → Bytes → Bytes → Bool × List Use
  unfolding run_query
  login none name pwd = (false, [])
  login (some conn) name pwd = run_query conn (login_query conn name) pwd

-- What the RPC `Login` puts into its response before it runs `done`.
pub record LoginResult : Type 0 where
  pub errcode : ℕ
  pub errmsg : Bytes
  pub success : Bool

pub rpc_login : Bool → LoginResult
rpc_login ok = record {
  errcode = if ok then 0 else 1;
  errmsg =
      if ok
      then []
      else 231 ∷ 148 ∷ 168 ∷ 230 ∷ 136 ∷ 183 ∷ 229 ∷ 144 ∷ 141 ∷ 230 ∷ 136 ∷ 150 ∷ 229 ∷ 175 ∷ 134
        ∷ 231 ∷ 160 ∷ 129 ∷ 233 ∷ 148 ∷ 153 ∷ 232 ∷ 175 ∷ 175 ∷ [];
  success = ok;
}

pub IsNotRelease : Use → Type 0
IsNotRelease u = (conn : ℕ) → u ≢ Use.released conn

module _ (db : Database) where
  -- A login that was given a connection queries the user's row with it and, on every path, releases
  -- the connection exactly once, after everything else.
  pub login_releases :
      (conn : ℕ) (name pwd : Bytes)
      → (uses : List Use) × ((login db (some conn) name pwd).1
          ≡ Use.queried conn (login_query db conn name) ∷ (uses ++ (Use.released conn ∷ [])))
        × All IsNotRelease uses
  unfolding login run_query read_result IsNotRelease
  login_releases conn name pwd = elim (Bool-cases (db.query_ok conn (login_query db conn name))) [
    | inr bad ↦ rw (bad, run_query) ([], refl, tt)
    | inl good ↦ elim (Option-cases (db.store_result conn (login_query db conn name))) [
      | inl e ↦ rw (good, e, run_query) ([], refl, tt)
      | inr (result, e) ↦
          rw (good, e, run_query)
            (
              Use.stored result ∷ Use.freed result ∷ [],
              refl,
              ((λ c. ground arith), ((λ c. ground arith), tt)),
            )
    ]
  ]

  check_rows_iff :
      (result : ℕ) (pwd : Bytes)
      → (check_rows db result pwd ≡ true)
        ↔ ((0 < db.num_rows result) × (db.fetch_row result ≡ some (some pwd)))
  unfolding check_rows
  check_rows_iff result pwd = elim (Option-cases (db.fetch_row result)) [
    | inl e ↦ rw (e, same_password) (ground arith)
    | inr (none, e) ↦ rw (e, same_password) (ground arith)
    | inr (some password, e) ↦ rw (e, same_password) (ground (arith, bytes_eq_iff password pwd))
  ]

  -- A login that was given a connection succeeds exactly when the query succeeds and stores a result
  -- with a row, and the first column of the first row is the password.
  pub login_succeeds :
      (conn : ℕ) (name pwd : Bytes)
      → ((login db (some conn) name pwd).0 ≡ true) ↔ (
          (db.query_ok conn (login_query db conn name) ≡ true)
          × ((result : ℕ) × (db.store_result conn (login_query db conn name) ≡ some result)
              × (0 < db.num_rows result)
              × (db.fetch_row result ≡ some (some pwd))))
  unfolding login run_query read_result
  login_succeeds conn name pwd =
      elim (Option-cases (db.store_result conn (login_query db conn name))) [
        | inl e ↦ rw (e, run_query, read_result) (ground arith)
        | inr (result, e) ↦
            rw (e, run_query, read_result) (ground (arith, check_rows_iff result pwd))
      ]
