-- ===== src/Login/Runs.antt =====
-- The theorems on the login at a small database.
use proto_rpc_multi_reactor.Prelude.{
  ℕ, ◌<◌, ◌≡◌, ◌↔◌, List, [], ◌∷◌, ◌++◌, some, true, false, All, ltb, ◌&&◌, arith,
}
use proto_rpc_multi_reactor.Prelude.Text.{Bytes, codes}
use proto_rpc_multi_reactor.Login.{
  Database, Use, login, login_query, IsNotRelease, login_releases, login_succeeds,
}

abbrev users : Database
users = record {
  escape = λ conn name. name;
  query_ok = λ conn query. true;
  store_result = λ conn query. some 9;
  num_rows = λ result. 1;
  fetch_row = λ result. some (some (codes "pw"));
}

login_releases_example :
    (uses : List Use) × ((login users (some 3) (codes "a") (codes "pw")).1
      ≡ Use.queried 3 (login_query users 3 (codes "a")) ∷ (uses ++ (Use.released 3 ∷ [])))
    × All IsNotRelease uses
login_releases_example = login_releases users 3 (codes "a") (codes "pw")

login_succeeds_example : ((login users (some 3) (codes "a") (codes "pw")).0 ≡ true) ↔ (
    (true ≡ true)
    × ((result : ℕ) × (some 9 ≡ some result)
        × (0 < 1)
        × (some (some (codes "pw")) ≡ some (some (codes "pw")))))
login_succeeds_example = login_succeeds users 3 (codes "a") (codes "pw")

abbrev two_logins : List (Bytes × Bytes)
two_logins = (codes "a", codes "pw") ∷ (codes "b", codes "x") ∷ []

closed : (j : ℕ) → (ltb j 0 && false) ≡ false
closed j = ground arith
