-- ===== src/Login/Borrowing.antt =====
-- `Login` of example/MySQLServer/LoginRegisterServer.cc on the pool of ConnectionPool.h.
use proto_rpc_multi_reactor.Prelude.{
  ℕ, suc, ◌+◌, ◌≤◌, ◌≡◌, refl, ap, subst, ◌∙◌, Bool, false, List, [], ◌∷◌, ◌++◌, Option, none, some,
  arith, length, All,
}
use proto_rpc_multi_reactor.Prelude.Text.{Bytes}
use proto_rpc_multi_reactor.Login.{Database, Use, login, login_releases, IsNotRelease}
use proto_rpc_multi_reactor.Pool.{
  Config, Mysql, Pool, System, Got, connection, null, waits, get_connection, entered, released,
  Step, enter, release, start, Reach, here, next,
}
use proto_rpc_multi_reactor.Pool.Ledger.{MysqlLaws}
use proto_rpc_multi_reactor.Pool.Invariant.{pool_sound}
use proto_rpc_multi_reactor.Pool.Sizes.{start_unheld}
use proto_rpc_multi_reactor.Pool.Borrowing.{
  Answers, get_connection-Answers, given_back, held_front, entered_null,
}

-- What the uses of a connection do to the pool.
pub use_all : {W : Type 0} → List Use → System W → System W
use_all [] s = s
use_all (Use.queried h q ∷ us) s = use_all us s
use_all (Use.stored r ∷ us) s = use_all us s
use_all (Use.freed r ∷ us) s = use_all us s
use_all (Use.released h ∷ us) s = use_all us (released h s)

module _ {W : Type 0} (sql : Mysql W) (db : Database) where
  -- `Login` after `getConnection`; `none` is that the thread waits.
  login_with : Bytes → Bytes → Got × Pool × W → System W → Option (Bool × System W)
  unfolding use_all
  login_with name pwd (connection h, p, w) s =
      let (ok, uses) = login db (some h) name pwd in
      some (ok, use_all uses (entered (connection h, p, w) s))
  login_with name pwd (null, p, w) s = some ((login db none name pwd).0, entered (null, p, w) s)
  login_with name pwd (waits, p, w) s = none

  -- A login that no other thread comes between.
  pub login_thread : Bytes → Bytes → System W → Option (Bool × System W)
  unfolding login_with
  login_thread name pwd s = login_with name pwd (get_connection sql s.pool s.world) s

  -- Logins one after the other.
  pub login_threads : List (Bytes × Bytes) → System W → Option (List Bool × System W)
  unfolding login_thread
  login_threads [] s = some ([], s)
  login_threads ((name, pwd) ∷ rest) s = elim (login_thread name pwd s) [
    | none ↦ none
    | some (ok, t) ↦ elim (login_threads rest t) [
      | none ↦ none
      | some (oks, u) ↦ some (ok ∷ oks, u)
    ]
  ]

silent_uses :
    {W : Type 0} (us vs : List Use) (s : System W)
    → All IsNotRelease us
    → use_all (us ++ vs) s ≡ use_all vs s
unfolding use_all IsNotRelease
silent_uses [] vs s all = refl
silent_uses (Use.queried h q ∷ us) vs s (quiet, all) = silent_uses us vs s all
silent_uses (Use.stored r ∷ us) vs s (quiet, all) = silent_uses us vs s all
silent_uses (Use.freed r ∷ us) vs s (quiet, all) = silent_uses us vs s all
silent_uses (Use.released h ∷ us) vs s (quiet, all) = absurd (quiet h refl)

module _ {W : Type 0} (sql : Mysql W) (db : Database) (name pwd : Bytes) where
  login_uses : (h : ℕ) (s : System W) → use_all (login db (some h) name pwd).1 s ≡ released h s
  unfolding use_all
  login_uses h s =
      let (us, e, quiet) = login_releases db h name pwd in
      ap (λ us. use_all us s) e ∙ silent_uses us (Use.released h ∷ []) s quiet

module _ {W : Type 0} (sql : Mysql W) (laws : MysqlLaws sql) (db : Database) (config : Config)
    (initial_size max_size : ℕ) (some_size : 1 ≤ max_size) (w : W)
    (shut : (j : ℕ) → laws.is_open w j ≡ false) where
  -- The states between logins: nothing is held.
  abbrev IsQuiet : System W → Type 0
  IsQuiet s =
      Reach sql (start sql config initial_size max_size w) s
      × (s.held ≡ [])
      × (s.pool.max_size ≡ max_size)

  IsQuiet-counted : (s : System W) → IsQuiet s → s.pool.current_count ≡ length s.pool.idle
  IsQuiet-counted s (reach, none_held, size) =
      let (once, counted, bounded) =
        pool_sound sql laws config initial_size max_size (initial_size + max_size) w s (omega arith)
          (omega arith) shut reach in
      omega (arith, counted, ap length none_held)

  login_returns :
      (name pwd : Bytes) (s : System W) (g : Got × Pool × W)
      → get_connection sql s.pool s.world ≡ g
      → Answers sql s.pool.max_size g
      → IsQuiet s
      → (ok : Bool) × (t : System W) × (login_with sql db name pwd g s ≡ some (ok, t)) × IsQuiet t
  unfolding login_with
  login_returns name pwd s (connection h, p, v) e size (reach, none_held, max_eq) =
      let t = entered (connection h, p, v) s in
      let taken = next reach (subst (λ g. Step sql s (entered g s)) e enter) in
      let (held_eq, size_eq) = given_back h p v s in
      (
        (login db (some h) name pwd).0,
        released h t,
        ap (λ u. some ((login db (some h) name pwd).0, u)) (login_uses sql db name pwd h t),
        (next taken (release h (held_front h p v s)), held_eq ∙ none_held, size_eq ∙ size ∙ max_eq),
      )
  login_returns name pwd s (null, p, v) e size (reach, none_held, max_eq) = (
    (login db none name pwd).0,
    entered (null, p, v) s,
    refl,
    (
      next reach (subst (λ g. Step sql s (entered g s)) e enter),
      (entered_null p v s).0 ∙ none_held,
      ap (λ (p : Pool). p.max_size) (entered_null p v s).1 ∙ size ∙ max_eq,
    ),
  )
  login_returns name pwd s (waits, p, v) e size quiet = absurd size

  logins_from :
      (logins : List (Bytes × Bytes)) (s : System W)
      → IsQuiet s
      → (oks : List Bool) × (t : System W) × (login_threads sql db logins s ≡ some (oks, t))
        × (length oks ≡ length logins)
        × IsQuiet t
  unfolding login_threads login_thread
  logins_from [] s quiet = ([], s, refl, refl, quiet)
  logins_from ((name, pwd) ∷ logins) s quiet =
      let (reach, none_held, max_eq) = quiet in
      let answers =
        get_connection-Answers sql s.pool s.world (IsQuiet-counted s quiet)
          (omega (arith, max_eq, some_size)) in
      let (ok, t, returns, quiet') =
        login_returns name pwd s (get_connection sql s.pool s.world) refl answers quiet in
      let (oks, u, rest, len, quiet'') = logins_from logins t quiet' in
      (
        ok ∷ oks,
        u,
        rw (returns, login_threads) (rw (rest, login_threads) refl),
        ap (λ n. suc n) len,
        quiet'',
      )

  -- Any number of logins, one after the other, on a new pool that may have a connection: none of
  -- them waits, each has a result, and after them no connection is held: all that are counted are idle.
  pub logins_return :
      (logins : List (Bytes × Bytes))
      → (oks : List Bool) × (t : System W) × (login_threads sql db logins
            (start sql config initial_size max_size w)
          ≡ some (oks, t))
        × (length oks ≡ length logins)
        × (t.held ≡ [])
        × (t.pool.current_count ≡ length t.pool.idle)
  logins_return logins =
      let (none_held, max_eq) = start_unheld sql config initial_size max_size w in
      let (oks, t, returns, len, quiet) =
        logins_from logins (start sql config initial_size max_size w) (here, none_held, max_eq) in
      (oks, t, returns, len, quiet.1, IsQuiet-counted t quiet)
