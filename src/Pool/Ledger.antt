-- ===== src/Pool/Ledger.antt =====
-- example/MySQLServer/ConnectionPool.h: counting connections, and what a new one does to the open ones.
use proto_rpc_multi_reactor.Prelude.{
  ℕ, suc, ◌+◌, ◌<◌, ◌≡◌, refl, inl, inr, Bool, true, false, List, [], ◌∷◌, ◌++◌, Option, none, some,
  subst, arith, ◌==◌, ==_iff, if◌then◌else◌, length, Bool-cases, Option-cases, ℕ-cases,
}
use proto_rpc_multi_reactor.Pool.{
  Config, Mysql, Pool, System, give_back, count, connect, create_connection, notify_one,
}

abbrev pub bit : Bool → ℕ
bit true = 1
bit false = 0

-- What the client library does to the connections that are open: `mysql_init` opens one that was
-- not open, `mysql_real_connect` opens and closes none, `mysql_close` closes the one.
pub record MysqlLaws {W : Type 0} (sql : Mysql W) : Type 0 where
  pub is_open : W → ℕ → Bool
  pub init_some :
      (w w' : W) (h : ℕ)
      → sql.init w ≡ (some h, w')
      → (is_open w h ≡ false) × ((j : ℕ) → is_open w' j ≡ (if h == j then true else is_open w j))
  pub init_none : (w w' : W) → sql.init w ≡ (none, w') → (j : ℕ) → is_open w' j ≡ is_open w j
  pub connect_keeps :
      (h : ℕ) (config : Config) (w : W) (j : ℕ)
      → is_open (sql.real_connect h config w).1 j ≡ is_open w j
  pub close_one :
      (h : ℕ) (w : W) (j : ℕ) → is_open (sql.close h w) j ≡ (if h == j then false else is_open w j)

pub count-append : (j : ℕ) (xs ys : List ℕ) → count j (xs ++ ys) ≡ count j xs + count j ys
unfolding count
count-append j [] ys = omega arith
count-append j (x ∷ xs) ys = ground (arith, count-append j xs ys)

pub count-cons : (j h : ℕ) (xs : List ℕ) → count j (h ∷ xs) ≡ bit (h == j) + count j xs
unfolding count
count-cons j h xs = ground arith

pub count-nil : (j : ℕ) → count j [] ≡ 0
unfolding count
count-nil j = refl

pub count-give_back :
    (h j : ℕ) (xs : List ℕ) → 0 < count h xs → count j (give_back h xs) + bit (h == j) ≡ count j xs
unfolding count give_back
count-give_back h j [] has = omega arith
count-give_back h j (x ∷ xs) has = ground (arith, count-give_back h j xs)

pub length-give_back :
    (h : ℕ) (xs : List ℕ) → 0 < count h xs → suc (length (give_back h xs)) ≡ length xs
unfolding count give_back
length-give_back h [] has = omega arith
length-give_back h (x ∷ xs) has = ground (arith, length-give_back h xs)

pub notify_one-keeps :
    {W : Type 0} (P : Pool → W → List ℕ → Type 0) (s : System W)
    → P s.pool s.world s.held
    → P (notify_one s).pool (notify_one s).world (notify_one s).held
unfolding notify_one
notify_one-keeps P s k = elim (ℕ-cases s.blocked) [
  | inl e ↦ rw (e, notify_one) k
  | inr (n, e) ↦ rw (e, notify_one) k
]

module _ {W : Type 0} (sql : Mysql W) (laws : MysqlLaws sql) where
  -- What `createConnection` does to the open connections, given what it returns.
  abbrev pub Made : W → Option ℕ → W → Type 0
  Made w none w' = (j : ℕ) → laws.is_open w' j ≡ laws.is_open w j
  Made w (some h) w' =
      (laws.is_open w h ≡ false)
      × ((j : ℕ) → laws.is_open w' j ≡ (if h == j then true else laws.is_open w j))

  pub Made-bit :
      (w w' : W) (h : ℕ)
      → Made w (some h) w'
      → (j : ℕ) → bit (laws.is_open w' j) ≡ bit (h == j) + bit (laws.is_open w j)
  Made-bit w w' h (closed, opened) j = elim (Bool-cases (h == j)) [
    | inl same ↦
        let shut : laws.is_open w j ≡ false =
          subst (λ k. laws.is_open w k ≡ false) ((==_iff h j).0 same) closed in
        rw (opened j, same, shut) refl
    | inr other ↦ rw (opened j, other) (omega arith)
  ]

  connect-Made :
      (config : Config) (w v : W) (h : ℕ)
      → sql.init w ≡ (some h, v)
      → Made w (connect sql h config v).0 (connect sql h config v).1
  unfolding connect
  connect-Made config w v h e =
      let (closed, opened) = laws.init_some w v h e in
      elim (Bool-cases (sql.real_connect h config v).0) [
        | inl ok ↦
            rw (ok, connect)
              (closed, λ j. ground (arith, laws.connect_keeps h config v j, opened j))
        | inr bad ↦
            rw (bad, connect)
              (λ j. ground (
                arith,
                laws.connect_keeps h config v j,
                laws.close_one h (sql.real_connect h config v).1 j,
                opened j,
              ))
      ]

  pub create_connection-Made :
      (config : Config) (w : W)
      → Made w (create_connection sql config w).0 (create_connection sql config w).1
  unfolding create_connection
  create_connection-Made config w = elim (Option-cases (sql.init w).0) [
    | inl e ↦ rw (e, create_connection) (laws.init_none w (sql.init w).1 (ground arith))
    | inr (h, e) ↦ rw (e, create_connection) (connect-Made config w (sql.init w).1 h (ground arith))
  ]
