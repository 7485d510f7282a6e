-- ===== src/Pool/Sample.antt =====
-- A small database for the runs.
use proto_rpc_multi_reactor.Prelude.{
  ℕ, suc, refl, Bool, true, false, ◌&&◌, some, arith, ltb, ◌==◌, if◌then◌else◌,
}
use proto_rpc_multi_reactor.Prelude.Text.{codes}
use proto_rpc_multi_reactor.Pool.{Config, Mysql}
use proto_rpc_multi_reactor.Pool.Ledger.{MysqlLaws}

-- A database that takes every connection. Its state is the number of handles made, and the ones
-- that are open.
abbrev pub World : Type 0
World = ℕ × (ℕ → Bool)

abbrev pub database : Mysql World
database = record {
  init = λ w. (some w.0, (suc w.0, λ j. if w.0 == j then true else w.1 j));
  real_connect = λ h config w. (true, w);
  close = λ h w. (w.0, λ j. if h == j then false else w.1 j);
}

abbrev pub database-MysqlLaws : MysqlLaws database
database-MysqlLaws = record {
  is_open = λ w j. ltb j w.0 && w.1 j;
  init_some = λ w w' h e. ground arith;
  init_none = λ w w' e j. ground arith;
  connect_keeps = λ h config w j. refl;
  close_one = λ h w j. ground arith;
}

abbrev pub unused : World
unused = (0, λ j. false)

abbrev pub config : Config
config = record {
  host = codes "h";
  user = codes "u";
  password = codes "p";
  database = codes "chat";
  port = 3306;
}
