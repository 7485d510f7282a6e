-- ===== src/Application.antt =====
-- src/Application.cc and src/include/Application.h: the options of the command line and the
-- configuration file.
--
-- A string is the list of its bytes. `none` is the end of the process: `exit`, or the exception of
-- `std::stoi`, which nothing catches.
pub mod Trim
pub mod Config
mod Runs
use proto_rpc_multi_reactor.Prelude.{
  ℕ, zero, suc, ◌≡◌, refl, Bool, true, false, List, [], ◌∷◌, ◌++◌, Option, none, some, ◌==◌, ◌||◌,
  if◌then◌else◌, is_empty,
}
use proto_rpc_multi_reactor.Prelude.Text.{Bytes, codes, Bytes_eq}
use proto_rpc_multi_reactor.Prelude.Dict.{Dict, lookup, insert}

-- What the two files parse into. `argc_` and `argv_` are only handed to `getopt`.
pub record Application : Type 0 where
  pub config_path : Bytes
  pub zk_host : Bytes
  pub zk_port : ℕ
  pub server_host : Bytes
  pub server_port : ℕ
  pub config_map : Dict Bytes Bytes

abbrev pub new_application : Application
new_application = record {
  config_path = [];
  zk_host = codes "127.0.0.1";
  zk_port = 2181;
  server_host = codes "192.168.3.1";
  server_port = 8000;
  config_map = [];
}

-- What `getopt` returns in turn, with `optarg`; `unknown` is what the switch has no case for.
pub data Opt : Type 0 where
  i z s : Bytes → Opt
  unknown : Opt

-- `" \t\n\r"`.
pub is_whitespace : ℕ → Bool
is_whitespace b = b == 32 || b == 9 || b == 10 || b == 13

-- `find_first_not_of(whitespace)` to the end of the string.
pub trim_start : Bytes → Bytes
unfolding is_whitespace
trim_start [] = []
trim_start (b ∷ bs) = let rest = trim_start bs in if is_whitespace b then rest else b ∷ bs

-- The string up to `find_last_not_of(whitespace)`.
pub trim_end : Bytes → Bytes
unfolding is_whitespace
trim_end [] = []
trim_end (b ∷ bs) =
    let rest = trim_end bs in
    if is_empty rest then (if is_whitespace b then [] else b ∷ []) else b ∷ rest

-- `Trim`.
pub trim : Bytes → Bytes
unfolding trim_start trim_end
trim str = trim_end (trim_start str)

-- What stands before the first `delim` and behind it (`find` and the two `substr`).
unfoldable pub cut : ℕ → Bytes → Option (Bytes × Bytes)
cut delim [] = none
cut delim (b ∷ bs) =
    let rest = cut delim bs in
    if b == delim
    then some ([], bs)
    else elim rest [ none ↦ none | some (front, back) ↦ some (b ∷ front, back) ]

module _ (stoi : Bytes → Option ℕ) where
  -- The argument of `-z` and `-s`: host and port, where there is a colon.
  unfoldable pub set_zk : Application → Option (Bytes × Bytes) → Option Application
  set_zk app none = some app
  set_zk app (some (host, digits)) = elim (stoi digits) [
    | none ↦ none
    | some port ↦ some (record app { zk_host = host; zk_port = port })
  ]

  unfoldable pub set_server : Application → Option (Bytes × Bytes) → Option Application
  set_server app none = some app
  set_server app (some (host, digits)) = elim (stoi digits) [
    | none ↦ none
    | some port ↦ some (record app { server_host = host; server_port = port })
  ]

  -- The body of the loop of `ParseArgs`.
  unfoldable pub parse_arg : Application → Opt → Option Application
  unfolding cut set_zk set_server
  parse_arg app (Opt.i optarg) = some (record app { config_path = optarg })
  parse_arg app (Opt.z optarg) = set_zk app (cut 58 optarg)
  parse_arg app (Opt.s optarg) = set_server app (cut 58 optarg)
  parse_arg app Opt.unknown = none

  unfoldable pub parse_args : Application → List Opt → Option Application
  unfolding parse_arg
  parse_args app [] = some app
  parse_args app (opt ∷ opts) = elim (parse_arg app opt) [
    | none ↦ none
    | some app' ↦ parse_args app' opts
  ]

-- The key and the value of a line, if it has them.
pub config_entry : Bytes → Option (Bytes × Bytes)
unfolding trim cut
config_entry line = entry (trim line)
  where
    pair : Option (Bytes × Bytes) → Option (Bytes × Bytes)
    pair none = none
    pair (some (key, value)) = some (trim key, trim value)

    entry : Bytes → Option (Bytes × Bytes)
    entry [] = none
    entry (b ∷ bs) = if b == 35 then none else pair (cut 61 (b ∷ bs))

-- The loop of `LoadConfigFile` over the lines.
pub load_lines : List Bytes → Dict Bytes Bytes → Dict Bytes Bytes
unfolding config_entry
load_lines [] m = m
load_lines (line ∷ lines) m = elim (config_entry line) [
  | none ↦ load_lines lines m
  | some (key, value) ↦ load_lines lines (insert key value m)
]

-- `LoadConfigFile`, for the lines of the file, or `none` if it does not open.
pub load_config_file : Option (List Bytes) → Application → Option Application
unfolding load_lines
load_config_file none app = none
load_config_file (some lines) app =
    some (record app { config_map = load_lines lines app.config_map })

-- The constructor, with the files of the machine.
unfoldable pub construct :
    (Bytes → Option ℕ) → (Bytes → Option (List Bytes)) → List Opt → Option Application
unfolding parse_args load_config_file
construct stoi files opts = elim (parse_args stoi new_application opts) [
  | none ↦ none
  | some app ↦
      if is_empty app.config_path then some app else load_config_file (files app.config_path) app
]

-- `GetConfig`.
pub get_config : Bytes → Application → Bytes
get_config key app = elim (lookup key app.config_map) [ none ↦ [] | some value ↦ value ]

-- `Instance`, with `instance_` before and after the call: the options count in the first call only.
unfoldable pub instance :
    (Bytes → Option ℕ)
    → (Bytes → Option (List Bytes))
    → List Opt
    → Option Application
    → Option (Application × Option Application)
unfolding construct
instance stoi files opts (some app) = some (app, some app)
instance stoi files opts none = elim (construct stoi files opts) [
  | none ↦ none
  | some app ↦ some (app, some app)
]

-- The first call makes the application, and every later one, with any options, returns it.
pub instance-construct :
    (stoi : Bytes → Option ℕ) (files : Bytes → Option (List Bytes)) (opts later : List Opt)
    (app : Application)
    → construct stoi files opts ≡ some app
    → (instance stoi files opts none ≡ some (app, some app))
      × (instance stoi files later (some app) ≡ some (app, some app))
unfolding instance
instance-construct stoi files opts later app e = (rw (e, instance) refl, refl)
