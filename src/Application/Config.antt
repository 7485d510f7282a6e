-- ===== src/Application/Config.antt =====
-- `LoadConfigFile` and `GetConfig` of src/Application.cc.
use proto_rpc_multi_reactor.Prelude.{
  ℕ, ◌≡◌, refl, sym, ◌∙◌, ap, false, inl, inr, List, [], ◌∷◌, Option, none, some, arith,
  if◌then◌else◌, is_empty, Option-cases, Bool-cases,
}
use proto_rpc_multi_reactor.Prelude.Text.{Bytes, bytes_eq, Bytes_eq}
use proto_rpc_multi_reactor.Prelude.Dict.{Dict, lookup, insert, lookup-insert}
use proto_rpc_multi_reactor.Application.{
  Application, Opt, new_application, config_entry, load_lines, load_config_file, set_zk, set_server,
  parse_arg, parse_args, cut, construct, get_config,
}

-- What a line gives a key.
abbrev pub given : Bytes → Option (Bytes × Bytes) → Option Bytes
given key none = none
given key (some (k, value)) = if bytes_eq k key then some value else none

abbrev pub or_else : Option Bytes → Option Bytes → Option Bytes
or_else none o = o
or_else (some v) o = some v

-- What the last of the lines that give the key something gives it.
abbrev pub assigned : Bytes → List Bytes → Option Bytes
assigned key [] = none
assigned key (line ∷ lines) = or_else (assigned key lines) (given key (config_entry line))

or_else_assoc : (a b c : Option Bytes) → or_else (or_else a b) c ≡ or_else a (or_else b c)
or_else_assoc none b c = refl
or_else_assoc (some v) b c = refl

or_else-none : (o : Option Bytes) → or_else o none ≡ o
or_else-none none = refl
or_else-none (some v) = refl

insert-given :
    (key k value : Bytes) (m : Dict Bytes Bytes)
    → lookup key (insert k value m) ≡ or_else (given key (some (k, value))) (lookup key m)
insert-given key k value m =
    lookup-insert k key value m
    ∙ elim (Bool-cases (bytes_eq k key)) [ inl e ↦ rw e refl | inr e ↦ rw e refl ]

lookup-load_lines :
    (key : Bytes) (lines : List Bytes) (m : Dict Bytes Bytes)
    → lookup key (load_lines lines m) ≡ or_else (assigned key lines) (lookup key m)
unfolding load_lines
lookup-load_lines key [] m = refl
lookup-load_lines key (line ∷ lines) m = elim (Option-cases (config_entry line)) [
  | inl e ↦
      rw (e, load_lines)
        (lookup-load_lines key lines m
          ∙ sym (or_else_assoc (assigned key lines) none (lookup key m)))
  | inr ((k, value), e) ↦
      rw (e, load_lines)
        (lookup-load_lines key lines (insert k value m)
          ∙ ap (or_else (assigned key lines)) (insert-given key k value m)
          ∙ sym (or_else_assoc (assigned key lines) (given key (some (k, value))) (lookup key m)))
]

module _ (stoi : Bytes → Option ℕ) where
  set_zk-keeps :
      (app app' : Application) (o : Option (Bytes × Bytes))
      → set_zk stoi app o ≡ some app'
      → app'.config_map ≡ app.config_map
  unfolding set_zk
  set_zk-keeps app app' none e = ground arith
  set_zk-keeps app app' (some (host, digits)) e = ground arith

  set_server-keeps :
      (app app' : Application) (o : Option (Bytes × Bytes))
      → set_server stoi app o ≡ some app'
      → app'.config_map ≡ app.config_map
  unfolding set_server
  set_server-keeps app app' none e = ground arith
  set_server-keeps app app' (some (host, digits)) e = ground arith

  parse_arg-keeps :
      (app app' : Application) (opt : Opt)
      → parse_arg stoi app opt ≡ some app'
      → app'.config_map ≡ app.config_map
  unfolding parse_arg
  parse_arg-keeps app app' (Opt.i optarg) e = ground arith
  parse_arg-keeps app app' (Opt.z optarg) e = set_zk-keeps app app' (cut 58 optarg) e
  parse_arg-keeps app app' (Opt.s optarg) e = set_server-keeps app app' (cut 58 optarg) e
  parse_arg-keeps app app' Opt.unknown e = ground arith

  parse_args-keeps :
      (app app' : Application) (opts : List Opt)
      → parse_args stoi app opts ≡ some app'
      → app'.config_map ≡ app.config_map
  unfolding parse_args
  parse_args-keeps app app' [] e = ground arith
  parse_args-keeps app app' (opt ∷ opts) e = elim (Option-cases (parse_arg stoi app opt)) [
    | inl p ↦ ground arith
    | inr (mid, p) ↦
        parse_args-keeps mid app' opts (rw (p, parse_args) at e) ∙ parse_arg-keeps app mid opt p
  ]

-- Where the options name a configuration file that opens, `GetConfig` of a key gives what the last
-- line that sets the key sets it to, and the empty string if no line does.
pub get_config_last :
    (stoi : Bytes → Option ℕ) (files : Bytes → Option (List Bytes)) (opts : List Opt)
    (parsed : Application) (lines : List Bytes) (key : Bytes)
    → parse_args stoi new_application opts ≡ some parsed
    → is_empty parsed.config_path ≡ false
    → files parsed.config_path ≡ some lines
    → (app : Application) × (construct stoi files opts ≡ some app)
      × (get_config key app ≡ elim (assigned key lines) [ none ↦ [] | some value ↦ value ])
unfolding construct load_config_file get_config lookup
get_config_last stoi files opts parsed lines key p named f = (
  record parsed { config_map = load_lines lines parsed.config_map },
  rw (p, construct) (rw (named, construct) (rw (f, load_config_file) refl)),
  ap (λ o. elim o [ none ↦ [] | some value ↦ value ]) found,
)
  where
    found : lookup key (load_lines lines parsed.config_map) ≡ assigned key lines
    found =
        lookup-load_lines key lines parsed.config_map
        ∙ ap (λ m. or_else (assigned key lines) (lookup key m))
            (parse_args-keeps stoi new_application parsed opts p)
        ∙ or_else-none (assigned key lines)
