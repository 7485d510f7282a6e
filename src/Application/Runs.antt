-- ===== src/Application/Runs.antt =====
-- The theorems on the options and the configuration file at concrete ones.
use proto_rpc_multi_reactor.Prelude.{ℕ, ◌↔◌, ◌++◌, ◌≡◌, refl, List, [], ◌∷◌, Option, none, some}
use proto_rpc_multi_reactor.Prelude.Text.{Bytes, codes, Bytes_eq}
use proto_rpc_multi_reactor.Application.{
  Application, Opt, new_application, is_whitespace, trim_start, trim_end, trim, cut, config_entry,
  parse_args, parse_arg, set_zk, construct, get_config,
}
use proto_rpc_multi_reactor.Application.Trim.{IsBlank, StartsBare, EndsBare, trim_iff}
use proto_rpc_multi_reactor.Application.Config.{assigned, get_config_last}

abbrev lines : List Bytes
lines = codes "# db" ∷ codes " user = a" ∷ codes "user=b " ∷ []

abbrev files : Bytes → Option (List Bytes)
files path = some lines

abbrev stoi : Bytes → Option ℕ
stoi digits = some 80

abbrev options : List Opt
options = Opt.z (codes "h:80") ∷ Opt.i (codes "c") ∷ []

abbrev parsed : Application
parsed = record new_application { config_path = codes "c"; zk_host = codes "h"; zk_port = 80 }

last_line : assigned (codes "user") lines ≡ some (codes "b")
unfolding config_entry trim trim_start trim_end cut is_whitespace
last_line = refl

get_config_last_example :
    (app : Application) × (construct stoi files options ≡ some app)
    × (get_config (codes "user") app
        ≡ elim (assigned (codes "user") lines) [ none ↦ [] | some value ↦ value ])
unfolding parse_args parse_arg set_zk cut
get_config_last_example =
    get_config_last stoi files options parsed lines (codes "user") refl refl refl

trim_iff_example : (trim (codes " a b ") ≡ codes "a b") ↔ (
    (pre : Bytes) × (post : Bytes) × IsBlank pre
    × IsBlank post
    × (codes " a b " ≡ pre ++ (codes "a b" ++ post))
    × StartsBare (codes "a b")
    × EndsBare (codes "a b"))
trim_iff_example = trim_iff (codes " a b ") (codes "a b")
