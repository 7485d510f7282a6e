-- ===== src/Channel/Sample.antt =====
-- A channel's environment for runs of the model: the header's codec over the sample runtime, plain
-- buffers, and one service, number 5, with one method, number 0, which echoes its payload.
use proto_rpc_multi_reactor.Prelude.{
  ℕ, ◌+◌, ◌*◌, ◌/◌, ◌%◌, ◌^◌, ◌≤◌, ◌<◌, ◌≡◌, refl, true, [], ◌∷◌, ◌++◌, Option, none, some, arith,
  if◌then◌else◌, length, take, drop,
}
use proto_rpc_multi_reactor.Prelude.Text.{Bytes, codes, bytes_eq}
use proto_rpc_multi_reactor.Wire.Loop.{Outcome, ended}
use proto_rpc_multi_reactor.Wire.Sample.{sample, sample-Forward, sample-ReadsBack}
use proto_rpc_multi_reactor.Header.{RpcHeader}
use proto_rpc_multi_reactor.Header.RoundTrip.{Fits}
use proto_rpc_multi_reactor.Header.Codec.{
  Wrappers, WrapperLaws, serialize_to_string, parse_from_string,
  parse_from_string-serialize_to_string,
}
use proto_rpc_multi_reactor.Channel.Monad.{return}
use proto_rpc_multi_reactor.Channel.{Env, done_callback}
use proto_rpc_multi_reactor.Channel.Framing.{BufferLaws}

abbrev accept_ended : Outcome RpcHeader → Option RpcHeader
accept_ended (ended h) = some h
accept_ended _ = none

abbrev pub sample_wrappers : Wrappers
sample_wrappers = record { to_string = λ s. some s; accept = accept_ended }

pub sample-WrapperLaws : WrapperLaws sample_wrappers
sample-WrapperLaws = record {
  to_string_same = λ s t e. cc;
  to_string_total = λ s h. refl;
  accept_ended = λ h. refl;
}

abbrev big_endian : ℕ → Bytes
big_endian n = (n / 2 ^ 24 % 256) ∷ (n / 2 ^ 16 % 256) ∷ (n / 2 ^ 8 % 256) ∷ (n % 256) ∷ []

abbrev peek : Bytes → ℕ
peek (a ∷ b ∷ c ∷ d ∷ s) = a * 2 ^ 24 + b * 2 ^ 16 + c * 2 ^ 8 + d
peek _ = 0

-- The service's method runs its closure on another thread, later.
abbrev pub sample_env : Env
sample_env = record {
  serialize_header = serialize_to_string sample sample_wrappers;
  parse_header = parse_from_string sample sample_wrappers;
  increment_and_get = λ n. n + 1;
  net_bytes = big_endian;
  readable_bytes = length;
  peek_int32 = peek;
  retrieve = drop;
  retrieve_as_string = λ n s. (take n s, drop n s);
  find_method = λ service name. if bytes_eq name (codes "Echo") then some 0 else none;
  parse_request = λ service md payload. true;
  parse_response = λ r payload. true;
  run_closure = λ d. return tt;
  call_service = λ service md payload id. return tt;
}

peek-append : (s t : Bytes) → 4 ≤ length s → peek (s ++ t) ≡ peek s
peek-append [] t h = absurd (omega arith)
peek-append (a ∷ []) t h = absurd (omega arith)
peek-append (a ∷ b ∷ []) t h = absurd (omega arith)
peek-append (a ∷ b ∷ c ∷ []) t h = absurd (omega arith)
peek-append (a ∷ b ∷ c ∷ d ∷ s) t h = refl

pub sample-BufferLaws : BufferLaws sample_env
sample-BufferLaws = record {
  readable_bytes_lem = λ s. refl;
  length-net_bytes = λ n. refl;
  peek_int32-net_bytes = λ n s h. omega arith;
  peek_int32-append = peek-append;
  retrieve_lem = λ n s h. refl;
  retrieve_as_string_lem = λ n s h. refl;
}

-- The service answers with the payload, before its method returns.
abbrev pub server_env : Env
server_env = record sample_env {
  call_service = λ service md payload id. done_callback sample_env (some payload) id;
}

pub server-BufferLaws : BufferLaws server_env
server-BufferLaws = record {
  readable_bytes_lem = λ s. refl;
  length-net_bytes = λ n. refl;
  peek_int32-net_bytes = sample-BufferLaws.peek_int32-net_bytes;
  peek_int32-append = peek-append;
  retrieve_lem = λ n s h. refl;
  retrieve_as_string_lem = λ n s h. refl;
}

-- The codec of the header keeps what fits.
pub decodes_sample :
    (h : RpcHeader) (raw : Bytes)
    → Fits h
    → sample_env.serialize_header h ≡ some raw
    → sample_env.parse_header raw ≡ some h
decodes_sample =
    parse_from_string-serialize_to_string sample sample_wrappers sample-Forward sample-ReadsBack
      sample-WrapperLaws

pub fits :
    (h : RpcHeader)
    → (h.type < 2 ^ 32)
      × (h.id < 2 ^ 64)
      × (length h.service_name + 16 < 2 ^ 31)
      × (length h.method_name + 16 < 2 ^ 31)
      × (length h.payload + 16 < 2 ^ 31)
    → h.unknown ≡ []
    → Fits h
fits h (t, i, s, m, p) u = record {
  type_fits = t;
  id_fits = i;
  service_name_fits = s;
  method_name_fits = m;
  payload_fits = p;
  no_unknown = u;
}
