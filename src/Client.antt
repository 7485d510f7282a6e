-- ===== src/Client.antt =====
-- example/LoginRegisterService: the clients RpcClient.cc, RpcClientConcc.cc and
-- RpcClientWithReconn.cc, from the choice of an address to the end of a connection.
--
-- `none` is the exception of `std::stoi`, which nothing catches.
pub mod Address
pub mod Session
pub mod Loop
pub mod Reconnect
pub mod Basic
pub mod AllAtOnce
pub mod Program
mod Runs
use proto_rpc_multi_reactor.Prelude.{
  ℕ, zero, suc, ◌+◌, ◌-◌, ◌%◌, ◌^◌, Bool, true, false, List, [], ◌∷◌, ◌++◌, Option, none, some, ltb,
  ◌==◌, ◌&&◌, if◌then◌else◌,
}
use proto_rpc_multi_reactor.Prelude.Text.{Bytes, codes}
use proto_rpc_multi_reactor.Application.{cut}

-- The address when no host is known.
abbrev pub no_address : Bytes × ℕ
no_address = (codes "0.0.0.0", 123)

module _ (stoi : Bytes → Option ℕ) where
  -- `static_cast<uint16_t>(std::stoi(…))`.
  to_address : Bytes → Bytes → Option (Bytes × ℕ)
  to_address ip digits = elim (stoi digits) [ none ↦ none | some n ↦ some (ip, n % 2 ^ 16) ]

  -- `getAddr` of RpcClient.cc and RpcClientWithReconn.cc, for what `pickHost` returns.
  pub get_addr : Option Bytes → Option (Bytes × ℕ)
  unfolding to_address
  get_addr none = some no_address
  get_addr (some host_data) = elim (cut 58 host_data) [
    | none ↦ some no_address
    | some (ip, digits) ↦ to_address ip digits
  ]

  -- `getAddr` of RpcClientConcc.cc. Without a colon `find` gives `npos`: the address is all of
  -- the string, and so are the digits, since `npos + 1` is 0.
  pub get_addr_concc : Option Bytes → Option (Bytes × ℕ)
  unfolding to_address
  get_addr_concc none = some no_address
  get_addr_concc (some host_data) = elim (cut 58 host_data) [
    | none ↦ to_address host_data host_data
    | some (ip, digits) ↦ to_address ip digits
  ]

-- What a client does: a login call, the end of the connection, the end of the loop, a connection to
-- another address.
pub data Action : Type 0 where
  sent_login disconnected quit : Action
  connected_to : Bytes → ℕ → Action

-- An `int` is its bit pattern of 32 bits: the test `> 0`, and `--`.
pub is_positive : ℕ → Bool
is_positive n = ltb 0 n && ltb n (2 ^ 31)

pub decrement : ℕ → ℕ
decrement n = (n + 2 ^ 32 - 1) % 2 ^ 32

-- `remainingRequests_`, and this client's part of `g_successCount`, of RpcClient.cc and
-- RpcClientWithReconn.cc.
pub record Client : Type 0 where
  pub remaining_requests : ℕ
  pub success_count : ℕ

abbrev pub new_client : ℕ → Client
new_client num_requests = record { remaining_requests = num_requests; success_count = 0 }

-- `onConnection` of RpcClient.cc.
pub on_connection : Bool → List Action
on_connection true = Action.sent_login ∷ []
on_connection false = Action.quit ∷ []

-- `onLoginDone` of RpcClient.cc and RpcClientWithReconn.cc.
unfoldable pub on_login_done : ℕ → Client → List Action × Client
unfolding is_positive decrement
on_login_done errcode c = (
  if is_positive (decrement c.remaining_requests)
      then Action.sent_login ∷ []
      else Action.disconnected ∷ [],
  record {
    remaining_requests = decrement c.remaining_requests;
    success_count = if errcode == 0 then c.success_count + 1 else c.success_count;
  },
)

-- The replies of a connection in turn, by their error codes.
pub replies : List ℕ → Client → List Action × Client
unfolding on_login_done
replies [] c = ([], c)
replies (errcode ∷ rest) c =
    let (acts, c') = on_login_done errcode c in
    let (more, c'') = replies rest c' in (acts ++ more, c'')

-- What happens to a client: its connection comes up, its connection ends (and `pickHost` would
-- find this host now), a reply arrives with this error code.
pub data Event : Type 0 where
  connected : Event
  closed : Option Bytes → Event
  replied : ℕ → Event

-- RpcClient.cc.
pub basic : Event → Client → Option (List Action × Client)
unfolding on_connection on_login_done
basic connected c = some (on_connection true, c)
basic (closed host) c = some (on_connection false, c)
basic (replied errcode) c = some (on_login_done errcode c)

-- `onConnection` of RpcClientWithReconn.cc when the connection ends.
pub reconnect : (Bytes → Option ℕ) → Option Bytes → Client → Option (List Action)
unfolding get_addr is_positive
reconnect stoi host c =
    if is_positive c.remaining_requests
    then elim (get_addr stoi host) [
      | none ↦ none
      | some (ip, port) ↦ some (Action.connected_to ip port ∷ [])
    ]
    else some (Action.quit ∷ [])

-- RpcClientWithReconn.cc.
pub reconnecting : (Bytes → Option ℕ) → Event → Client → Option (List Action × Client)
unfolding reconnect on_login_done
reconnecting stoi connected c = some (Action.sent_login ∷ [], c)
reconnecting stoi (closed host) c = elim (reconnect stoi host c) [
  | none ↦ none
  | some acts ↦ some (acts, c)
]
reconnecting stoi (replied errcode) c = some (on_login_done errcode c)

-- `totalRequests_`, `pendingResponses_`, and its part of `g_successCount`, of RpcClientConcc.cc.
pub record Concurrent : Type 0 where
  pub total_requests : ℕ
  pub pending_responses : ℕ
  pub success_count : ℕ

abbrev pub new_concurrent : ℕ → Concurrent
new_concurrent num_requests = record {
  total_requests = num_requests;
  pending_responses = num_requests;
  success_count = 0;
}

-- The loop of `onConnection`: one call for each request.
pub send_logins : ℕ → List Action
send_logins zero = []
send_logins (suc n) = Action.sent_login ∷ send_logins n

-- `onLoginDone` of RpcClientConcc.cc: `fetch_sub` returns what was there.
pub count_reply : ℕ → Concurrent → List Action × Concurrent
unfolding decrement
count_reply errcode c = (
  if c.pending_responses == 1 then Action.disconnected ∷ [] else [],
  record c {
    pending_responses = decrement c.pending_responses;
    success_count = if errcode == 0 then c.success_count + 1 else c.success_count;
  },
)

-- RpcClientConcc.cc.
pub concurrent : Event → Concurrent → Option (List Action × Concurrent)
unfolding send_logins count_reply is_positive
concurrent connected c =
    some (send_logins (if is_positive c.total_requests then c.total_requests else 0), c)
concurrent (closed host) c = some (Action.quit ∷ [], c)
concurrent (replied errcode) c = some (count_reply errcode c)
