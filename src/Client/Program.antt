-- ===== src/Client/Program.antt =====
-- `main` of RpcClient.cc, RpcClientConcc.cc and RpcClientWithReconn.cc: the arguments, the threads, and
-- the count of the successful calls.
use proto_rpc_multi_reactor.Prelude.{
  ℕ, zero, suc, ◌+◌, ◌*◌, ◌%◌, ◌<◌, ◌≤◌, ◌^◌, ◌≡◌, ap, subst, true, false, List, [], ◌∷◌, Option,
  none, some, arith, ltb, if◌then◌else◌, length, get_elem?,
}
use proto_rpc_multi_reactor.Prelude.Text.{Bytes}
use proto_rpc_multi_reactor.Client.{Client, new_client, Event, reconnecting, is_positive}
use proto_rpc_multi_reactor.Client.Loop.{Session, started, Run}
use proto_rpc_multi_reactor.Client.Reconnect.{IsSound-stopped, reconnecting-IsSound}

-- What `main` reads off its arguments; the numbers are bit patterns.
pub record Arguments : Type 0 where
  pub service : Bytes
  pub method : Bytes
  pub num_threads : ℕ
  pub requests_per_client : ℕ

infixl 5 ◌>>=◌
abbrev ◌>>=◌ : {A B : Type 0} → Option A → (A → Option B) → Option B
none >>= f = none
some a >>= f = f a

-- The four arguments from the index `i` on.
unfoldable pub arguments_from : (Bytes → ℕ) → ℕ → List Bytes → Option Arguments
arguments_from atoi i argv = do
  service ← get_elem? argv i
  method ← get_elem? argv (i + 1)
  threads ← get_elem? argv (i + 2)
  requests ← get_elem? argv (i + 3)
  some (record {
    service = service;
    method = method;
    num_threads = atoi threads;
    requests_per_client = atoi requests;
  })

-- RpcClient.cc and RpcClientWithReconn.cc; `none` is the message on the usage and the exit code 1.
unfoldable pub arguments : (Bytes → ℕ) → List Bytes → Option Arguments
unfolding arguments_from
arguments atoi argv = if ltb (length argv) 7 then none else arguments_from atoi 3 argv

-- RpcClientConcc.cc.
unfoldable pub arguments_concc : (Bytes → ℕ) → List Bytes → Option Arguments
unfolding arguments_from
arguments_concc atoi argv = if ltb (length argv) 5 then none else arguments_from atoi 1 argv

-- The loop over the threads: each makes a client and runs its loop.
unfoldable pub start_clients : ℕ → ℕ → List (Session Client)
start_clients zero n = []
start_clients (suc k) n = started (new_client n) ∷ start_clients k n

-- `none` is the exception of `reserve` for a negative number of threads.
unfoldable pub start_threads : Arguments → Option (List (Session Client))
unfolding start_clients
start_threads a =
    if ltb a.num_threads (2 ^ 31)
    then some (start_clients a.num_threads a.requests_per_client)
    else none

-- `g_successCount` after the threads are joined.
pub success_total : List (Session Client) → ℕ
success_total [] = 0
success_total (s ∷ ss) = (s.client.success_count + success_total ss) % 2 ^ 32

-- Each thread's client ran from its start to the end of its loop.
abbrev pub Ended : (Bytes → Option ℕ) → List (Session Client) → List (Session Client) → Type 0
Ended stoi [] [] = Unit
Ended stoi [] (u ∷ us) = ⊥
Ended stoi (s ∷ ss) [] = ⊥
Ended stoi (s ∷ ss) (u ∷ us) =
    ((es : List Event) × Run (reconnecting stoi) s es u × (u.running ≡ false)) × Ended stoi ss us

abbrev pub answered_total : List (Session Client) → ℕ
answered_total [] = 0
answered_total (s ∷ ss) = s.answered + answered_total ss

sum_eq : (a b k n : ℕ) → a ≡ n → b ≡ k * n → a + b ≡ suc k * n
sum_eq a b k n h j = grind (arith, h, j)

sum_le : (c d a b : ℕ) → c ≤ a → d ≤ b → (c + d) % 2 ^ 32 ≤ a + b
sum_le c d a b h j = omega (arith, h, j)

start_clients-totals :
    (stoi : Bytes → Option ℕ) (k n : ℕ) (us : List (Session Client))
    → 1 ≤ n
    → n < 2 ^ 31
    → Ended stoi (start_clients k n) us
    → (answered_total us ≡ k * n) × (success_total us ≤ answered_total us)
unfolding start_clients success_total
start_clients-totals stoi zero n [] some_left bound ended = (omega arith, omega arith)
start_clients-totals stoi zero n (u ∷ us) some_left bound ended = absurd ended
start_clients-totals stoi (suc k) n [] some_left bound ended = absurd ended
start_clients-totals stoi (suc k) n (u ∷ us) some_left bound ((es, run, stopped), ended) =
    let i = reconnecting-IsSound stoi n es u some_left bound run in
    let (all, some_ok) = start_clients-totals stoi k n us some_left bound ended in
    let here : u.answered ≡ n = IsSound-stopped n u i stopped in
    (
      sum_eq u.answered (answered_total us) k n here all,
      sum_le u.client.success_count (success_total us) u.answered (answered_total us) i.counted
          some_ok,
    )

-- What `main` of RpcClientWithReconn.cc starts for a number of threads that is not negative and for 1
-- request or more per client, fewer than 2 ^ 31: its threads, and once all their loops have ended,
-- whatever connections were lost, the answered requests are threads times requests, and what `main`
-- reports as successful calls is not more than that.
pub threads_answer :
    (stoi : Bytes → Option ℕ) (a : Arguments) (us : List (Session Client))
    → ltb a.num_threads (2 ^ 31) ≡ true
    → is_positive a.requests_per_client ≡ true
    → Ended stoi (start_clients a.num_threads a.requests_per_client) us
    → (start_threads a ≡ some (start_clients a.num_threads a.requests_per_client))
      × (answered_total us ≡ a.num_threads * a.requests_per_client)
      × (success_total us ≤ a.num_threads * a.requests_per_client)
unfolding start_threads is_positive
threads_answer stoi a us some_threads some_requests ended =
    let (all, some_ok) =
      start_clients-totals stoi a.num_threads a.requests_per_client us (ground arith) (ground arith)
        ended in
    (
      ap (λ b. if b then some (start_clients a.num_threads a.requests_per_client) else none)
          some_threads,
      all,
      subst (λ k. success_total us ≤ k) all some_ok,
    )
