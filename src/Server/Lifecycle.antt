-- ===== src/Server/Lifecycle.antt =====
-- src/RPCServer.cc: the life of a server in its event loop: the connections, the signals, and the
-- two ways to the end of the loop.
--
-- The loop of muduo is a queue of functors. A handler of a signal is one step, although the signal
-- may come at any time.
pub mod Counting
pub mod Stopping
mod Runs
use proto_rpc_multi_reactor.Prelude.{
  ℕ, zero, suc, ◌+◌, ◌≡◌, Bool, true, false, List, [], ◌∷◌, ◌++◌, Option, none, some, ◌==◌,
  if◌then◌else◌,
}
use proto_rpc_multi_reactor.Prelude.Text.{ℕ_eq}
use proto_rpc_multi_reactor.Prelude.Dict.{lookup}
use proto_rpc_multi_reactor.Channel.Monad.{Channel}
use proto_rpc_multi_reactor.Zookeeper.{Api}
use proto_rpc_multi_reactor.Server.{Server, on_connection, cleanup}

-- What `queueInLoop` is given: the function of `StopServer`, or `EventLoop::quit`.
pub data Task : Type 0 where
  check_connections quit : Task

-- How the function of `StopServer` found the connections.
pub data Close : Type 0 where
  safe hard : Close

-- The server, its queue of functors front first, whether it accepts connections, how it was closed, and
-- whether its loop runs.
pub record Loop : Type 0 where
  pub server : Server
  pub tasks : List Task
  pub accepting : Bool
  pub closes : List Close
  pub running : Bool

-- `Run` at its call of `event_loop.loop()`.
abbrev pub enter_loop : Server → Loop
enter_loop s = record { server = s; tasks = []; accepting = true; closes = []; running = true }

abbrev pub queue_in_loop : Task → Loop → Loop
queue_in_loop t l = record l { tasks = l.tasks ++ (t ∷ []) }

-- The handler of `SIGTERM`.
pub on_sigterm : Loop → Loop
on_sigterm l = queue_in_loop Task.quit l

-- The function that `StopServer` queues; where it found connections it sleeps a second first.
pub stop_in_loop : Loop → Loop
stop_in_loop l =
    let close = if l.server.pending_requests == 0 then safe else hard in
    queue_in_loop Task.quit (record l { accepting = false; closes = l.closes ++ (close ∷ []) })

pub run_task : Task → Loop → Loop
unfolding stop_in_loop
run_task check_connections l = stop_in_loop l
run_task Task.quit l = record l { running = false }

-- The front of the queue; `doPendingFunctors` goes through the queue in turn.
pub run_front : Loop → Loop
unfolding run_task
run_front l = elim l.tasks [ [] ↦ l | t ∷ ts ↦ run_task t (record l { tasks = ts }) ]

-- As many of the queue's functors.
pub run_tasks : ℕ → Loop → Loop
unfolding run_front
run_tasks zero l = l
run_tasks (suc n) l = run_tasks n (run_front l)

-- A connection came up, or ended.
pub connection_changed : ℕ → Bool → Loop → Option Loop
connection_changed conn is_up l = elim (on_connection conn is_up l.server) [
  | none ↦ none
  | some s ↦ some (record l { server = s })
]

module _ {W : Type 0} (api : Api W) where
  -- `StopServer`, which is the handler of `SIGINT`.
  pub stop_server : Loop → W → Loop × W
  stop_server l w =
      let (s, w') = cleanup api l.server w in
      (queue_in_loop check_connections (record l { server = s }), w')

  -- The steps of the loop while it runs. A connection has a name that no open one has. It may
  -- come up after the server has stopped accepting: `OnConnection` runs in a thread of its own loop.
  pub data Step : Loop × W → Loop × W → Type 0 where
    opened :
        {l l' : Loop} {w : W} (conn : ℕ)
        → l.running ≡ true
        → lookup conn l.server.contexts ≡ none
        → connection_changed conn true l ≡ some l'
        → Step (l, w) (l', w)
    ended :
        {l l' : Loop} {w : W} (conn : ℕ) (channel : Channel)
        → l.running ≡ true
        → lookup conn l.server.contexts ≡ some channel
        → connection_changed conn false l ≡ some l'
        → Step (l, w) (l', w)
    interrupted : {l : Loop} {w : W} → l.running ≡ true → Step (l, w) (stop_server l w)
    terminated : {l : Loop} {w : W} → l.running ≡ true → Step (l, w) (on_sigterm l, w)
    ran : {l : Loop} {w : W} → l.running ≡ true → Step (l, w) (run_front l, w)

  pub data Reach (s : Server) (w : W) : Loop × W → Type 0 where
    here : Reach s w (enter_loop s, w)
    after : {x y : Loop × W} → Reach s w x → Step x y → Reach s w y
