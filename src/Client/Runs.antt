-- ===== src/Client/Runs.antt =====
-- The theorems on the clients at concrete ones.
use proto_rpc_multi_reactor.Prelude.{
  ◌⊎◌, ℕ, ◌+◌, ◌≤◌, ◌≡◌, refl, ◌*◌, inl, inr, true, false, List, [], ◌∷◌, Option, none, some, arith,
}
use proto_rpc_multi_reactor.Prelude.Text.{Bytes, codes}
use proto_rpc_multi_reactor.Client.{
  Client, new_client, get_addr, Event, connected, closed, replied, reconnecting, reconnect,
  on_login_done, is_positive, decrement, Concurrent, new_concurrent, concurrent,
}
use proto_rpc_multi_reactor.Client.Session.{successes}
use proto_rpc_multi_reactor.Client.Loop.{Link, Session, started, Run, stop, next}
use proto_rpc_multi_reactor.Client.{basic, on_connection}
use proto_rpc_multi_reactor.Client.Basic.{IsLost, basic-IsSound}
use proto_rpc_multi_reactor.Client.Reconnect.{IsSound}
use proto_rpc_multi_reactor.Client.Reconnect
use proto_rpc_multi_reactor.Client.Reconnect.{reconnecting-IsSound}
use proto_rpc_multi_reactor.Client.Reconnect.Ending.{reconnecting_ends}
use proto_rpc_multi_reactor.Client.AllAtOnce.Ending.{as_replies, concurrent_ends}
use proto_rpc_multi_reactor.Client.Program.{
  Arguments, start_threads, start_clients, success_total, answered_total, threads_answer,
}

abbrev stoi : Bytes → Option ℕ
stoi digits = some 80

abbrev digits : ℕ → Bytes
digits port = codes "80"

-- The connection is lost with a call in flight, and comes up again.
abbrev lost_once : List Event
lost_once = connected ∷ closed none ∷ connected ∷ replied 0 ∷ []

abbrev halfway : Session Client
halfway = record {
  client = record { remaining_requests = 1; success_count = 1 };
  link = Link.up;
  in_flight = 1;
  answered = 1;
  running = true;
}

one : 1 ≤ 1
one = omega arith

lost_once-Run : Run (reconnecting stoi) (started (new_client 2)) lost_once halfway
unfolding reconnecting reconnect get_addr on_login_done is_positive decrement
lost_once-Run =
    next (refl, refl) refl
      (next (refl, inl refl) refl (next (refl, refl) refl (next (refl, inl refl, one) refl stop)))

reconnecting-IsSound_example : Reconnect.IsSound 2 halfway
reconnecting-IsSound_example =
    reconnecting-IsSound stoi 2 lost_once halfway (omega arith) (omega arith) lost_once-Run

reconnecting_ends_example :
    (es' : List Event) × (u : Session Client) × Run (reconnecting stoi) halfway es' u
    × (u.running ≡ false)
    × (u.answered ≡ 2)
reconnecting_ends_example =
    reconnecting_ends stoi 2 lost_once halfway (omega arith) (omega arith) lost_once-Run refl

abbrev two_sent : Session Concurrent
two_sent = record {
  client = new_concurrent 2;
  link = Link.up;
  in_flight = 2;
  answered = 0;
  running = true;
}

concurrent_ends_example :
    (s : Session Concurrent) × (t : Session Concurrent) × (u : Session Concurrent) × Run concurrent
      (started (new_concurrent 2))
      (connected ∷ as_replies (1 ∷ []))
      s
    × (s.link ≡ Link.up)
    × Run concurrent s (replied 0 ∷ []) t
    × (t.link ≡ Link.closing)
    × Run concurrent t (closed none ∷ []) u
    × (u.running ≡ false)
    × (u.answered ≡ 2)
    × (u.client.success_count ≡ successes (1 ∷ []) + successes (0 ∷ []))
concurrent_ends_example = concurrent_ends (1 ∷ []) 0 (omega arith)

-- One thread with one request.
abbrev one_request : Arguments
one_request = record {
  service = codes "S";
  method = codes "m";
  num_threads = 1;
  requests_per_client = 1;
}

abbrev all_done : Session Client
all_done = record {
  client = record { remaining_requests = 0; success_count = 1 };
  link = Link.down;
  in_flight = 0;
  answered = 1;
  running = false;
}

all_done-Run :
    Run
      (reconnecting stoi)
      (started (new_client 1))
      (connected ∷ replied 0 ∷ closed none ∷ [])
      all_done
unfolding reconnecting reconnect on_login_done is_positive decrement
all_done-Run =
    next (refl, refl) refl (next (refl, inl refl, one) refl (next (refl, inr refl) refl stop))

threads_answer_example :
    (start_threads one_request ≡ some (start_clients 1 1))
    × (answered_total (all_done ∷ []) ≡ 1 * 1)
    × (success_total (all_done ∷ []) ≤ 1 * 1)
unfolding start_threads start_clients is_positive
threads_answer_example =
    threads_answer stoi one_request (all_done ∷ []) refl refl ((_, all_done-Run, refl), tt)

-- A client with two requests, whose connection is lost after the first reply.
abbrev lost : Session Client
lost = record {
  client = record { remaining_requests = 1; success_count = 1 };
  link = Link.down;
  in_flight = 0;
  answered = 1;
  running = false;
}

Run-lost : Run basic (started (new_client 2)) (connected ∷ replied 0 ∷ closed none ∷ []) lost
unfolding basic on_connection on_login_done is_positive decrement
Run-lost =
    next (refl, refl) refl
      (next (refl, inl refl, omega arith) refl (next (refl, inl refl) refl stop))

basic-IsSound_example : IsSound 2 lost ⊎ IsLost 2 lost
basic-IsSound_example =
    basic-IsSound 2 (connected ∷ replied 0 ∷ closed none ∷ []) lost (omega arith) (omega arith)
      Run-lost
