-- ===== src/Client/Loop.antt =====
-- A client of example/LoginRegisterService in the loop of its thread: its connection, the calls in
-- flight, and the events that reach it. The network is as free as it can be: a connection may end
-- at any time, and with it the calls in flight.
use proto_rpc_multi_reactor.Prelude.{
  ℕ, zero, suc, ◌+◌, ◌-◌, ◌≤◌, if◌then◌else◌, ◌==◌, ◌≡◌, ◌∙◌, ap, arith, ◌⊎◌, Bool, true, false,
  List, [], ◌∷◌, Option, none, some,
}
use proto_rpc_multi_reactor.Client.{
  Action, sent_login, disconnected, quit, connected_to, Event, connected, closed, replied,
  send_logins,
}

-- The connection: on its way, up, closed on this side, and closed.
pub data Link : Type 0 where
  connecting up closing down : Link

-- The client, its connection, the calls without a reply on it, the calls that were answered, and
-- whether the loop runs.
pub record Session (S : Type 0) : Type 0 where
  pub client : S
  pub link : Link
  pub in_flight : ℕ
  pub answered : ℕ
  pub running : Bool

-- After `connect`, in the loop.
abbrev pub started : {S : Type 0} → S → Session S
started c = record {
  client = c;
  link = Link.connecting;
  in_flight = 0;
  answered = 0;
  running = true;
}

-- `TcpClient::disconnect`.
abbrev pub disconnect : Link → Link
disconnect up = closing
disconnect connecting = down
disconnect closing = closing
disconnect down = down

abbrev pub perform : {S : Type 0} → List Action → Session S → Session S
perform [] s = s
perform (sent_login ∷ acts) s = perform acts (record s { in_flight = s.in_flight + 1 })
perform (disconnected ∷ acts) s = perform acts (record s { link = disconnect s.link })
perform (quit ∷ acts) s = perform acts (record s { running = false })
perform (connected_to ip port ∷ acts) s = perform acts (record s { link = Link.connecting })

-- The network's part of an event.
abbrev pub arrive : {S : Type 0} → Event → Session S → Session S
arrive connected s = record s { link = up }
arrive (closed host) s = record s { link = down; in_flight = 0 }
arrive (replied errcode) s = record s { in_flight = s.in_flight - 1; answered = s.answered + 1 }

-- An event and what the client does with it; `none` is an exception in the client.
abbrev pub react :
    {S : Type 0} → (Event → S → Option (List Action × S)) → Event → Session S → Option (Session S)
react handler e s = elim (handler e s.client) [
  | none ↦ none
  | some (acts, c) ↦ some (perform acts (record (arrive e s) { client = c }))
]

abbrev pub IsOpen : Link → Type 0
IsOpen l = (l ≡ up) ⊎ (l ≡ closing)

-- What may happen.
abbrev pub Can : {S : Type 0} → Event → Session S → Type 0
Can connected s = (s.running ≡ true) × (s.link ≡ connecting)
Can (closed host) s = (s.running ≡ true) × IsOpen s.link
Can (replied errcode) s = (s.running ≡ true) × IsOpen s.link × (1 ≤ s.in_flight)

-- A run of events.
pub data Run {S : Type 0} (handler : Event → S → Option (List Action × S))
    : Session S → List Event → Session S → Type 0 where
  stop : {s : Session S} → Run handler s [] s
  next :
      {s t u : Session S} {e : Event} {es : List Event}
      → Can e s
      → react handler e s ≡ some t
      → Run handler t es u
      → Run handler s (e ∷ es) u

module _ {S : Type 0} {handler : Event → S → Option (List Action × S)} where
  -- What every event keeps is kept by a run.
  pub Run-keeps :
      (I : Session S → Type 0)
      → ((e : Event) (s t : Session S) → I s → Can e s → react handler e s ≡ some t → I t)
      → {s u : Session S} {es : List Event} → Run handler s es u
      → I s
      → I u
  Run-keeps I keeps stop i = i
  Run-keeps I keeps (next can step rest) i = Run-keeps I keeps rest (keeps _ _ _ i can step)

-- The session with this many calls in flight.
abbrev pub with_in_flight : {S : Type 0} → Session S → ℕ → Session S
with_in_flight s n = record s { in_flight = n }

pub perform-send_logins :
    {S : Type 0} (n : ℕ) (s : Session S)
    → perform (send_logins n) s ≡ with_in_flight s (s.in_flight + n)
unfolding send_logins
perform-send_logins zero s = ap (with_in_flight s) (omega arith)
perform-send_logins (suc n) s =
    perform-send_logins n (with_in_flight s (s.in_flight + 1)) ∙ ap (with_in_flight s) (omega arith)

pub counted_le : (e k a : ℕ) → k ≤ a → (if e == 0 then k + 1 else k) ≤ a + 1
counted_le e k a h = ground arith
