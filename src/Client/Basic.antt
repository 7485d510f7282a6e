-- ===== src/Client/Basic.antt =====
-- RpcClient.cc: a client that gives up when its connection is lost.
use proto_rpc_multi_reactor.Prelude.{
  from_some, ℕ, ◌+◌, ◌<◌, ◌≤◌, ◌^◌, ◌≡◌, refl, subst, ◌⊎◌, inl, inr, false, List, Option, none,
  some, arith,
}
use proto_rpc_multi_reactor.Prelude.Text.{Bytes}
use proto_rpc_multi_reactor.Client.{
  Client, new_client, Event, connected, closed, replied, basic, reconnecting, on_connection,
}
use proto_rpc_multi_reactor.Client.Loop.{up, closing, Session, started, react, Can, Run, Run-keeps}
use proto_rpc_multi_reactor.Client.Reconnect.{IsSound, ByLink, connected-IsSound, after_reply_lem}

-- The connection was lost before the last reply: the loop has ended, and the rest is not asked for.
pub record IsLost (n : ℕ) (s : Session Client) : Type 0 where
  pub remaining : s.client.remaining_requests + s.answered ≡ n
  pub counted : s.client.success_count ≤ s.answered
  pub some_left : s.answered < n
  pub idle : s.in_flight ≡ 0
  pub ended : s.running ≡ false

module _ (n : ℕ) (bound : n < 2 ^ 31) where
  closed_lem :
      (host : Option Bytes) (s t : Session Client)
      → IsSound n s
      → Can (closed host) s
      → react basic (closed host) s ≡ some t
      → IsSound n t ⊎ IsLost n t
  unfolding basic on_connection
  closed_lem host s t i (runs, inl link_eq) did =
      let by : ByLink up n s.in_flight s.answered s.running =
        subst (λ l. ByLink l n s.in_flight s.answered s.running) link_eq i.by_link in
      inr (
        subst (IsLost n) (from_some s did) (record {
          remaining = i.remaining;
          counted = i.counted;
          some_left = by.1;
          idle = refl;
          ended = refl;
        }))
  closed_lem host s t i (runs, inr link_eq) did =
      let by : ByLink closing n s.in_flight s.answered s.running =
        subst (λ l. ByLink l n s.in_flight s.answered s.running) link_eq i.by_link in
      inl (
        subst (IsSound n) (from_some s did)
          (record { remaining = i.remaining; counted = i.counted; by_link = (by.1, refl) }))

  IsSound-keeps :
      (e : Event) (s t : Session Client)
      → IsSound n s
      → Can e s
      → react basic e s ≡ some t
      → IsSound n t ⊎ IsLost n t
  unfolding basic on_connection reconnecting
  IsSound-keeps connected s t i can did = inl (connected-IsSound n bound (λ b. none) s t i can did)
  IsSound-keeps (closed host) s t i can did = closed_lem host s t i can did
  IsSound-keeps (replied e) s t i can did =
      inl (after_reply_lem n bound (λ b. none) e s t i can did)

  keeps :
      (e : Event) (s t : Session Client)
      → IsSound n s ⊎ IsLost n s
      → Can e s
      → react basic e s ≡ some t
      → IsSound n t ⊎ IsLost n t
  keeps e s t (inl i) can did = IsSound-keeps e s t i can did
  keeps connected s t (inr lost) (runs, link_eq) did = let e = lost.ended in cc
  keeps (closed host) s t (inr lost) (runs, link_eq) did = let e = lost.ended in cc
  keeps (replied k) s t (inr lost) (runs, open_link, flying) did = let e = lost.ended in cc

-- The state of a client of RpcClient.cc that has `n` requests at first, 1 or more, fewer than 2 ^ 31, after
-- any events of the network: either it is as a client that connects again would be, with one call in
-- flight while its connection is up and an end only when all `n` requests are answered; or its
-- connection was lost, its loop has ended with at least one request unanswered, and no call is in flight.
-- What is left and what is answered make `n`, and no more successes are counted than answers.
pub basic-IsSound :
    (n : ℕ) (es : List Event) (s : Session Client)
    → 1 ≤ n
    → n < 2 ^ 31
    → Run basic (started (new_client n)) es s
    → IsSound n s ⊎ IsLost n s
basic-IsSound n es s some_left bound run =
    Run-keeps (λ t. IsSound n t ⊎ IsLost n t) (keeps n bound) run
      (inl (record {
        remaining = omega arith;
        counted = omega arith;
        by_link = (refl, omega (arith, some_left), refl);
      }))
