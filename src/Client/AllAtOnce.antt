-- ===== src/Client/AllAtOnce.antt =====
-- RpcClientConcc.cc: a client that sends all its requests at once.
pub mod Ending
use proto_rpc_multi_reactor.Prelude.{
  from_some, ℕ, zero, suc, ◌+◌, ◌-◌, ◌<◌, ◌≤◌, ◌^◌, ◌≡◌, refl, sym, ap, subst, ◌∙◌, inl, inr, Bool,
  true, false, List, [], ◌∷◌, none, some, arith, ◌==◌, if◌then◌else◌, ℕ-cases, length,
}
use proto_rpc_multi_reactor.Client.{
  Concurrent, new_concurrent, Action, Event, connected, closed, replied, concurrent, count_reply,
  is_positive, decrement,
}
use proto_rpc_multi_reactor.Client.Session.{decrement-suc, successes, counted}
use proto_rpc_multi_reactor.Client.Loop.{
  Link, connecting, up, closing, down, Session, started, perform, arrive, react, Can, Run, stop,
  next, Run-keeps, counted_le, with_in_flight, perform-send_logins,
}

-- What a session is like, by its connection: while it is up the calls in flight and the answered
-- ones make `n`, and it is closed on this side only when all are answered.
abbrev pub ByLink : Link → ℕ → ℕ → ℕ → Bool → Type 0
ByLink connecting n in_flight answered running = (in_flight ≡ 0) × (answered ≡ 0) × (running ≡ true)
ByLink up n in_flight answered running =
    (in_flight + answered ≡ n) × (answered < n) × (running ≡ true)
ByLink closing n in_flight answered running = (in_flight ≡ 0) × (answered ≡ n) × (running ≡ true)
ByLink down n in_flight answered running = running ≡ false

pub record IsSound (n : ℕ) (s : Session Concurrent) : Type 0 where
  pub total : s.client.total_requests ≡ n
  pub pending : s.client.pending_responses + s.answered ≡ n
  pub counted : s.client.success_count ≤ s.answered
  pub by_link : ByLink s.link n s.in_flight s.answered s.running

abbrev pub at_link : Link → Session Concurrent → Session Concurrent
at_link l s = record s { link = l }

-- What a reply does.
pub after_reply : ℕ → Session Concurrent → Session Concurrent
after_reply e s =
    perform (count_reply e s.client).0
      (record (arrive (replied e) s) { client = (count_reply e s.client).1 })

-- The client after a reply, with this many left.
abbrev pub counted_down : ℕ → ℕ → Concurrent → Concurrent
counted_down e k c = record c {
  pending_responses = k;
  success_count = if e == 0 then c.success_count + 1 else c.success_count;
}

pub last_reply :
    (e : ℕ) (c : Concurrent)
    → c.pending_responses ≡ 1
    → count_reply e c ≡ (Action.disconnected ∷ [], counted_down e 0 c)
unfolding count_reply decrement
last_reply e c r = rw r refl

pub other_reply :
    (e m : ℕ) (c : Concurrent)
    → c.pending_responses ≡ suc (suc m)
    → suc m < 2 ^ 31
    → count_reply e c ≡ ([], counted_down e (suc m) c)
unfolding count_reply
other_reply e m c r h =
    let left : decrement c.pending_responses ≡ suc m =
      rw r (decrement-suc (suc m) (omega (arith, h))) in
    let more : (c.pending_responses == 1) ≡ false = ground (arith, r) in
    rw more (ap (λ k. ([], counted_down e k c)) left)

pub calls-positive : (k n : ℕ) → k ≡ n → 1 ≤ n → n < 2 ^ 31 → (if is_positive k then k else 0) ≡ n
unfolding is_positive
calls-positive k n e some_left bound = ground (arith, e)

module _ (n : ℕ) (some_left : 1 ≤ n) (bound : n < 2 ^ 31) where
  -- The connection comes up.
  pub after_connect : Session Concurrent → Session Concurrent
  after_connect s =
      with_in_flight (at_link up s)
        (s.in_flight + (if is_positive s.client.total_requests then s.client.total_requests else 0))

  pub react-connected :
      (s : Session Concurrent) → react concurrent connected s ≡ some (after_connect s)
  unfolding concurrent after_connect
  react-connected s = ap (λ t. some t) (perform-send_logins _ (at_link up s))

  pub connected-IsSound :
      (s : Session Concurrent) → IsSound n s → s.link ≡ connecting → IsSound n (after_connect s)
  unfolding after_connect
  connected-IsSound s i link_eq =
      let by : ByLink connecting n s.in_flight s.answered s.running =
        subst (λ l. ByLink l n s.in_flight s.answered s.running) link_eq i.by_link in
      let calls = calls-positive s.client.total_requests n i.total some_left bound in
      record {
        total = i.total;
        pending = i.pending;
        counted = i.counted;
        by_link = (omega (arith, calls, by.0, by.1), omega (arith, by.1, some_left), by.2);
      }

  pub reply-IsSound :
      (e : ℕ) (s : Session Concurrent)
      → IsSound n (at_link up s)
      → IsSound n (after_reply e (at_link up s))
  unfolding after_reply
  reply-IsSound e s i = elim (ℕ-cases s.client.pending_responses) [
    | inl none_left ↦ absurd (omega (arith, i.pending, i.by_link.1))
    | inr (zero, last) ↦ rw (last_reply e s.client last) (record {
      total = i.total;
      pending = omega (arith, i.pending);
      counted = counted_le e _ _ i.counted;
      by_link = (
        omega (arith, i.by_link.0, i.pending),
        omega (arith, i.by_link.1, i.pending),
        i.by_link.2,
      );
    })
    | inr (suc m, more) ↦ rw (other_reply e m s.client more (omega (arith, i.pending))) (record {
      total = i.total;
      pending = omega (arith, i.pending);
      counted = counted_le e _ _ i.counted;
      by_link = (
        omega (arith, i.by_link.0, i.by_link.1),
        omega (arith, i.by_link.1, i.pending),
        i.by_link.2,
      );
    })
  ]

  keeps :
      (e : Event) (s t : Session Concurrent)
      → IsSound n s
      → Can e s
      → react concurrent e s ≡ some t
      → IsSound n t
  unfolding concurrent after_reply
  keeps connected s t i (runs, link_eq) did =
      subst (IsSound n) (from_some s (sym (react-connected s) ∙ did))
        (connected-IsSound s i link_eq)
  keeps (closed host) s t i (runs, open_link) did =
      subst (IsSound n) (from_some s did)
        (record { total = i.total; pending = i.pending; counted = i.counted; by_link = refl })
  keeps (replied e) s t i (runs, inl up_eq, flying) did = subst (IsSound n) (from_some s did) (
      subst (λ l. IsSound n (at_link l s) → IsSound n (after_reply e (at_link l s))) (sym up_eq)
        (reply-IsSound e s) i)
  keeps (replied e) s t i (runs, inr closing_eq, flying) did =
      let by : ByLink closing n s.in_flight s.answered s.running =
        subst (λ l. ByLink l n s.in_flight s.answered s.running) closing_eq i.by_link in
      absurd (omega (arith, by.0, flying))

  pub start-IsSound : IsSound n (started (new_concurrent n))
  start-IsSound = record {
    total = refl;
    pending = omega arith;
    counted = omega arith;
    by_link = (refl, refl, refl);
  }

-- The state of a client that has `n` requests, 1 or more, fewer than 2 ^ 31: while its connection is up
-- the calls in flight and the answered ones make `n`, so what it waits for is in flight; it closes its
-- connection only when all `n` are answered.
pub concurrent-IsSound :
    (n : ℕ) (es : List Event) (s : Session Concurrent)
    → 1 ≤ n
    → n < 2 ^ 31
    → Run concurrent (started (new_concurrent n)) es s
    → IsSound n s
concurrent-IsSound n es s some_left bound run =
    Run-keeps (IsSound n) (keeps n some_left bound) run (start-IsSound n some_left bound)
