-- ===== src/Client/Reconnect.antt =====
-- RpcClientWithReconn.cc: a client that connects again until all its requests are answered.
pub mod Ending
use proto_rpc_multi_reactor.Prelude.{
  from_some, ℕ, zero, suc, ◌+◌, ◌-◌, ◌<◌, ◌≤◌, ◌^◌, ◌≡◌, refl, sym, ap, subst, ◌∙◌, ◌⊎◌, inl, inr,
  Bool, true, false, List, [], ◌∷◌, ◌++◌, Option, none, some, arith, ltb, ◌==◌, if◌then◌else◌,
  ℕ-cases, Bool-cases, Option-cases,
}
use proto_rpc_multi_reactor.Prelude.Text.{Bytes}
use proto_rpc_multi_reactor.Client.{
  Client, new_client, Action, Event, connected, closed, replied, reconnecting, reconnect,
  on_login_done, is_positive, decrement, get_addr,
}
use proto_rpc_multi_reactor.Client.Session.{decrement-suc, is_positive-suc}
use proto_rpc_multi_reactor.Client.Loop.{
  Link, connecting, up, closing, down, Session, started, perform, arrive, react, Can, Run, stop,
  next, Run-keeps, counted_le,
}

-- What a session is like, by its connection: while it is up one call is in flight; it is closed
-- only when all `n` requests are answered.
abbrev pub ByLink : Link → ℕ → ℕ → ℕ → Bool → Type 0
ByLink connecting n in_flight answered running = (in_flight ≡ 0) × (answered < n) × (running ≡ true)
ByLink up n in_flight answered running = (in_flight ≡ 1) × (answered < n) × (running ≡ true)
ByLink closing n in_flight answered running = (in_flight ≡ 0) × (answered ≡ n) × (running ≡ true)
ByLink down n in_flight answered running = (answered ≡ n) × (running ≡ false)

pub record IsSound (n : ℕ) (s : Session Client) : Type 0 where
  pub remaining : s.client.remaining_requests + s.answered ≡ n
  pub counted : s.client.success_count ≤ s.answered
  pub by_link : ByLink s.link n s.in_flight s.answered s.running

-- A session with another connection.
abbrev pub at_link : Link → Session Client → Session Client
at_link l s = record s { link = l }

-- What a reply does.
pub after_reply : ℕ → Session Client → Session Client
after_reply e s =
    perform (on_login_done e s.client).0
      (record (arrive (replied e) s) { client = (on_login_done e s.client).1 })

last_reply :
    (e : ℕ) (c : Client)
    → c.remaining_requests ≡ 1
    → on_login_done e c ≡ (
      Action.disconnected ∷ [],
      record {
        remaining_requests = 0;
        success_count = if e == 0 then c.success_count + 1 else c.success_count;
      },
    )
unfolding on_login_done decrement is_positive
last_reply e c r = rw r refl

other_reply :
    (e m : ℕ) (c : Client)
    → c.remaining_requests ≡ suc (suc m)
    → suc m < 2 ^ 31
    → on_login_done e c ≡ (
      Action.sent_login ∷ [],
      record {
        remaining_requests = suc m;
        success_count = if e == 0 then c.success_count + 1 else c.success_count;
      },
    )
unfolding on_login_done
other_reply e m c r h =
    let left : decrement c.remaining_requests ≡ suc m =
      rw r (decrement-suc (suc m) (omega (arith, h))) in
    let more : is_positive (decrement c.remaining_requests) ≡ true =
      ap is_positive left ∙ is_positive-suc m h in
    rw more (
      ap
        (λ k. (
          Action.sent_login ∷ [],
          record {
            remaining_requests = k;
            success_count = if e == 0 then c.success_count + 1 else c.success_count;
          },
        ))
        left)

module _ (stoi : Bytes → Option ℕ) (host : Option Bytes) where
  reconnect-left :
      (c : Client)
      → is_positive c.remaining_requests ≡ true
      → reconnect stoi host c ≡ elim (get_addr stoi host) [
        | none ↦ none
        | some (ip, port) ↦ some (Action.connected_to ip port ∷ [])
      ]
  unfolding reconnect
  reconnect-left c h = rw h refl

  pub reconnect-done :
      (c : Client) → c.remaining_requests ≡ 0 → reconnect stoi host c ≡ some (Action.quit ∷ [])
  unfolding reconnect is_positive
  reconnect-done c h = rw h refl

  -- What a client does about the end of its connection, for what it made of the host.
  pub after_closed : Session Client → Option (List Action) → Option (Session Client)
  after_closed s acts = elim acts [
    | none ↦ none
    | some acts ↦ some (perform acts (arrive (closed host) s))
  ]

  closed-cases :
      (s : Session Client) (o : Option (List Action))
      → react (λ e c. elim o [ none ↦ none | some acts ↦ some (acts, c) ]) (closed host) s
        ≡ after_closed s o
  unfolding after_closed
  closed-cases s none = refl
  closed-cases s (some acts) = refl

  pub react-closed :
      (s : Session Client)
      → react (reconnecting stoi) (closed host) s ≡ after_closed s (reconnect stoi host s.client)
  unfolding reconnecting
  react-closed s = closed-cases s (reconnect stoi host s.client)

module _ (n : ℕ) (bound : n < 2 ^ 31) where
  reply-IsSound :
      (e : ℕ) (s : Session Client)
      → IsSound n (at_link up s)
      → IsSound n (after_reply e (at_link up s))
  unfolding after_reply
  reply-IsSound e s i = elim (ℕ-cases s.client.remaining_requests) [
    | inl none_left ↦ absurd (omega (arith, i.by_link.1))
    | inr (zero, last) ↦ rw (last_reply e s.client last) (record {
      remaining = omega arith;
      counted = counted_le e _ _ i.counted;
      by_link = (omega (arith, i.by_link.0), omega (arith, i.by_link.1), i.by_link.2);
    })
    | inr (suc m, more) ↦ rw (other_reply e m s.client more (omega arith)) (record {
      remaining = omega (arith);
      counted = counted_le e _ _ i.counted;
      by_link = (omega (arith, i.by_link.0), omega (arith, i.by_link.1), i.by_link.2);
    })
  ]

  pub after_reply_lem :
      (stoi : Bytes → Option ℕ) (e : ℕ) (s t : Session Client)
      → IsSound n s
      → Can (replied e) s
      → react (reconnecting stoi) (replied e) s ≡ some t
      → IsSound n t
  unfolding reconnecting after_reply
  after_reply_lem stoi e s t i (runs, open_link, flying) did =
      let t_eq : after_reply e s ≡ t = from_some s did in
      subst (IsSound n) t_eq (elim open_link [
        | inl up_eq ↦
            subst (λ l. IsSound n (at_link l s) → IsSound n (after_reply e (at_link l s)))
              (sym up_eq) (reply-IsSound e s) i
        | inr closing_eq ↦
            let by : ByLink closing n s.in_flight s.answered s.running =
              subst (λ l. ByLink l n s.in_flight s.answered s.running) closing_eq i.by_link in
            absurd (omega (arith, by.0, flying))
      ])

  pub connected-IsSound :
      (stoi : Bytes → Option ℕ) (s t : Session Client)
      → IsSound n s
      → Can connected s
      → react (reconnecting stoi) connected s ≡ some t
      → IsSound n t
  unfolding reconnecting
  connected-IsSound stoi s t i (runs, link_eq) did =
      let by : ByLink connecting n s.in_flight s.answered s.running =
        subst (λ l. ByLink l n s.in_flight s.answered s.running) link_eq i.by_link in
      subst (IsSound n) (from_some s did) (record {
        remaining = i.remaining;
        counted = i.counted;
        by_link = (omega (arith, by.0), by.1, by.2);
      })

  closed-IsSound :
      (stoi : Bytes → Option ℕ) (host : Option Bytes) (s t : Session Client)
      → IsSound n s
      → Can (closed host) s
      → react (reconnecting stoi) (closed host) s ≡ some t
      → IsSound n t
  unfolding after_closed is_positive
  closed-IsSound stoi host s t i (runs, inl link_eq) did =
      let by : ByLink up n s.in_flight s.answered s.running =
        subst (λ l. ByLink l n s.in_flight s.answered s.running) link_eq i.by_link in
      let positive : is_positive s.client.remaining_requests ≡ true =
        ground (arith, i.remaining, by.1) in
      let did' =
        sym (
          react-closed stoi host s
          ∙ ap (after_closed stoi host s) (reconnect-left stoi host s.client positive))
        ∙ did in
      elim (Option-cases (get_addr stoi host)) [
        | inl thrown ↦ let no_step = rw thrown at did' in cc
        | inr ((ip, port), found) ↦
            subst (IsSound n) (from_some s (rw found at did')) (record {
              remaining = i.remaining;
              counted = i.counted;
              by_link = (refl, by.1, runs);
            })
      ]
  closed-IsSound stoi host s t i (runs, inr link_eq) did =
      let by : ByLink closing n s.in_flight s.answered s.running =
        subst (λ l. ByLink l n s.in_flight s.answered s.running) link_eq i.by_link in
      let none_left : s.client.remaining_requests ≡ 0 = omega (arith, i.remaining, by.1) in
      let did' =
        sym (
          react-closed stoi host s
          ∙ ap (after_closed stoi host s) (reconnect-done stoi host s.client none_left))
        ∙ did in
      subst (IsSound n) (from_some s did')
        (record { remaining = i.remaining; counted = i.counted; by_link = (by.1, refl) })

  keeps :
      (stoi : Bytes → Option ℕ) (e : Event) (s t : Session Client)
      → IsSound n s
      → Can e s
      → react (reconnecting stoi) e s ≡ some t
      → IsSound n t
  keeps stoi connected s t i can did = connected-IsSound stoi s t i can did
  keeps stoi (closed host) s t i can did = closed-IsSound stoi host s t i can did
  keeps stoi (replied e) s t i can did = after_reply_lem stoi e s t i can did

-- The state of a client that has `n` requests at first, 1 or more, fewer than 2 ^ 31: what is left and
-- what is answered make `n`; while its connection is up one call is in flight; it closes its connection
-- and ends its loop only when all `n` requests are answered, however often its connection was lost.
pub reconnecting-IsSound :
    (stoi : Bytes → Option ℕ) (n : ℕ) (es : List Event) (s : Session Client)
    → 1 ≤ n
    → n < 2 ^ 31
    → Run (reconnecting stoi) (started (new_client n)) es s
    → IsSound n s
reconnecting-IsSound stoi n es s some_left bound run =
    Run-keeps (IsSound n) (keeps n bound stoi) run (record {
      remaining = omega arith;
      counted = omega arith;
      by_link = (refl, omega (arith, some_left), refl);
    })

stopped-all : (l : Link) (n f a : ℕ) (r : Bool) → ByLink l n f a r → r ≡ false → a ≡ n
stopped-all connecting n f a r (idle, some_left, runs) stopped = cc
stopped-all up n f a r (one, some_left, runs) stopped = cc
stopped-all closing n f a r (idle, all, runs) stopped = all
stopped-all down n f a r (all, stops) stopped = all

pub IsSound-stopped :
    (n : ℕ) (s : Session Client) → IsSound n s → s.running ≡ false → s.answered ≡ n
IsSound-stopped n s i stopped =
    stopped-all s.link n s.in_flight s.answered s.running i.by_link stopped
