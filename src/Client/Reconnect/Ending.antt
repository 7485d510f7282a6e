-- ===== src/Client/Reconnect/Ending.antt =====
-- RpcClientWithReconn.cc: the client can always come to its end.
use proto_rpc_multi_reactor.Prelude.{
  ℕ, zero, suc, ◌+◌, ◌-◌, ◌<◌, ◌≤◌, ◌^◌, ◌≡◌, refl, ap, subst, ◌∙◌, ◌⊎◌, inl, inr, Bool, true,
  false, List, [], ◌∷◌, Option, none, some, arith, if◌then◌else◌,
}
use proto_rpc_multi_reactor.Prelude.Text.{Bytes}
use proto_rpc_multi_reactor.Client.{
  Client, new_client, Action, Event, connected, closed, replied, reconnecting, on_login_done,
  is_positive, decrement,
}
use proto_rpc_multi_reactor.Client.Loop.{
  Link, connecting, up, closing, down, Session, started, perform, arrive, react, Can, Run, stop,
  next,
}
use proto_rpc_multi_reactor.Client.Reconnect.{
  IsSound, ByLink, after_reply, after_reply_lem, after_closed, react-closed, reconnect-done,
  connected-IsSound, reconnecting-IsSound,
}

Link-cases : (l : Link) → ((l ≡ connecting) ⊎ (l ≡ up)) ⊎ ((l ≡ closing) ⊎ (l ≡ down))
Link-cases connecting = inl (inl refl)
Link-cases up = inl (inr refl)
Link-cases closing = inr (inl refl)
Link-cases down = inr (inr refl)

perform-if :
    (b : Bool) (s : Session Client)
    → (let t = perform (if b then Action.sent_login ∷ [] else Action.disconnected ∷ []) s in
        (t.running ≡ s.running) × (t.answered ≡ s.answered))
perform-if true s = (refl, refl)
perform-if false s = (refl, refl)

module _ (stoi : Bytes → Option ℕ) (n : ℕ) (bound : n < 2 ^ 31) where
  -- There are events that lead to the end of the loop, with all requests answered.
  abbrev Ends : Session Client → Type 0
  Ends s =
      (es : List Event) × (u : Session Client) × Run (reconnecting stoi) s es u
      × (u.running ≡ false)
      × (u.answered ≡ n)

  abbrev Finishes : ℕ → Type 0
  Finishes k = (s : Session Client) → IsSound n s → s.running ≡ true → s.answered + k ≡ n → Ends s

  ByLink-at :
      (l : Link) (s : Session Client)
      → IsSound n s
      → s.link ≡ l
      → ByLink l n s.in_flight s.answered s.running
  ByLink-at l s i e = subst (λ l. ByLink l n s.in_flight s.answered s.running) e i.by_link

  then_run :
      (e : Event) (s t : Session Client)
      → Can e s
      → react (reconnecting stoi) e s ≡ some t
      → Ends t
      → Ends s
  then_run e s t can did (es, u, run, stopped, all) = (e ∷ es, u, next can did run, stopped, all)

  closing_step : (s : Session Client) → IsSound n s → s.link ≡ closing → Ends s
  unfolding after_closed
  closing_step s i e =
      let (idle, all, runs) = ByLink-at closing s i e in
      let none_left : s.client.remaining_requests ≡ 0 = omega (arith, i.remaining, all) in
      let did =
        react-closed stoi none s
        ∙ ap (after_closed stoi none s) (reconnect-done stoi none s.client none_left) in
      then_run (closed none) s _ (runs, inr e) did ([], _, stop, refl, all)

  up_step :
      (k : ℕ)
      → Finishes k
      → (s : Session Client) → IsSound n s
      → s.link ≡ up
      → s.answered + suc k ≡ n
      → Ends s
  unfolding reconnecting after_reply on_login_done
  up_step k finish s i e left =
      let (one, some_left, runs) = ByLink-at up s i e in
      let kept =
        perform-if (is_positive (decrement s.client.remaining_requests))
          (record (arrive (replied 0) s) { client = (on_login_done 0 s.client).1 }) in
      let can : Can (replied 0) s = (runs, inl e, omega (arith, one)) in
      let sound = after_reply_lem n bound stoi 0 s (after_reply 0 s) i can refl in
      then_run (replied 0) s (after_reply 0 s) can refl
        (finish (after_reply 0 s) sound (kept.0 ∙ runs) (omega (arith, kept.1)))

  connecting_step :
      (k : ℕ)
      → Finishes k
      → (s : Session Client) → IsSound n s
      → s.link ≡ connecting
      → s.answered + suc k ≡ n
      → Ends s
  unfolding reconnecting
  connecting_step k finish s i e left =
      let (idle, some_left, runs) = ByLink-at connecting s i e in
      let t : Session Client = record s { link = up; in_flight = s.in_flight + 1 } in
      then_run connected s t (runs, e) refl
        (up_step k finish t (connected-IsSound n bound stoi s t i (runs, e) refl) refl left)

  finish : (k : ℕ) → Finishes k
  finish zero s i runs left = elim (Link-cases s.link) [
    | inl (inl e) ↦ let by = ByLink-at connecting s i e in absurd (omega (arith, by.1))
    | inl (inr e) ↦ let by = ByLink-at up s i e in absurd (omega (arith, by.1))
    | inr (inl e) ↦ closing_step s i e
    | inr (inr e) ↦ let by = ByLink-at down s i e in cc
  ]
  finish (suc k) s i runs left = elim (Link-cases s.link) [
    | inl (inl e) ↦ connecting_step k (finish k) s i e left
    | inl (inr e) ↦ up_step k (finish k) s i e left
    | inr (inl e) ↦ closing_step s i e
    | inr (inr e) ↦ let by = ByLink-at down s i e in cc
  ]

-- Wherever a client with `n` requests at first, 1 or more, fewer than 2 ^ 31, has got to, whatever
-- connections it lost: while its loop runs there are events (a connection, replies, the end of the
-- connection) after which all `n` requests are answered and the loop has ended.
pub reconnecting_ends :
    (stoi : Bytes → Option ℕ) (n : ℕ) (es : List Event) (s : Session Client)
    → 1 ≤ n
    → n < 2 ^ 31
    → Run (reconnecting stoi) (started (new_client n)) es s
    → s.running ≡ true
    → (es' : List Event) × (u : Session Client) × Run (reconnecting stoi) s es' u
      × (u.running ≡ false)
      × (u.answered ≡ n)
reconnecting_ends stoi n es s some_left bound run runs =
    let i = reconnecting-IsSound stoi n es s some_left bound run in
    let at_most : s.answered ≤ n = omega (arith, i.remaining) in
    finish stoi n bound (n - s.answered) s i runs (omega (arith, at_most))
