-- ===== src/Client/AllAtOnce/Ending.antt =====
-- RpcClientConcc.cc: a client whose replies all arrive.
use proto_rpc_multi_reactor.Prelude.{
  ℕ, zero, suc, ◌+◌, ◌-◌, ◌<◌, ◌≤◌, ◌^◌, ◌≡◌, refl, ap, subst, ◌∙◌, inl, inr, false, List, [], ◌∷◌,
  none, some, arith, length,
}
use proto_rpc_multi_reactor.Client.{
  Concurrent, new_concurrent, Action, Event, connected, closed, replied, concurrent,
}
use proto_rpc_multi_reactor.Client.Session.{successes, counted}
use proto_rpc_multi_reactor.Client.Loop.{
  Link, up, Session, started, perform, arrive, react, Run, stop, next,
}
use proto_rpc_multi_reactor.Client.AllAtOnce.{
  IsSound, at_link, after_reply, counted_down, last_reply, other_reply, after_connect,
  react-connected, connected-IsSound, reply-IsSound, start-IsSound,
}

zero_add : (k : ℕ) → 0 + k ≡ k
zero_add k = omega arith

two_or_more : (k : ℕ) → 1 < k → (m : ℕ) × (k ≡ suc (suc m))
two_or_more zero h = absurd (omega (arith, h))
two_or_more (suc zero) h = absurd (omega (arith, h))
two_or_more (suc (suc m)) h = (m, refl)

-- The replies with these error codes.
abbrev pub as_replies : List ℕ → List Event
as_replies [] = []
as_replies (e ∷ es) = replied e ∷ as_replies es

module _ (n : ℕ) (some_left : 1 ≤ n) (bound : n < 2 ^ 31) where
  -- Replies of which none is the last leave the connection up.
  answer_some :
      (es : List ℕ) (s : Session Concurrent)
      → IsSound n (at_link up s)
      → length es + s.answered < n
      → (t : Session Concurrent) × Run concurrent (at_link up s) (as_replies es) (at_link up t)
        × IsSound n (at_link up t)
        × (t.answered ≡ length es + s.answered)
        × (t.client.success_count ≡ s.client.success_count + successes es)
  unfolding concurrent after_reply
  answer_some [] s i l = (s, stop, i, omega arith, omega arith)
  answer_some (f ∷ es) s i l =
      let (m, more) : (m : ℕ) × (s.client.pending_responses ≡ suc (suc m)) =
        two_or_more s.client.pending_responses (omega (arith, i.pending, l)) in
      let counts = other_reply f m s.client more (omega (arith, i.pending, more)) in
      let t : Session Concurrent = record s {
        client = counted_down f (suc m) s.client;
        in_flight = s.in_flight - 1;
        answered = s.answered + 1;
      } in
      let after : List Action × Concurrent → Session Concurrent =
        λ p. perform p.0 (record (arrive (replied f) (at_link up s)) { client = p.1 }) in
      let sound : IsSound n (at_link up t) =
        subst (λ p. IsSound n (after p)) counts (reply-IsSound n some_left bound f s i) in
      let did : react concurrent (replied f) (at_link up s) ≡ some (at_link up t) =
        ap (λ p. some (after p)) counts in
      let (u, run, sound_u, all, successes_eq) = answer_some es t sound (omega (arith, l)) in
      (
        u,
        next (i.by_link.2, inl refl, omega (arith, i.by_link.0, i.pending, l)) did run,
        sound_u,
        omega (arith, all),
        successes_eq ∙ counted f s.client.success_count (successes es),
      )

  -- The last reply closes the connection, and its end the loop.
  answer_last :
      (e : ℕ) (s : Session Concurrent)
      → IsSound n (at_link up s)
      → s.answered + 1 ≡ n
      → (t : Session Concurrent) × (u : Session Concurrent) × Run concurrent
          (at_link up s)
          (replied e ∷ [])
          t
        × (t.link ≡ Link.closing)
        × Run concurrent t (closed none ∷ []) u
        × (u.running ≡ false)
        × (u.answered ≡ n)
        × (u.client.success_count ≡ s.client.success_count + successes (e ∷ []))
  unfolding concurrent after_reply
  answer_last e s i l =
      let last : s.client.pending_responses ≡ 1 = omega (arith, i.pending, l) in
      let did : react concurrent (replied e) (at_link up s) ≡ some _ =
        ap
          (λ (p : List Action × Concurrent).
            some (perform p.0 (record (arrive (replied e) (at_link up s)) { client = p.1 })))
          (last_reply e s.client last) in
      (
        _,
        _,
        next (i.by_link.2, inl refl, omega (arith, i.by_link.0, i.by_link.1)) did stop,
        refl,
        next (i.by_link.2, inr refl) refl stop,
        refl,
        l,
        ground arith,
      )

-- A client with 1 request or more, fewer than 2 ^ 31, whose connection comes up and whose replies
-- arrive, with these error codes: after all replies but the last, its connection is up; after the last, it
-- is closing; when the connection has ended, its loop has ended, all requests are answered, and the
-- replies without an error are counted.
pub concurrent_ends :
    (es : List ℕ) (e : ℕ)
    → let n = suc (length es) in
      n < 2 ^ 31
      → (s : Session Concurrent) × (t : Session Concurrent) × (u : Session Concurrent) × Run
          concurrent
          (started (new_concurrent n))
          (connected ∷ as_replies es)
          s
        × (s.link ≡ up)
        × Run concurrent s (replied e ∷ []) t
        × (t.link ≡ Link.closing)
        × Run concurrent t (closed none ∷ []) u
        × (u.running ≡ false)
        × (u.answered ≡ n)
        × (u.client.success_count ≡ successes es + successes (e ∷ []))
unfolding concurrent after_connect
concurrent_ends es e bound =
    let n = suc (length es) in
    let s = started (new_concurrent n) in
    let some_left : 1 ≤ n = omega arith in
    let sound = connected-IsSound n some_left bound s (start-IsSound n some_left bound) refl in
    let (t, run, sound_t, answered, some_ok) =
      answer_some n some_left bound es (after_connect n some_left bound s) sound (omega arith) in
    let (u, v, replied_last, closing, ends, stopped, all, all_ok) =
      answer_last n some_left bound e t sound_t (omega (arith, answered)) in
    (
      at_link up t,
      u,
      v,
      next (refl, refl) (react-connected n some_left bound s) run,
      refl,
      replied_last,
      closing,
      ends,
      stopped,
      all,
      all_ok ∙ ap (λ k. k + successes (e ∷ [])) (some_ok ∙ zero_add (successes es)),
    )
