-- ===== src/Channel/Stream.antt =====
-- `onMessage` of src/RPCChannel.cc over a stream of bytes: it ends, and how the stream is cut into
-- deliveries does not matter.
use proto_rpc_multi_reactor.Prelude.{
  ℕ, zero, suc, ◌<◌, ◌≡◌, sym, ap, ◌∙◌, ◌≢◌, inl, inr, List, [], ◌++◌, Option, some, arith, length,
  length-append, Option-cases,
}
use proto_rpc_multi_reactor.Prelude.Text.{Bytes}
use proto_rpc_multi_reactor.Header.{RpcHeader}
use proto_rpc_multi_reactor.Channel.Monad.{
  Channel, Effect, Out, M, after, after-nil, after-append, >>_some, >>-eq_some,
}
use proto_rpc_multi_reactor.Channel.{
  Env, Loop, waiting, stuck, on_rpc_message, take_message, message_loop, on_message,
}
use proto_rpc_multi_reactor.Channel.Framing.{
  BufferLaws, Front-cases, front, message_loop-front, message_loop-fuel, front-append_full,
}

waiting_parts :
    (s left : Bytes) (c c' : Channel) (es : List Effect)
    → ◌≡◌ {A = Option (Out Loop)} (some (waiting s, c, [])) (some (waiting left, c', es))
    → (s ≡ left) × (c ≡ c') × ([] ≡ es)
waiting_parts s left c c' es e = ground arith

module _ (env : Env) (laws : BufferLaws env) where
  -- What a round that ends in a wait has done: the header at the front was handled, and the rest
  -- of the run is that of the loop on the bytes behind it.
  take_message-waiting :
      (raw rest left : Bytes) (again : Bytes → M Loop) (c c' : Channel) (es : List Effect)
      → take_message env (raw, rest) again c ≡ some (waiting left, c', es)
      → (h : RpcHeader) × (d : Channel) × (fs : List Effect) × (gs : List Effect)
        × (env.parse_header raw ≡ some h)
        × (on_rpc_message env h c ≡ some (tt, d, fs))
        × (again rest d ≡ some (waiting left, c', gs))
        × (es ≡ fs ++ gs)
  unfolding take_message
  take_message-waiting raw rest left again c c' es e = elim (Option-cases (env.parse_header raw)) [
    | inl p ↦ cc (rw (p, take_message) at e)
    | inr (h, p) ↦
        let (d, fs, gs, q, run, split) =
          >>-eq_some (on_rpc_message env h) (again rest) c c' (waiting left) es
            (rw (p, take_message) at e) in
        (h, d, fs, gs, p, q, run, split)
  ]

  take_message-some :
      (raw rest : Bytes) (again : Bytes → M Loop) (h : RpcHeader) (c d : Channel) (fs : List Effect)
      → env.parse_header raw ≡ some h
      → on_rpc_message env h c ≡ some (tt, d, fs)
      → take_message env (raw, rest) again c ≡ after fs (again rest d)
  unfolding take_message
  take_message-some raw rest again h c d fs p q =
      rw (p, take_message) (>>_some (on_rpc_message env h) (again rest) c d fs q)

  loop-append :
      (f g k : ℕ) (s t left : Bytes) (conn : ℕ) (c c' : Channel) (es : List Effect)
      → length s < f
      → length (s ++ t) < g
      → length (left ++ t) < k
      → message_loop env f s conn c ≡ some (waiting left, c', es)
      → message_loop env g (s ++ t) conn c ≡ after es (message_loop env k (left ++ t) conn c')
  loop-append zero g k s t left conn c c' es hf hg hk e = elim hf [ ]
  loop-append (suc f) zero k s t left conn c c' es hf hg hk e = elim hg [ ]
  loop-append (suc f) (suc g) k s t left conn c c' es hf hg hk e =
      let run = rw (message_loop-front env laws f s conn) at e in
      elim (Front-cases env laws (front env laws s)) [
        | inl p ↦
            let (s_eq, c_eq, es_eq) = waiting_parts s left c c' es (rw p at run) in
            rw (← s_eq, ← c_eq, ← es_eq)
              (ap (λ (m : M Loop). m c)
                  (message_loop-fuel env laws (suc g) k (s ++ t) conn hg (rw (← s_eq) at hk))
                ∙ sym (after-nil _))
        | inr (inl p) ↦ cc (rw p at run)
        | inr (inr (raw, rest, p)) ↦
            let (more, shorter) = front-append_full env laws s t raw rest p in
            let (h, d, fs, gs, parsed, handled, rest_run, es_eq) =
              take_message-waiting raw rest left _ c c' es (rw p at run) in
            let ih =
              loop-append f g k rest t left conn d c' gs (omega arith)
                (omega (arith, length-append rest t, length-append s t)) hk rest_run in
            rw (message_loop-front env laws g (s ++ t) conn, more)
              (take_message-some raw (rest ++ t) _ h c d fs parsed handled
                ∙ ap (after fs) ih
                ∙ after-append fs gs _
                ∙ rw (← es_eq))
      ]

  loop-ne-stuck :
      (f : ℕ) (s : Bytes) (conn : ℕ) (c d : Channel) (es : List Effect)
      → length s < f
      → message_loop env f s conn c ≢ some (stuck, d, es)
  unfolding take_message
  loop-ne-stuck zero s conn c d es h e = elim h [ ]
  loop-ne-stuck (suc f) s conn c d es h e =
      let run = rw (message_loop-front env laws f s conn) at e in
      elim (Front-cases env laws (front env laws s)) [
        | inl p ↦ cc (rw p at run)
        | inr (inl p) ↦ cc (rw p at run)
        | inr (inr (raw, rest, p)) ↦
            let shorter = (front-append_full env laws s [] raw rest p).1 in
            let taken = rw p at run in
            elim (Option-cases (env.parse_header raw)) [
              | inl q ↦ cc (rw (q, take_message) at taken)
              | inr (m, q) ↦
                  let (b, _, gs, _, rest_run, _) =
                    >>-eq_some (on_rpc_message env m) (message_loop env f rest conn) c d stuck es
                      (rw (q, take_message) at taken) in
                  loop-ne-stuck f rest conn b d gs (omega arith) rest_run
            ]
      ]

  -- `onMessage` ends on every buffer and from every state: its loop never runs out of fuel.
  pub on_message-ne-stuck :
      (s : Bytes) (conn : ℕ) (c d : Channel) (es : List Effect)
      → on_message env s conn c ≢ some (stuck, d, es)
  unfolding on_message
  on_message-ne-stuck s conn c d es = loop-ne-stuck (suc (length s)) s conn c d es (omega arith)

  -- How the bytes are cut into deliveries does not matter: if `onMessage` on the buffer `s` waits
  -- with `left` in the buffer, then a call on `s ++ t` from the start does what that call does,
  -- and then what a call on `left ++ t` does.
  pub on_message-append :
      (s t left : Bytes) (conn : ℕ) (c c' : Channel) (es : List Effect)
      → on_message env s conn c ≡ some (waiting left, c', es)
      → on_message env (s ++ t) conn c ≡ after es (on_message env (left ++ t) conn c')
  unfolding on_message
  on_message-append s t left conn c c' es e =
      loop-append _ _ _ s t left conn c c' es (omega arith) (omega arith) (omega arith) e
