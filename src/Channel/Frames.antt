-- ===== src/Channel/Frames.antt =====
-- `onMessage` of src/RPCChannel.cc over whole frames: they are handled one by one, in order, up to
-- a bad length prefix or a header that does not parse.
use mathlib.Core.Path.{fun_ext}
use proto_rpc_multi_reactor.Prelude.{
  ℕ, ◌+◌, ◌≤◌, ◌<◌, ◌≡◌, sym, ap, ◌∙◌, ◌⊎◌, List, [], ◌∷◌, ◌++◌, append_assoc, none, some, arith,
  length, All,
}
use proto_rpc_multi_reactor.Prelude.Text.{Bytes}
use proto_rpc_multi_reactor.Header.{RpcHeader}
use proto_rpc_multi_reactor.Channel.Monad.{Effect, M, ◌>>◌, return, emit, after-nil, >>_assoc}
use proto_rpc_multi_reactor.Channel.{
  Env, Loop, rejected, garbled, max_message_len, frame, on_rpc_message, take_message, on_message,
}
use proto_rpc_multi_reactor.Channel.Framing.{
  BufferLaws, message_loop-front, message_loop-fuel, front-bad, front-append_full, front-frame,
}

module _ (env : Env) (laws : BufferLaws env) where
  -- Headers with the bytes that they were serialized to.
  abbrev pub Carries : RpcHeader × Bytes → Type 0
  Carries (h, raw) = (env.parse_header raw ≡ some h) × (length raw + 4 ≤ max_message_len)

  abbrev pub stream : List (RpcHeader × Bytes) → Bytes
  stream [] = []
  stream ((h, raw) ∷ ps) = frame env raw ++ stream ps

  abbrev pub handle_all : List (RpcHeader × Bytes) → M (Unit {0})
  handle_all [] = return tt
  handle_all ((h, raw) ∷ ps) = on_rpc_message env h >> handle_all ps

  pub on_message-frame :
      (h : RpcHeader) (raw rest : Bytes) (conn : ℕ)
      → env.parse_header raw ≡ some h
      → length raw + 4 ≤ max_message_len
      → on_message env (frame env raw ++ rest) conn
        ≡ (on_rpc_message env h >> on_message env rest conn)
  unfolding on_message take_message
  on_message-frame h raw rest conn parsed small =
      let whole = frame env raw ++ rest in
      let (_, shorter) =
        front-append_full env laws whole [] raw rest (front-frame env laws raw rest small) in
      rw
        (message_loop-front env laws (length whole) whole conn, front-frame env laws raw rest small)
        (rw (parsed, take_message)
          (ap (λ (m : M Loop). on_rpc_message env h >> m)
            (message_loop-fuel env laws _ _ rest conn (omega arith) (omega arith))))

  -- Frames are handled one by one, in the order in which they were sent, each with the header that
  -- was serialized into it; then the loop goes on with the bytes behind them. This is for headers
  -- that parse back and whose frames keep within 64 MB.
  pub on_message-stream :
      (ps : List (RpcHeader × Bytes)) (rest : Bytes) (conn : ℕ)
      → All Carries ps
      → on_message env (stream ps ++ rest) conn ≡ (handle_all ps >> on_message env rest conn)
  on_message-stream [] rest conn h = fun_ext λ c. sym (after-nil _)
  on_message-stream ((h, raw) ∷ ps) rest conn ((parsed, small), more) =
      rw (append_assoc (frame env raw) (stream ps) rest) (
        on_message-frame h raw (stream ps ++ rest) conn parsed small
        ∙ ap (λ (m : M Loop). on_rpc_message env h >> m) (on_message-stream ps rest conn more)
        ∙ >>_assoc (on_rpc_message env h) (handle_all ps) (on_message env rest conn))

  on_message-frame_garbled :
      (raw rest : Bytes) (conn : ℕ)
      → env.parse_header raw ≡ none
      → length raw + 4 ≤ max_message_len
      → on_message env (frame env raw ++ rest) conn ≡ return (garbled rest)
  unfolding on_message take_message
  on_message-frame_garbled raw rest conn garbage small =
      let whole = frame env raw ++ rest in
      rw
        (message_loop-front env laws (length whole) whole conn, front-frame env laws raw rest small)
        (rw (garbage, take_message))

  -- A frame whose header does not parse stops the loop after the frames before it: the connection
  -- stays open, and everything behind it, whole frames too, is left in the buffer unhandled.
  pub on_message_garbled :
      (ps : List (RpcHeader × Bytes)) (raw rest : Bytes) (conn : ℕ)
      → All Carries ps
      → env.parse_header raw ≡ none
      → length raw + 4 ≤ max_message_len
      → on_message env (stream ps ++ (frame env raw ++ rest)) conn
        ≡ (handle_all ps >> return (garbled rest))
  on_message_garbled ps raw rest conn ok garbage small =
      on_message-stream ps (frame env raw ++ rest) conn ok
      ∙ ap (λ (m : M Loop). handle_all ps >> m)
          (on_message-frame_garbled raw rest conn garbage small)

  -- A length prefix below 4 or above 64 MB, behind any whole frames: these are handled, then the
  -- connection is shut down, and no byte from the bad prefix on is taken, whatever follows it.
  pub on_message_rejected :
      (ps : List (RpcHeader × Bytes)) (s t : Bytes) (conn : ℕ)
      → All Carries ps
      → 4 ≤ length s
      → (env.peek_int32 s < 4) ⊎ (max_message_len < env.peek_int32 s)
      → on_message env (stream ps ++ (s ++ t)) conn
        ≡ (handle_all ps >> (emit (Effect.shut_down conn) >> return (rejected (s ++ t))))
  unfolding on_message
  on_message_rejected ps s t conn ok four out =
      on_message-stream ps (s ++ t) conn ok
      ∙ ap (λ (m : M Loop). handle_all ps >> m)
          (rw (
            message_loop-front env laws (length (s ++ t)) (s ++ t) conn,
            front-bad env laws s t four out,
          ))
