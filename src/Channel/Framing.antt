-- ===== src/Channel/Framing.antt =====
-- `onMessage` of src/RPCChannel.cc: one round of the loop, by what stands at the front of the
-- buffer.
use proto_rpc_multi_reactor.Prelude.{
  ℕ, zero, suc, ◌+◌, ◌-◌, ◌%◌, ◌^◌, ◌≤◌, ◌<◌, ◌≡◌, refl, ap, ◌∙◌, ◌⊎◌, inl, inr, false, ◌||◌, [],
  ◌++◌, append_assoc, arith, ltb, ltb→le, if◌then◌else◌, length, take, drop, length-append,
  length-drop, take-append, drop-append, take-append_exact, drop-append_exact, Bool-cases,
  Option-cases,
}
use proto_rpc_multi_reactor.Prelude.Text.{Bytes}
use proto_rpc_multi_reactor.Channel.Monad.{Effect, M, ◌>>◌, return, emit}
use proto_rpc_multi_reactor.Channel.{
  Env, Loop, waiting, rejected, max_message_len, frame, on_rpc_message, take_message, message_loop,
}

-- What is documented of muduo's `Buffer` and of `htonl`.
pub record BufferLaws (env : Env) : Type 0 where
  pub readable_bytes_lem : (s : Bytes) → env.readable_bytes s ≡ length s
  pub length-net_bytes : (n : ℕ) → length (env.net_bytes n) ≡ 4
  pub peek_int32-net_bytes :
      (n : ℕ) (s : Bytes) → n < 2 ^ 32 → env.peek_int32 (env.net_bytes n ++ s) ≡ n
  pub peek_int32-append : (s t : Bytes) → 4 ≤ length s → env.peek_int32 (s ++ t) ≡ env.peek_int32 s
  pub retrieve_lem : (n : ℕ) (s : Bytes) → n ≤ length s → env.retrieve n s ≡ drop n s
  pub retrieve_as_string_lem :
      (n : ℕ) (s : Bytes) → n ≤ length s → env.retrieve_as_string n s ≡ (take n s, drop n s)

-- What stands at the front of a buffer.
pub data Front : Type 0 where
  incomplete bad : Front
  full : Bytes → Bytes → Front

-- The same for a buffer whose first four bytes read as `n`.
front_at : ℕ → Bytes → Front
front_at n s =
    if ltb (length s) 4
    then incomplete
    else if ltb n 4 || ltb max_message_len n
    then bad
    else if ltb (length s) n
    then incomplete
    else full (take (n - 4) (drop 4 s)) (drop (n - 4) (drop 4 s))

front_at-full :
    (n : ℕ) (s raw rest : Bytes)
    → front_at n s ≡ full raw rest
    → (4 ≤ n)
      × (n ≤ max_message_len)
      × (n ≤ length s)
      × (take (n - 4) (drop 4 s) ≡ raw)
      × (drop (n - 4) (drop 4 s) ≡ rest)
unfolding front_at
front_at-full n s raw rest e = ground arith

full-front_at :
    (n : ℕ) (s : Bytes)
    → 4 ≤ n
    → n ≤ max_message_len
    → n ≤ length s
    → front_at n s ≡ full (take (n - 4) (drop 4 s)) (drop (n - 4) (drop 4 s))
unfolding front_at
full-front_at n s lo hi fits = ground arith

front_at-append_full :
    (n : ℕ) (s t raw rest : Bytes)
    → front_at n s ≡ full raw rest
    → (4 ≤ length s) × (front_at n (s ++ t) ≡ full raw (rest ++ t)) × (length rest + 4 ≤ length s)
front_at-append_full n s t raw rest e =
    let (lo, hi, fits, raw_eq, rest_eq) = front_at-full n s raw rest e in
    let split : drop 4 (s ++ t) ≡ drop 4 s ++ t = drop-append 4 s t (omega arith) in
    let enough : n - 4 ≤ length (drop 4 s) = omega (arith, length-drop 4 s) in
    (
      omega arith,
      full-front_at n (s ++ t) lo hi (omega (arith, length-append s t))
          ∙ rw (
            split,
            take-append (n - 4) (drop 4 s) t enough,
            drop-append (n - 4) (drop 4 s) t enough,
            raw_eq,
            rest_eq,
          ),
      omega (arith, ap length rest_eq, length-drop 4 s, length-drop (n - 4) (drop 4 s)),
    )

front_at-append_bad : (n : ℕ) (s t : Bytes) → front_at n s ≡ bad → front_at n (s ++ t) ≡ bad
unfolding front_at
front_at-append_bad n s t e = ground (arith, length-append s t)

front_at-bad : (n : ℕ) (s : Bytes) → front_at n s ≡ bad → 4 ≤ length s
unfolding front_at
front_at-bad n s e = ground arith

module _ (env : Env) (laws : BufferLaws env) where
  unfoldable pub front : Bytes → Front
  unfolding front_at
  front s = front_at (env.peek_int32 s) s

  -- A round of the loop by what stands at the front.
  abbrev pub by_front : ℕ → Bytes → ℕ → Front → M Loop
  by_front fuel s conn incomplete = return (waiting s)
  by_front fuel s conn bad = do emit (Effect.shut_down conn); return (rejected s)
  by_front fuel s conn (full raw rest) =
      take_message env (raw, rest) (λ r. message_loop env fuel r conn)

  take_frame :
      (s : Bytes) (n : ℕ)
      → 4 ≤ n
      → n ≤ length s
      → env.retrieve_as_string (n - 4) (env.retrieve 4 s)
        ≡ (take (n - 4) (drop 4 s), drop (n - 4) (drop 4 s))
  take_frame s n lo hi =
      rw (laws.retrieve_lem 4 s (omega arith))
        (laws.retrieve_as_string_lem (n - 4) (drop 4 s) (omega (arith, length-drop 4 s)))

  module _ (s : Bytes) (n : ℕ) where
    -- The tests that a length prefix passes.
    not_bad : ltb n 4 || ltb max_message_len n ≡ false → (4 ≤ n) × (n ≤ max_message_len)
    not_bad h = ground arith

  pub message_loop-front :
      (fuel : ℕ) (s : Bytes) (conn : ℕ)
      → message_loop env (suc fuel) s conn ≡ by_front fuel s conn (front s)
  unfolding message_loop front
  message_loop-front fuel s conn =
      let n = env.peek_int32 s in
      rw (laws.readable_bytes_lem s) (elim (Bool-cases (ltb (length s) 4)) [
        | inl e ↦ rw e
        | inr e ↦ rw e (elim (Bool-cases (ltb n 4 || ltb max_message_len n)) [
          | inl f ↦ rw f
          | inr f ↦ rw f (elim (Bool-cases (ltb (length s) n)) [
            | inl g ↦ rw g
            | inr g ↦ rw g (rw (take_frame s n (not_bad s n f).0 (ltb→le (length s) n g)))
          ])
        ])
      ])

  pub front-append_full :
      (s t raw rest : Bytes)
      → front s ≡ full raw rest
      → (front (s ++ t) ≡ full raw (rest ++ t)) × (length rest + 4 ≤ length s)
  unfolding front
  front-append_full s t raw rest e =
      let (four, more, shorter) = front_at-append_full (env.peek_int32 s) s t raw rest e in
      (rw (laws.peek_int32-append s t four) more, shorter)

  pub front-append_bad : (s t : Bytes) → front s ≡ bad → front (s ++ t) ≡ bad
  unfolding front
  front-append_bad s t e =
      rw (laws.peek_int32-append s t (front_at-bad (env.peek_int32 s) s e))
        (front_at-append_bad (env.peek_int32 s) s t e)

  -- A whole frame at the front of the buffer is taken as it was sent.
  pub front-frame :
      (raw rest : Bytes)
      → length raw + 4 ≤ max_message_len
      → front (frame env raw ++ rest) ≡ full raw rest
  unfolding front frame
  front-frame raw rest h =
      let n : ℕ = (length raw + 4) % 2 ^ 32 in
      let head : Bytes = env.net_bytes n in
      let n_eq : n ≡ length raw + 4 = omega arith in
      let four : length head ≡ 4 = laws.length-net_bytes n in
      rw (append_assoc head raw rest, laws.peek_int32-net_bytes n (raw ++ rest) (omega arith))
        (full-front_at n (head ++ (raw ++ rest)) (omega arith) (omega arith)
            (omega (arith, length-append head (raw ++ rest), length-append raw rest))
          ∙ rw (
            drop-append_exact 4 head (raw ++ rest) four,
            take-append_exact (n - 4) raw rest (omega arith),
            drop-append_exact (n - 4) raw rest (omega arith),
          ))

  pub Front-cases :
      (x : Front)
      → (x ≡ incomplete) ⊎ (x ≡ bad) ⊎ ((raw : Bytes) × (rest : Bytes) × (x ≡ full raw rest))
  Front-cases incomplete = inl refl
  Front-cases bad = inr (inl refl)
  Front-cases (full raw rest) = inr (inr (raw, rest, refl))

  -- A length prefix out of range, and what comes behind it.
  pub front-bad :
      (s t : Bytes)
      → 4 ≤ length s
      → (env.peek_int32 s < 4) ⊎ (max_message_len < env.peek_int32 s)
      → front (s ++ t) ≡ bad
  unfolding front front_at
  front-bad s t four out = rw (laws.peek_int32-append s t four) (ground (arith, length-append s t))

  take_message-cong :
      (raw rest : Bytes) (f g : Bytes → M Loop)
      → f rest ≡ g rest
      → take_message env (raw, rest) f ≡ take_message env (raw, rest) g
  unfolding take_message
  take_message-cong raw rest f g p = elim (Option-cases (env.parse_header raw)) [
    | inl e ↦ rw (e, take_message)
    | inr (h, e) ↦ rw (e, take_message) (λ i. on_rpc_message env h >> p i)
  ]

  -- Any fuel above the length of the buffer gives the same run.
  pub message_loop-fuel :
      (f g : ℕ) (s : Bytes) (conn : ℕ)
      → length s < f
      → length s < g
      → message_loop env f s conn ≡ message_loop env g s conn
  message_loop-fuel zero g s conn hf hg = elim hf [ ]
  message_loop-fuel (suc f) zero s conn hf hg = elim hg [ ]
  message_loop-fuel (suc f) (suc g) s conn hf hg =
      rw (message_loop-front f s conn, message_loop-front g s conn)
        (elim (Front-cases (front s)) [
          | inl e ↦ rw e
          | inr (inl e) ↦ rw e
          | inr (inr (raw, rest, e)) ↦ rw e (
              take_message-cong raw rest _ _ (
                message_loop-fuel f g rest conn
                  (omega (arith, (front-append_full s [] raw rest e).1))
                  (omega (arith, (front-append_full s [] raw rest e).1))))
        ])
