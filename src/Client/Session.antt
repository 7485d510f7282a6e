-- ===== src/Client/Session.antt =====
-- A connection of example/LoginRegisterService/RpcClient.cc.
use proto_rpc_multi_reactor.Prelude.{
  ℕ, zero, suc, ◌+◌, ◌<◌, ◌^◌, ◌≡◌, refl, List, [], ◌∷◌, true, arith, ◌==◌, if◌then◌else◌, length,
  ap, ◌∙◌,
}
use proto_rpc_multi_reactor.Client.{Action, Client, on_login_done, replies, decrement, is_positive}

-- `n` login calls, then the end of the connection.
abbrev pub calls_then_end : ℕ → List Action
calls_then_end zero = Action.disconnected ∷ []
calls_then_end (suc n) = Action.sent_login ∷ calls_then_end n

-- How many of the error codes are 0.
abbrev pub successes : List ℕ → ℕ
successes [] = 0
successes (e ∷ es) = if e == 0 then suc (successes es) else successes es

pub decrement-suc : (n : ℕ) → suc n < 2 ^ 32 → decrement (suc n) ≡ n
unfolding decrement
decrement-suc n h = omega arith

pub is_positive-suc : (n : ℕ) → suc n < 2 ^ 31 → is_positive (suc n) ≡ true
unfolding is_positive
is_positive-suc n h = ground arith

pub counted : (e n k : ℕ) → (if e == 0 then n + 1 else n) + k ≡ n + (if e == 0 then suc k else k)
counted e n k = ground arith

-- A client that has one request left or more, fewer than 2 ^ 31, and gets as many replies sends a call after each but
-- the last, then disconnects; and it counts the replies without an error.
pub replies_end :
    (n : ℕ) (c : Client) (errcodes : List ℕ)
    → c.remaining_requests ≡ suc n
    → suc n < 2 ^ 31
    → length errcodes ≡ suc n
    → ((replies errcodes c).0 ≡ calls_then_end n)
      × ((replies errcodes c).1.success_count ≡ c.success_count + successes errcodes)
unfolding replies on_login_done
replies_end n c [] r b l = absurd (omega (arith, l))
replies_end zero c (e ∷ []) r b l = rw r (refl, ground arith)
replies_end zero c (e ∷ f ∷ es) r b l = absurd (omega (arith, l))
replies_end (suc n) c (e ∷ es) r b l =
    let left : decrement c.remaining_requests ≡ suc n =
      rw r (decrement-suc (suc n) (omega arith)) in
    let more : is_positive (decrement c.remaining_requests) ≡ true =
      ap is_positive left ∙ is_positive-suc n (omega arith) in
    let (acts, count) =
      replies_end n (on_login_done e c).1 es left (omega arith) (omega (arith, l)) in
    (
      rw more (ap (λ a. Action.sent_login ∷ a) acts),
      count ∙ counted e c.success_count (successes es),
    )
