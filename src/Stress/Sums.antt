-- ===== src/Stress/Sums.antt =====
-- Sums over the threads of the stress test.
use proto_rpc_multi_reactor.Prelude.{
  ℕ, zero, suc, ◌+◌, ◌*◌, ◌≡◌, refl, ap, List, [], ◌∷◌, ◌++◌, arith, ◌==◌, ==_iff, All, length,
}
use proto_rpc_multi_reactor.Pool.{Pool, Got, connection, null, waits, count}
use proto_rpc_multi_reactor.Pool.Ledger.{bit, count-cons}
use proto_rpc_multi_reactor.Pool.Borrowing.{taken, waiting_bit}
use proto_rpc_multi_reactor.Stress.{
  Worker, ready, waiting, counting, holding, queried, worker_of, refusals, start_workers,
}

-- The sum over the threads.
abbrev pub sum_of : (Worker → ℕ) → List Worker → ℕ
sum_of f [] = 0
sum_of f (x ∷ xs) = f x + sum_of f xs

pub sum_of-append :
    (f : Worker → ℕ) (pre post : List Worker) (x : Worker)
    → sum_of f (pre ++ (x ∷ post)) ≡ f x + (sum_of f pre + sum_of f post)
sum_of-append f [] post x = omega arith
sum_of-append f (y ∷ pre) post x = omega (arith, sum_of-append f pre post x)

-- Whether a thread has the connection `j`; whether it waits; the rounds it has to finish; whether its
-- query counts already while its round does not.
abbrev pub holds : ℕ → Worker → ℕ
holds j (ready n) = 0
holds j (waiting n) = 0
holds j (counting n) = 0
holds j (holding h n) = bit (h == j)
holds j (queried h n) = bit (h == j)

abbrev pub is_waiting : Worker → ℕ
is_waiting (ready n) = 0
is_waiting (waiting n) = 1
is_waiting (counting n) = 0
is_waiting (holding h n) = 0
is_waiting (queried h n) = 0

abbrev pub unfinished : Worker → ℕ
unfinished (ready n) = n
unfinished (waiting n) = suc n
unfinished (counting n) = suc n
unfinished (holding h n) = suc n
unfinished (queried h n) = suc n

abbrev pub uncounted : Worker → ℕ
uncounted (ready n) = 0
uncounted (waiting n) = 0
uncounted (counting n) = 1
uncounted (holding h n) = 0
uncounted (queried h n) = 1

pub bit_self : (h : ℕ) → bit (h == h) ≡ 1
bit_self h = ground (arith, ==_iff h h)

module _ {W : Type 0} where
  pub worker_of-holds : (j : ℕ) (g : Got × Pool × W) (n : ℕ) → holds j (worker_of g n) ≡ taken j g
  unfolding worker_of
  worker_of-holds j (connection h, p, w) n = refl
  worker_of-holds j (null, p, w) n = refl
  worker_of-holds j (waits, p, w) n = refl

  pub worker_of-is_waiting :
      (g : Got × Pool × W) (n : ℕ) → is_waiting (worker_of g n) ≡ waiting_bit g
  unfolding worker_of
  worker_of-is_waiting (connection h, p, w) n = refl
  worker_of-is_waiting (null, p, w) n = refl
  worker_of-is_waiting (waits, p, w) n = refl

  pub worker_of-unfinished :
      (g : Got × Pool × W) (n : ℕ) → unfinished (worker_of g n) + refusals g ≡ suc n
  unfolding worker_of refusals
  worker_of-unfinished (connection h, p, w) n = omega arith
  worker_of-unfinished (null, p, w) n = omega arith
  worker_of-unfinished (waits, p, w) n = omega arith

  pub worker_of-uncounted : (g : Got × Pool × W) (n : ℕ) → uncounted (worker_of g n) ≡ 0
  unfolding worker_of
  worker_of-uncounted (connection h, p, w) n = refl
  worker_of-uncounted (null, p, w) n = refl
  worker_of-uncounted (waits, p, w) n = refl

pub start_sums :
    (f : Worker → ℕ) (threads iterations : ℕ)
    → sum_of f (start_workers threads iterations) ≡ threads * f (ready iterations)
unfolding start_workers
start_sums f zero iterations = omega arith
start_sums f (suc threads) iterations = grind (arith, start_sums f threads iterations)

pub sum_of-ready :
    (f : Worker → ℕ)
    → f (ready 0) ≡ 0
    → (ws : List Worker) → All (λ x. x ≡ ready 0) ws
    → sum_of f ws ≡ 0
sum_of-ready f e [] all = refl
sum_of-ready f e (x ∷ ws) (x_eq, all) = omega (arith, ap f x_eq, e, sum_of-ready f e ws all)

-- Nothing is held that is held no time.
pub unheld : (held : List ℕ) → ((j : ℕ) → count j held ≡ 0) → length held ≡ 0
unheld [] none_held = refl
unheld (h ∷ held) none_held = absurd (omega (arith, none_held h, count-cons h h held, bit_self h))
