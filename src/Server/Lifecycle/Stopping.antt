-- ===== src/Server/Lifecycle/Stopping.antt =====
-- The end of the loop of src/RPCServer.cc after a signal.
use proto_rpc_multi_reactor.Prelude.{
  ℕ, zero, suc, ◌+◌, ◌%◌, ◌^◌, ◌<◌, ◌≡◌, refl, sym, ap, ◌∙◌, false, List, [], ◌∷◌, ◌++◌, append-nil,
  append_assoc, arith, ◌==◌, if◌then◌else◌, length,
}
use proto_rpc_multi_reactor.Zookeeper.{Api}
use proto_rpc_multi_reactor.Server.{Server}
use proto_rpc_multi_reactor.Server.Lifecycle.{
  Loop, Task, check_connections, Close, safe, hard, Reach, stop_server, on_sigterm, run_front,
  run_task, run_tasks, stop_in_loop,
}
use proto_rpc_multi_reactor.Server.Lifecycle.Counting.{IsCounted, pending_counts}

abbrev quits : ℕ → List Task
quits zero = []
quits (suc n) = Task.quit ∷ quits n

quits-add : (n m : ℕ) → (k : ℕ) × (quits n ++ quits m ≡ quits k)
quits-add zero m = (m, refl)
quits-add (suc n) m = let (k, e) = quits-add n m in (suc k, ap (λ ts. Task.quit ∷ ts) e)

zero_add : (b : ℕ) → 0 + b ≡ b
zero_add b = omega arith

suc_add : (a b : ℕ) → suc a + b ≡ suc (a + b)
suc_add a b = omega arith

run_tasks-add : (a b : ℕ) (l : Loop) → run_tasks (a + b) l ≡ run_tasks b (run_tasks a l)
unfolding run_tasks
run_tasks-add zero b l = ap (λ n. run_tasks n l) (zero_add b)
run_tasks-add (suc a) b l = ap (λ n. run_tasks n l) (suc_add a b) ∙ run_tasks-add a b (run_front l)

-- A functor leaves the rest of the queue, and may add the end of the loop.
front_adds :
    (t : Task) (ts : List Task) (l : Loop)
    → l.tasks ≡ t ∷ ts
    → (n : ℕ) × ((run_front l).tasks ≡ ts ++ quits n)
unfolding run_front run_task stop_in_loop
front_adds Task.check_connections ts l e = (1, rw (e, run_front) refl)
front_adds Task.quit ts l e = (0, rw (e, run_front) (sym (append-nil ts)))

run_prefix :
    (pre post : List Task) (l : Loop)
    → l.tasks ≡ pre ++ post
    → (n : ℕ) × ((run_tasks (length pre) l).tasks ≡ post ++ quits n)
unfolding run_tasks
run_prefix [] post l e = (0, e ∙ sym (append-nil post))
run_prefix (t ∷ pre) post l e =
    let (n, e1) = front_adds t (pre ++ post) l e in
    let (m, e2) =
      run_prefix pre (post ++ quits n) (run_front l) (e1 ∙ append_assoc pre post (quits n)) in
    let (k, e3) = quits-add n m in
    (k, e2 ∙ append_assoc post (quits n) (quits m) ∙ ap (λ ts. post ++ ts) e3)

front_quits : (ts : List Task) (l : Loop) → l.tasks ≡ Task.quit ∷ ts → (run_front l).running ≡ false
unfolding run_front run_task
front_quits ts l e = rw (e, run_front) refl

front_checks :
    (ts : List Task) (l : Loop)
    → l.tasks ≡ check_connections ∷ ts
    → (run_front l).tasks ≡ ts ++ (Task.quit ∷ [])
unfolding run_front run_task stop_in_loop
front_checks ts l e = rw (e, run_front) refl

-- A nonempty queue of ends.
quits_front : (n : ℕ) → (ts : List Task) × (quits n ++ (Task.quit ∷ []) ≡ Task.quit ∷ ts)
quits_front zero = ([], refl)
quits_front (suc n) = (quits n ++ (Task.quit ∷ []), refl)

-- After the handler of SIGTERM the loop ends within as many functors as were queued, and one.
sigterm_ends : (l : Loop) → (run_tasks (length l.tasks + 1) (on_sigterm l)).running ≡ false
unfolding on_sigterm run_tasks
sigterm_ends l =
    let (n, e) = run_prefix l.tasks (Task.quit ∷ []) (on_sigterm l) refl in
    ap (λ (l : Loop). l.running) (run_tasks-add (length l.tasks) 1 (on_sigterm l))
    ∙ front_quits (quits n) (run_tasks (length l.tasks) (on_sigterm l)) e

module _ {W : Type 0} (api : Api W) where
  -- The loop ends, whichever signal comes: after SIGTERM within as many functors as were queued, and
  -- one; after SIGINT (`StopServer`) within as many, and two. This is so whatever else is queued, and
  -- whether or not there are connections.
  pub signals_end :
      (l : Loop) (w : W)
      → ((run_tasks (length l.tasks + 1) (on_sigterm l)).running ≡ false)
        × ((run_tasks (length l.tasks + 2) (stop_server api l w).0).running ≡ false)
  unfolding stop_server run_tasks
  signals_end l w =
      let stopping = (stop_server api l w).0 in
      let (n, e) = run_prefix l.tasks (check_connections ∷ []) stopping refl in
      let before = run_tasks (length l.tasks) stopping in
      let (ts, f) = quits_front n in
      (
        sigterm_ends l,
        ap (λ (l : Loop). l.running) (run_tasks-add (length l.tasks) 2 stopping)
            ∙ front_quits ts (run_front before) (front_checks (quits n) before e ∙ f),
      )

pub found : {A : Type 0} → List A → Close
found [] = safe
found (x ∷ xs) = hard

found-length :
    {A : Type 0} (xs : List A) (n : ℕ)
    → n ≡ length xs % 2 ^ 32
    → length xs < 2 ^ 32
    → (if n == 0 then safe else hard) ≡ found xs
unfolding found
found-length [] n e h = ground (arith, e)
found-length (x ∷ xs) n e h = ground (arith, e, h)

-- In a loop that was entered with no connection, the function of `StopServer`, at the front of the
-- queue, stops the server from accepting, queues the end of the loop, and finds connections left
-- exactly when there are some (fewer than 2 ^ 32).
pub stop_finds :
    {W : Type 0} (api : Api W) (s : Server) (w : W) (x : Loop × W) (ts : List Task)
    → s.contexts ≡ []
    → s.pending_requests ≡ 0
    → Reach api s w x
    → x.0.tasks ≡ check_connections ∷ ts
    → length x.0.server.contexts < 2 ^ 32
    → ((run_front x.0).closes ≡ x.0.closes ++ (found x.0.server.contexts ∷ []))
      × ((run_front x.0).accepting ≡ false)
      × ((run_front x.0).tasks ≡ ts ++ (Task.quit ∷ []))
unfolding run_front run_task stop_in_loop
stop_finds api s w x ts no_contexts none_pending reach e few =
    let start : IsCounted s = record {
      distinct = rw no_contexts tt;
      counted = rw no_contexts none_pending;
    } in
    let c = pending_counts api s w x start reach in
    let finds = found-length x.0.server.contexts x.0.server.pending_requests c.counted few in
    rw (e, run_front) (ap (λ close. x.0.closes ++ (close ∷ [])) finds, refl, refl)
