-- ===== src/Server/Lifecycle/Counting.antt =====
-- `pending_requests_` of src/RPCServer.cc counts the open connections.
use proto_rpc_multi_reactor.Prelude.{
  from_some, ℕ, suc, ◌+◌, ◌-◌, ◌%◌, ◌^◌, ◌≡◌, refl, sym, ap, subst, true, false, Option, none, some,
  arith, length, List-cases, inl, inr,
}
use proto_rpc_multi_reactor.Prelude.Text.{ℕ_eq}
use proto_rpc_multi_reactor.Prelude.Dict.{lookup}
use proto_rpc_multi_reactor.Prelude.Distinct.{
  Distinct, insert-Distinct, length-insert_fresh, erase-Distinct, length-erase,
}
use proto_rpc_multi_reactor.Channel.Monad.{Channel}
use proto_rpc_multi_reactor.Channel.{set_services}
use proto_rpc_multi_reactor.Zookeeper.{Api}
use proto_rpc_multi_reactor.Server.{Server, on_connection, cleanup}
use proto_rpc_multi_reactor.Server.Lifecycle.{
  Loop, Task, Step, opened, ended, interrupted, terminated, ran, Reach, here, after,
  connection_changed, stop_server, on_sigterm, run_front, run_task, stop_in_loop,
}

-- The count is that of the channels, modulo 2 ^ 32.
pub record IsCounted (s : Server) : Type 0 where
  pub distinct : Distinct s.contexts
  pub counted : s.pending_requests ≡ length s.contexts % 2 ^ 32

opened_count : (p n m : ℕ) → p ≡ n % 2 ^ 32 → m ≡ suc n → (p + 1) % 2 ^ 32 ≡ m % 2 ^ 32
opened_count p n m h e = omega (arith, h, e)

ended_count : (p n m : ℕ) → p ≡ n % 2 ^ 32 → suc m ≡ n → (p + 2 ^ 32 - 1) % 2 ^ 32 ≡ m % 2 ^ 32
ended_count p n m h e = omega (arith, h, e)

module _ (conn : ℕ) (s s' : Server) where
  opened-IsCounted :
      IsCounted s
      → lookup conn s.contexts ≡ none
      → on_connection conn true s ≡ some s'
      → IsCounted s'
  unfolding on_connection set_services
  opened-IsCounted c fresh did = subst IsCounted (from_some s did) (record {
    distinct = insert-Distinct conn _ s.contexts c.distinct;
    counted =
        opened_count s.pending_requests (length s.contexts) _ c.counted
          (length-insert_fresh conn _ s.contexts fresh);
  })

  ended-IsCounted :
      (channel : Channel)
      → IsCounted s
      → lookup conn s.contexts ≡ some channel
      → on_connection conn false s ≡ some s'
      → IsCounted s'
  unfolding on_connection
  ended-IsCounted channel c there did = subst IsCounted (from_some s did) (record {
    distinct = erase-Distinct conn s.contexts c.distinct;
    counted =
        ended_count s.pending_requests (length s.contexts) _ c.counted
          (length-erase conn channel s.contexts c.distinct there);
  })

run_task-server : (t : Task) (l : Loop) → (run_task t l).server ≡ l.server
unfolding run_task stop_in_loop
run_task-server Task.check_connections l = refl
run_task-server Task.quit l = refl

run_front-server : (l : Loop) → (run_front l).server ≡ l.server
unfolding run_front
run_front-server l = elim (List-cases l.tasks) [
  | inl e ↦ rw (e, run_front) refl
  | inr (t, ts, e) ↦ rw (e, run_front) (run_task-server t _)
]

server_of : Option Loop → Option Server
server_of none = none
server_of (some l) = some l.server

module _ {W : Type 0} (api : Api W) where
  Step-IsCounted : (x y : Loop × W) → IsCounted x.0.server → Step api x y → IsCounted y.0.server
  unfolding on_connection set_services connection_changed stop_server cleanup on_sigterm server_of
  Step-IsCounted x y c (opened conn runs fresh did) =
      opened-IsCounted conn x.0.server y.0.server c fresh (ap server_of did)
  Step-IsCounted x y c (ended conn channel runs there did) =
      ended-IsCounted conn x.0.server y.0.server channel c there (ap server_of did)
  Step-IsCounted x y c (interrupted runs) = record { distinct = c.distinct; counted = c.counted }
  Step-IsCounted x y c (terminated runs) = c
  Step-IsCounted x y c (ran runs) = subst IsCounted (sym (run_front-server x.0)) c

  -- Wherever a server's loop has got to, whatever connections came and ended and whatever signals
  -- came, `pending_requests_` is the number of the open connections, modulo 2 ^ 32, if that was so when
  -- the loop was entered.
  pub pending_counts :
      (s : Server) (w : W) (x : Loop × W) → IsCounted s → Reach api s w x → IsCounted x.0.server
  pending_counts s w x c here = c
  pending_counts s w x c (after {x = y} before step) =
      Step-IsCounted y x (pending_counts s w y c before) step
