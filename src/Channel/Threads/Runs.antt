-- ===== src/Channel/Threads/Runs.antt =====
-- The threads of a channel at two calls.
use proto_rpc_multi_reactor.Prelude.{refl, [], ◌∷◌, none, some, arith}
use proto_rpc_multi_reactor.Prelude.Text.{ℕ_eq}
use proto_rpc_multi_reactor.Prelude.Dict.{lookup, insert, erase}
use proto_rpc_multi_reactor.Channel.Threads.{
  Stage, Shared, take_id, register, send, reply, Reach, here, next, Sound,
}
use proto_rpc_multi_reactor.Channel.Threads.Races.{threads-Sound}

-- Two calls, the second of which is sent and answered before the first is registered.
abbrev overtaken : Shared
overtaken = record {
  id = 2;
  outstandings = (1, record { response = none; done = some 1 }) ∷ [];
  calls = (2, Stage.sent) ∷ (1, Stage.registered) ∷ [];
  delivered = 2 ∷ [];
}

overtaken_reach : Reach overtaken
unfolding lookup insert erase
overtaken_reach =
    next
      (next
        (next
          (next (next (next here (take_id (omega arith))) (take_id (omega arith)))
            (register 2 (record { response = none; done = some 2 }) refl))
          (send 2 refl))
        (reply 2 (record { response = none; done = some 2 }) refl))
      (register 1 (record { response = none; done = some 1 }) refl)

threads-Sound_example : Sound overtaken
threads-Sound_example = threads-Sound overtaken overtaken_reach
