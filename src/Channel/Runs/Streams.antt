-- ===== src/Channel/Runs/Streams.antt =====
-- Runs of `on_message`, and its theorems at concrete buffers.
use proto_rpc_multi_reactor.Prelude.{◌≡◌, refl, ◌≢◌, List, [], ◌∷◌, ◌++◌, none, some, arith}
use proto_rpc_multi_reactor.Prelude.Text.{Bytes}
use proto_rpc_multi_reactor.Prelude.Dict.{lookup}
use proto_rpc_multi_reactor.Wire.Loop.{parse_loop}
use proto_rpc_multi_reactor.Header.{RpcHeader, parse, read_field}
use proto_rpc_multi_reactor.Header.Codec.{parse_from_string}
use proto_rpc_multi_reactor.Channel.Monad.{after, ◌>>◌, return}
use proto_rpc_multi_reactor.Channel.{
  waiting, garbled, stuck, frame, on_message, on_rpc_message, take_message, message_loop,
}
use proto_rpc_multi_reactor.Channel.Stream.{on_message-ne-stuck, on_message-append}
use proto_rpc_multi_reactor.Channel.Frames.{
  handle_all, stream, on_message-stream, on_message_garbled,
}
use proto_rpc_multi_reactor.Channel.Sample.{sample_env, sample-BufferLaws}
use proto_rpc_multi_reactor.Channel.Runs.{client}

-- A header with the id 9 and nothing else, of which 13 bytes are the frame.
abbrev nine : RpcHeader
nine = record { service_name = []; method_name = []; payload = []; id = 9; type = 1; unknown = [] }

abbrev nine_bytes : Bytes
nine_bytes = 8 ∷ 1 ∷ 17 ∷ 9 ∷ 0 ∷ 0 ∷ 0 ∷ 0 ∷ 0 ∷ 0 ∷ 0 ∷ []

nine_frame : frame sample_env nine_bytes ≡ 0 ∷ 0 ∷ 0 ∷ 15 ∷ nine_bytes
unfolding frame
nine_frame = refl

-- A reply to a call that is not outstanding, and half of the next frame: the reply is dropped.
waits :
    on_message sample_env (0 ∷ 0 ∷ 0 ∷ 15 ∷ nine_bytes ++ (0 ∷ 0 ∷ [])) 3 client
    ≡ some (waiting (0 ∷ 0 ∷ []), client, [])
unfolding on_message message_loop take_message on_rpc_message parse_from_string parse read_field
    parse_loop lookup
waits = refl

on_message-ne-stuck_example :
    on_message sample_env (0 ∷ 0 ∷ 0 ∷ 9 ∷ 1 ∷ []) 3 client ≢ some (stuck, client, [])
on_message-ne-stuck_example =
    on_message-ne-stuck sample_env sample-BufferLaws (0 ∷ 0 ∷ 0 ∷ 9 ∷ 1 ∷ []) 3 client client []

on_message-append_example :
    on_message sample_env
      ((0 ∷ 0 ∷ 0 ∷ 15 ∷ nine_bytes ++ (0 ∷ 0 ∷ [])) ++ (0 ∷ 15 ∷ nine_bytes))
      3
      client
    ≡ after [] (on_message sample_env (0 ∷ 0 ∷ 0 ∷ 15 ∷ nine_bytes) 3 client)
on_message-append_example =
    on_message-append sample_env sample-BufferLaws (0 ∷ 0 ∷ 0 ∷ 15 ∷ nine_bytes ++ (0 ∷ 0 ∷ []))
      (0 ∷ 15 ∷ nine_bytes) (0 ∷ 0 ∷ []) 3 client client [] waits

abbrev two_frames : List (RpcHeader × Bytes)
two_frames = (nine, nine_bytes) ∷ (nine, nine_bytes) ∷ []

nine_parses : sample_env.parse_header nine_bytes ≡ some nine
unfolding parse_from_string parse read_field parse_loop
nine_parses = refl

on_message-stream_example :
    on_message sample_env (stream sample_env sample-BufferLaws two_frames ++ (0 ∷ [])) 3
    ≡ (handle_all sample_env sample-BufferLaws two_frames >> on_message sample_env (0 ∷ []) 3)
on_message-stream_example =
    on_message-stream sample_env sample-BufferLaws two_frames (0 ∷ []) 3
      ((nine_parses, omega arith), ((nine_parses, omega arith), tt))

-- The tag of the end of a group, which no field has.
bad_tag : sample_env.parse_header (4 ∷ []) ≡ none
unfolding parse_from_string parse read_field parse_loop
bad_tag = refl

on_message_garbled_example :
    on_message sample_env
      (stream sample_env sample-BufferLaws two_frames
        ++ (frame sample_env (4 ∷ []) ++ frame sample_env nine_bytes))
      3
    ≡ (handle_all sample_env sample-BufferLaws two_frames
        >> return (garbled (frame sample_env nine_bytes)))
on_message_garbled_example =
    on_message_garbled sample_env sample-BufferLaws two_frames (4 ∷ [])
      (frame sample_env nine_bytes) 3 ((nine_parses, omega arith), ((nine_parses, omega arith), tt))
      bad_tag (omega arith)
