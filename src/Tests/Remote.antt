-- ===== src/Tests/Remote.antt =====
-- Engines and servers over the network of the tests.
use bapi.Grpc.Client.Wrappers.{chunk_message, descriptor_message, encode_all}
use bapi.Go.Text.{text}
use bapi.Example.Dex.Snapshots.{missing, receive, get_chunk}
use bapi.Go.Order.{bytes_eq}
use bapi.Grpc.Codec.{marshal, unmarshal}
use bapi.Grpc.Service.{encoded, methods, full_method, handler_execute_block}
use bapi.Grpc.Codec.{done, failed}
use bapi.Example.Dex.App.{dex_app}
use bapi.Go.Error.{halt, plain, HaltError, GoError}
use bapi.Example.Dex.Chain.{new_dex, Dex}
use bapi.Types.{
  import_retry_chunks, SnapshotDescriptor, SnapshotChunk, ImportResult, FinalizedBlock,
  BlockOutcome,
}
use bapi.Grpc.Client.Wrappers
use bapi.Grpc.Client
use bapi.Server.Optional
use bapi.Grpc.GrpcServer
use bapi.Example.Dex.Snapshots
use bapi.Grpc.Sessions.{remote_session}
use bapi.Grpc.Delivery.{seen}
use bapi.Grpc.Calls.{mirror}
use bapi.Types.Capability.{has}
use bapi.Grpc.Faults.{import_cut, lost_reply, export_error_hidden, refused_at_client}
use bapi.Tests.Network.{loopback-Delivers, loopback}
use bapi.Tests.Data.{small_world, value_query, block_at, same, first_request}
use bapi.Grpc.Client.Accessors.{client_connection}
use bapi.Server.{new_state}
use bapi.Local.{local_connection}
use bapi.Go.Run.{pure, blocked, panicked, returned, final}
use bapi.Tests.Messages.{finalized_block, plainly-Lawful, plainly, Message}
use bapi.Example.Counter.{compute_hash, count_txs, increment_tx, new_counter, counter_app, Counter}
use bapi.Server.Calls.{simulates, queries, executes, commits, handshakes, Call}
use bapi.Engine.{ask, Answer, dialogue}
use bapi.Guard.{
  state_executed, state_executing, state_ready, Guard, check_concurrent, state_init,
  complete_commit, wrong_state, complete_execute, acquire_execute, complete_handshake,
  acquire_handshake, new_guard, acquire_commit,
}
use bapi.Server.{discover_capabilities, new, ServerState}
use bapi.Base.{take, true, false, some, none, inr, map, refl, ◌≡◌, [], ◌∷◌, List}
use bapi.Grpc.Client.{ClientState, no_outcome, dial, Link}
use bapi.Interfaces.{App}
use bapi.Server
use bapi.Example.Counter

abbrev counting : App Counter
counting = counter_app same

abbrev start : ServerState Counter
start = new_state (new_counter same)

abbrev looped : Link (ServerState Counter) Message
looped = loopback plainly (new counting)

abbrev one_block : List Call
one_block =
    handshakes first_request
    ∷ executes (block_at 1 (increment_tx 3 ∷ []))
    ∷ commits
    ∷ queries value_query
    ∷ simulates (increment_tx 1)
    ∷ []

abbrev replies : List Answer
replies = elim (dialogue (local_connection counting) one_block start) [
  | returned r t ↦ r
  | panicked e t ↦ []
  | blocked t ↦ []
]

abbrev ended : ServerState Counter
ended = final (dialogue (local_connection counting) one_block start)

remote_session_example :
    dialogue (client_connection plainly looped) one_block (mirror start)
    ≡ returned (map (seen looped.status) replies) (mirror ended)
unfolding dialogue ask local_connection Server.handshake Server.execute_block Server.commit
    Server.query new counter_app new_state new_counter acquire_handshake complete_handshake
    acquire_execute complete_execute acquire_commit complete_commit check_concurrent new_guard
    discover_capabilities has Counter.handshake Counter.execute_block Counter.commit Counter.query
    Optional.as_simulator
remote_session_example =
    remote_session plainly counting looped (loopback-Delivers plainly (new counting)) plainly-Lawful
      one_block start ended replies (record { implemented = refl; early = inr refl })
      (tt, (tt, (tt, (tt, (tt, tt))))) refl

abbrev fresh_client : ClientState (ServerState Counter)
fresh_client = record { caps = 0; guard = new_guard; remote = start }

dials : dial (text "validator") (done start) ≡ done fresh_client
unfolding dial
dials = refl

-- A Commit before the handshake.
refused_at_client_example :
    ask (client_connection plainly looped) commits fresh_client
    ≡ panicked (wrong_state "Commit" "Executed" state_init) fresh_client
unfolding acquire_commit new_guard
refused_at_client_example =
    refused_at_client plainly looped fresh_client (wrong_state "Commit" "Executed" state_init)
      commits refl refl

abbrev open_guard : Guard
open_guard = record { state = state_ready; seq_mu = false; handshake_done = true }

abbrev opened : ServerState Counter
opened = record start { guard = open_guard }

abbrev first_block : FinalizedBlock
first_block = block_at 1 (increment_tx 3 ∷ [])

abbrev executed_once : ServerState Counter
executed_once = final (Server.execute_block (new counting) first_block opened)

abbrev first_outcome : BlockOutcome
first_outcome = record {
  tx_outcomes = (count_txs 0 0 (increment_tx 3 ∷ [])).1;
  block_events = [];
  app_hash = compute_hash same (count_txs 0 0 (increment_tx 3 ∷ [])).0;
  validator_updates = [];
  params_update = none;
}

abbrev timeout : GoError
timeout = plain (text "deadline exceeded")

-- The server runs the call, and the reply is lost.
abbrev forgetful : Link (ServerState Counter) Message
forgetful = record looped {
  unary = λ m x s. returned (failed timeout) (final (looped.unary m x s));
}

lost_reply_example :
    let lost = record (mirror opened) { remote = executed_once } in
    (Client.execute_block plainly forgetful first_block (mirror opened)
      ≡ returned (no_outcome, some timeout) lost)
    × (Client.commit plainly forgetful lost
        ≡ panicked (wrong_state "Commit" "Executed" state_ready) lost)
    × (acquire_execute lost.guard
        ≡ returned tt (record lost.guard { state = state_executing; seq_mu = true }))
    × (handler_execute_block plainly (new counting) (finalized_block (block_at 2 [])) executed_once
        ≡ panicked (wrong_state "ExecuteBlock" "Ready" state_executed) executed_once)
unfolding Server.execute_block new counter_app Counter.execute_block acquire_execute
    complete_execute new_state new_counter handler_execute_block GrpcServer.execute_block
    full_method methods bytes_eq text unmarshal
lost_reply_example =
    lost_reply plainly (new counting) forgetful plainly-Lawful first_block (block_at 2 []) opened
      executed_once first_outcome timeout (finalized_block first_block)
      (finalized_block (block_at 2 [])) refl refl refl refl

abbrev upgrade : HaltError
upgrade = record { reason = text "upgrade"; height = 1 }

-- Stops at every block.
abbrev stopping : App Counter
stopping = record counting {
  lifecycle = record counting.lifecycle {
    execute_block = λ b. pure (no_outcome, some (halt upgrade));
  };
}

abbrev trading : App Dex
trading = dex_app small_world

-- The exchange at its first state.
abbrev trader : ServerState Dex
trader = record {
  app_state = new_dex;
  guard = open_guard;
  caps = 15;
  last_outcome = none;
  last_exec_height = 0;
}

abbrev no_height : GoError
no_height = elim (Optional.export_snapshot (new trading) 7 1 trader) [
  | returned (x, some e) t ↦ e
  | _ ↦ plain []
]

export_error_hidden_example :
    let cc = loopback plainly (new trading) in
    (m : Message) × (marshal plainly.export_snapshot_request (record { height = 7; format = 1 })
      ≡ done m)
    × (cc.pull (full_method "ExportSnapshot") m trader
        ≡ returned (done ([], cc.status no_height)) trader)
    × (Wrappers.export_snapshot plainly cc 7 1 (mirror trader)
        ≡ returned (([], none), none) (mirror trader))
unfolding Optional.export_snapshot new dex_app Snapshots.export_snapshot new_dex
export_error_hidden_example =
    export_error_hidden plainly (new trading) (loopback plainly (new trading)) plainly-Lawful 7 1
      trader trader ([], none) no_height (loopback-Delivers plainly (new trading)) refl

-- Two chunks, of which the second is lost with the stream.
abbrev two_chunks : List SnapshotChunk
two_chunks =
    record { index = 0; chunk_data = 1 ∷ [] } ∷ record { index = 1; chunk_data = 2 ∷ [] } ∷ []

abbrev described : SnapshotDescriptor
described = record { height = 5; format = 1; chunks = 2; hash = 1 ∷ 2 ∷ []; metadata = [] }

abbrev one_missing : ImportResult
one_missing = record {
  status = import_retry_chunks;
  app_hash = none;
  reason = [];
  retry_indices = 1 ∷ [];
}

import_cut_example :
    (m : Message) × (ms : List Message) × (encode_all plainly
        (loopback plainly (new trading))
        (descriptor_message described ∷ map chunk_message two_chunks)
      ≡ (m ∷ ms, none))
    × (GrpcServer.import_snapshot plainly (new trading) (m ∷ take 1 ms) timeout trader
        ≡ returned (encoded plainly.import_result (done one_missing)) trader)
unfolding Optional.import_snapshot new dex_app Snapshots.import_snapshot new_dex Snapshots.put_chunk
    missing receive get_chunk
import_cut_example =
    import_cut plainly (new trading) (loopback plainly (new trading)) plainly-Lawful described
      two_chunks 1 timeout trader trader (one_missing, none) refl
