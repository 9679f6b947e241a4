-- ===== src/Tests/Testing.antt =====
-- The harness, the mock and the conversions of times, at concrete runs.
use bapi.Example.Dex.State
use bapi.Example.Dex.Serving.{dex-Serving, Kept}
use bapi.Example.Dex.App.{dex_app, deposit_tx}
use bapi.Go.Dict.{Sorted}
use bapi.Example.Dex.Chain.{Dex, new_dex}
use bapi.Server
use bapi.Testing.Mock
use bapi.Server.Optional
use bapi.Guard.{
  acquire_handshake, complete_handshake, check_concurrent, acquire_execute, fail_execute,
}
use bapi.Testing.Harness.{make_empty_block, make_block}
use bapi.Testing.Counts.{run-counts, tally, plus, counts}
use bapi.Go.Text.{text}
use bapi.Go.Error.{plain}
use bapi.Grpc.Client.{no_outcome}
use bapi.Server.{new_state}
use bapi.Go.Run.{returned, ◌>>◌, final, pure}
use bapi.Base.Int.{pos, negsuc}
use bapi.Server.Calls.{simulates, executes, queries, handshakes, step, Call, run}
use bapi.Types.{FinalizedBlock, BlockOutcome, Timestamp}
use bapi.Go.Time.{after, unix_time, sub_nat, add_nat, int64, Time}
use bapi.Testing.Mock.{new_mock, mock_app, MockState, MockApp}
use bapi.Types.Time.{round_trips, IsNanos, time_to_timestamp, to_time, IsInt64}
use bapi.Base.{length, arith, [], refl, ◌∷◌, ◌↔◌, ◌≡◌, List, some, none}
use bapi.Testing.Live.{genesis_alone, never_stuck, Idle, drive}
use bapi.Types.Capability.{has}
use bapi.Tests.Data.{small_world, gold, alice, block_at, value_query, first_request, same}
use bapi.Server.{new, ServerState, discover_capabilities}
use bapi.Example.Counter.{counter_app, Counter}
use bapi.Interfaces.{App}
use bapi.Testing.Harness

abbrev counting : App Counter
counting = counter_app same

-- The exchange, with a block that deposits and an empty one.
abbrev deposits : List FinalizedBlock
deposits = make_block 1 (deposit_tx alice 5 gold ∷ []) ∷ make_empty_block 2 ∷ []

never_stuck_example :
    (os : List BlockOutcome) × (t : Harness.Bench (ServerState Dex)) × ((Harness.genesis
            (new (dex_app small_world))
            Harness.default_genesis
          >> drive (new (dex_app small_world)) deposits)
        (Harness.new_harness new_dex)
      ≡ returned os t)
    × (genesis_alone (dex_app small_world) Harness.default_genesis deposits new_dex
        ≡ returned os t.under.app_state)
    × (length os ≡ 2)
    × Idle Kept t
unfolding new_dex Sorted State.new_state
never_stuck_example =
    never_stuck (dex_app small_world) (dex-Serving small_world) Harness.default_genesis deposits
      new_dex (State.new_state, refl, tt)

-- A time before 1970, and a timestamp whose nanoseconds are below zero.
abbrev early : Time
early = record { unix = negsuc 4; nanosecond = 7 }

abbrev odd : Timestamp
odd = record { seconds = pos 10; nanos = negsuc 0 }

round_trips_example :
    (to_time (time_to_timestamp early) ≡ early)
    × ((time_to_timestamp (to_time odd) ≡ odd) ↔ IsNanos odd.nanos)
unfolding IsInt64
round_trips_example = round_trips early odd (omega arith) (omega arith) (omega arith)

-- A mock that refuses blocks.
abbrev refusing : MockApp (Unit {0})
refusing = record {
  declared_capabilities = 8;
  handshake_fn = none;
  check_tx_fn = none;
  execute_block_fn = some (λ b. pure (no_outcome, some (plain (text "no"))));
  commit_fn = none;
  query_fn = none;
  build_proposal_fn = none;
  verify_proposal_fn = none;
  extend_vote_fn = none;
  verify_extension_fn = none;
  available_snapshots_fn = none;
  export_snapshot_fn = none;
  import_snapshot_fn = none;
  simulate_fn = none;
}

abbrev mocked : List Call
mocked =
    handshakes first_request
    ∷ queries value_query
    ∷ executes (block_at 1 [])
    ∷ executes (block_at 1 [])
    ∷ simulates []
    ∷ []

abbrev mock_start : ServerState (MockState (Unit {0}))
mock_start = new_state (new_mock tt)

abbrev mock_end : ServerState (MockState (Unit {0}))
mock_end = final (run (new (mock_app refusing)) mocked mock_start)

run-counts_example : counts mock_end.app_state ≡ plus (counts mock_start.app_state) (tally mocked)
unfolding run step new mock_app new_mock new_state Server.handshake acquire_handshake Mock.handshake
    discover_capabilities has complete_handshake Server.query check_concurrent Mock.query
    Server.execute_block acquire_execute Mock.execute_block fail_execute Optional.simulate
    Mock.simulate
run-counts_example =
    run-counts refusing mocked mock_start mock_end
      (omega arith, omega arith, omega arith, omega arith, omega arith) refl

-- Blocks are five seconds apart, until the int64 of nanoseconds is full.
block_time : (make_block 2 []).time ≡ record { seconds = pos 1704067210; nanos = pos 0 }
unfolding make_block time_to_timestamp int64 add_nat unix_time after
block_time = refl

block_time_wraps :
    (make_block 1844674408 []).time ≡ record { seconds = negsuc 7519304833; nanos = pos 290448384 }
unfolding make_block time_to_timestamp int64 add_nat sub_nat unix_time after
block_time_wraps = refl
