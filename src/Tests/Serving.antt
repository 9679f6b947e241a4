-- ===== src/Tests/Serving.antt =====
-- The server around the counter and around the exchange, at concrete calls.
use bapi.Types.Capability.{has}
use bapi.Server.Contract.Sessions.{contract}
use bapi.Go.Text.{text}
use bapi.Server.Contract.{After}
use bapi.Go.Error.{plain}
use bapi.Server.Journal.{phase, journaled}
use bapi.Tests.Data.{value_query, first_request, small_world, block_at, same}
use bapi.Server.Calls.{queries, commits, executes, handshakes, Call, run}
use bapi.Go.Run.{blocked, panicked, pure, final}
use bapi.Example.Dex.App.{dex_app}
use bapi.Base.{true, ◌∷◌, some, refl, false, ◌≡◌, none, [], List}
use bapi.Guard.{
  state_executed, is_ready, wrong_state, complete_commit, acquire_commit, state_ready,
  fail_handshake, fail_execute, complete_handshake, complete_execute, new_guard, acquire_handshake,
  acquire_execute, Guard,
}
use bapi.Example.Dex.Chain.{nil_pointer, Dex}
use bapi.Types.{HandshakeResponse, BlockOutcome}
use bapi.Interfaces.{App}
use bapi.Server.{
  new_state, new, is_some, ServerState, execute_block, commit, handshake, capabilities,
  discover_capabilities, pending_outcome,
}
use bapi.Example.Counter.{count_txs, increment_tx, compute_hash, counter_app, new_counter, Counter}
use bapi.Example.Counter
use bapi.Example.Dex.Chain
use bapi.Server.Laws.{
  execute_block_success, handshake_capabilities, handshake_error, execute_block_error, commit_once,
  execute_block_app_panic, given, declared,
}

abbrev counting : App Counter
counting = counter_app same

abbrev two_blocks : List Call
two_blocks =
    handshakes first_request
    ∷ executes (block_at 1 (increment_tx 3 ∷ []))
    ∷ commits
    ∷ queries value_query
    ∷ commits
    ∷ []

-- The last call panics: there is nothing to commit.
contract_example :
    let r =
      run
        (new (journaled counting))
        two_blocks
        (new_state (record { inner = new_counter same; entries = [] })) in
    (is_some (phase (final r).app_state.entries) ≡ true) × After r
contract_example = contract counting two_blocks (new_counter same)

-- The server's first state, and the one after the handshake.
abbrev start : ServerState Counter
start = new_state (new_counter same)

abbrev open_guard : Guard
open_guard = record { state = state_ready; seq_mu = false; handshake_done = true }

abbrev opened : ServerState Counter
opened = record start { guard = open_guard }

abbrev executed_once : ServerState Counter
executed_once = final (execute_block (new counting) (block_at 1 (increment_tx 3 ∷ [])) opened)

abbrev shaken : HandshakeResponse
shaken = record { last_block = none; app_hash = some (compute_hash same 0); capabilities = 0 }

abbrev committed_once : ServerState Counter
committed_once = final (commit (new counting) executed_once)

abbrev first_outcome : BlockOutcome
first_outcome = record {
  tx_outcomes = (count_txs 0 0 (increment_tx 3 ∷ [])).1;
  block_events = [];
  app_hash = compute_hash same (count_txs 0 0 (increment_tx 3 ∷ [])).0;
  validator_updates = [];
  params_update = none;
}

abbrev nothing_done : BlockOutcome
nothing_done = record {
  tx_outcomes = [];
  block_events = [];
  app_hash = [];
  validator_updates = [];
  params_update = none;
}

handshake_capabilities_example :
    (capabilities opened ≡ 0) × (given counting start opened ≡ declared counting start 0)
unfolding handshake new counter_app new_state new_counter Counter.handshake acquire_handshake
    complete_handshake new_guard discover_capabilities has
handshake_capabilities_example =
    handshake_capabilities counting start first_request shaken opened refl

-- Declares CapSimulation without a Simulator, and cannot execute.
abbrev greedy : App Counter
greedy = record counting {
  lifecycle = record counting.lifecycle {
    handshake = λ req. pure (record shaken { capabilities = 8 }, none);
    execute_block = λ b. pure (nothing_done, some (plain (text "disk full")));
  };
}

handshake_error_example : start ≡ record start { app_state = start.app_state }
unfolding handshake new counter_app new_state new_counter acquire_handshake fail_handshake new_guard
    discover_capabilities has text
handshake_error_example =
    handshake_error greedy start first_request (record shaken { capabilities = 8 })
      (plain (
        text
          "github.com/blockberries/bapi: app declared CapSimulation but does not implement Simulator"))
      start refl refl

execute_block_error_example :
    (opened ≡ record opened { app_state = opened.app_state })
    × (commit (new greedy) opened ≡ panicked (wrong_state "Commit" "Executed" state_ready) opened)
unfolding execute_block new counter_app acquire_execute fail_execute new_state new_counter
execute_block_error_example =
    execute_block_error greedy opened (block_at 1 []) nothing_done (plain (text "disk full")) opened
      refl

execute_block_success_example :
    (pending_outcome executed_once ≡ some first_outcome)
    × (executed_once.last_exec_height ≡ 1)
    × (execute_block (new counting) (block_at 2 []) executed_once
        ≡ panicked (wrong_state "ExecuteBlock" "Ready" state_executed) executed_once)
unfolding execute_block new counter_app Counter.execute_block acquire_execute complete_execute
    new_state new_counter
execute_block_success_example =
    execute_block_success counting opened (block_at 1 (increment_tx 3 ∷ [])) (block_at 2 [])
      first_outcome executed_once refl

commit_once_example :
    (pending_outcome committed_once ≡ none)
    × (is_ready committed_once.guard ≡ true)
    × (commit (new counting) committed_once
        ≡ panicked (wrong_state "Commit" "Executed" state_ready) committed_once)
unfolding execute_block commit new counter_app Counter.execute_block Counter.commit acquire_execute
    complete_execute acquire_commit complete_commit new_state new_counter
commit_once_example =
    commit_once counting executed_once (record { retain_height = 0 }, none) committed_once refl

abbrev trading : App Dex
trading = dex_app small_world

-- A server whose application has lost its state.
abbrev broken : ServerState Dex
broken = record {
  app_state = record { current = none; staged = none };
  guard = open_guard;
  caps = 0;
  last_outcome = none;
  last_exec_height = 0;
}

execute_block_app_panic_example :
    (t : ServerState Dex) × (execute_block (new trading) (block_at 1 []) broken
      ≡ panicked nil_pointer t)
    × (execute_block (new trading) (block_at 2 []) t ≡ blocked t)
    × (commit (new trading) t ≡ blocked t)
unfolding dex_app Chain.execute_block
execute_block_app_panic_example =
    execute_block_app_panic trading broken (block_at 1 []) (block_at 2 []) nil_pointer
      broken.app_state refl refl refl
