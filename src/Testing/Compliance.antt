-- ===== src/Testing/Compliance.antt =====
-- testing/compliance.go: the suite of checks for an application. `factory` gives the application
-- `app` at the state `s`. The ten goroutines of a concurrent check run one after the other here.
use bapi.Go.Error.{error_text}
use bapi.Go.Order.{bytes_eq}
use bapi.Go.Text.{decimal, text}
use bapi.Base.{
  ◌+◌, zero, ◌^◌, ◌++◌, ◌%◌, some, false, ◌==◌, none, ltb, length, suc, if◌then◌else◌, [], ◌∷◌,
  List, ℕ,
}
use bapi.Testing.Harness.{fatalf, Bench, on_server, make_empty_block, make_block, errorf}
use bapi.Types.{zero_hash, first_seen, TxOutcome, Tx, StateQuery}
use bapi.Go.Run.{◌>>=◌, pure, ◌>>◌, Action}
use bapi.Server.{is_some, ServerState, Server}
use bapi.Server
use bapi.Testing.Harness

module _ {S : Type 0} (srv : Server S) where
  -- `h := NewHarness(t, app)` is the state that a check begins with.
  abbrev Check : Type 0
  Check = Action (Bench (ServerState S)) (Unit {0})

  unfoldable pub genesis_handshake : Check
  unfolding Harness.genesis_default errorf
  genesis_handshake = do
    resp ← Harness.genesis_default srv
    if is_some resp.last_block
        then errorf (text "genesis handshake should return nil LastBlock")
        else pure tt

  unfoldable pub genesis_returns_app_hash : Check
  unfolding Harness.genesis_default errorf
  genesis_returns_app_hash = do
    resp ← Harness.genesis_default srv
    if is_some resp.app_hash
        then pure tt
        else errorf (text "genesis handshake should return a non-nil AppHash")

  unfoldable pub cycle_heights : List ℕ → Check
  unfolding Harness.execute_and_commit make_empty_block errorf
  cycle_heights [] = pure tt
  cycle_heights (i ∷ is) = do
    outcome ← Harness.execute_and_commit srv (make_empty_block i)
    if bytes_eq outcome.app_hash zero_hash
        then errorf (text "height " ++ (decimal i ++ text ": zero app hash"))
        else pure tt
    cycle_heights is

  unfoldable pub execute_commit_cycle : Check
  unfolding Harness.genesis_default cycle_heights
  execute_commit_cycle = do Harness.genesis_default srv; cycle_heights (1 ∷ 2 ∷ 3 ∷ 4 ∷ 5 ∷ [])

  -- `types.Tx([]byte{first, 0x02, ..., 0x08})`
  abbrev eight_bytes : ℕ → Tx
  eight_bytes first = first ∷ 2 ∷ 3 ∷ 4 ∷ 5 ∷ 6 ∷ 7 ∷ 8 ∷ []

  unfoldable pub check_tx_times : ℕ → Check
  unfolding on_server errorf
  check_tx_times zero = pure tt
  check_tx_times (suc n) = do
    r ← on_server (Server.check_tx srv (eight_bytes 1) first_seen)
    elim r.1 [
      | none ↦ pure tt
      | some e ↦ errorf (text "concurrent CheckTx failed: " ++ error_text e)
    ]
    check_tx_times n

  unfoldable pub concurrent_checktx_after_handshake : Check
  unfolding Harness.genesis_default check_tx_times
  concurrent_checktx_after_handshake = do Harness.genesis_default srv; check_tx_times 10

  abbrev test_query : StateQuery
  test_query = record { path = text "/test"; query_data = []; height = none; prove = false }

  unfoldable pub query_times : ℕ → Check
  unfolding on_server errorf
  query_times zero = pure tt
  query_times (suc n) = do
    r ← on_server (Server.query srv test_query)
    elim r.1 [ none ↦ pure tt | some e ↦ errorf (text "concurrent Query failed: " ++ error_text e) ]
    query_times n

  unfoldable pub concurrent_query_after_handshake : Check
  unfolding Harness.genesis_default query_times
  concurrent_query_after_handshake = do Harness.genesis_default srv; query_times 10

  unfoldable pub query_returns_height : Check
  unfolding Harness.genesis_default Harness.execute_and_commit Harness.query make_empty_block errorf
  query_returns_height = do
    Harness.genesis_default srv
    Harness.execute_and_commit srv (make_empty_block 1)
    Harness.execute_and_commit srv (make_empty_block 2)
    result ← Harness.query srv (text "/test") []
    if ltb result.height 1
        then errorf
            (text "query height should be >= 1 after committing, got " ++ decimal result.height)
        else pure tt

  unfoldable pub indices_from : ℕ → List TxOutcome → Check
  unfolding errorf
  indices_from i [] = pure tt
  indices_from i (o ∷ os) = do
    if o.index == i % 2 ^ 32
        then pure tt
        else errorf (
            text "tx "
            ++ (decimal i
                ++ (text ": expected index " ++ (decimal i ++ (text ", got " ++ decimal o.index)))))
    indices_from (i + 1) os

  unfoldable pub tx_outcome_indices : Check
  unfolding Harness.genesis_default Harness.execute_and_commit make_block fatalf indices_from
  tx_outcome_indices = do
    Harness.genesis_default srv
    outcome ←
        Harness.execute_and_commit srv
          (make_block 1 (eight_bytes 1 ∷ eight_bytes 2 ∷ eight_bytes 3 ∷ []))
    if length outcome.tx_outcomes == 3
        then pure tt
        else fatalf (text "expected 3 tx outcomes, got " ++ decimal (length outcome.tx_outcomes))
    indices_from 0 outcome.tx_outcomes
