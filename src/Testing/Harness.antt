-- ===== src/Testing/Harness.antt =====
-- testing/harness.go: a server around an application, driven by a test.
-- The test is a state: what was reported with `Errorf` and `Fatalf`, beside the server's state.
-- `Fatalf` reports and ends the test's goroutine; the run then ends as one that panics.
use bapi.Go.Error.{error_text}
use bapi.Base.Int.{pos}
use bapi.Server.{ServerState, Server}
use bapi.Base.{replicate, false, ◌∷◌, some, none, if◌then◌else◌, ◌++◌, ◌*◌, [], ℕ, List}
use bapi.Types.{
  is_accepted, zero_hash, revalidation, first_seen, StateQueryResult, GateVerdict, BlockOutcome, Tx,
  QueryPath, HandshakeResponse, FinalizedBlock, CommitResult, BlockId, GenesisDoc,
}
use bapi.Go.Text.{decimal, text, Bytes}
use bapi.Go.Run.{◌>>◌, ◌>>=◌, pure, blocked, returned, panicked, Fallible, Action}
use bapi.Server
use bapi.Types.Time.{time_to_timestamp, duration_from_go}
use bapi.Go.Time.{second, year_2024, after, int64}

pub record Bench (T : Type 0) : Type 0 where
  pub reports : List Bytes
  pub under : T

unfoldable pub errorf : {T : Type 0} → Bytes → Action (Bench T) (Unit {0})
errorf m b = returned tt (record b { reports = b.reports ++ (m ∷ []) })

unfoldable pub fatalf : {T A : Type 0} → Bytes → Action (Bench T) A
fatalf m b = panicked m (record b { reports = b.reports ++ (m ∷ []) })

-- `NewHarness`
unfoldable pub new_harness : {S : Type 0} → S → Bench (ServerState S)
unfolding Server.new_state
new_harness s = record { reports = []; under = Server.new_state s }

unfoldable pub on_server : {T A : Type 0} → Action T A → Action (Bench T) A
on_server m b = elim (m b.under) [
  | returned a t ↦ returned a (record b { under = t })
  | panicked e t ↦ panicked e (record b { under = t })
  | blocked t ↦ blocked (record b { under = t })
]

-- `if err != nil { t.Fatalf("...: %v", err) }; return value`
unfoldable pub fatal_if : {T A : Type 0} → Bytes → Fallible A → Action (Bench T) A
unfolding fatalf
fatal_if why (a, none) = pure a
fatal_if why (a, some e) = fatalf (why ++ (text ": " ++ error_text e))

-- `DefaultGenesis`
unfoldable pub default_genesis : GenesisDoc
unfolding time_to_timestamp duration_from_go
default_genesis = record {
  chain_id = text "test-chain";
  genesis_time = time_to_timestamp year_2024;
  initial_height = 1;
  consensus_params = record {
    max_block_bytes = 1024 * 1024;
    max_evidence_age = duration_from_go (pos (24 * 3600 * second));
    max_tx_bytes = 64 * 1024;
  };
  validators = [];
  app_state = [];
}

-- `time.Duration(height) * 5 * time.Second`, an int64.
unfoldable pub make_block : ℕ → List Tx → FinalizedBlock
unfolding time_to_timestamp after int64
make_block height txs = record {
  height = height;
  time = time_to_timestamp (after year_2024 (int64 (pos (height * 5 * second))));
  proposer = replicate 20 0;
  txs = txs;
  last_block_hash = zero_hash;
  evidence = [];
  vote_extensions = [];
}

unfoldable pub make_empty_block : ℕ → FinalizedBlock
unfolding make_block
make_empty_block height = make_block height []

module _ {S : Type 0} (srv : Server S) where
  unfoldable pub genesis : GenesisDoc → Action (Bench (ServerState S)) HandshakeResponse
  unfolding on_server fatal_if
  genesis doc = do
    r ← on_server (Server.handshake srv (record { last_committed = none; genesis = some doc }))
    fatal_if (text "Handshake (genesis) failed") r

  unfoldable pub genesis_default : Action (Bench (ServerState S)) HandshakeResponse
  unfolding default_genesis genesis
  genesis_default = genesis default_genesis

  unfoldable pub restart : BlockId → Action (Bench (ServerState S)) HandshakeResponse
  unfolding on_server fatal_if
  restart block = do
    r ← on_server (Server.handshake srv (record { last_committed = some block; genesis = none }))
    fatal_if (text "Handshake (restart) failed") r

  unfoldable pub execute_block : FinalizedBlock → Action (Bench (ServerState S)) BlockOutcome
  unfolding on_server fatal_if
  execute_block block = do
    r ← on_server (Server.execute_block srv block)
    fatal_if (text "ExecuteBlock (height=" ++ (decimal block.height ++ text ") failed")) r

  unfoldable pub commit : Action (Bench (ServerState S)) CommitResult
  unfolding on_server fatal_if
  commit = do r ← on_server (Server.commit srv); fatal_if (text "Commit failed") r

  unfoldable pub execute_and_commit : FinalizedBlock → Action (Bench (ServerState S)) BlockOutcome
  unfolding execute_block commit
  execute_and_commit block = do outcome ← execute_block block; commit; pure outcome

  unfoldable pub check_tx : Tx → Action (Bench (ServerState S)) GateVerdict
  unfolding on_server fatal_if
  check_tx tx = do
    r ← on_server (Server.check_tx srv tx first_seen)
    fatal_if (text "CheckTx failed") r

  unfoldable pub recheck_tx : Tx → Action (Bench (ServerState S)) GateVerdict
  unfolding on_server fatal_if
  recheck_tx tx = do
    r ← on_server (Server.check_tx srv tx revalidation)
    fatal_if (text "RecheckTx failed") r

  unfoldable pub query : QueryPath → Bytes → Action (Bench (ServerState S)) StateQueryResult
  unfolding on_server fatal_if
  query path bytes = do
    r ← on_server (
        Server.query srv (record { path = path; query_data = bytes; height = none; prove = false }))
    fatal_if (text "Query failed") r

  -- `quoted` is the verb `%q` of fmt.
  accepted_or : (Bytes → Bytes) → GateVerdict → Action (Bench (ServerState S)) (Unit {0})
  unfolding fatalf
  accepted_or quoted v =
      if is_accepted v
      then pure tt
      else fatalf (
          text "expected tx accepted, got code="
          ++ (decimal v.code ++ (text " info=" ++ quoted v.info)))

  unfoldable pub must_accept_tx : (Bytes → Bytes) → Tx → Action (Bench (ServerState S)) (Unit {0})
  unfolding check_tx accepted_or
  must_accept_tx quoted tx = do v ← check_tx tx; accepted_or quoted v

  unfoldable pub must_reject_tx : Tx → Action (Bench (ServerState S)) (Unit {0})
  unfolding check_tx fatalf
  must_reject_tx tx = do
    v ← check_tx tx
    if is_accepted v then fatalf (text "expected tx rejected, got accepted") else pure tt
