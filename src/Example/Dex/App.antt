-- ===== src/Example/Dex/App.antt =====
-- The exchange as the engine sees it, and the builders of its transactions.
use bapi.Go.BigEndian.{put_uint64}
use bapi.Example.Dex.Execute.{tx_withdraw, tx_oracle_update, tx_limit_order, tx_deposit}
use bapi.Go.Text.{Bytes}
use bapi.Example.Dex.State.{OraclePrice, World}
use bapi.Types.{Tx, ValidatorAddress}
use bapi.Example.Dex.Chain.{Dex, handshake, check_tx, execute_block, commit, query, simulate}
use bapi.Example.Dex.Oracle.{extend_vote, verify_extension}
use bapi.Example.Dex.Proposals.{build_proposal, verify_proposal}
use bapi.Example.Dex.Snapshots.{available_snapshots, export_snapshot, import_snapshot}
use bapi.Base.{[], replicate, ◌++◌, ◌∷◌, none, some, List, ℕ}
use bapi.Interfaces.{App}

unfoldable pub dex_app : World → App Dex
unfolding handshake check_tx execute_block commit query simulate build_proposal verify_proposal
    extend_vote verify_extension available_snapshots export_snapshot import_snapshot
dex_app w = record {
  lifecycle = record {
    handshake = handshake w;
    check_tx = check_tx w;
    execute_block = execute_block w;
    commit = commit w;
    query = query w;
  };
  proposal_control =
      some (record { build_proposal = build_proposal w; verify_proposal = verify_proposal w });
  vote_extender =
      some (record { extend_vote = extend_vote w; verify_extension = verify_extension w });
  state_sync = some (record {
    available_snapshots = available_snapshots w;
    export_snapshot = export_snapshot w;
    import_snapshot = import_snapshot w;
  });
  simulator = some (record { simulate = simulate w });
  mempool_observer = none;
}

-- The builders. An address is an array of twenty bytes.
unfoldable pub deposit_tx : ValidatorAddress → ℕ → Bytes → Tx
deposit_tx addr amount denom = tx_deposit ∷ (addr ++ (put_uint64 amount ++ denom))

unfoldable pub withdraw_tx : ValidatorAddress → ℕ → Bytes → Tx
withdraw_tx addr amount denom = tx_withdraw ∷ (addr ++ (put_uint64 amount ++ denom))

unfoldable pub limit_order_tx : ValidatorAddress → ℕ → ℕ → Bytes → Tx
limit_order_tx addr amount price pair =
    tx_limit_order ∷ (addr ++ (put_uint64 amount ++ (put_uint64 price ++ pair)))

unfoldable pub oracle_update_tx : World → List OraclePrice → Tx
oracle_update_tx w prices = tx_oracle_update ∷ w.marshal_prices prices

-- The array starts as zeros.
abbrev pub test_address : ℕ → ValidatorAddress
test_address n = n ∷ (replicate 18 0 ++ (n ∷ []))
