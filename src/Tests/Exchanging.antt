-- ===== src/Tests/Exchanging.antt =====
-- The exchange's blocks, proposals and snapshots, at concrete states.
use bapi.Example.Dex.Blocks.{entered_all}
use bapi.Example.Dex.Ledger.{change}
use bapi.Example.Dex.Chain.Gate.{gate-execute_tx, hopeless, account_of, foretold}
use bapi.Example.Dex.Transactions.{execute_tx}
use bapi.Base.{if◌then◌else◌}
use bapi.Go.Dict.{lookup, insert}
use bapi.Example.Dex.Chain.Staging.{simulate-execute_block, staged_until_commit}
use bapi.Go.Sort.{sort_slice}
use mathlib.Core.Option.{map as map_option}
use bapi.Example.Dex.Proposals.Accepted.{own_accepted}
use bapi.Go.Text.{text}
use bapi.Example.Dex.Proposals.{verify_proposal, proposal_txs}
use bapi.Example.Dex.App.{withdraw_tx, deposit_tx}
use bapi.Example.Dex.Snapshots.{available_snapshots, export_snapshot}
use bapi.Example.Dex.Chain.{gate, commit, query, execute_block}
use bapi.Tests.Data.{
  first_vote, giver, at_five, value_query, gold, alice, block_at, small_world, epoch,
}
use bapi.Go.Run.{Fallible, panicked, returned, result?, final}
use bapi.Example.Dex.Oracle.{median, collect_prices, extend_vote, aggregate, collect}
use bapi.Example.Dex.State.{balance, State, decoded, World}
use bapi.Types.{BlockOutcome, TxOutcome, ReceivedProposal, ProposalContext}
use bapi.Base.{refl, true, ◌≡◌, none, ◌∷◌, some, [], List}
use bapi.Example.Dex.Chain.{nil_pointer, simulate}

simulate-execute_block_example :
    (o : TxOutcome) × (others : List TxOutcome) × (simulate small_world
        (deposit_tx alice 5 gold)
        giver
      ≡ returned (o, none) giver)
    × (map_option
          (λ (r : Fallible BlockOutcome). r.0.tx_outcomes)
          (result? (
            execute_block small_world
              (block_at 6 (deposit_tx alice 5 gold ∷ withdraw_tx alice 5 gold ∷ []))
              giver))
        ≡ some (o ∷ others))
simulate-execute_block_example =
    simulate-execute_block small_world at_five none (block_at 6 []) (deposit_tx alice 5 gold)
      (withdraw_tx alice 5 gold ∷ [])

staged_until_commit_example :
    let txs = deposit_tx alice 5 gold ∷ [] in
    let one = final (execute_block small_world (block_at 6 txs) giver) in
    (result? (query small_world value_query one) ≡ result? (query small_world value_query giver))
    × (result? (extend_vote small_world first_vote one)
        ≡ result? (extend_vote small_world first_vote giver))
    × (result? (available_snapshots small_world one)
        ≡ result? (available_snapshots small_world giver))
    × (result? (export_snapshot small_world 5 1 one)
        ≡ result? (export_snapshot small_world 5 1 giver))
    × ((t : State) × (one ≡ record giver { staged = some t })
        × (t.height ≡ 6)
        × (balance t ≡ entered_all txs (balance at_five))
        × (final (commit small_world one) ≡ record { current = some t; staged = none }))
    × (commit small_world (final (commit small_world one))
        ≡ panicked nil_pointer (record { current = none; staged = none }))
staged_until_commit_example =
    staged_until_commit small_world giver at_five (block_at 6 (deposit_tx alice 5 gold ∷ []))
      value_query first_vote 5 1 refl

-- One validator reports a price of one for gold; the JSON is read as this price.
abbrev priced_world : World
priced_world = record small_world {
  unmarshal_prices = λ b. decoded (record { pair = gold; price = 1 } ∷ []);
}

abbrev reported : ProposalContext
reported = record {
  height = 6;
  time = epoch;
  proposer = [];
  mempool_txs = deposit_tx alice 5 gold ∷ [];
  max_tx_bytes = 100;
  vote_extensions = record { validator = alice; extension = 1 ∷ [] } ∷ [];
}

abbrev built : ReceivedProposal
built = record {
  height = 6;
  time = epoch;
  proposer = [];
  txs = proposal_txs priced_world reported;
  vote_extensions = reported.vote_extensions;
}

own_accepted_example :
    verify_proposal priced_world built giver
    ≡ returned (record { accept = true; reject_reason = [] }, none) giver
unfolding collect aggregate text sort_slice collect_prices insert median lookup
own_accepted_example = own_accepted priced_world reported built giver (λ P h. h) refl refl refl

-- CheckTx admits a withdrawal of what the account does not have.
gate-execute_tx_example :
    ((execute_tx small_world at_five 0 (withdraw_tx alice 5 gold)).1.code
      ≡ foretold at_five (withdraw_tx alice 5 gold))
    × (account_of (change (withdraw_tx alice 5 gold)) ≡ (
        if hopeless (withdraw_tx alice 5 gold)
        then []
        else (gate (withdraw_tx alice 5 gold)).sender))
unfolding withdraw_tx
gate-execute_tx_example = gate-execute_tx small_world at_five 0 (withdraw_tx alice 5 gold) refl
