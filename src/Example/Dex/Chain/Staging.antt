-- ===== src/Example/Dex/Chain/Staging.antt =====
-- ExecuteBlock, Commit and Simulate of the exchange.
use bapi.Example.Dex.Blocks.{execute_txs-ledger, entered_all}
use mathlib.Core.Option.{map as map_option}
use bapi.Go.Run.{Fallible, returned, panicked, result?, final}
use bapi.Base.{◌∙◌, ◌+◌, ◌^◌, ◌%◌, ap, Option, refl, none, [], ◌∷◌, some, arith, ◌≡◌, List, ℕ}
use bapi.Types.{BlockOutcome, TxOutcome, VoteContext, Tx, StateQuery, FinalizedBlock}
use bapi.Example.Dex.Transactions.{execute_txs, execute_tx, execute_oracle_update}
use bapi.Example.Dex.Execute.{
  drop_balance, take_out, execute_withdraw, execute_limit_order, execute_deposit,
}
use bapi.Example.Dex.State.{set_balance, clone, balance, State, World}
use bapi.Example.Dex.Chain.{Dex, execute_block, commit, query, simulate, nil_pointer}
use bapi.Example.Dex.Oracle.{extend_vote}
use bapi.Example.Dex.Snapshots.{available_snapshots, export_snapshot}

-- What a transaction does to a state does not depend on the height, but for the height itself.
deposit-height :
    (s : State) (h i : ℕ) (tx : Tx)
    → (execute_deposit (record s { height = h }) i tx).1 ≡ (execute_deposit s i tx).1
unfolding execute_deposit balance set_balance
deposit-height s h i tx = ground arith

withdraw-height :
    (s : State) (h i : ℕ) (tx : Tx)
    → (execute_withdraw (record s { height = h }) i tx).1 ≡ (execute_withdraw s i tx).1
unfolding execute_withdraw take_out drop_balance balance set_balance
withdraw-height s h i tx = ground arith

limit_order-height :
    (s : State) (h i : ℕ) (tx : Tx)
    → (execute_limit_order (record s { height = h }) i tx).1 ≡ (execute_limit_order s i tx).1
unfolding execute_limit_order balance set_balance
limit_order-height s h i tx = ground arith

oracle-height :
    (w : World) (s : State) (h i : ℕ) (tx : Tx)
    → (execute_oracle_update w (record s { height = h }) i tx).1
      ≡ (execute_oracle_update w s i tx).1
unfolding execute_oracle_update
oracle-height w s h i tx = ground arith

execute_tx-height :
    (w : World) (s : State) (h i : ℕ) (tx : Tx)
    → (execute_tx w (record s { height = h }) i tx).1 ≡ (execute_tx w s i tx).1
unfolding execute_tx
execute_tx-height w s h i [] = refl
execute_tx-height w s h i (b ∷ rest) = ground (
  arith,
  deposit-height s h i (b ∷ rest),
  withdraw-height s h i (b ∷ rest),
  limit_order-height s h i (b ∷ rest),
  oracle-height w s h i (b ∷ rest),
)

-- Simulate changes nothing, and answers with the outcome that the transaction has as the first of
-- a block, whatever the block's height and the transactions after it.
pub simulate-execute_block :
    (w : World) (s : State) (staged : Option State) (b : FinalizedBlock) (tx : Tx) (txs : List Tx)
    → let app : Dex = record { current = some s; staged = staged } in
      (o : TxOutcome) × (others : List TxOutcome) × (simulate w tx app ≡ returned (o, none) app)
      × (map_option
            (λ (r : Fallible BlockOutcome). r.0.tx_outcomes)
            (result? (execute_block w (record b { txs = tx ∷ txs }) app))
          ≡ some (o ∷ others))
unfolding simulate execute_block execute_txs clone
simulate-execute_block w s staged b tx txs =
    let others =
      (execute_txs w (execute_tx w (record (clone s) { height = b.height }) 0 tx).0 1 txs).1 in
    (
      (execute_tx w (clone s) 0 tx).1,
      others,
      refl,
      ap (λ o. some (o ∷ others)) (execute_tx-height w (clone s) b.height 0 tx),
    )

height-execute_tx :
    (w : World) (s : State) (i : ℕ) (tx : Tx) → (execute_tx w s i tx).0.height ≡ s.height
unfolding execute_tx execute_deposit execute_withdraw execute_limit_order execute_oracle_update
    take_out drop_balance set_balance
height-execute_tx w s i [] = refl
height-execute_tx w s i (b ∷ rest) = ground arith

height-execute_txs :
    (w : World) (s : State) (i : ℕ) (txs : List Tx) → (execute_txs w s i txs).0.height ≡ s.height
unfolding execute_txs
height-execute_txs w s i [] = refl
height-execute_txs w s i (tx ∷ txs) =
    height-execute_txs w (execute_tx w s (i % 2 ^ 32) tx).0 (i + 1) txs
    ∙ height-execute_tx w s (i % 2 ^ 32) tx

staged_balance :
    (w : World) (s : State) (height : ℕ) (txs : List Tx)
    → balance (execute_txs w (record (clone s) { height = height }) 0 txs).0
      ≡ entered_all txs (balance s)
unfolding clone balance
staged_balance w s height txs =
    (execute_txs-ledger w (record (clone s) { height = height }) 0 txs).0

-- ExecuteBlock stages the state after the block: it has the block's height, and its balances are
-- those of the ledger with the block's transactions entered in order. Until Commit, queries, vote
-- extensions and snapshots answer as before. Commit makes this state current and nothing staged; a
-- second Commit panics on the nil pointer.
pub staged_until_commit :
    (w : World) (app : Dex) (s : State) (b : FinalizedBlock) (q : StateQuery) (v : VoteContext)
    (height format : ℕ)
    → app.current ≡ some s
    → let one = final (execute_block w b app) in
      (result? (query w q one) ≡ result? (query w q app))
      × (result? (extend_vote w v one) ≡ result? (extend_vote w v app))
      × (result? (available_snapshots w one) ≡ result? (available_snapshots w app))
      × (result? (export_snapshot w height format one)
          ≡ result? (export_snapshot w height format app))
      × ((t : State) × (one ≡ record app { staged = some t })
          × (t.height ≡ b.height)
          × (balance t ≡ entered_all b.txs (balance s))
          × (final (commit w one) ≡ record { current = some t; staged = none }))
      × (commit w (final (commit w one))
          ≡ panicked nil_pointer (record { current = none; staged = none }))
unfolding execute_block query extend_vote available_snapshots export_snapshot commit
staged_until_commit w app s b q v height format c =
    let start = record (clone s) { height = b.height } in
    (
      ground arith,
      ground arith,
      ground arith,
      ground arith,
      (
        (execute_txs w start 0 b.txs).0,
        ground arith,
        height-execute_txs w start 0 b.txs,
        staged_balance w s b.height b.txs,
        ground arith,
      ),
      ground arith,
    )
