-- ===== src/Tests/Trading.antt =====
-- The exchange at concrete transactions.
use bapi.Example.Dex.Accounts.{orders_of, Octets, others_untouched}
use bapi.Example.Dex.Blocks.{execute_txs-ledger, short, entered_all}
use bapi.Example.Dex.Effects.{builders, limit_order_conserves, refused_keeps, locked}
use bapi.Example.Dex.Proposals.Laws.{proposal_bounds, accept-judged, unchecked, intended, size}
use bapi.Base.{
  ◌++◌, some, if◌then◌else◌, ◌&&◌, ltb, true, Bool, ◌||◌, map, List, refl, ◌==◌, false, drop, arith,
  ◌≤◌, ◌≡◌, ◌∷◌, ◌+◌, [],
}
use bapi.Go.BigEndian.{uint64, put_uint64}
use bapi.Example.Dex.Ledger.{debit, credit, change}
use bapi.Example.Dex.Proposals.{proposal_txs, judged, any_oracle}
use bapi.Tests.Data.{gold, small_world, epoch, alice}
use bapi.Go.Text.{Bytes, text}
use bapi.Example.Dex.Transactions.{execute_txs, execute_tx}
use bapi.Example.Dex.App.{test_address, withdraw_tx, limit_order_tx, deposit_tx}
use bapi.Types.{TxOutcome, Tx, ProposalContext, CommittedVoteExtension}
use bapi.Example.Dex.State.{elements, balance, new_state, State}
use bapi.Example.Dex.Execute.{pair_base, execute_withdraw, addr_hex, execute_limit_order}

-- Alice with ten gold.
abbrev funded : State
funded = record new_state { balances = (addr_hex alice, (gold, 10) ∷ []) ∷ [] }

refused_keeps_example :
    let r = execute_tx small_world funded 0 (withdraw_tx alice 0 gold) in
    (r.0 ≡ funded) × (r.1.events ≡ []) × (r.1.payload ≡ []) × (r.2 ≡ [])
unfolding execute_tx execute_withdraw withdraw_tx put_uint64 text uint64
refused_keeps_example = refused_keeps small_world funded 0 (withdraw_tx alice 0 gold) (omega arith)

limit_order_conserves_example :
    let s = (execute_limit_order funded 0 (limit_order_tx alice 4 9 (text "gold/tin"))).0 in
    balance s (addr_hex alice) gold + locked (elements s.orders) (addr_hex alice) gold
    ≡ balance funded (addr_hex alice) gold + locked (elements funded.orders) (addr_hex alice) gold
limit_order_conserves_example =
    limit_order_conserves funded 0 (limit_order_tx alice 4 9 (text "gold/tin")) (addr_hex alice)
      gold

builders_example :
    (change (deposit_tx alice 4 gold) ≡ credit (addr_hex alice) gold 4)
    × (change (withdraw_tx alice 4 gold) ≡ debit (addr_hex alice) gold 4)
    × (change (limit_order_tx alice 4 9 gold) ≡ debit (addr_hex alice) (pair_base gold) 4)
    × ((execute_tx small_world funded 0 (limit_order_tx alice 4 9 gold)).0.orders ≡ (
        if ltb (balance funded (addr_hex alice) (pair_base gold)) 4
        then funded.orders
        else some (
            elements funded.orders
            ++ (record { owner = alice; pair = gold; amount = 4; price = 9 } ∷ []))))
unfolding text
builders_example =
    builders small_world funded 0 alice gold 4 9 refl (omega arith) (omega arith) (omega arith)
      (omega arith) (omega arith)

abbrev offered : ProposalContext
offered = record {
  height = 1;
  time = epoch;
  proposer = [];
  mempool_txs = deposit_tx alice 5 gold ∷ deposit_tx alice 6 gold ∷ [];
  max_tx_bytes = 40;
  vote_extensions = [];
}

proposal_bounds_example :
    (size (proposal_txs small_world offered) ≤ 40)
    × (any_oracle (drop 1 (proposal_txs small_world offered)) ≡ false)
unfolding deposit_tx text put_uint64
proposal_bounds_example = proposal_bounds small_world offered (omega arith, (omega arith, tt))

abbrev vote : CommittedVoteExtension
vote = record { validator = alice; extension = [] }

accept-judged_example :
    (judged small_world (vote ∷ []) (deposit_tx alice 5 gold ∷ (4 ∷ []) ∷ [])).accept ≡ (
      unchecked (vote ∷ []) (deposit_tx alice 5 gold ∷ (4 ∷ []) ∷ [])
      || intended small_world (deposit_tx alice 5 gold ∷ (4 ∷ []) ∷ []))
unfolding deposit_tx
accept-judged_example =
    accept-judged small_world (vote ∷ []) (deposit_tx alice 5 gold ∷ (4 ∷ []) ∷ [])

-- Alice withdraws four of her ten gold, and then seven.
abbrev trades : List Tx
trades = withdraw_tx alice 4 gold ∷ withdraw_tx alice 7 gold ∷ deposit_tx alice 1 gold ∷ []

execute_txs-ledger_example :
    let r = execute_txs small_world funded 0 trades in
    (balance r.0 ≡ entered_all trades (balance funded))
    × (map (λ (o : TxOutcome). o.code == 2) r.1 ≡ short trades (balance funded))
execute_txs-ledger_example = execute_txs-ledger small_world funded 0 trades

all_octets : Bytes → Bool
all_octets [] = true
all_octets (x ∷ b) = ltb x 256 && all_octets b

Octets-all_octets : (b : Bytes) → all_octets b ≡ true → Octets b
unfolding all_octets
Octets-all_octets [] h = tt
Octets-all_octets (x ∷ b) h = (ground arith, Octets-all_octets b (ground arith))

abbrev bob : Bytes
bob = test_address 9

others_untouched_example :
    let s' = (execute_txs small_world funded 0 (deposit_tx bob 5 gold ∷ [])).0 in
    (balance s' (addr_hex alice) gold ≡ balance funded (addr_hex alice) gold)
    × (orders_of alice (elements s'.orders) ≡ orders_of alice (elements funded.orders))
unfolding deposit_tx all_octets
others_untouched_example =
    others_untouched small_world funded 0 (deposit_tx bob 5 gold ∷ []) alice gold
      (Octets-all_octets alice refl) ((Octets-all_octets bob refl, λ e. cc), tt)
