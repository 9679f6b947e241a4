-- ===== src/Tests/Counting.antt =====
-- The counter at concrete blocks.
use bapi.Base.Int.{pos}
use bapi.Server.{new_state}
use bapi.Server.Calls.{handshakes, run}
use bapi.Server.{ServerState}
use bapi.Tests.Data.{value_query, first_request, block_at, same}
use bapi.Local.{new_connection}
use bapi.Go.Run.{returned}
use bapi.Types.{first_seen, TxOutcome, Tx, FinalizedBlock}
use bapi.Base.{refl, some, get_elem?, none, ◌^◌, ◌∷◌, ◌%◌, [], ◌≡◌, List}
use bapi.Example.Counter.{
  check_tx, query, count_txs, committed_count, increment_tx, Counter, new_counter, counter_app,
}
use bapi.Example.Counter.Laws.{outcome_at, total}
use bapi.Example.Counter.Session.{session, cycles, all_txs, last_height, answer}
use bapi.Local

abbrev block_txs : List Tx
block_txs = increment_tx 3 ∷ (1 ∷ 2 ∷ []) ∷ increment_tx 4 ∷ []

abbrev decided : List FinalizedBlock
decided = block_at 1 block_txs ∷ block_at 2 (increment_tx 10 ∷ []) ∷ []

session_example :
    let c = new_connection (counter_app same) in
    (t : ServerState Counter) × (run c.srv
        (handshakes first_request ∷ cycles decided)
        (new_state (new_counter same))
      ≡ returned tt t)
    × (committed_count t.app_state ≡ total (all_txs decided) % 2 ^ 64)
    × (Local.query c value_query t
        ≡ returned (answer (total (all_txs decided) % 2 ^ 64) (last_height 0 decided), none) t)
session_example = session same first_request decided value_query

abbrev counted : Counter
counted = new_counter same

-- The malformed one.
outcome_at_example :
    (o : TxOutcome) × (get_elem? (count_txs 0 5 block_txs).1 1 ≡ some o)
    × (o.index ≡ 1)
    × (check_tx same (1 ∷ 2 ∷ []) first_seen counted
        ≡ returned
            (record { code = o.code; info = o.info; priority = pos 0; sender = [] }, none)
            counted)
outcome_at_example = outcome_at same first_seen counted 0 5 block_txs 1 (1 ∷ 2 ∷ []) refl
