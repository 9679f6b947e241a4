-- ===== src/Example/Dex/Blocks.antt =====
-- Whole blocks: the loop of ExecuteBlock over its transactions.
use bapi.Types.{TxOutcome, Tx}
use bapi.Example.Dex.Transactions.{execute_tx, execute_txs}
use bapi.Example.Dex.State.{balance, State, World}
use bapi.Base.{refl, ap₂, ap, ◌∙◌, ◌+◌, ◌%◌, ◌==◌, map, [], ◌≡◌, ◌^◌, ◌∷◌, ℕ, Bool, List}
use bapi.Example.Dex.Ledger.{execute_tx-refines, change, lacking, entered, Ledger}

-- What the transactions of a block ask for, entered in order.
abbrev pub entered_all : List Tx → Ledger → Ledger
entered_all [] l = l
entered_all (tx ∷ txs) l = entered_all txs (entered (change tx) l)

-- The codes of a block's outcomes that the ledger decides: which transactions ask for more than
-- there is.
abbrev pub short : List Tx → Ledger → List Bool
short [] l = []
short (tx ∷ txs) l = lacking (change tx) l ∷ short txs (entered (change tx) l)

-- After a block every balance is what the ledger says when the transactions are entered in order,
-- and the outcomes with code 2 are exactly those of the transactions that ask for more than there
-- is when their turn comes.
pub execute_txs-ledger :
    (w : World) (s : State) (i : ℕ) (txs : List Tx)
    → let r = execute_txs w s i txs in
      (balance r.0 ≡ entered_all txs (balance s))
      × (map (λ (o : TxOutcome). o.code == 2) r.1 ≡ short txs (balance s))
unfolding execute_txs
execute_txs-ledger w s i [] = (refl, refl)
execute_txs-ledger w s i (tx ∷ txs) =
    let s' = (execute_tx w s (i % 2 ^ 32) tx).0 in
    let one : balance s' ≡ entered (change tx) (balance s) =
      λ j a d. (execute_tx-refines w s (i % 2 ^ 32) tx a d).0 j in
    let (books, codes) = execute_txs-ledger w s' (i + 1) txs in
    (
      books ∙ ap (entered_all txs) one,
      ap₂ (λ b bs. b ∷ bs) (execute_tx-refines w s (i % 2 ^ 32) tx [] []).1
          (codes ∙ ap (short txs) one),
    )
