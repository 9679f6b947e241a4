-- ===== src/Example/Counter/Laws.antt =====
-- What the counter does with transactions, and between ExecuteBlock and Commit.
use bapi.Base.Int.{pos}
use bapi.Go.Run.{returned}
use bapi.Go.BigEndian.{uint64}
use bapi.Go.Text.{Bytes}
use bapi.Example.Counter.{Counter, check_tx, count_txs, count_tx}
use bapi.Types.{TxOutcome, MempoolContext, Tx}
use bapi.Base.{
  none, zero, some, refl, get_elem?, suc, arith, ◌%◌, [], ◌≡◌, ◌^◌, ◌==◌, ◌+◌, ◌∷◌, ◌<◌, length,
  if◌then◌else◌, List, ℕ,
}

-- What a transaction adds: the number in its eight bytes, and nothing if it is malformed.
abbrev pub increment : Tx → ℕ
increment tx = if length tx == 8 then uint64 tx else 0

abbrev pub total : List Tx → ℕ
total [] = 0
total (tx ∷ txs) = increment tx + total txs

count_tx-increment :
    (i count : ℕ) (tx : Tx)
    → count < 2 ^ 64
    → (count_tx i count tx).0 ≡ (count + increment tx) % 2 ^ 64
unfolding count_tx
count_tx-increment i count tx h = ground arith

-- From a count that fits, the loop of ExecuteBlock ends with the sum of all increments, modulo
-- 2^64.
pub count_txs-total :
    (i count : ℕ) (txs : List Tx)
    → count < 2 ^ 64
    → (count_txs i count txs).0 ≡ (count + total txs) % 2 ^ 64
unfolding count_txs
count_txs-total i count [] h = omega arith
count_txs-total i count (tx ∷ txs) h =
    let e = count_tx-increment i count tx h in
    omega (arith, e, count_txs-total (i + 1) (count_tx i count tx).0 txs (omega (arith, e)))

-- The outcome of the transaction at position `k`: its index is the position, and it is accepted
-- exactly if the gate check accepts the transaction.
pub outcome_at :
    (sha256 : Bytes → Bytes) (mctx : MempoolContext) (app : Counter) (i count : ℕ) (txs : List Tx)
    (k : ℕ) (tx : Tx)
    → get_elem? txs k ≡ some tx
    → (o : TxOutcome) × (get_elem? (count_txs i count txs).1 k ≡ some o)
      × (o.index ≡ (i + k) % 2 ^ 32)
      × (check_tx sha256 tx mctx app
          ≡ returned
              (record { code = o.code; info = o.info; priority = pos 0; sender = [] }, none)
              app)
unfolding count_txs count_tx check_tx
outcome_at sha256 mctx app i count [] k tx h = cc
outcome_at sha256 mctx app i count (x ∷ txs) zero tx h =
    ((count_tx i count x).1, refl, ground arith, ground arith)
outcome_at sha256 mctx app i count (x ∷ txs) (suc k) tx h =
    let (o, e, f, g) = outcome_at sha256 mctx app (i + 1) (count_tx i count x).0 txs k tx h in
    (o, e, omega (arith, f), g)
