-- ===== src/Example/Dex/Chain/Gate.antt =====
-- What CheckTx says of a transaction, and what becomes of it in a block.
use bapi.Example.Dex.Proposals.{is_oracle}
use bapi.Example.Dex.Chain.{gate}
use bapi.Types.{is_accepted, Tx}
use bapi.Go.Text.{Bytes}
use bapi.Base.{
  inr, inl, Bool-cases, ◌&&◌, ◌==◌, refl, ◌∷◌, ◌||◌, false, arith, not, ◌≡◌, true, if◌then◌else◌,
  [], ℕ, Bool,
}
use bapi.Example.Dex.Transactions.{execute_tx}
use bapi.Example.Dex.Execute.{
  tx_withdraw, tx_deposit, tx_limit_order, number_at, execute_withdraw, execute_limit_order,
  execute_deposit,
}
use bapi.Example.Dex.State.{balance, World, State}
use bapi.Example.Dex.Ledger.{
  nothing, change, lacking, debit, credit, change_withdraw, change_limit_order, change_deposit,
  Change,
}

abbrev pub is_limit_order : Tx → Bool
is_limit_order [] = false
is_limit_order (b ∷ rest) = b == tx_limit_order

-- An amount of zero, or the price of a limit order.
abbrev pub asks_zero : Tx → Bool
asks_zero tx = number_at 21 tx == 0 || (is_limit_order tx && number_at 29 tx == 0)

-- Whether CheckTx refuses the transaction, or execution will whatever the state.
abbrev pub hopeless : Tx → Bool
hopeless tx = not (is_accepted (gate tx)) || asks_zero tx

asks_nothing : Change → Bool
asks_nothing nothing = true
asks_nothing (credit addr denom n) = false
asks_nothing (debit addr denom n) = false

abbrev pub account_of : Change → Bytes
account_of nothing = []
account_of (credit addr denom n) = addr
account_of (debit addr denom n) = addr

-- The code that the verdict and the ledger foretell.
abbrev pub foretold : State → Tx → ℕ
foretold s tx = if hopeless tx then 1 else if lacking (change tx) (balance s) then 2 else 0

code-execute_deposit :
    (s : State) (i : ℕ) (tx : Tx)
    → (execute_deposit s i tx).1.code ≡ (if asks_nothing (change_deposit tx) then 1 else 0)
unfolding execute_deposit asks_nothing
code-execute_deposit s i tx = ground arith

code-execute_withdraw :
    (s : State) (i : ℕ) (tx : Tx)
    → (execute_withdraw s i tx).1.code ≡ (
        if asks_nothing (change_withdraw tx)
        then 1
        else if lacking (change_withdraw tx) (balance s)
        then 2
        else 0)
unfolding execute_withdraw asks_nothing
code-execute_withdraw s i tx = ground arith

code-execute_limit_order :
    (s : State) (i : ℕ) (tx : Tx)
    → (execute_limit_order s i tx).1.code ≡ (
        if asks_nothing (change_limit_order tx)
        then 1
        else if lacking (change_limit_order tx) (balance s)
        then 2
        else 0)
unfolding execute_limit_order asks_nothing
code-execute_limit_order s i tx = ground arith

code-execute_tx :
    (w : World) (s : State) (i : ℕ) (tx : Tx)
    → is_oracle tx ≡ false
    → (execute_tx w s i tx).1.code ≡ foretold s tx
unfolding execute_tx gate asks_nothing
code-execute_tx w s i [] h = refl
code-execute_tx w s i (b ∷ rest) h =
    let tx = b ∷ rest in
    elim (Bool-cases (b == tx_deposit)) [
      | inl e ↦ ground (arith, e, code-execute_deposit s i tx)
      | inr e ↦ elim (Bool-cases (b == tx_withdraw)) [
        | inl f ↦ ground (arith, e, f, code-execute_withdraw s i tx)
        | inr f ↦ ground (arith, e, f, h, code-execute_limit_order s i tx)
      ]
    ]

account_of-gate :
    (tx : Tx) → account_of (change tx) ≡ (if hopeless tx then [] else (gate tx).sender)
unfolding gate
account_of-gate [] = refl
account_of-gate (b ∷ rest) = ground arith

-- A transaction that CheckTx refuses has code 1 in every block, unless it is an oracle update. Of
-- those that it admits, the ones with an amount of zero, or a limit order with a price of zero, have
-- code 1 too, those that ask for more than the account has have code 2, and all others code 0. And
-- CheckTx names as the sender the account that the transaction changes, where it changes one.
pub gate-execute_tx :
    (w : World) (s : State) (i : ℕ) (tx : Tx)
    → is_oracle tx ≡ false
    → ((execute_tx w s i tx).1.code ≡ foretold s tx)
      × (account_of (change tx) ≡ (if hopeless tx then [] else (gate tx).sender))
gate-execute_tx w s i tx h = (code-execute_tx w s i tx h, account_of-gate tx)
