-- ===== src/Example/Dex/Ledger.antt =====
-- An abstract ledger: what an account holds of a denomination.
use bapi.Example.Dex.Transactions.{execute_tx, execute_oracle_update}
use bapi.Go.Dict.{lookup-insert, lookup-delete, lookup, delete, Dict}
use bapi.Go.Order.{bytes_eq_refl, bytes_eq_iff, bytes_eq}
use bapi.Example.Dex.Execute.{
  execute_withdraw, execute_limit_order, execute_deposit, pair_base, address_in, tx_limit_order,
  addr_hex, tx_withdraw, number_at, tx_deposit, drop_balance, take_out,
}
use bapi.Example.Dex.State.{
  elements, World, Order, balance-set_balance, set_balance, or_empty, State, balance,
}
use bapi.Types.{Tx}
use bapi.Base.{
  ◌++◌, some, List, Option, refl, arith, drop, [], leb, ◌||◌, ◌^◌, ◌-◌, ◌≡◌, ◌==◌, ◌&&◌, ◌%◌,
  length, false, ◌∷◌, ◌+◌, ltb, if◌then◌else◌, Bool, ℕ,
}
use bapi.Go.Text.{Bytes}

abbrev pub Ledger : Type 0
Ledger = Bytes → Bytes → ℕ

-- What a transaction asks of the ledger.
pub data Change : Type 0 where
  nothing : Change
  credit debit : Bytes → Bytes → ℕ → Change

abbrev pub change_deposit : Tx → Change
change_deposit tx =
    if ltb (length tx) 30 || number_at 21 tx == 0
    then nothing
    else credit (addr_hex (address_in tx)) (drop 29 tx) (number_at 21 tx)

abbrev pub change_withdraw : Tx → Change
change_withdraw tx =
    if ltb (length tx) 30 || number_at 21 tx == 0
    then nothing
    else debit (addr_hex (address_in tx)) (drop 29 tx) (number_at 21 tx)

abbrev pub change_limit_order : Tx → Change
change_limit_order tx =
    if ltb (length tx) 38 || (number_at 21 tx == 0 || number_at 29 tx == 0)
    then nothing
    else debit (addr_hex (address_in tx)) (pair_base (drop 37 tx)) (number_at 21 tx)

abbrev pub change : Tx → Change
change [] = nothing
change (b ∷ rest) =
    if b == tx_deposit
    then change_deposit (b ∷ rest)
    else if b == tx_withdraw
    then change_withdraw (b ∷ rest)
    else if b == tx_limit_order
    then change_limit_order (b ∷ rest)
    else nothing

abbrev at_account : Bytes → Bytes → Bytes → Bytes → Bool
at_account addr denom a d = bytes_eq addr a && bytes_eq denom d

-- A credit wraps at 2^64; a debit that the account does not cover changes nothing.
abbrev pub entered : Change → Ledger → Ledger
entered nothing l a d = l a d
entered (credit addr denom n) l a d =
    if at_account addr denom a d then (l a d + n) % 2 ^ 64 else l a d
entered (debit addr denom n) l a d =
    if at_account addr denom a d && leb n (l addr denom) then l a d - n else l a d

abbrev pub lacking : Change → Ledger → Bool
lacking (debit addr denom n) l = ltb (l addr denom) n
lacking _ l = false

drop_balance-left :
    (addr denom a d : Bytes) (s : State) (left : Dict ℕ)
    → delete denom (or_empty (lookup addr s.balances)) ≡ left
    → balance (drop_balance addr denom s) a d
      ≡ (if at_account addr denom a d then 0 else balance s a d)
unfolding balance drop_balance lookup
drop_balance-left addr denom a d s [] e = ground (
  arith,
  lookup-delete denom d (or_empty (lookup addr s.balances)),
  lookup-delete addr a s.balances,
  lookup-insert addr a (delete denom (or_empty (lookup addr s.balances))) s.balances,
  bytes_eq_iff addr a,
  bytes_eq_iff denom d,
)
drop_balance-left addr denom a d s (x ∷ left) e = ground (
  arith,
  lookup-delete denom d (or_empty (lookup addr s.balances)),
  lookup-delete addr a s.balances,
  lookup-insert addr a (delete denom (or_empty (lookup addr s.balances))) s.balances,
  bytes_eq_iff addr a,
  bytes_eq_iff denom d,
)

balance-take_out :
    (addr denom a d : Bytes) (n : ℕ) (s : State)
    → balance (take_out addr denom n s) a d
      ≡ (if at_account addr denom a d then balance s a d - n else balance s a d)
unfolding take_out
balance-take_out addr denom a d n s =
    let s' = set_balance addr denom (balance s addr denom - n) s in
    ground (
      arith,
      drop_balance-left addr denom a d s' _ refl,
      balance-set_balance addr denom a d (balance s addr denom - n) s,
      balance-set_balance addr denom addr denom (balance s addr denom - n) s,
      bytes_eq_iff addr a,
      bytes_eq_iff denom d,
      bytes_eq_refl addr,
      bytes_eq_refl denom,
    )

execute_deposit-refines :
    (s : State) (i : ℕ) (tx : Tx) (a d : Bytes)
    → (balance (execute_deposit s i tx).0 a d ≡ entered (change_deposit tx) (balance s) a d)
      × (((execute_deposit s i tx).1.code == 2) ≡ lacking (change_deposit tx) (balance s))
unfolding execute_deposit
execute_deposit-refines s i tx a d =
    let addr = addr_hex (address_in tx) in
    let denom = drop 29 tx in
    ground (
      arith,
      balance-set_balance addr denom a d ((balance s addr denom + number_at 21 tx) % 2 ^ 64) s,
      bytes_eq_iff addr a,
      bytes_eq_iff denom d,
    )

execute_withdraw-refines :
    (s : State) (i : ℕ) (tx : Tx) (a d : Bytes)
    → (balance (execute_withdraw s i tx).0 a d ≡ entered (change_withdraw tx) (balance s) a d)
      × (((execute_withdraw s i tx).1.code == 2) ≡ lacking (change_withdraw tx) (balance s))
unfolding execute_withdraw
execute_withdraw-refines s i tx a d =
    ground (arith, balance-take_out (addr_hex (address_in tx)) (drop 29 tx) a d (number_at 21 tx) s)

pub balance-orders :
    (t : State) (o : Option (List Order)) (a d : Bytes)
    → balance (record t { orders = o }) a d ≡ balance t a d
unfolding balance
balance-orders t o a d = refl

execute_limit_order-refines :
    (s : State) (i : ℕ) (tx : Tx) (a d : Bytes)
    → (balance (execute_limit_order s i tx).0 a d ≡ entered (change_limit_order tx) (balance s) a d)
      × (((execute_limit_order s i tx).1.code == 2) ≡ lacking (change_limit_order tx) (balance s))
unfolding execute_limit_order
execute_limit_order-refines s i tx a d =
    let addr = addr_hex (address_in tx) in
    let base = pair_base (drop 37 tx) in
    let locked = set_balance addr base (balance s addr base - number_at 21 tx) s in
    let order : Order = record {
      owner = address_in tx;
      pair = drop 37 tx;
      amount = number_at 21 tx;
      price = number_at 29 tx;
    } in
    ground (
      arith,
      balance-orders locked (some (elements s.orders ++ (order ∷ []))) a d,
      balance-set_balance addr base a d (balance s addr base - number_at 21 tx) s,
      bytes_eq_iff addr a,
      bytes_eq_iff base d,
    )

balance-prices :
    (t : State) (m : Dict ℕ) (a d : Bytes) → balance (record t { prices = m }) a d ≡ balance t a d
unfolding balance
balance-prices t m a d = refl

execute_oracle_update-keeps :
    (w : World) (s : State) (i : ℕ) (tx : Tx) (a d : Bytes)
    → (balance (execute_oracle_update w s i tx).0 a d ≡ balance s a d)
      × (((execute_oracle_update w s i tx).1.code == 2) ≡ false)
unfolding execute_oracle_update balance
execute_oracle_update-keeps w s i tx a d = ground arith

-- Execution refines the ledger, for any state and any transaction: every account of the state is
-- then what `entered` makes of it, and the code is 2 exactly if the transaction asks for more than
-- the account has.
pub execute_tx-refines :
    (w : World) (s : State) (i : ℕ) (tx : Tx) (a d : Bytes)
    → (balance (execute_tx w s i tx).0 a d ≡ entered (change tx) (balance s) a d)
      × (((execute_tx w s i tx).1.code == 2) ≡ lacking (change tx) (balance s))
unfolding execute_tx
execute_tx-refines w s i [] a d = (refl, refl)
execute_tx-refines w s i (b ∷ rest) a d = ground (
  arith,
  execute_deposit-refines s i (b ∷ rest) a d,
  execute_withdraw-refines s i (b ∷ rest) a d,
  execute_limit_order-refines s i (b ∷ rest) a d,
  execute_oracle_update-keeps w s i (b ∷ rest) a d,
)
