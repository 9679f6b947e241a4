-- ===== src/Example/Dex/Execute.antt =====
-- Execution of the four kinds of transaction. A function that changes `*state` returns the new one.
use bapi.Go.Dict.{insert, lookup, delete}
use bapi.Go.BigEndian.{uint64, put_uint64}
use bapi.Types.{EventAttribute, TxOutcome, Event, Tx}
use bapi.Example.Dex.State.{elements, or_empty, balance, set_balance, State, Order}
use bapi.Base.{
  ◌||◌, ◌^◌, ◌%◌, some, ◌-◌, ◌+◌, length, false, ◌==◌, true, ltb, List, ◌++◌, take, if◌then◌else◌,
  drop, [], Bool, ◌∷◌, String, ℕ,
}
use bapi.Go.Text.{decimal, text, hex, Bytes}

-- The type prefixes.
abbrev pub tx_deposit : ℕ
tx_deposit = 1

abbrev pub tx_withdraw : ℕ
tx_withdraw = 2

abbrev pub tx_limit_order : ℕ
tx_limit_order = 3

abbrev pub tx_oracle_update : ℕ
tx_oracle_update = 4

unfoldable pub addr_hex : Bytes → Bytes
addr_hex b = hex b

unfoldable pub encode_uint64 : ℕ → Bytes
encode_uint64 v = put_uint64 v

-- The bytes before the first '/'.
unfoldable pub pair_base : Bytes → Bytes
pair_base [] = []
pair_base (c ∷ cs) = let rest = pair_base cs in if c == b'/' then [] else c ∷ rest

-- `binary.BigEndian.Uint64(tx[i:i+8])` and `tx[1:21]`
abbrev pub number_at : ℕ → Tx → ℕ
number_at i tx = uint64 (take 8 (drop i tx))

abbrev pub address_in : Tx → Bytes
address_in tx = take 20 (drop 1 tx)

abbrev pub Executed : Type 0
Executed = State × TxOutcome × List Event

abbrev pub refused : State → ℕ → ℕ → Bytes → Executed
refused s index code info =
    (s, record { index = index; code = code; info = info; payload = []; events = [] }, [])

abbrev pub attribute : String → Bytes → Bool → EventAttribute
attribute key value index = record { key = text key; value = value; index = index }

transfer_event : String → Bytes → Bytes → ℕ → Event
transfer_event kind addr denom amount = record {
  kind = text kind;
  attributes =
      attribute "address" addr true
      ∷ attribute "denom" denom true
      ∷ attribute "amount" (decimal amount) true
      ∷ [];
}

abbrev done : State → ℕ → Bytes → Event → Executed
done s index payload event =
    (s, record { index = index; code = 0; info = []; payload = payload; events = event ∷ [] }, [])

unfoldable pub execute_deposit : State → ℕ → Tx → Executed
unfolding transfer_event
execute_deposit s index tx =
    let addr = addr_hex (address_in tx) in
    let amount = number_at 21 tx in
    let denom = drop 29 tx in
    let s' = set_balance addr denom ((balance s addr denom + amount) % 2 ^ 64) s in
    if ltb (length tx) 30
    then refused s index 1 (text "deposit tx too short")
    else if amount == 0
    then refused s index 1 (text "zero deposit")
    else done s' index (encode_uint64 (balance s' addr denom))
        (transfer_event "deposit" addr denom amount)

insufficient : Bytes → ℕ → ℕ → Bytes
insufficient what have need =
    text "insufficient "
    ++ (what ++ (text "balance: have " ++ (decimal have ++ (text ", need " ++ decimal need))))

-- `delete(s.Balances[addr], denom)`, and `addr` with it when nothing else is left there.
unfoldable pub drop_balance : Bytes → Bytes → State → State
drop_balance addr denom s =
    let left = delete denom (or_empty (lookup addr s.balances)) in
    record s {
      balances = if length left == 0 then delete addr s.balances else insert addr left s.balances;
    }

unfoldable pub take_out : Bytes → Bytes → ℕ → State → State
take_out addr denom amount s =
    let s' = set_balance addr denom (balance s addr denom - amount) s in
    if balance s' addr denom == 0 then drop_balance addr denom s' else s'

unfoldable pub execute_withdraw : State → ℕ → Tx → Executed
unfolding transfer_event insufficient
execute_withdraw s index tx =
    let addr = addr_hex (address_in tx) in
    let amount = number_at 21 tx in
    let denom = drop 29 tx in
    let s' = take_out addr denom amount s in
    if ltb (length tx) 30
    then refused s index 1 (text "withdraw tx too short")
    else if amount == 0
    then refused s index 1 (text "zero withdrawal")
    else if ltb (balance s addr denom) amount
    then refused s index 2 (insufficient [] (balance s addr denom) amount)
    else done s' index (encode_uint64 (balance s' addr denom))
        (transfer_event "withdraw" addr denom amount)

order_event : Bytes → Order → Event
order_event addr o = record {
  kind = text "limit_order";
  attributes =
      attribute "address" addr true
      ∷ attribute "pair" o.pair true
      ∷ attribute "amount" (decimal o.amount) false
      ∷ attribute "price" (decimal o.price) false
      ∷ [];
}

unfoldable pub execute_limit_order : State → ℕ → Tx → Executed
unfolding order_event insufficient
execute_limit_order s index tx =
    let addr = addr_hex (address_in tx) in
    let amount = number_at 21 tx in
    let price = number_at 29 tx in
    let pair = drop 37 tx in
    let base = pair_base pair in
    let order : Order = record {
      owner = address_in tx;
      pair = pair;
      amount = amount;
      price = price;
    } in
    let locked = set_balance addr base (balance s addr base - amount) s in
    let s' = record locked { orders = some (elements s.orders ++ (order ∷ [])) } in
    if ltb (length tx) 38
    then refused s index 1 (text "limit_order tx too short")
    else if amount == 0 || price == 0
    then refused s index 1 (text "zero amount or price")
    else if ltb (balance s addr base) amount
    then refused s index 2 (insufficient (base ++ text " ") (balance s addr base) amount)
    else done s' index (encode_uint64 (length (elements s.orders))) (order_event addr order)
