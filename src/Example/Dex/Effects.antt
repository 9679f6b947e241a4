-- ===== src/Example/Dex/Effects.antt =====
-- What transactions leave alone, what orders lock, and what the builders ask for.
use bapi.Example.Dex.Ledger.{debit, credit, change, balance-orders}
use bapi.Example.Dex.App.{limit_order_tx, withdraw_tx, deposit_tx}
use bapi.Go.Order.{bytes_eq_iff, bytes_eq}
use bapi.Go.BigEndian.{uint64-put_uint64_alone, length-put_uint64, put_uint64}
use bapi.Types.{Tx}
use bapi.Example.Dex.Transactions.{execute_tx, execute_oracle_update}
use bapi.Example.Dex.Execute.{
  tx_limit_order, pair_base, addr_hex, number_at, address_in, Executed, execute_withdraw,
  execute_limit_order, execute_deposit,
}
use bapi.Example.Dex.State.{
  balance-set_balance, set_balance, elements, balance, World, Order, State,
}
use bapi.Base.{
  ltb, ◌<◌, some, length-append, ◌-◌, drop-append, take-append, drop, ◌^◌, ◌&&◌, ◌%◌, refl, ◌+◌,
  if◌then◌else◌, [], ◌≢◌, ◌∷◌, ◌++◌, arith, ◌≡◌, length, List, ℕ,
}
use bapi.Go.Text.{Bytes}

abbrev KeepsIfRefused : State → Executed → Type 0
KeepsIfRefused s (s', o, events) =
    o.code ≢ 0 → (s' ≡ s) × (o.events ≡ []) × (o.payload ≡ []) × (events ≡ [])

deposit-keeps : (s : State) (i : ℕ) (tx : Tx) → KeepsIfRefused s (execute_deposit s i tx)
unfolding execute_deposit
deposit-keeps s i tx h = ground arith

withdraw-keeps : (s : State) (i : ℕ) (tx : Tx) → KeepsIfRefused s (execute_withdraw s i tx)
unfolding execute_withdraw
withdraw-keeps s i tx h = ground arith

limit_order-keeps : (s : State) (i : ℕ) (tx : Tx) → KeepsIfRefused s (execute_limit_order s i tx)
unfolding execute_limit_order
limit_order-keeps s i tx h = ground arith

oracle-keeps :
    (w : World) (s : State) (i : ℕ) (tx : Tx) → KeepsIfRefused s (execute_oracle_update w s i tx)
unfolding execute_oracle_update
oracle-keeps w s i tx h = ground arith

-- A transaction that is refused, with any code but 0, changes nothing in the state, returns no data
-- and emits no event.
pub refused_keeps :
    (w : World) (s : State) (i : ℕ) (tx : Tx)
    → let r = execute_tx w s i tx in
      r.1.code ≢ 0 → (r.0 ≡ s) × (r.1.events ≡ []) × (r.1.payload ≡ []) × (r.2 ≡ [])
unfolding execute_tx
refused_keeps w s i [] h = (refl, refl, refl, refl)
refused_keeps w s i (b ∷ rest) h = ground (
  arith,
  deposit-keeps s i (b ∷ rest),
  withdraw-keeps s i (b ∷ rest),
  limit_order-keeps s i (b ∷ rest),
  oracle-keeps w s i (b ∷ rest),
)

-- What the open orders of an account hold of a denomination.
abbrev pub locked : List Order → Bytes → Bytes → ℕ
locked [] a d = 0
locked (o ∷ os) a d =
    (if bytes_eq (addr_hex o.owner) a && bytes_eq (pair_base o.pair) d then o.amount else 0)
    + locked os a d

locked-append :
    (os : List Order) (o : Order) (a d : Bytes)
    → locked (os ++ (o ∷ [])) a d ≡ locked os a d + locked (o ∷ []) a d
locked-append [] o a d = omega arith
locked-append (x ∷ os) o a d = omega (arith, locked-append os o a d)

-- A limit order creates and destroys nothing: for every account and denomination, what is free and
-- what its open orders hold add up to the same as before, whether the order is taken or refused.
pub limit_order_conserves :
    (s : State) (i : ℕ) (tx : Tx) (a d : Bytes)
    → let s' = (execute_limit_order s i tx).0 in
      balance s' a d + locked (elements s'.orders) a d
      ≡ balance s a d + locked (elements s.orders) a d
unfolding execute_limit_order
limit_order_conserves s i tx a d =
    let addr = addr_hex (address_in tx) in
    let base = pair_base (drop 37 tx) in
    let free = set_balance addr base (balance s addr base - number_at 21 tx) s in
    let order : Order = record {
      owner = address_in tx;
      pair = drop 37 tx;
      amount = number_at 21 tx;
      price = number_at 29 tx;
    } in
    ground (
      arith,
      locked-append (elements s.orders) order a d,
      balance-orders free (some (elements s.orders ++ (order ∷ []))) a d,
      balance-set_balance addr base a d (balance s addr base - number_at 21 tx) s,
      bytes_eq_iff addr a,
      bytes_eq_iff base d,
    )

-- The fields of a transaction, as the builders lay them out.
fields :
    (b n : ℕ) (addr rest : Bytes)
    → length addr ≡ 20
    → (address_in (b ∷ (addr ++ (put_uint64 n ++ rest))) ≡ addr)
      × (number_at 21 (b ∷ (addr ++ (put_uint64 n ++ rest))) ≡ n % 2 ^ 64)
      × (drop 29 (b ∷ (addr ++ (put_uint64 n ++ rest))) ≡ rest)
      × (length (b ∷ (addr ++ (put_uint64 n ++ rest))) ≡ 29 + length rest)
fields b n addr rest h = (
  take-append 20 addr (put_uint64 n ++ rest) h,
  rw
      (
        drop-append 20 0 addr (put_uint64 n ++ rest) (omega arith),
        take-append 8 (put_uint64 n) rest (length-put_uint64 n),
      )
      (uint64-put_uint64_alone n),
  rw (
    drop-append 28 8 addr (put_uint64 n ++ rest) (omega arith),
    drop-append 8 0 (put_uint64 n) rest (omega (arith, length-put_uint64 n)),
  ),
  omega (
    arith,
    length-append addr (put_uint64 n ++ rest),
    length-append (put_uint64 n) rest,
    length-put_uint64 n,
  ),
)

price_field :
    (addr text : Bytes) (amount price : ℕ)
    → length addr ≡ 20
    → (number_at 29 (limit_order_tx addr amount price text) ≡ price % 2 ^ 64)
      × (drop 37 (limit_order_tx addr amount price text) ≡ text)
unfolding limit_order_tx
price_field addr text amount price h = (
  rw
      (
        (fields tx_limit_order amount addr (put_uint64 price ++ text) h).2,
        take-append 8 (put_uint64 price) text (length-put_uint64 price),
      )
      (uint64-put_uint64_alone price),
  rw
      (
        drop-append 36 16 addr (put_uint64 amount ++ (put_uint64 price ++ text)) (omega (arith, h)),
        drop-append 16 8 (put_uint64 amount) (put_uint64 price ++ text)
            (omega (arith, length-put_uint64 amount)),
        drop-append 8 0 (put_uint64 price) text (omega (arith, length-put_uint64 price)),
      )
      refl,
)

-- Where the orders stand after a limit order that was read as these fields.
placed :
    (s : State) (i : ℕ) (tx : Tx) (addr text : Bytes) (amount price : ℕ)
    → length tx ≡ 37 + length text
    → address_in tx ≡ addr
    → number_at 21 tx ≡ amount
    → number_at 29 tx ≡ price
    → drop 37 tx ≡ text
    → 0 < amount
    → 0 < price
    → 0 < length text
    → (execute_limit_order s i tx).0.orders ≡ (
        if ltb (balance s (addr_hex addr) (pair_base text)) amount
        then s.orders
        else some (
            elements s.orders
            ++ (record { owner = addr; pair = text; amount = amount; price = price } ∷ [])))
unfolding execute_limit_order set_balance
placed s i tx addr text amount price l a n p t pa pp lt =
    rw (← a, ← n, ← p, ← t) (ground (arith, l, n, p, t, pa, pp, lt))

-- What the builders make asks for exactly what they were given, where the address has twenty bytes,
-- the numbers are positive and fit in 64 bits, and the text is not empty: a deposit and a withdrawal
-- of the amount, and a limit order that locks the amount of the pair's base and, where the account
-- has it, adds to the open orders one of this owner, pair, amount and price.
pub builders :
    (w : World) (s : State) (i : ℕ) (addr text : Bytes) (amount price : ℕ)
    → length addr ≡ 20
    → 0 < amount
    → amount < 2 ^ 64
    → 0 < price
    → price < 2 ^ 64
    → 0 < length text
    → (change (deposit_tx addr amount text) ≡ credit (addr_hex addr) text amount)
      × (change (withdraw_tx addr amount text) ≡ debit (addr_hex addr) text amount)
      × (change (limit_order_tx addr amount price text)
          ≡ debit (addr_hex addr) (pair_base text) amount)
      × ((execute_tx w s i (limit_order_tx addr amount price text)).0.orders ≡ (
          if ltb (balance s (addr_hex addr) (pair_base text)) amount
          then s.orders
          else some (
              elements s.orders
              ++ (record { owner = addr; pair = text; amount = amount; price = price } ∷ []))))
unfolding deposit_tx withdraw_tx limit_order_tx execute_tx
builders w s i addr text amount price la pa sa pp sp lt = (
  ground (arith, fields 1 amount addr text la),
  ground (arith, fields 2 amount addr text la),
  ground (
    arith,
    fields 3 amount addr (put_uint64 price ++ text) la,
    length-append (put_uint64 price) text,
    length-put_uint64 price,
    price_field addr text amount price la,
  ),
  let tx = limit_order_tx addr amount price text in
      let read = fields 3 amount addr (put_uint64 price ++ text) la in
      let (at_29, at_37) = price_field addr text amount price la in
      placed s i tx addr text amount price
        (omega (arith, read.3, length-append (put_uint64 price) text, length-put_uint64 price))
        read.0 (omega (arith, read.1)) (omega (arith, at_29)) at_37 pa pp lt,
)
