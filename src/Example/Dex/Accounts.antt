-- ===== src/Example/Dex/Accounts.antt =====
-- An account belongs to one address.
use bapi.Example.Dex.Transactions.{execute_tx, execute_oracle_update, execute_txs}
use bapi.Example.Dex.Blocks.{execute_txs-ledger, entered_all}
use bapi.Example.Dex.Execute.{
  number_at, drop_balance, take_out, execute_withdraw, execute_limit_order, execute_deposit,
  addr_hex, address_in,
}
use bapi.Example.Dex.State.{set_balance, elements, Order, balance, State, World}
use bapi.Types.{Tx}
use bapi.Example.Dex.Ledger.{entered, change, Ledger}
use bapi.Go.Order.{eq_of_bytes_eq, bytes_eq}
use bapi.Go.Text.{hex_digit, hex_byte, hex, Bytes}
use bapi.Base.{
  ◌+◌, drop, ◌^◌, ◌++◌, if◌then◌else◌, inr, inl, Bool-cases, ◌∙◌, ◌≢◌, false, List, arith, ap, ◌∷◌,
  ◌%◌, ◌≡◌, ◌/◌, ◌<◌, All, ℕ, [], refl,
}

abbrev pub Octets : Bytes → Type 0
Octets b = All (λ x. x < 256) b

digits-differ :
    (x y : ℕ)
    → x < 256
    → y < 256
    → hex_digit (x / 16 % 16) ≡ hex_digit (y / 16 % 16)
    → hex_digit (x % 16) ≡ hex_digit (y % 16)
    → x ≡ y
digits-differ x y h k p q = ground arith

bytes_eq-hex : (a b : Bytes) → Octets a → Octets b → bytes_eq (hex a) (hex b) ≡ bytes_eq a b
unfolding hex hex_byte bytes_eq
bytes_eq-hex [] [] h k = refl
bytes_eq-hex [] (y ∷ b) h k = refl
bytes_eq-hex (x ∷ a) [] h k = refl
bytes_eq-hex (x ∷ a) (y ∷ b) h k =
    let same : x ≡ y → hex_digit (x / 16 % 16) ≡ hex_digit (y / 16 % 16) =
      ap (λ z. hex_digit (z / 16 % 16)) in
    let same' : x ≡ y → hex_digit (x % 16) ≡ hex_digit (y % 16) = ap (λ z. hex_digit (z % 16)) in
    ground (arith, digits-differ x y h.0 k.0, same, same', bytes_eq-hex a b h.1 k.1)

bytes_eq-differ : (a b : Bytes) → a ≢ b → bytes_eq a b ≡ false
bytes_eq-differ a b n = elim (Bool-cases (bytes_eq a b)) [
  | inl e ↦ absurd (n (eq_of_bytes_eq a b e))
  | inr e ↦ e
]

addr_hex-differ :
    (a b : Bytes) → Octets a → Octets b → a ≢ b → bytes_eq (addr_hex a) (addr_hex b) ≡ false
unfolding addr_hex
addr_hex-differ a b h k n = bytes_eq-hex a b h k ∙ bytes_eq-differ a b n

entered-other :
    (tx : Tx) (l : Ledger) (a d : Bytes)
    → bytes_eq (addr_hex (address_in tx)) a ≡ false
    → entered (change tx) l a d ≡ l a d
entered-other [] l a d e = refl
entered-other (b ∷ rest) l a d e = ground (arith, e)

-- A transaction of another address.
abbrev pub Foreign : Bytes → Tx → Type 0
Foreign owner tx = Octets (address_in tx) × (address_in tx ≢ owner)

entered_all-others :
    (txs : List Tx) (l : Ledger) (owner d : Bytes)
    → Octets owner
    → All (Foreign owner) txs
    → entered_all txs l (addr_hex owner) d ≡ l (addr_hex owner) d
entered_all-others [] l owner d o f = refl
entered_all-others (tx ∷ txs) l owner d o f =
    entered_all-others txs (entered (change tx) l) owner d o f.1
    ∙ entered-other tx l (addr_hex owner) d (addr_hex-differ (address_in tx) owner f.0.0 o f.0.1)

-- The open orders of an address, in order.
abbrev pub orders_of : Bytes → List Order → List Order
orders_of owner [] = []
orders_of owner (o ∷ os) =
    let rest = orders_of owner os in if bytes_eq o.owner owner then o ∷ rest else rest

orders_of-append :
    (owner : Bytes) (os : List Order) (o : Order)
    → bytes_eq o.owner owner ≡ false
    → orders_of owner (os ++ (o ∷ [])) ≡ orders_of owner os
orders_of-append owner [] o h = rw h refl
orders_of-append owner (x ∷ os) o h =
    ap (λ (rest : List Order). if bytes_eq x.owner owner then x ∷ rest else rest)
      (orders_of-append owner os o h)

orders_of-limit_order :
    (s : State) (i : ℕ) (tx : Tx) (owner : Bytes)
    → bytes_eq (address_in tx) owner ≡ false
    → orders_of owner (elements (execute_limit_order s i tx).0.orders)
      ≡ orders_of owner (elements s.orders)
unfolding execute_limit_order set_balance
orders_of-limit_order s i tx owner h =
    let order : Order = record {
      owner = address_in tx;
      pair = drop 37 tx;
      amount = number_at 21 tx;
      price = number_at 29 tx;
    } in
    ground (arith, orders_of-append owner (elements s.orders) order h)

orders-execute_deposit :
    (s : State) (i : ℕ) (tx : Tx) → (execute_deposit s i tx).0.orders ≡ s.orders
unfolding execute_deposit set_balance
orders-execute_deposit s i tx = ground arith

orders-execute_withdraw :
    (s : State) (i : ℕ) (tx : Tx) → (execute_withdraw s i tx).0.orders ≡ s.orders
unfolding execute_withdraw take_out drop_balance set_balance
orders-execute_withdraw s i tx = ground arith

orders-execute_oracle_update :
    (w : World) (s : State) (i : ℕ) (tx : Tx) → (execute_oracle_update w s i tx).0.orders ≡ s.orders
unfolding execute_oracle_update
orders-execute_oracle_update w s i tx = ground arith

orders_of-execute_tx :
    (w : World) (s : State) (i : ℕ) (tx : Tx) (owner : Bytes)
    → bytes_eq (address_in tx) owner ≡ false
    → orders_of owner (elements (execute_tx w s i tx).0.orders)
      ≡ orders_of owner (elements s.orders)
unfolding execute_tx
orders_of-execute_tx w s i [] owner h = refl
orders_of-execute_tx w s i (b ∷ rest) owner h =
    let tx = b ∷ rest in
    let kept : (t : State)
        → t.orders ≡ s.orders
        → orders_of owner (elements t.orders) ≡ orders_of owner (elements s.orders) =
      λ t. ap (λ o. orders_of owner (elements o)) in
    ground (
      arith,
      kept (execute_deposit s i tx).0 (orders-execute_deposit s i tx),
      kept (execute_withdraw s i tx).0 (orders-execute_withdraw s i tx),
      kept (execute_oracle_update w s i tx).0 (orders-execute_oracle_update w s i tx),
      orders_of-limit_order s i tx owner h,
    )

orders_of-execute_txs :
    (w : World) (s : State) (i : ℕ) (txs : List Tx) (owner : Bytes)
    → All (Foreign owner) txs
    → orders_of owner (elements (execute_txs w s i txs).0.orders)
      ≡ orders_of owner (elements s.orders)
unfolding execute_txs
orders_of-execute_txs w s i [] owner f = refl
orders_of-execute_txs w s i (tx ∷ txs) owner f =
    orders_of-execute_txs w (execute_tx w s (i % 2 ^ 32) tx).0 (i + 1) txs owner f.1
    ∙ orders_of-execute_tx w s (i % 2 ^ 32) tx owner (bytes_eq-differ (address_in tx) owner f.0.1)

-- A block in which no transaction carries the owner's address leaves the owner's balances, in every
-- denomination, and the owner's open orders as they were, whatever the transactions and the state.
pub others_untouched :
    (w : World) (s : State) (i : ℕ) (txs : List Tx) (owner d : Bytes)
    → Octets owner
    → All (Foreign owner) txs
    → let s' = (execute_txs w s i txs).0 in
      (balance s' (addr_hex owner) d ≡ balance s (addr_hex owner) d)
      × (orders_of owner (elements s'.orders) ≡ orders_of owner (elements s.orders))
others_untouched w s i txs owner d o f = (
  ap (λ (l : Ledger). l (addr_hex owner) d) (execute_txs-ledger w s i txs).0
      ∙ entered_all-others txs (balance s) owner d o f,
  orders_of-execute_txs w s i txs owner f,
)
