-- ===== src/Example/Dex/State.antt =====
-- The state of the exchange, and what it uses of encoding/json and crypto/sha256.
use bapi.Go.Order.{bytes_eq_iff, bytes_eq}
use bapi.Go.Dict.{lookup-insert, dict_laws, lookup, or_zero, insert, Dict}
use bapi.Types.{ValidatorAddress, AppHash}
use bapi.Base.{arith, ◌&&◌, none, if◌then◌else◌, List, ◌≡◌, some, [], Option, ℕ}
use bapi.Go.Text.{Bytes}

pub record OraclePrice : Type 0 where
  pub pair : Bytes
  pub price : ℕ

pub record Order : Type 0 where
  pub owner : ValidatorAddress
  pub pair : Bytes
  pub amount : ℕ
  pub price : ℕ

-- `none` is the nil slice, which JSON tells from an empty one. Balances go from the address in
-- hexadecimal to the denomination to the amount.
pub record State : Type 0 where
  pub height : ℕ
  pub balances : Dict (Dict ℕ)
  pub orders : Option (List Order)
  pub prices : Dict ℕ

unfoldable pub new_state : State
new_state = record { height = 0; balances = []; orders = none; prices = [] }

abbrev pub elements : {A : Type 0} → Option (List A) → List A
elements none = []
elements (some xs) = xs

-- A deep copy. Maps are values here, and the copy of a nil slice is an empty one.
unfoldable pub clone : State → State
clone s = record s { orders = some (elements s.orders) }

-- The result of `json.Unmarshal`: a value, or an error with its text.
pub data Decoded (A : Type 0) : Type 0 where
  decoded : A → Decoded A
  malformed : Bytes → Decoded A

-- The standard library's functions that this development does not define. `json.Marshal` returns no
-- error on these types. `order` is the order in which `range` visits the entries of a map.
pub record World : Type 1 where
  pub sha256 : Bytes → Bytes
  pub marshal_state : State → Bytes
  pub unmarshal_state : Bytes → Decoded State
  pub marshal_orders : Option (List Order) → Bytes
  pub marshal_prices : List OraclePrice → Bytes
  pub unmarshal_prices : Bytes → Decoded (List OraclePrice)
  pub order : {V : Type 0} → Dict V → Dict V

-- `state.appHash`
unfoldable pub app_hash : World → State → AppHash
app_hash w s = w.sha256 (w.marshal_state s)

abbrev pub or_empty : {V : Type 0} → Option (Dict V) → Dict V
or_empty none = []
or_empty (some d) = d

-- `s.Balances[addr][denom]`
unfoldable pub balance : State → Bytes → Bytes → ℕ
balance s addr denom = or_zero (lookup denom (or_empty (lookup addr s.balances)))

-- `s.Balances[addr][denom] = v`, with a map made for `addr` where there is none.
unfoldable pub set_balance : Bytes → Bytes → ℕ → State → State
set_balance addr denom v s = record s {
  balances = insert addr (insert denom v (or_empty (lookup addr s.balances))) s.balances;
}

pub balance-set_balance :
    (addr denom a d : Bytes) (v : ℕ) (s : State)
    → balance (set_balance addr denom v s) a d
      ≡ (if bytes_eq addr a && bytes_eq denom d then v else balance s a d)
unfolding balance set_balance
balance-set_balance addr denom a d v s = simp dict_laws (
    ground (
      arith,
      bytes_eq_iff addr a,
      bytes_eq_iff denom d,
      lookup-insert denom d v (or_empty (lookup addr s.balances)),
    ))
