-- ===== src/Example/Dex/Transactions.antt =====
-- Oracle updates, the dispatch on the prefix byte, and the loop of ExecuteBlock.
use bapi.Example.Dex.Execute.{
  tx_oracle_update, attribute, execute_limit_order, tx_limit_order, execute_withdraw, tx_withdraw,
  execute_deposit, tx_deposit, refused, Executed,
}
use bapi.Types.{TxOutcome, Tx, Event}
use bapi.Go.Dict.{insert, Dict}
use bapi.Example.Dex.State.{decoded, malformed, Decoded, World, State, OraclePrice}
use bapi.Base.{
  true, ◌+◌, drop, [], ◌||◌, ◌^◌, ltb, ◌==◌, ◌%◌, if◌then◌else◌, ◌∷◌, ◌++◌, length, Bool, List, ℕ,
}
use bapi.Go.Text.{decimal, hex_byte, text, Bytes}

-- The entries that an oracle update skips.
abbrev pub is_void : OraclePrice → Bool
is_void p = length p.pair == 0 || p.price == 0

unfoldable pub price_event : OraclePrice → Event
price_event p = record {
  kind = text "oracle_update";
  attributes = attribute "pair" p.pair true ∷ attribute "price" (decimal p.price) true ∷ [];
}

unfoldable pub apply_prices : List OraclePrice → Dict ℕ → Dict ℕ × List Event
unfolding price_event
apply_prices [] m = (m, [])
apply_prices (p ∷ ps) m =
    let r = apply_prices ps (if is_void p then m else insert p.pair p.price m) in
    (r.0, if is_void p then r.1 else price_event p ∷ r.1)

unfoldable pub updated_prices : State → ℕ → Decoded (List OraclePrice) → Executed
updated_prices s index (malformed e) = refused s index 1 (text "invalid oracle JSON: " ++ e)
updated_prices s index (decoded ps) =
    let r = apply_prices ps s.prices in
    (
      record s { prices = r.0 },
      record { index = index; code = 0; info = []; payload = []; events = r.1 },
      r.1,
    )

-- `fmt.Sprintf("unknown tx type 0x%02x", tx[0])`
abbrev pub unknown_type : ℕ → Bytes
unknown_type b = text "unknown tx type 0x" ++ hex_byte b

module _ (w : World) where
  unfoldable pub execute_oracle_update : State → ℕ → Tx → Executed
  unfolding updated_prices apply_prices
  execute_oracle_update s index tx =
      if ltb (length tx) 2
      then refused s index 1 (text "oracle_update tx too short")
      else updated_prices s index (w.unmarshal_prices (drop 1 tx))

  unfoldable pub execute_tx : State → ℕ → Tx → Executed
  execute_tx s index [] = refused s index 1 (text "empty tx")
  execute_tx s index (b ∷ rest) =
      if b == tx_deposit
      then execute_deposit s index (b ∷ rest)
      else if b == tx_withdraw
      then execute_withdraw s index (b ∷ rest)
      else if b == tx_limit_order
      then execute_limit_order s index (b ∷ rest)
      else if b == tx_oracle_update
      then execute_oracle_update s index (b ∷ rest)
      else refused s index 1 (unknown_type b)

  -- The loop of `ExecuteBlock`, from position `i`: the state, the outcomes and the block's events.
  unfoldable pub execute_txs : State → ℕ → List Tx → State × List TxOutcome × List Event
  execute_txs s i [] = (s, [], [])
  execute_txs s i (tx ∷ txs) =
      let (s', outcome, events) = execute_tx s (i % 2 ^ 32) tx in
      let (s'', outcomes, more) = execute_txs s' (i + 1) txs in
      (s'', outcome ∷ outcomes, events ++ more)
