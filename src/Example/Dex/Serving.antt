-- ===== src/Example/Dex/Serving.antt =====
-- The exchange behind a server: what holds of its state between calls.
use bapi.Go.Run.{returned}
use bapi.Types.Capability.{has}
use bapi.Testing.Live.{Serving}
use bapi.Server.{discover_capabilities}
use bapi.Example.Dex.Chain
use bapi.Example.Dex.App.{dex_app}
use bapi.Example.Dex.Chain.{Dex}
use bapi.Types.{
  BlockOutcome, FinalizedBlock, CommitResult, HandshakeResponse, GenesisDoc, BlockId, Tx,
}
use bapi.Go.Dict.{insert-Sorted, insert, Sorted, Dict}
use bapi.Base.{
  sym, subst, refl, none, Option, some, false, true, drop, length, if◌then◌else◌, ◌==◌, ltb, Bool,
  inr, ◌+◌, inl, ◌^◌, arith, ◌≡◌, ◌%◌, [], Bool-cases, ◌∷◌, ℕ, List,
}
use bapi.Example.Dex.Execute.{
  tx_oracle_update, tx_limit_order, tx_withdraw, tx_deposit, Executed, drop_balance, take_out,
  execute_limit_order, execute_withdraw, execute_deposit,
}
use bapi.Example.Dex.Transactions.{
  updated_prices, is_void, execute_txs, execute_tx, execute_oracle_update, apply_prices,
}
use bapi.Example.Dex.State.{
  clone, Decoded, malformed, decoded, set_balance, State, OraclePrice, World,
}

apply_prices-Sorted : (ps : List OraclePrice) (m : Dict ℕ) → Sorted m → Sorted (apply_prices ps m).0
unfolding apply_prices
apply_prices-Sorted [] m s = s
apply_prices-Sorted (p ∷ ps) m s = elim (Bool-cases (is_void p)) [
  | inl e ↦ rw e (apply_prices-Sorted ps m s)
  | inr e ↦
      rw e (apply_prices-Sorted ps (insert p.pair p.price m) (insert-Sorted p.pair p.price m s))
]

-- Only an oracle update changes the prices.
keeps_prices :
    (s : State) (i : ℕ) (tx : Tx)
    → ((execute_deposit s i tx).0.prices ≡ s.prices)
      × ((execute_withdraw s i tx).0.prices ≡ s.prices)
      × ((execute_limit_order s i tx).0.prices ≡ s.prices)
unfolding execute_deposit execute_withdraw execute_limit_order set_balance take_out drop_balance
keeps_prices s i tx = (ground arith, ground arith, ground arith)

if-P : {A : Type 0} (P : A → Type 0) (c : Bool) (x y : A) → P x → P y → P (if c then x else y)
if-P P true x y p q = p
if-P P false x y p q = q

-- What a transaction leaves has its prices in order.
abbrev Ordered : Executed → Type 0
Ordered e = Sorted e.0.prices

updated_prices-Sorted :
    (s : State) (i : ℕ) (d : Decoded (List OraclePrice))
    → Sorted s.prices
    → Ordered (updated_prices s i d)
unfolding updated_prices
updated_prices-Sorted s i (malformed e) h = h
updated_prices-Sorted s i (decoded ps) h = apply_prices-Sorted ps s.prices h

module _ (w : World) where
  updated-Sorted :
      (s : State) (i : ℕ) (tx : Tx) → Sorted s.prices → Ordered (execute_oracle_update w s i tx)
  unfolding execute_oracle_update
  updated-Sorted s i tx h =
      if-P Ordered (ltb (length tx) 2) _ _ h
        (updated_prices-Sorted s i (w.unmarshal_prices (drop 1 tx)) h)

  execute_tx-Sorted :
      (s : State) (i : ℕ) (tx : Tx) → Sorted s.prices → Ordered (execute_tx w s i tx)
  unfolding execute_tx
  execute_tx-Sorted s i [] h = h
  execute_tx-Sorted s i (b ∷ rest) h =
      let (d, e, o) = keeps_prices s i (b ∷ rest) in
      if-P Ordered (b == tx_deposit) _ _ (rw d h) (
        if-P Ordered (b == tx_withdraw) _ _ (rw e h) (
          if-P Ordered (b == tx_limit_order) _ _ (rw o h)
            (if-P Ordered (b == tx_oracle_update) _ _ (updated-Sorted s i (b ∷ rest) h) h)))

  execute_txs-Sorted :
      (s : State) (i : ℕ) (txs : List Tx)
      → Sorted s.prices
      → Sorted (execute_txs w s i txs).0.prices
  unfolding execute_txs
  execute_txs-Sorted s i [] h = h
  execute_txs-Sorted s i (tx ∷ txs) h =
      execute_txs-Sorted (execute_tx w s (i % 2 ^ 32) tx).0 (i + 1) txs
        (execute_tx-Sorted s (i % 2 ^ 32) tx h)

-- Between blocks there is a state, and before a commit the one that the block has left.
abbrev pub Kept : Dex → Type 0
Kept d = (s : State) × (d.current ≡ some s) × Sorted s.prices

abbrev pub Staged : Dex → Type 0
Staged d = (s : State) × (d.staged ≡ some s) × Sorted s.prices

module _ (w : World) where
  shakes_from :
      (last : Option BlockId) (g : Option GenesisDoc) (current staged : Option State) (s : State)
      → current ≡ some s
      → (r : HandshakeResponse) × (Chain.handshake w
            (record { last_committed = last; genesis = g })
            (record { current = current; staged = staged })
          ≡ returned (r, none) (record { current = current; staged = staged }))
        × (discover_capabilities (dex_app w) r.capabilities ≡ none)
  unfolding Chain.handshake dex_app discover_capabilities has
  shakes_from last g none staged s e = cc
  shakes_from none g (some s') staged s e = (_, refl, refl)
  shakes_from (some b) g (some s') staged s e = (_, refl, refl)

  left_by : FinalizedBlock → State → State
  unfolding clone
  left_by b s = (execute_txs w (record (clone s) { height = b.height }) 0 b.txs).0

  left_by-Sorted : (b : FinalizedBlock) (s : State) → Sorted s.prices → Sorted (left_by b s).prices
  unfolding left_by clone
  left_by-Sorted b s h = execute_txs-Sorted w (record (clone s) { height = b.height }) 0 b.txs h

  executes_from :
      (b : FinalizedBlock) (current staged : Option State) (s : State)
      → current ≡ some s
      → (o : BlockOutcome) × (Chain.execute_block w b
            (record { current = current; staged = staged })
          ≡ returned (o, none) (record { current = current; staged = some (left_by b s) }))
  unfolding Chain.execute_block left_by
  executes_from b current staged s e =
      subst
        (λ c.
          (o : BlockOutcome) × (Chain.execute_block w b (record { current = c; staged = staged })
            ≡ returned (o, none) (record { current = c; staged = some (left_by b s) })))
        (sym e) (_, refl)

  commits_from :
      (current staged : Option State) (s : State)
      → staged ≡ some s
      → (r : CommitResult) × (Chain.commit w (record { current = current; staged = staged })
          ≡ returned (r, none) (record { current = some s; staged = none }))
  unfolding Chain.commit
  commits_from current none s e = cc
  commits_from current (some s') s e = rw e (_, refl)

  -- The exchange answers the handshake, and each block and each commit in its turn.
  pub dex-Serving : Serving (dex_app w) Kept Staged
  unfolding dex_app
  dex-Serving = record {
    shakes = λ req d k.
        let (r, e, c) = shakes_from req.last_committed req.genesis d.current d.staged k.0 k.1 in
        (r, d, e, c, k);
    executes = λ b d k.
        let (o, e) = executes_from b d.current d.staged k.0 k.1 in
        (o, _, e, (_, refl, left_by-Sorted b k.0 k.2));
    commits =
        λ d k. let (r, e) = commits_from d.current d.staged k.0 k.1 in (r, _, e, (k.0, refl, k.2));
  }
