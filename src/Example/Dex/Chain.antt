-- ===== src/Example/Dex/Chain.antt =====
-- The methods of `Lifecycle` and `Simulator`.
pub mod Staging
pub mod Gate
use bapi.Go.Dict.{lookup}
use bapi.Example.Dex.Transactions.{unknown_type, execute_txs, execute_tx}
use bapi.Go.Order.{bytes_eq}
use bapi.Example.Dex.Execute.{
  tx_oracle_update, tx_limit_order, address_in, tx_withdraw, addr_hex, tx_deposit, encode_uint64,
}
use bapi.Base.Int.{pos}
use bapi.Example.Dex.State.{balance, clone, app_hash, new_state, World, State}
use bapi.Types.{
  AppHash, BlockId, zero_hash, HandshakeResponse, BlockOutcome, TxOutcome, HandshakeRequest,
  FinalizedBlock, CommitResult, StateQuery, MempoolContext, Tx, StateQueryResult, GateVerdict,
}
use bapi.Base.{
  drop, take, ◌||◌, ◌==◌, ◌-◌, length, ◌∷◌, some, none, ltb, [], if◌then◌else◌, Option, ℕ,
}
use bapi.Go.Text.{text, Bytes}
use bapi.Go.Run.{returned, pure, panicked, Fallible, Action}

-- `none` is a nil pointer. The mutex makes each method one action.
pub record Dex : Type 0 where
  pub current : Option State
  pub staged : Option State

unfoldable pub new_dex : Dex
unfolding new_state
new_dex = record { current = some new_state; staged = none }

-- Go's panic on a nil pointer.
unfoldable pub nil_pointer : Bytes
nil_pointer = text "runtime error: invalid memory address or nil pointer dereference"

-- Reads through `app.current`.
abbrev pub with_current : {A : Type 0} → (State → Action Dex A) → Action Dex A
with_current f app = elim app.current [ none ↦ panicked nil_pointer app | some s ↦ f s app ]

-- CapProposalControl | CapVoteExtensions | CapStateSync | CapSimulation
abbrev pub dex_capabilities : ℕ
dex_capabilities = 15

verdict : ℕ → Bytes → ℕ → Bytes → GateVerdict
verdict code info priority sender = record {
  code = code;
  info = info;
  priority = pos priority;
  sender = sender;
}

-- The verdict of `CheckTx`.
unfoldable pub gate : Tx → GateVerdict
unfolding verdict
gate [] = verdict 1 (text "empty transaction") 0 []
gate (b ∷ rest) =
    if b == tx_deposit || b == tx_withdraw
    then (if ltb (length (b ∷ rest)) 30
        then verdict 1 (text "tx too short for deposit/withdraw") 0 []
        else verdict 0 [] 10 (addr_hex (address_in (b ∷ rest))))
    else if b == tx_limit_order
    then (if ltb (length (b ∷ rest)) 38
        then verdict 1 (text "tx too short for limit_order") 0 []
        else verdict 0 [] 5 (addr_hex (address_in (b ∷ rest))))
    else if b == tx_oracle_update
    then verdict 1 (text "oracle_update not accepted via mempool") 0 []
    else verdict 1 (unknown_type b) 0 []

answer : ℕ → Bytes → Bytes → ℕ → Bytes → StateQueryResult
answer code key value height info = record {
  code = code;
  key = key;
  value = value;
  height = height;
  proof = none;
  info = info;
}

price_answer : Bytes → ℕ → Option ℕ → StateQueryResult
unfolding answer
price_answer pair height none = answer 1 [] [] height (text "unknown pair")
price_answer pair height (some price) = answer 0 pair (encode_uint64 price) height []

abbrev retained : ℕ → ℕ
retained height = if ltb 100 height then height - 100 else 0

publish : Option State → Action Dex (Fallible CommitResult)
publish none app = panicked nil_pointer (record { current = none; staged = none })
publish (some s) app =
    returned (record { retain_height = retained s.height }, none)
      (record { current = some s; staged = none })

module _ (w : World) where
  response : Option BlockId → AppHash → HandshakeResponse
  response last hash = record {
    last_block = last;
    app_hash = some hash;
    capabilities = dex_capabilities;
  }

  -- The JSON of a nil `*state` is `null`.
  shake : Option BlockId → Option State → Action Dex (Fallible HandshakeResponse)
  unfolding app_hash response
  shake none none app = returned (response none (w.sha256 (text "null")), none) app
  shake none (some s) app = returned (response none (app_hash w s), none) app
  shake (some b) none app = panicked nil_pointer app
  shake (some b) (some s) app =
      returned
        (response (some (record { height = s.height; hash = zero_hash })) (app_hash w s), none) app

  unfoldable pub handshake : HandshakeRequest → Action Dex (Fallible HandshakeResponse)
  unfolding shake
  handshake req app = shake req.last_committed app.current app

  unfoldable pub check_tx : Tx → MempoolContext → Action Dex (Fallible GateVerdict)
  unfolding gate
  check_tx tx mctx = pure (gate tx, none)

  unfoldable pub execute_block : FinalizedBlock → Action Dex (Fallible BlockOutcome)
  unfolding app_hash clone
  execute_block block = with_current λ s app.
      let (s', outcomes, events) =
        execute_txs w (record (clone s) { height = block.height }) 0 block.txs in
      returned
        (
          record {
            tx_outcomes = outcomes;
            block_events = events;
            app_hash = app_hash w s';
            validator_updates = [];
            params_update = none;
          },
          none,
        )
        (record app { staged = some s' })

  unfoldable pub commit : Action Dex (Fallible CommitResult)
  unfolding publish
  commit app = publish app.staged app

  -- The length is checked before the state is read.
  answer_balance : Bytes → Action Dex (Fallible StateQueryResult)
  unfolding answer
  answer_balance d =
      if ltb (length d) 21
      then pure (answer 1 [] [] 0 (text "data must be [20]address + denom"), none)
      else with_current λ s. pure (
        answer 0 d (encode_uint64 (balance s (addr_hex (take 20 d)) (drop 20 d))) s.height [],
        none,
      )

  unfoldable pub query : StateQuery → Action Dex (Fallible StateQueryResult)
  unfolding answer_balance price_answer answer
  query req =
      if bytes_eq req.path (text "/balance")
      then answer_balance req.query_data
      else with_current λ s. pure (
        if bytes_eq req.path (text "/price")
            then price_answer req.query_data s.height (lookup req.query_data s.prices)
            else if bytes_eq req.path (text "/orders")
            then answer 0 [] (w.marshal_orders s.orders) s.height []
            else answer 1 [] [] s.height (text "unknown query path"),
        none,
      )

  unfoldable pub simulate : Tx → Action Dex (Fallible TxOutcome)
  unfolding clone
  simulate tx = with_current λ s. pure ((execute_tx w (clone s) 0 tx).1, none)
