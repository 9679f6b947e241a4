-- ===== src/Example/Counter.antt =====
-- example/counter/app.go: an application that adds up increments of eight bytes.
-- SHA-256 is a parameter. The mutex makes single methods atomic; a method is one action here.
use bapi.Base.Int.{pos}
use bapi.Interfaces.{App}
use bapi.Go.Run.{returned, pure, Fallible, Action}
use bapi.Go.Text.{decimal, text, Bytes}
pub mod Laws
pub mod Session
use bapi.Base.{
  ◌++◌, ◌^◌, ◌==◌, true, ◌+◌, ◌%◌, none, length, ◌∷◌, some, if◌then◌else◌, [], String, Option, List,
  ℕ,
}
use bapi.Types.{
  zero_hash, StateQueryResult, CommitResult, BlockOutcome, HandshakeResponse, StateQuery,
  MempoolContext, HandshakeRequest, GateVerdict, FinalizedBlock, EventAttribute, BlockId, TxOutcome,
  AppHash, Tx,
}
use bapi.Go.BigEndian.{put_uint64, uint64}

pub record Staged : Type 0 where
  pub count : ℕ
  pub app_hash : AppHash
  pub height : ℕ

-- The committed state, and what ExecuteBlock leaves for Commit.
pub record Counter : Type 0 where
  pub count : ℕ
  pub app_hash : AppHash
  pub height : ℕ
  pub staged : Staged

-- `Count`: the committed value.
unfoldable pub committed_count : Counter → ℕ
committed_count app = app.count

-- `none` is the nil error.
unfoldable pub validate_tx : Tx → Option Bytes
validate_tx tx =
    if length tx == 8 then none else some (text "tx must be 8 bytes, got " ++ decimal (length tx))

-- `IncrementTx`
unfoldable pub increment_tx : ℕ → Tx
increment_tx n = put_uint64 n

abbrev attribute : String → Bytes → EventAttribute
attribute key value = record { key = text key; value = value; index = true }

-- One round of the loop of `ExecuteBlock`: the new count and the outcome.
counted : ℕ → ℕ → Tx → Option Bytes → ℕ × TxOutcome
counted i count tx (some e) =
    (count, record { index = i % 2 ^ 32; code = 1; info = e; payload = []; events = [] })
counted i count tx none =
    let inc = uint64 tx in
    let total = (count + inc) % 2 ^ 64 in
    (
      total,
      record {
        index = i % 2 ^ 32;
        code = 0;
        info = [];
        payload = put_uint64 total;
        events =
            record {
              kind = text "increment";
              attributes = attribute "by" (decimal inc) ∷ attribute "total" (decimal total) ∷ [];
            }
            ∷ [];
      },
    )

unfoldable pub count_tx : ℕ → ℕ → Tx → ℕ × TxOutcome
unfolding counted validate_tx
count_tx i count tx = counted i count tx (validate_tx tx)

unfoldable pub count_txs : ℕ → ℕ → List Tx → ℕ × List TxOutcome
unfolding count_tx
count_txs i count [] = (count, [])
count_txs i count (tx ∷ txs) =
    let r = count_tx i count tx in let rest = count_txs (i + 1) r.0 txs in (rest.0, r.1 ∷ rest.1)

module _ (sha256 : Bytes → Bytes) where
  unfoldable pub compute_hash : ℕ → AppHash
  compute_hash count = sha256 (put_uint64 count)

  unfoldable pub new_counter : Counter
  unfolding compute_hash
  new_counter = record {
    count = 0;
    app_hash = compute_hash 0;
    height = 0;
    staged = record { count = 0; app_hash = zero_hash; height = 0 };
  }

  shake : Option BlockId → Counter → HandshakeResponse
  unfolding compute_hash
  shake none app = record { last_block = none; app_hash = some (compute_hash 0); capabilities = 0 }
  shake (some b) app = record {
    last_block = some (record { height = app.height; hash = zero_hash });
    app_hash = some app.app_hash;
    capabilities = 0;
  }

  unfoldable pub handshake : HandshakeRequest → Action Counter (Fallible HandshakeResponse)
  unfolding shake
  handshake req app = returned (shake req.last_committed app, none) app

  gate : Option Bytes → GateVerdict
  gate (some e) = record { code = 1; info = e; priority = pos 0; sender = [] }
  gate none = record { code = 0; info = []; priority = pos 0; sender = [] }

  unfoldable pub check_tx : Tx → MempoolContext → Action Counter (Fallible GateVerdict)
  unfolding gate validate_tx
  check_tx tx mctx = pure (gate (validate_tx tx), none)

  unfoldable pub execute_block : FinalizedBlock → Action Counter (Fallible BlockOutcome)
  unfolding compute_hash count_txs
  execute_block block app =
      let r = count_txs 0 app.count block.txs in
      let hash = compute_hash r.0 in
      returned
        (
          record {
            tx_outcomes = r.1;
            block_events = [];
            app_hash = hash;
            validator_updates = [];
            params_update = none;
          },
          none,
        )
        (record app { staged = record { count = r.0; app_hash = hash; height = block.height } })

  unfoldable pub commit : Action Counter (Fallible CommitResult)
  commit app =
      returned (record { retain_height = 0 }, none)
        (record app {
          count = app.staged.count;
          app_hash = app.staged.app_hash;
          height = app.staged.height;
        })

  unfoldable pub query : StateQuery → Action Counter (Fallible StateQueryResult)
  query req app =
      returned
        (
          record {
            code = 0;
            key = text "count";
            value = put_uint64 app.count;
            height = app.height;
            proof = none;
            info = [];
          },
          none,
        )
        app

  -- The application as the engine sees it: no optional interface.
  unfoldable pub counter_app : App Counter
  unfolding handshake check_tx execute_block commit query
  counter_app = record {
    lifecycle = record {
      handshake = handshake;
      check_tx = check_tx;
      execute_block = execute_block;
      commit = commit;
      query = query;
    };
    proposal_control = none;
    vote_extender = none;
    state_sync = none;
    simulator = none;
    mempool_observer = none;
  }
