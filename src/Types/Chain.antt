-- ===== src/Types/Chain.antt =====
-- block.go, handshake.go, mempool.go, query.go, mempool_observer.go.
use bapi.Base.{ℕ, Bool, List, Option, ◌==◌}
use bapi.Base.Int.{ℤ}
use bapi.Go.Text.{Bytes}
use bapi.Types.Core.{
  Hash, AppHash, Tx, QueryPath, BlockId, Timestamp, Event, ValidatorAddress, ValidatorUpdate,
  Evidence, ConsensusParams, GenesisDoc,
}

pub record TxOutcome : Type 0 where
  pub index : ℕ
  pub code : ℕ
  pub info : Bytes
  pub payload : Bytes  -- the field Data
  pub events : List Event

-- `TxOutcome.OK`
abbrev pub is_ok : TxOutcome → Bool
is_ok t = t.code == 0

pub record BlockOutcome : Type 0 where
  pub tx_outcomes : List TxOutcome
  pub block_events : List Event
  pub app_hash : AppHash
  pub validator_updates : List ValidatorUpdate
  pub params_update : Option ConsensusParams

pub record CommittedVoteExtension : Type 0 where
  pub validator : ValidatorAddress
  pub extension : Bytes

pub record FinalizedBlock : Type 0 where
  pub height : ℕ
  pub time : Timestamp
  pub proposer : ValidatorAddress
  pub txs : List Tx
  pub last_block_hash : Hash
  pub evidence : List Evidence
  pub vote_extensions : List CommittedVoteExtension

pub record CommitResult : Type 0 where
  pub retain_height : ℕ

pub record HandshakeRequest : Type 0 where
  pub last_committed : Option BlockId
  pub genesis : Option GenesisDoc

-- `capabilities` is the uint8 bit field of capability.go.
pub record HandshakeResponse : Type 0 where
  pub last_block : Option BlockId
  pub app_hash : Option AppHash
  pub capabilities : ℕ

pub data MempoolContext : Type 0 where
  unset_context first_seen revalidation : MempoolContext

pub record GateVerdict : Type 0 where
  pub code : ℕ
  pub info : Bytes
  pub priority : ℤ
  pub sender : Bytes

-- `GateVerdict.Accepted`
abbrev pub is_accepted : GateVerdict → Bool
is_accepted v = v.code == 0

pub record StateQuery : Type 0 where
  pub path : QueryPath
  pub query_data : Bytes
  pub height : Option ℕ
  pub prove : Bool

pub record ProofOp : Type 0 where
  pub op_type : Bytes
  pub key : Bytes
  pub op_data : Bytes

pub record MerkleProof : Type 0 where
  pub ops : List ProofOp

pub record StateQueryResult : Type 0 where
  pub code : ℕ
  pub key : Bytes
  pub value : Bytes
  pub height : ℕ
  pub proof : Option MerkleProof
  pub info : Bytes

pub record BatchCertifiedEvent : Type 0 where
  pub validator : ValidatorAddress
  pub batch_hash : Hash
  pub round : ℕ
  pub tx_count : ℕ
  pub byte_count : ℕ

pub record BlockConstructedEvent : Type 0 where
  pub leader : ValidatorAddress
  pub height : ℕ
  pub included_batch_hashes : List Hash
