-- ===== src/Types/Core.antt =====
-- types.go, time.go, event.go, validator.go, evidence.go, params.go, genesis.go.
use bapi.Base.{replicate, ℕ, Bool, List}
use bapi.Base.Int.{ℤ}
use bapi.Go.Text.{Bytes}

-- [32]byte
abbrev pub Hash : Type 0
Hash = Bytes

-- [32]byte
abbrev pub AppHash : Type 0
AppHash = Bytes

abbrev pub Tx : Type 0
Tx = Bytes

abbrev pub QueryPath : Type 0
QueryPath = Bytes

pub record BlockId : Type 0 where
  pub height : ℕ
  pub hash : Hash

pub record Timestamp : Type 0 where
  pub seconds : ℤ
  pub nanos : ℤ

pub record Duration : Type 0 where
  pub nanos : ℤ

pub record EventAttribute : Type 0 where
  pub key : Bytes
  pub value : Bytes
  pub index : Bool

pub record Event : Type 0 where
  pub kind : Bytes
  pub attributes : List EventAttribute

-- The zero value of both.
abbrev pub zero_hash : Hash
zero_hash = replicate 32 0

-- [20]byte
abbrev pub ValidatorAddress : Type 0
ValidatorAddress = Bytes

pub data KeyType : Type 0 where
  unset_key ed25519 secp256k1 : KeyType

pub record PublicKey : Type 0 where
  pub key_type : KeyType
  pub key_data : Bytes

pub record ValidatorUpdate : Type 0 where
  pub pub_key : PublicKey
  pub power : ℕ

pub data EvidenceType : Type 0 where
  unset_evidence duplicate_vote light_client : EvidenceType

pub record Evidence : Type 0 where
  pub evidence_type : EvidenceType
  pub validator : ValidatorAddress
  pub height : ℕ
  pub time : Timestamp
  pub total_voting_power : ℕ

pub record ConsensusParams : Type 0 where
  pub max_block_bytes : ℕ
  pub max_evidence_age : Duration
  pub max_tx_bytes : ℕ

pub record GenesisDoc : Type 0 where
  pub chain_id : Bytes
  pub genesis_time : Timestamp
  pub initial_height : ℕ
  pub consensus_params : ConsensusParams
  pub validators : List ValidatorUpdate
  pub app_state : Bytes
