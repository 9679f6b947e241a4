-- ===== src/Types/Proposal.antt =====
-- proposal.go and vote.go.
use bapi.Base.{ℕ, Bool, List}
use bapi.Go.Text.{Bytes}
use bapi.Types.Core.{Hash, Tx, Timestamp, ValidatorAddress}
use bapi.Types.Chain.{CommittedVoteExtension}

pub record ProposalContext : Type 0 where
  pub height : ℕ
  pub time : Timestamp
  pub proposer : ValidatorAddress
  pub mempool_txs : List Tx
  pub max_tx_bytes : ℕ
  pub vote_extensions : List CommittedVoteExtension

pub record BuiltProposal : Type 0 where
  pub txs : List Tx

pub record ReceivedProposal : Type 0 where
  pub height : ℕ
  pub time : Timestamp
  pub proposer : ValidatorAddress
  pub txs : List Tx
  pub vote_extensions : List CommittedVoteExtension

pub record ProposalVerdict : Type 0 where
  pub accept : Bool
  pub reject_reason : Bytes

pub record VoteContext : Type 0 where
  pub height : ℕ
  pub round : ℕ
  pub block_hash : Hash

pub record ReceivedExtension : Type 0 where
  pub height : ℕ
  pub round : ℕ
  pub validator : ValidatorAddress
  pub extension : Bytes

-- The zero value names no verdict.
pub data ExtensionVerdict : Type 0 where
  unset_verdict extension_accept extension_reject : ExtensionVerdict
