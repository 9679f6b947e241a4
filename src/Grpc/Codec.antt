-- ===== src/Grpc/Codec.antt =====
-- grpc/codec.go: the codec that gRPC is made to use. The package cramberry, which it calls, is the
-- parameter `Cramberry`, with one pair of functions for each message. `E` is the type of encoded
-- messages, []byte in the source; only cramberry and the network look into it.
use bapi.Go.Text.{text}
use bapi.Grpc.Wire.{
  SimulateRequest, ImportSnapshotMessage, ExportSnapshotRequest, AvailableSnapshotsResponse,
  AvailableSnapshotsRequest, ExtensionVerdictResponse, ExtendVoteResponse, CommitRequest,
  CheckTxRequest,
}
use bapi.Base.{String}
use bapi.Types.{
  TxOutcome, ImportResult, SnapshotChunk, ReceivedExtension, VoteContext, ProposalVerdict,
  ReceivedProposal, BuiltProposal, ProposalContext, StateQueryResult, StateQuery, CommitResult,
  BlockOutcome, FinalizedBlock, GateVerdict, HandshakeResponse, HandshakeRequest,
}
use bapi.Go.Error.{wrapped, GoError}

-- A value or an error: what a Go function returns whose value is nil beside an error.
pub data Coding (A : Type 0) : Type 0 where
  done : A → Coding A
  failed : GoError → Coding A

-- A function applied to the error, if there is one.
abbrev pub relayed : {A : Type 0} → (GoError → GoError) → Coding A → Coding A
relayed f (done a) = done a
relayed f (failed e) = failed (f e)

-- `cramberry.Marshal` and `cramberry.Unmarshal` at one type.
pub record Codec (E A : Type 0) : Type 0 where
  pub encode : A → Coding E
  pub decode : E → Coding A

-- `fmt.Errorf("...: %w", err)`
abbrev explained : {A : Type 0} → String → Coding A → Coding A
explained why (done a) = done a
explained why (failed e) = failed (wrapped (text why) e)

module _ {E A : Type 0} (c : Codec E A) where
  unfoldable pub marshal : A → Coding E
  marshal a = explained "cramberry marshal: " (c.encode a)

  unfoldable pub unmarshal : E → Coding A
  unmarshal e = explained "cramberry unmarshal: " (c.decode e)

pub record Cramberry (E : Type 0) : Type 0 where
  pub handshake_request : Codec E HandshakeRequest
  pub handshake_response : Codec E HandshakeResponse
  pub check_tx_request : Codec E CheckTxRequest
  pub gate_verdict : Codec E GateVerdict
  pub finalized_block : Codec E FinalizedBlock
  pub block_outcome : Codec E BlockOutcome
  pub commit_request : Codec E CommitRequest
  pub commit_result : Codec E CommitResult
  pub state_query : Codec E StateQuery
  pub state_query_result : Codec E StateQueryResult
  pub proposal_context : Codec E ProposalContext
  pub built_proposal : Codec E BuiltProposal
  pub received_proposal : Codec E ReceivedProposal
  pub proposal_verdict : Codec E ProposalVerdict
  pub vote_context : Codec E VoteContext
  pub extend_vote_response : Codec E ExtendVoteResponse
  pub received_extension : Codec E ReceivedExtension
  pub extension_verdict_response : Codec E ExtensionVerdictResponse
  pub available_snapshots_request : Codec E AvailableSnapshotsRequest
  pub available_snapshots_response : Codec E AvailableSnapshotsResponse
  pub export_snapshot_request : Codec E ExportSnapshotRequest
  pub snapshot_chunk : Codec E SnapshotChunk
  pub import_snapshot_message : Codec E ImportSnapshotMessage
  pub import_result : Codec E ImportResult
  pub simulate_request : Codec E SimulateRequest
  pub tx_outcome : Codec E TxOutcome
