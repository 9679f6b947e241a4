-- ===== src/Tests/Messages.antt =====
-- A network for the examples: messages that are sent as they are, and a link that calls the server.
use bapi.Go.Error.{plain}
use bapi.Base.{[], refl}
use bapi.Grpc.Wire.{
  SimulateRequest, ImportSnapshotMessage, ExtensionVerdictResponse, ExtendVoteResponse,
  ExportSnapshotRequest, CommitRequest, CheckTxRequest, AvailableSnapshotsResponse,
  AvailableSnapshotsRequest,
}
use bapi.Grpc.Delivery.{Lawful}
use bapi.Types.{
  VoteContext, TxOutcome, StateQueryResult, StateQuery, SnapshotChunk, ReceivedProposal,
  ReceivedExtension, ProposalVerdict, ProposalContext, ImportResult, HandshakeResponse, GateVerdict,
  FinalizedBlock, CommitResult, BuiltProposal, BlockOutcome, HandshakeRequest,
}
use bapi.Grpc.Codec.{failed, done, Cramberry, Codec}

-- The messages; `garbled` cannot be decoded.
pub data Message : Type 0 where
  garbled : Message
  handshake_request : HandshakeRequest → Message
  handshake_response : HandshakeResponse → Message
  check_tx_request : CheckTxRequest → Message
  gate_verdict : GateVerdict → Message
  finalized_block : FinalizedBlock → Message
  block_outcome : BlockOutcome → Message
  commit_request : CommitRequest → Message
  commit_result : CommitResult → Message
  state_query : StateQuery → Message
  state_query_result : StateQueryResult → Message
  proposal_context : ProposalContext → Message
  built_proposal : BuiltProposal → Message
  received_proposal : ReceivedProposal → Message
  proposal_verdict : ProposalVerdict → Message
  vote_context : VoteContext → Message
  extend_vote_response : ExtendVoteResponse → Message
  received_extension : ReceivedExtension → Message
  extension_verdict_response : ExtensionVerdictResponse → Message
  available_snapshots_request : AvailableSnapshotsRequest → Message
  available_snapshots_response : AvailableSnapshotsResponse → Message
  export_snapshot_request : ExportSnapshotRequest → Message
  snapshot_chunk : SnapshotChunk → Message
  import_snapshot_message : ImportSnapshotMessage → Message
  import_result : ImportResult → Message
  simulate_request : SimulateRequest → Message
  tx_outcome : TxOutcome → Message

abbrev handshake_request_codec : Codec Message HandshakeRequest
handshake_request_codec = record {
  encode = λ a. done (handshake_request a);
  decode = λ m. elim m [ handshake_request a ↦ done a | _ ↦ failed (plain []) ];
}

abbrev handshake_response_codec : Codec Message HandshakeResponse
handshake_response_codec = record {
  encode = λ a. done (handshake_response a);
  decode = λ m. elim m [ handshake_response a ↦ done a | _ ↦ failed (plain []) ];
}

abbrev check_tx_request_codec : Codec Message CheckTxRequest
check_tx_request_codec = record {
  encode = λ a. done (check_tx_request a);
  decode = λ m. elim m [ check_tx_request a ↦ done a | _ ↦ failed (plain []) ];
}

abbrev gate_verdict_codec : Codec Message GateVerdict
gate_verdict_codec = record {
  encode = λ a. done (gate_verdict a);
  decode = λ m. elim m [ gate_verdict a ↦ done a | _ ↦ failed (plain []) ];
}

abbrev finalized_block_codec : Codec Message FinalizedBlock
finalized_block_codec = record {
  encode = λ a. done (finalized_block a);
  decode = λ m. elim m [ finalized_block a ↦ done a | _ ↦ failed (plain []) ];
}

abbrev block_outcome_codec : Codec Message BlockOutcome
block_outcome_codec = record {
  encode = λ a. done (block_outcome a);
  decode = λ m. elim m [ block_outcome a ↦ done a | _ ↦ failed (plain []) ];
}

abbrev commit_request_codec : Codec Message CommitRequest
commit_request_codec = record {
  encode = λ a. done (commit_request a);
  decode = λ m. elim m [ commit_request a ↦ done a | _ ↦ failed (plain []) ];
}

abbrev commit_result_codec : Codec Message CommitResult
commit_result_codec = record {
  encode = λ a. done (commit_result a);
  decode = λ m. elim m [ commit_result a ↦ done a | _ ↦ failed (plain []) ];
}

abbrev state_query_codec : Codec Message StateQuery
state_query_codec = record {
  encode = λ a. done (state_query a);
  decode = λ m. elim m [ state_query a ↦ done a | _ ↦ failed (plain []) ];
}

abbrev state_query_result_codec : Codec Message StateQueryResult
state_query_result_codec = record {
  encode = λ a. done (state_query_result a);
  decode = λ m. elim m [ state_query_result a ↦ done a | _ ↦ failed (plain []) ];
}

abbrev proposal_context_codec : Codec Message ProposalContext
proposal_context_codec = record {
  encode = λ a. done (proposal_context a);
  decode = λ m. elim m [ proposal_context a ↦ done a | _ ↦ failed (plain []) ];
}

abbrev built_proposal_codec : Codec Message BuiltProposal
built_proposal_codec = record {
  encode = λ a. done (built_proposal a);
  decode = λ m. elim m [ built_proposal a ↦ done a | _ ↦ failed (plain []) ];
}

abbrev received_proposal_codec : Codec Message ReceivedProposal
received_proposal_codec = record {
  encode = λ a. done (received_proposal a);
  decode = λ m. elim m [ received_proposal a ↦ done a | _ ↦ failed (plain []) ];
}

abbrev proposal_verdict_codec : Codec Message ProposalVerdict
proposal_verdict_codec = record {
  encode = λ a. done (proposal_verdict a);
  decode = λ m. elim m [ proposal_verdict a ↦ done a | _ ↦ failed (plain []) ];
}

abbrev vote_context_codec : Codec Message VoteContext
vote_context_codec = record {
  encode = λ a. done (vote_context a);
  decode = λ m. elim m [ vote_context a ↦ done a | _ ↦ failed (plain []) ];
}

abbrev extend_vote_response_codec : Codec Message ExtendVoteResponse
extend_vote_response_codec = record {
  encode = λ a. done (extend_vote_response a);
  decode = λ m. elim m [ extend_vote_response a ↦ done a | _ ↦ failed (plain []) ];
}

abbrev received_extension_codec : Codec Message ReceivedExtension
received_extension_codec = record {
  encode = λ a. done (received_extension a);
  decode = λ m. elim m [ received_extension a ↦ done a | _ ↦ failed (plain []) ];
}

abbrev extension_verdict_response_codec : Codec Message ExtensionVerdictResponse
extension_verdict_response_codec = record {
  encode = λ a. done (extension_verdict_response a);
  decode = λ m. elim m [ extension_verdict_response a ↦ done a | _ ↦ failed (plain []) ];
}

abbrev available_snapshots_request_codec : Codec Message AvailableSnapshotsRequest
available_snapshots_request_codec = record {
  encode = λ a. done (available_snapshots_request a);
  decode = λ m. elim m [ available_snapshots_request a ↦ done a | _ ↦ failed (plain []) ];
}

abbrev available_snapshots_response_codec : Codec Message AvailableSnapshotsResponse
available_snapshots_response_codec = record {
  encode = λ a. done (available_snapshots_response a);
  decode = λ m. elim m [ available_snapshots_response a ↦ done a | _ ↦ failed (plain []) ];
}

abbrev export_snapshot_request_codec : Codec Message ExportSnapshotRequest
export_snapshot_request_codec = record {
  encode = λ a. done (export_snapshot_request a);
  decode = λ m. elim m [ export_snapshot_request a ↦ done a | _ ↦ failed (plain []) ];
}

abbrev snapshot_chunk_codec : Codec Message SnapshotChunk
snapshot_chunk_codec = record {
  encode = λ a. done (snapshot_chunk a);
  decode = λ m. elim m [ snapshot_chunk a ↦ done a | _ ↦ failed (plain []) ];
}

abbrev import_snapshot_message_codec : Codec Message ImportSnapshotMessage
import_snapshot_message_codec = record {
  encode = λ a. done (import_snapshot_message a);
  decode = λ m. elim m [ import_snapshot_message a ↦ done a | _ ↦ failed (plain []) ];
}

abbrev import_result_codec : Codec Message ImportResult
import_result_codec = record {
  encode = λ a. done (import_result a);
  decode = λ m. elim m [ import_result a ↦ done a | _ ↦ failed (plain []) ];
}

abbrev simulate_request_codec : Codec Message SimulateRequest
simulate_request_codec = record {
  encode = λ a. done (simulate_request a);
  decode = λ m. elim m [ simulate_request a ↦ done a | _ ↦ failed (plain []) ];
}

abbrev tx_outcome_codec : Codec Message TxOutcome
tx_outcome_codec = record {
  encode = λ a. done (tx_outcome a);
  decode = λ m. elim m [ tx_outcome a ↦ done a | _ ↦ failed (plain []) ];
}

abbrev pub plainly : Cramberry Message
plainly = record {
  handshake_request = handshake_request_codec;
  handshake_response = handshake_response_codec;
  check_tx_request = check_tx_request_codec;
  gate_verdict = gate_verdict_codec;
  finalized_block = finalized_block_codec;
  block_outcome = block_outcome_codec;
  commit_request = commit_request_codec;
  commit_result = commit_result_codec;
  state_query = state_query_codec;
  state_query_result = state_query_result_codec;
  proposal_context = proposal_context_codec;
  built_proposal = built_proposal_codec;
  received_proposal = received_proposal_codec;
  proposal_verdict = proposal_verdict_codec;
  vote_context = vote_context_codec;
  extend_vote_response = extend_vote_response_codec;
  received_extension = received_extension_codec;
  extension_verdict_response = extension_verdict_response_codec;
  available_snapshots_request = available_snapshots_request_codec;
  available_snapshots_response = available_snapshots_response_codec;
  export_snapshot_request = export_snapshot_request_codec;
  snapshot_chunk = snapshot_chunk_codec;
  import_snapshot_message = import_snapshot_message_codec;
  import_result = import_result_codec;
  simulate_request = simulate_request_codec;
  tx_outcome = tx_outcome_codec;
}

pub plainly-Lawful : Lawful plainly
plainly-Lawful = record {
  handshake_request = λ a. (handshake_request a, refl, refl);
  handshake_response = λ a. (handshake_response a, refl, refl);
  check_tx_request = λ a. (check_tx_request a, refl, refl);
  gate_verdict = λ a. (gate_verdict a, refl, refl);
  finalized_block = λ a. (finalized_block a, refl, refl);
  block_outcome = λ a. (block_outcome a, refl, refl);
  commit_request = λ a. (commit_request a, refl, refl);
  commit_result = λ a. (commit_result a, refl, refl);
  state_query = λ a. (state_query a, refl, refl);
  state_query_result = λ a. (state_query_result a, refl, refl);
  proposal_context = λ a. (proposal_context a, refl, refl);
  built_proposal = λ a. (built_proposal a, refl, refl);
  received_proposal = λ a. (received_proposal a, refl, refl);
  proposal_verdict = λ a. (proposal_verdict a, refl, refl);
  vote_context = λ a. (vote_context a, refl, refl);
  extend_vote_response = λ a. (extend_vote_response a, refl, refl);
  received_extension = λ a. (received_extension a, refl, refl);
  extension_verdict_response = λ a. (extension_verdict_response a, refl, refl);
  available_snapshots_request = λ a. (available_snapshots_request a, refl, refl);
  available_snapshots_response = λ a. (available_snapshots_response a, refl, refl);
  export_snapshot_request = λ a. (export_snapshot_request a, refl, refl);
  snapshot_chunk = λ a. (snapshot_chunk a, refl, refl);
  import_snapshot_message = λ a. (import_snapshot_message a, refl, refl);
  import_result = λ a. (import_result a, refl, refl);
  simulate_request = λ a. (simulate_request a, refl, refl);
  tx_outcome = λ a. (tx_outcome a, refl, refl);
}
