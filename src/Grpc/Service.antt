-- ===== src/Grpc/Service.antt =====
-- grpc/service.go: the handlers of the service, and its description.
-- `dec` decodes the request with the codec; a handler gets the encoded request here. What gRPC does
-- with the response, encoding it, is in the table of methods.
use bapi.Go.Order.{bytes_eq}
use bapi.Go.Error.{GoError}
use bapi.Grpc.GrpcServer
use bapi.Types.{
  ReceivedExtension, VoteContext, ReceivedProposal, ProposalContext, StateQuery, FinalizedBlock,
  HandshakeRequest, TxOutcome, StateQueryResult, ProposalVerdict, HandshakeResponse, GateVerdict,
  CommitResult, BuiltProposal, BlockOutcome,
}
use bapi.Grpc.Wire.{
  SimulateRequest, ExportSnapshotRequest, AvailableSnapshotsRequest, CommitRequest, CheckTxRequest,
  ExtensionVerdictResponse, ExtendVoteResponse, AvailableSnapshotsResponse,
}
use bapi.Go.Run.{Action, pure, ◌>>=◌}
use bapi.Server.{ServerState, Server}
use bapi.Base.{some, if◌then◌else◌, none, [], ◌∷◌, ◌++◌, ℕ, Option, List, String}
use bapi.Grpc.GrpcServer.{build_proposal, Remote}
use bapi.Grpc.Codec.{marshal, done, failed, unmarshal, Coding, Cramberry, Codec}
use bapi.Go.Text.{text, Bytes}

abbrev pub Handler : Type 0 → Type 0 → Type 0
Handler S E = E → Remote S E

-- `if err := dec(req); err != nil { return nil, err }`
abbrev pub received : {S E A B : Type 0} → Codec E A → (A → Remote S B) → E → Remote S B
received q f e = elim (unmarshal q e) [ failed x ↦ pure (failed x) | done req ↦ f req ]

abbrev pub encoded : {E B : Type 0} → Codec E B → Coding B → Coding E
encoded p (failed e) = failed e
encoded p (done b) = marshal p b

abbrev pub encoding : {S E B : Type 0} → Codec E B → (E → Remote S B) → Handler S E
encoding p h e = do r ← h e; pure (encoded p r)

-- What the service asks of a server. A stream of `ExportSnapshot` may break at a message, one of
-- `ImportSnapshot` is its messages and the error after them.
pub record BapiServiceServer (S E : Type 0) : Type 0 where
  pub handshake : HandshakeRequest → Remote S HandshakeResponse
  pub check_tx : CheckTxRequest → Remote S GateVerdict
  pub execute_block : FinalizedBlock → Remote S BlockOutcome
  pub commit : CommitRequest → Remote S CommitResult
  pub query : StateQuery → Remote S StateQueryResult
  pub build_proposal : ProposalContext → Remote S BuiltProposal
  pub verify_proposal : ReceivedProposal → Remote S ProposalVerdict
  pub extend_vote : VoteContext → Remote S ExtendVoteResponse
  pub verify_extension : ReceivedExtension → Remote S ExtensionVerdictResponse
  pub available_snapshots : AvailableSnapshotsRequest → Remote S AvailableSnapshotsResponse
  pub export_snapshot :
      ExportSnapshotRequest
      → (ℕ → Option GoError)
      → Action (ServerState S) (List E × Option GoError)
  pub import_snapshot : List E → GoError → Remote S E
  pub simulate : SimulateRequest → Remote S TxOutcome

-- `var _ BAPIServiceServer = (*GRPCServer)(nil)`
abbrev pub as_service : {S E : Type 0} → Cramberry E → Server S → BapiServiceServer S E
as_service c srv = record {
  handshake = GrpcServer.handshake srv;
  check_tx = GrpcServer.check_tx srv;
  execute_block = GrpcServer.execute_block srv;
  commit = GrpcServer.commit srv;
  query = GrpcServer.query srv;
  build_proposal = GrpcServer.build_proposal srv;
  verify_proposal = GrpcServer.verify_proposal srv;
  extend_vote = GrpcServer.extend_vote srv;
  verify_extension = GrpcServer.verify_extension srv;
  available_snapshots = GrpcServer.available_snapshots srv;
  export_snapshot = λ req broken. GrpcServer.export_snapshot c.snapshot_chunk broken srv req;
  import_snapshot = GrpcServer.import_snapshot c srv;
  simulate = GrpcServer.simulate srv;
}

module _ {S E : Type 0} (c : Cramberry E) (srv : Server S) where
  unfoldable pub handler_handshake : E → Remote S HandshakeResponse
  handler_handshake = received c.handshake_request (as_service c srv).handshake

  unfoldable pub handler_check_tx : E → Remote S GateVerdict
  handler_check_tx = received c.check_tx_request (as_service c srv).check_tx

  unfoldable pub handler_execute_block : E → Remote S BlockOutcome
  handler_execute_block = received c.finalized_block (as_service c srv).execute_block

  unfoldable pub handler_commit : E → Remote S CommitResult
  handler_commit = received c.commit_request (as_service c srv).commit

  unfoldable pub handler_query : E → Remote S StateQueryResult
  handler_query = received c.state_query (as_service c srv).query

  unfoldable pub handler_build_proposal : E → Remote S BuiltProposal
  handler_build_proposal = received c.proposal_context (as_service c srv).build_proposal

  unfoldable pub handler_verify_proposal : E → Remote S ProposalVerdict
  handler_verify_proposal = received c.received_proposal (as_service c srv).verify_proposal

  unfoldable pub handler_extend_vote : E → Remote S ExtendVoteResponse
  handler_extend_vote = received c.vote_context (as_service c srv).extend_vote

  unfoldable pub handler_verify_extension : E → Remote S ExtensionVerdictResponse
  handler_verify_extension = received c.received_extension (as_service c srv).verify_extension

  unfoldable pub handler_available_snapshots : E → Remote S AvailableSnapshotsResponse
  handler_available_snapshots =
      received c.available_snapshots_request (as_service c srv).available_snapshots

  unfoldable pub handler_simulate : E → Remote S TxOutcome
  handler_simulate = received c.simulate_request (as_service c srv).simulate

  -- `serviceDesc.Methods`
  unfoldable pub methods : List (Bytes × Handler S E)
  unfolding handler_handshake handler_check_tx handler_execute_block handler_commit handler_query
      handler_build_proposal handler_verify_proposal handler_extend_vote handler_verify_extension
      handler_available_snapshots handler_simulate
  methods =
      (text "Handshake", encoding c.handshake_response handler_handshake)
      ∷ (text "CheckTx", encoding c.gate_verdict handler_check_tx)
      ∷ (text "ExecuteBlock", encoding c.block_outcome handler_execute_block)
      ∷ (text "Commit", encoding c.commit_result handler_commit)
      ∷ (text "Query", encoding c.state_query_result handler_query)
      ∷ (text "BuildProposal", encoding c.built_proposal handler_build_proposal)
      ∷ (text "VerifyProposal", encoding c.proposal_verdict handler_verify_proposal)
      ∷ (text "ExtendVote", encoding c.extend_vote_response handler_extend_vote)
      ∷ (text "VerifyExtension", encoding c.extension_verdict_response handler_verify_extension)
      ∷ (
        text "AvailableSnapshots",
        encoding c.available_snapshots_response handler_available_snapshots,
      )
      ∷ (text "Simulate", encoding c.tx_outcome handler_simulate)
      ∷ []

  -- The stream `ExportSnapshot`: one message comes in, the request.
  unfoldable pub handler_export_snapshot :
      (ℕ → Option GoError) → E → Action (ServerState S) (List E × Option GoError)
  handler_export_snapshot broken e = elim (unmarshal c.export_snapshot_request e) [
    | failed x ↦ pure ([], some x)
    | done req ↦ (as_service c srv).export_snapshot req broken
  ]

  unfoldable pub handler_import_snapshot : List E → GoError → Remote S E
  handler_import_snapshot = (as_service c srv).import_snapshot

abbrev pub service_name : String
service_name = "github.com/blockberries/bapi.v1.BAPIService"

unfoldable pub full_method : String → Bytes
full_method m = text "/" ++ (text service_name ++ (text "/" ++ text m))

unfoldable pub find_method : {H : Type 0} → Bytes → List (Bytes × H) → Option H
find_method m [] = none
find_method m ((n, h) ∷ ms) = let rest = find_method m ms in if bytes_eq n m then some h else rest
