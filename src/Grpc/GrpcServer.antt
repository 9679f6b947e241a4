-- ===== src/Grpc/GrpcServer.antt =====
-- grpc/server.go: a server around an application, as gRPC calls it.
-- Each method passes its message to the method of `Server` with the same name. The constructor,
-- `NewGRPCServer`, is `new`; `Register`, `Serve` and `Stop` only call gRPC.
use bapi.Interfaces.{Export}
use bapi.Go.Text.{text}
use bapi.Go.Error.{plain, GoError}
use bapi.Base.{◌+◌, Option, ◌∷◌, ℕ, [], List, none, some}
use bapi.Server.Optional
use bapi.Server
use bapi.Types.{
  SnapshotChunk, ImportResult, TxOutcome, StateQueryResult, ProposalVerdict, HandshakeResponse,
  GateVerdict, CommitResult, BuiltProposal, BlockOutcome, VoteContext, StateQuery, ReceivedProposal,
  ReceivedExtension, ProposalContext, HandshakeRequest, FinalizedBlock,
}
use bapi.Grpc.Wire.{
  ExportSnapshotRequest, ImportSnapshotMessage, ExtensionVerdictResponse, ExtendVoteResponse,
  AvailableSnapshotsResponse, SimulateRequest, CommitRequest, CheckTxRequest,
  AvailableSnapshotsRequest,
}
use bapi.Server.{ServerState, Server}
use bapi.Grpc.Codec.{unmarshal, marshal, Cramberry, Codec, failed, done, Coding}
use bapi.Go.Run.{pure, ◌>>=◌, Fallible, Action}

-- `if err != nil { return nil, err }; return &value, nil`
abbrev pub answered : {A : Type 0} → Fallible A → Coding A
answered (a, none) = done a
answered (a, some e) = failed e

abbrev pub Remote : Type 0 → Type 0 → Type 0
Remote S A = Action (ServerState S) (Coding A)

abbrev pub answering : {S A : Type 0} → Action (ServerState S) (Fallible A) → Remote S A
answering m = do r ← m; pure (answered r)

-- The response that holds a result.
abbrev pub map_done : {A B : Type 0} → (A → B) → Coding A → Coding B
map_done f (done a) = done (f a)
map_done f (failed e) = failed e

abbrev pub wrapping : {S A B : Type 0} → (A → B) → Remote S A → Remote S B
wrapping f m = do r ← m; pure (map_done f r)

module _ {S : Type 0} (srv : Server S) where
  unfoldable pub handshake : HandshakeRequest → Remote S HandshakeResponse
  handshake req = answering (Server.handshake srv req)

  unfoldable pub check_tx : CheckTxRequest → Remote S GateVerdict
  check_tx req = answering (Server.check_tx srv req.tx req.mctx)

  unfoldable pub execute_block : FinalizedBlock → Remote S BlockOutcome
  execute_block block = answering (Server.execute_block srv block)

  unfoldable pub commit : CommitRequest → Remote S CommitResult
  commit req = answering (Server.commit srv)

  unfoldable pub query : StateQuery → Remote S StateQueryResult
  query req = answering (Server.query srv req)

  unfoldable pub build_proposal : ProposalContext → Remote S BuiltProposal
  build_proposal pctx = answering (Optional.build_proposal srv pctx)

  unfoldable pub verify_proposal : ReceivedProposal → Remote S ProposalVerdict
  verify_proposal prop = answering (Optional.verify_proposal srv prop)

  unfoldable pub extend_vote : VoteContext → Remote S ExtendVoteResponse
  extend_vote vctx =
      wrapping (λ ext. record { extension = ext }) (answering (Optional.extend_vote srv vctx))

  unfoldable pub verify_extension : ReceivedExtension → Remote S ExtensionVerdictResponse
  verify_extension ext =
      wrapping (λ v. record { verdict = v }) (answering (Optional.verify_extension srv ext))

  unfoldable pub available_snapshots :
      AvailableSnapshotsRequest → Remote S AvailableSnapshotsResponse
  available_snapshots req =
      wrapping (λ xs. record { snapshots = xs }) (answering (Optional.available_snapshots srv))

  unfoldable pub simulate : SimulateRequest → Remote S TxOutcome
  simulate req = answering (Optional.simulate srv req.tx)

-- The loop that sends what the channel delivers; `broken i` is the error of the `i`-th SendMsg, if
-- it has one. The messages that were sent, and the error that the method returns.
module _ {E : Type 0} (c : Codec E SnapshotChunk) (broken : ℕ → Option GoError) where
  sending : Coding E → Option GoError → List E × Option GoError → List E × Option GoError
  sending (failed e) b rest = ([], some e)
  sending (done m) (some e) rest = ([], some e)
  sending (done m) none rest = (m ∷ rest.0, rest.1)

  unfoldable pub send_chunks : ℕ → List SnapshotChunk → List E × Option GoError
  unfolding sending
  send_chunks i [] = ([], none)
  send_chunks i (x ∷ xs) = sending (marshal c x) (broken i) (send_chunks (i + 1) xs)

  unfoldable pub exported : Fallible Export → List E × Option GoError
  unfolding send_chunks
  exported (ch, some e) = ([], some e)
  exported (ch, none) = send_chunks 0 ch.0

  unfoldable pub export_snapshot :
      {S : Type 0}
      → Server S
      → ExportSnapshotRequest
      → Action (ServerState S) (List E × Option GoError)
  unfolding exported
  export_snapshot srv req = do
    r ← Optional.export_snapshot srv req.height req.format
    pure (exported r)

-- An import reads the stream's messages; `ending` is what RecvMsg returns after the last one.
module _ {E : Type 0} (c : Cramberry E) where
  read_chunk : Coding ImportSnapshotMessage → List SnapshotChunk → List SnapshotChunk
  read_chunk (failed e) rest = []
  read_chunk (done msg) rest = elim msg.chunk [ none ↦ rest | some x ↦ x ∷ rest ]

  -- The goroutine: it stops at a message that cannot be read.
  unfoldable pub read_chunks : List E → List SnapshotChunk
  unfolding read_chunk
  read_chunks [] = []
  read_chunks (m ∷ ms) = read_chunk (unmarshal c.import_snapshot_message m) (read_chunks ms)

  reply : Coding ImportResult → Coding E
  reply (failed e) = failed e
  reply (done r) = marshal c.import_result r

  import_after : {S : Type 0} → Server S → List E → Coding ImportSnapshotMessage → Remote S E
  unfolding read_chunks reply
  import_after srv ms (failed e) = pure (failed e)
  import_after srv ms (done msg) = elim msg.descriptor [
    | none ↦ pure (
        failed (
          plain (
            text
              "github.com/blockberries/bapi grpc: first ImportSnapshot message must contain a descriptor")))
    | some desc ↦ do
      r ← answering (Optional.import_snapshot srv desc (read_chunks ms))
      pure (reply r)
  ]

  unfoldable pub import_snapshot : {S : Type 0} → Server S → List E → GoError → Remote S E
  unfolding import_after
  import_snapshot srv [] ending = pure (failed ending)
  import_snapshot srv (m ∷ ms) ending = import_after srv ms (unmarshal c.import_snapshot_message m)
