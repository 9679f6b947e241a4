-- ===== src/Grpc/Client/Wrappers.antt =====
-- grpc/client.go: the wrappers for the optional interfaces, and the whole client as a connection.
use bapi.Grpc.Service.{full_method}
use bapi.Interfaces.{Export}
use bapi.Go.Text.{Bytes, text}
use bapi.Grpc.Wire.{
  ImportSnapshotMessage, ExtensionVerdictResponse, ExtendVoteResponse, AvailableSnapshotsResponse,
}
use bapi.Types.{
  extension_reject, ProposalVerdict, ExtensionVerdict, BuiltProposal, unset_status, VoteContext,
  TxOutcome, Tx, SnapshotDescriptor, SnapshotChunk, ReceivedProposal, ReceivedExtension,
  ProposalContext, ImportResult, BlockConstructedEvent, BatchCertifiedEvent,
}
use bapi.Go.Run.{◌>>◌, ◌>>=◌, pure, Fallible, Action}
use bapi.Grpc.Client.{open_reply, or_zero, invoke, ClientState, on_remote, Link}
use bapi.Go.Error.{plain, GoError}
use bapi.Base.{true, false, ◌++◌, some, none, map, ◌∷◌, [], Option, ℕ, List, String}
use bapi.Grpc.Codec.{marshal, unmarshal, done, failed, Codec, Coding, Cramberry}

-- The stub of the mempool observer.
unfoldable pub not_wired : String → GoError
not_wired m =
    plain (text "MempoolObserver." ++ (text m ++ text " over gRPC not yet wired (PLAN Phase 0.3)"))

abbrev pub no_import : ImportResult
no_import = record { status = unset_status; app_hash = none; reason = []; retry_indices = [] }

abbrev pub no_tx_outcome : TxOutcome
no_tx_outcome = record { index = 0; code = 0; info = []; payload = []; events = [] }

abbrev pub descriptor_message : SnapshotDescriptor → ImportSnapshotMessage
descriptor_message desc = record { descriptor = some desc; chunk = none }

abbrev pub chunk_message : SnapshotChunk → ImportSnapshotMessage
chunk_message x = record { descriptor = none; chunk = some x }

module _ {R E : Type 0} (c : Cramberry E) (cc : Link R E) where
  call : {A B : Type 0} → String → Codec E A → Codec E B → A → Action (ClientState R) (Coding B)
  unfolding on_remote
  call m q p req = on_remote (invoke c cc m q p req)

  unfoldable pub build_proposal : ProposalContext → Action (ClientState R) (Fallible BuiltProposal)
  unfolding call
  build_proposal pctx = do
    r ← call "BuildProposal" c.proposal_context c.built_proposal pctx
    pure (or_zero (record { txs = [] }) r)

  unfoldable pub verify_proposal :
      ReceivedProposal → Action (ClientState R) (Fallible ProposalVerdict)
  unfolding call
  verify_proposal prop = do
    r ← call "VerifyProposal" c.received_proposal c.proposal_verdict prop
    pure (or_zero (record { accept = false; reject_reason = [] }) r)

  extension_of : Coding ExtendVoteResponse → Fallible Bytes
  extension_of (failed e) = ([], some e)
  extension_of (done r) = (r.extension, none)

  unfoldable pub extend_vote : VoteContext → Action (ClientState R) (Fallible Bytes)
  unfolding call extension_of
  extend_vote vctx = do
    r ← call "ExtendVote" c.vote_context c.extend_vote_response vctx
    pure (extension_of r)

  verdict_of : Coding ExtensionVerdictResponse → Fallible ExtensionVerdict
  verdict_of (failed e) = (extension_reject, some e)
  verdict_of (done r) = (r.verdict, none)

  unfoldable pub verify_extension :
      ReceivedExtension → Action (ClientState R) (Fallible ExtensionVerdict)
  unfolding call verdict_of
  verify_extension ext = do
    r ← call "VerifyExtension" c.received_extension c.extension_verdict_response ext
    pure (verdict_of r)

  snapshots_of : Coding AvailableSnapshotsResponse → Fallible (List SnapshotDescriptor)
  snapshots_of (failed e) = ([], some e)
  snapshots_of (done r) = (r.snapshots, none)

  unfoldable pub available_snapshots : Action (ClientState R) (Fallible (List SnapshotDescriptor))
  unfolding call snapshots_of
  available_snapshots = do
    r ←
        call "AvailableSnapshots" c.available_snapshots_request c.available_snapshots_response
          (record {})
    pure (snapshots_of r)

  -- `stream.RecvMsg(chunk)`, for each message of the stream and once more after the last.
  abbrev pub read_stream : List E → GoError → List (Coding SnapshotChunk)
  read_stream [] ending = failed ending ∷ []
  read_stream (m ∷ ms) ending = unmarshal c.snapshot_chunk m ∷ read_stream ms ending

  -- The goroutine of `ExportSnapshot`: at an error, io.EOF or not, it closes the channel.
  unfoldable pub receive_chunks : List (Coding SnapshotChunk) → List SnapshotChunk
  receive_chunks [] = []
  receive_chunks (failed e ∷ rs) = []
  receive_chunks (done x ∷ rs) = x ∷ receive_chunks rs

  unfoldable pub export_of : Coding (List E × GoError) → Fallible Export
  unfolding receive_chunks
  export_of (failed e) = (([], none), some e)
  export_of (done (ms, ending)) = ((receive_chunks (read_stream ms ending), none), none)

  pulling : Coding E → Action (ClientState R) (Coding (List E × GoError))
  unfolding on_remote
  pulling (failed e) = pure (failed (cc.status e))
  pulling (done m) = on_remote (cc.pull (full_method "ExportSnapshot") m)

  unfoldable pub export_snapshot : ℕ → ℕ → Action (ClientState R) (Fallible Export)
  unfolding pulling export_of
  export_snapshot height format = do
    r ← pulling (marshal c.export_snapshot_request (record { height = height; format = format }))
    pure (export_of r)

  -- The messages that are sent, up to one that cannot be encoded, and its error.
  encode_next : Coding E → List E × Option GoError → List E × Option GoError
  encode_next (failed e) rest = ([], some e)
  encode_next (done m) rest = (m ∷ rest.0, rest.1)

  unfoldable pub encode_all : List ImportSnapshotMessage → List E × Option GoError
  unfolding encode_next
  encode_all [] = ([], none)
  encode_all (x ∷ xs) = encode_next (marshal c.import_snapshot_message x) (encode_all xs)

  pushing : List E → Option GoError → Action (ClientState R) (Fallible ImportResult)
  unfolding on_remote
  pushing ms (some e) = do
    on_remote (cc.push (full_method "ImportSnapshot") ms false)
    pure (no_import, some (cc.status e))
  pushing ms none = do
    r ← on_remote (cc.push (full_method "ImportSnapshot") ms true)
    pure (or_zero no_import (open_reply c cc c.import_result r))

  unfoldable pub import_snapshot :
      SnapshotDescriptor → List SnapshotChunk → Action (ClientState R) (Fallible ImportResult)
  unfolding encode_all pushing
  import_snapshot desc chunks =
      let r = encode_all (descriptor_message desc ∷ map chunk_message chunks) in pushing r.0 r.1

  unfoldable pub simulate : Tx → Action (ClientState R) (Fallible TxOutcome)
  unfolding call
  simulate tx = do
    r ← call "Simulate" c.simulate_request c.tx_outcome (record { tx = tx })
    pure (or_zero no_tx_outcome r)

  unfoldable pub on_batch_certified : BatchCertifiedEvent → Action (ClientState R) (Option GoError)
  unfolding not_wired
  on_batch_certified ev = pure (some (not_wired "OnBatchCertified"))

  unfoldable pub on_block_constructed :
      BlockConstructedEvent → Action (ClientState R) (Option GoError)
  unfolding not_wired
  on_block_constructed ev = pure (some (not_wired "OnBlockConstructed"))
