-- ===== src/Grpc/Delivery.antt =====
-- What is assumed of gRPC and of cramberry where the network loses nothing, and what the client
-- then sees of the server's results.
use bapi.Grpc.Client.Wrappers.{no_tx_outcome, no_import}
use bapi.Types.{extension_reject}
use bapi.Grpc.GrpcServer
use bapi.Grpc.Service.{handler_export_snapshot, full_method, methods, find_method, Handler}
use bapi.Go.Text.{text}
use bapi.Grpc.Client.{no_answer, no_commit, no_outcome, no_verdict, no_handshake, Link}
use bapi.Base.{true, false, Option, List, String, none, [], ◌≡◌, some}
use bapi.Server.{ServerState, Server}
use bapi.Interfaces.{Export}
use bapi.Engine.{
  unavailable, notified, simulated, imported, exported, listed, judged, extended, verified, built,
  answered, committed, executed, checked, shaken, Answer,
}
use bapi.Go.Error.{plain, GoError}
use bapi.Go.Run.{returned, Fallible}
use bapi.Grpc.Codec.{relayed, done, Coding, Cramberry, Codec}

-- Every value is encoded, and decoded again to itself.
abbrev pub Faithful : {E A : Type 0} → Codec E A → Type 0
Faithful {E} {A} q = (a : A) → (e : E) × (q.encode a ≡ done e) × (q.decode e ≡ done a)

pub record Lawful {E : Type 0} (c : Cramberry E) : Type 0 where
  pub handshake_request : Faithful c.handshake_request
  pub handshake_response : Faithful c.handshake_response
  pub check_tx_request : Faithful c.check_tx_request
  pub gate_verdict : Faithful c.gate_verdict
  pub finalized_block : Faithful c.finalized_block
  pub block_outcome : Faithful c.block_outcome
  pub commit_request : Faithful c.commit_request
  pub commit_result : Faithful c.commit_result
  pub state_query : Faithful c.state_query
  pub state_query_result : Faithful c.state_query_result
  pub proposal_context : Faithful c.proposal_context
  pub built_proposal : Faithful c.built_proposal
  pub received_proposal : Faithful c.received_proposal
  pub proposal_verdict : Faithful c.proposal_verdict
  pub vote_context : Faithful c.vote_context
  pub extend_vote_response : Faithful c.extend_vote_response
  pub received_extension : Faithful c.received_extension
  pub extension_verdict_response : Faithful c.extension_verdict_response
  pub available_snapshots_request : Faithful c.available_snapshots_request
  pub available_snapshots_response : Faithful c.available_snapshots_response
  pub export_snapshot_request : Faithful c.export_snapshot_request
  pub snapshot_chunk : Faithful c.snapshot_chunk
  pub import_snapshot_message : Faithful c.import_snapshot_message
  pub import_result : Faithful c.import_result
  pub simulate_request : Faithful c.simulate_request
  pub tx_outcome : Faithful c.tx_outcome

-- RecvMsg after the last message of a stream that the client has completed.
abbrev pub eof : GoError
eof = plain (text "EOF")

-- RecvMsg after the last message of a stream that a handler has ended, with an error or not.
abbrev pub ended : (GoError → GoError) → Option GoError → GoError
ended f none = eof
ended f (some e) = f e

-- Where a handler returns, its response or the status of its error comes back. A stream from the
-- server brings the messages that were sent, and then the status of the error, or io.EOF.
pub record Delivers {S E : Type 0} (c : Cramberry E) (srv : Server S) (cc : Link (ServerState S) E)
    : Type 0 where
  pub unary :
      (m : String) (h : Handler S E) (x : E) (s t : ServerState S) (r : Coding E)
      → find_method (text m) (methods c srv) ≡ some h
      → h x s ≡ returned r t
      → cc.unary (full_method m) x s ≡ returned (relayed cc.status r) t
  pub pull :
      (x : E) (s t : ServerState S) (ms : List E) (e : Option GoError)
      → handler_export_snapshot c srv (λ i. none) x s ≡ returned (ms, e) t
      → cc.pull (full_method "ExportSnapshot") x s ≡ returned (done (ms, ended cc.status e)) t
  pub push :
      (ms : List E) (s t : ServerState S) (r : Coding E)
      → GrpcServer.import_snapshot c srv ms eof s ≡ returned r t
      → cc.push (full_method "ImportSnapshot") ms true s ≡ returned (relayed cc.status r) t

abbrev pub seen_as : {A : Type 0} → A → (GoError → GoError) → Fallible A → Fallible A
seen_as zero_value f (a, none) = (a, none)
seen_as zero_value f (a, some e) = (zero_value, some (f e))

-- The descriptor of an export is not sent, and the client drops the error of one that fails.
abbrev pub seen_export : Fallible Export → Fallible Export
seen_export (x, none) = ((x.0, none), none)
seen_export (x, some e) = (([], none), none)

-- What the client makes of the answer that the server gives.
abbrev pub seen : (GoError → GoError) → Answer → Answer
seen f unavailable = unavailable
seen f (shaken r) = shaken (seen_as no_handshake f r)
seen f (checked r) = checked (seen_as no_verdict f r)
seen f (executed r) = executed (seen_as no_outcome f r)
seen f (committed r) = committed (seen_as no_commit f r)
seen f (answered r) = answered (seen_as no_answer f r)
seen f (built r) = built (seen_as (record { txs = [] }) f r)
seen f (verified r) = verified (seen_as (record { accept = false; reject_reason = [] }) f r)
seen f (extended r) = extended (seen_as [] f r)
seen f (judged r) = judged (seen_as extension_reject f r)
seen f (listed r) = listed (seen_as [] f r)
seen f (exported r) = exported (seen_export r)
seen f (imported r) = imported (seen_as no_import f r)
seen f (simulated r) = simulated (seen_as no_tx_outcome f r)
seen f (notified r) = notified r
