-- ===== src/Server/Calls.antt =====
-- A session: the calls of `Server` one after the other, until one panics or waits for ever.
use bapi.Base.{ℕ, List, [], ◌∷◌}
use bapi.Go.Run.{Action, pure, ◌>>◌}
use bapi.Types.{
  Tx, HandshakeRequest, MempoolContext, FinalizedBlock, StateQuery, ProposalContext,
  ReceivedProposal, VoteContext, ReceivedExtension, SnapshotDescriptor, SnapshotChunk,
  BatchCertifiedEvent, BlockConstructedEvent,
}
use bapi.Server.{Server, ServerState, handshake, check_tx, execute_block, commit, query}
use bapi.Server.Optional.{
  build_proposal, verify_proposal, extend_vote, verify_extension, available_snapshots,
  export_snapshot, import_snapshot, simulate, on_batch_certified, on_block_constructed,
}

-- One constructor for each method of `Server` that can reach the application.
pub data Call : Type 0 where
  handshakes : HandshakeRequest → Call
  checks : Tx → MempoolContext → Call
  executes : FinalizedBlock → Call
  commits : Call
  queries : StateQuery → Call
  builds : ProposalContext → Call
  verifies : ReceivedProposal → Call
  extends : VoteContext → Call
  verifies_extension : ReceivedExtension → Call
  lists_snapshots : Call
  exports : ℕ → ℕ → Call
  imports : SnapshotDescriptor → List SnapshotChunk → Call
  simulates : Tx → Call
  certifies : BatchCertifiedEvent → Call
  constructs : BlockConstructedEvent → Call

abbrev ignoring : {S A : Type 0} → Action S A → Action S (Unit {0})
ignoring m = m >> pure tt

module _ {S : Type 0} (srv : Server S) where
  unfoldable pub step : Call → Action (ServerState S) (Unit {0})
  step (handshakes req) = ignoring (handshake srv req)
  step (checks tx mctx) = ignoring (check_tx srv tx mctx)
  step (executes block) = ignoring (execute_block srv block)
  step commits = ignoring (commit srv)
  step (queries q) = ignoring (query srv q)
  step (builds pctx) = ignoring (build_proposal srv pctx)
  step (verifies prop) = ignoring (verify_proposal srv prop)
  step (extends vctx) = ignoring (extend_vote srv vctx)
  step (verifies_extension ext) = ignoring (verify_extension srv ext)
  step lists_snapshots = ignoring (available_snapshots srv)
  step (exports height format) = ignoring (export_snapshot srv height format)
  step (imports desc chunks) = ignoring (import_snapshot srv desc chunks)
  step (simulates tx) = ignoring (simulate srv tx)
  step (certifies ev) = ignoring (on_batch_certified srv ev)
  step (constructs ev) = ignoring (on_block_constructed srv ev)

  unfoldable pub run : List Call → Action (ServerState S) (Unit {0})
  run [] = pure tt
  run (c ∷ cs) = step c >> run cs
