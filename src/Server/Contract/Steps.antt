-- ===== src/Server/Contract/Steps.antt =====
-- The contract of `Lifecycle`, method by method.
use bapi.Base.{ℕ, some, List, ◌≡◌, arith}
use bapi.Types.{
  ProposalContext, ReceivedProposal, VoteContext, ReceivedExtension, SnapshotDescriptor,
  SnapshotChunk, BatchCertifiedEvent, BlockConstructedEvent, Tx, HandshakeRequest, MempoolContext,
  FinalizedBlock, StateQuery,
}
use bapi.Interfaces.{App}
use bapi.Guard.{
  acquire_handshake, complete_handshake, fail_handshake, acquire_execute, complete_execute,
  fail_execute, acquire_commit, complete_commit, check_concurrent,
}
use bapi.Server.{
  Server, ServerState, new, discover_capabilities, handshake, execute_block, commit, query,
  check_tx,
}
use bapi.Server.Optional.{
  build_proposal, verify_proposal, extend_vote, verify_extension, available_snapshots,
  export_snapshot, import_snapshot, simulate, on_batch_certified, on_block_constructed,
}
use bapi.Server.Journal.{Journal, Phase, fresh, ready, pending, phase, journaled}
use bapi.Server.Contract.{guard_of, Obeys, After, journaling}

module _ {S : Type 0} (app : App S) where
  abbrev pub srv : Server (Journal S)
  srv = journaling app

  pub discover-journaled :
      (c : ℕ) → discover_capabilities (journaled app) c ≡ discover_capabilities app c
  unfolding discover_capabilities journaled
  discover-journaled c = ground arith

  pub handshake-step :
      (req : HandshakeRequest) (s : ServerState (Journal S)) (p : Phase)
      → phase s.app_state.entries ≡ some p
      → After (handshake srv req (record s { guard = guard_of p }))
  unfolding handshake new journaled phase acquire_handshake complete_handshake fail_handshake
  handshake-step req s fresh h = grind (arith, discover-journaled)
  handshake-step req s ready h = ground arith
  handshake-step req s pending h = ground arith

  pub check_tx-step :
      (tx : Tx) (mctx : MempoolContext) (s : ServerState (Journal S)) (p : Phase)
      → phase s.app_state.entries ≡ some p
      → After (check_tx srv tx mctx (record s { guard = guard_of p }))
  unfolding check_tx new journaled phase check_concurrent
  check_tx-step tx mctx s fresh h = ground arith
  check_tx-step tx mctx s _ h = ground arith

  pub execute_block-step :
      (b : FinalizedBlock) (s : ServerState (Journal S)) (p : Phase)
      → phase s.app_state.entries ≡ some p
      → After (execute_block srv b (record s { guard = guard_of p }))
  unfolding execute_block new journaled phase acquire_execute complete_execute fail_execute
  execute_block-step b s fresh h = ground arith
  execute_block-step b s _ h = ground arith

  pub commit-step :
      (s : ServerState (Journal S)) (p : Phase)
      → phase s.app_state.entries ≡ some p
      → After (commit srv (record s { guard = guard_of p }))
  unfolding commit new journaled phase acquire_commit complete_commit
  commit-step s fresh h = ground arith
  commit-step s _ h = ground arith

  pub query-step :
      (q : StateQuery) (s : ServerState (Journal S)) (p : Phase)
      → phase s.app_state.entries ≡ some p
      → After (query srv q (record s { guard = guard_of p }))
  unfolding query new journaled phase check_concurrent
  query-step q s fresh h = ground arith
  query-step q s _ h = ground arith

  pub simulate-step :
      (tx : Tx) (s : ServerState (Journal S)) (p : Phase)
      → phase s.app_state.entries ≡ some p
      → After (simulate srv tx (record s { guard = guard_of p }))
  unfolding simulate new journaled phase check_concurrent
  simulate-step tx s fresh h = ground arith
  simulate-step tx s _ h = ground arith

  pub on_batch_certified-step :
      (ev : BatchCertifiedEvent) (s : ServerState (Journal S)) (p : Phase)
      → phase s.app_state.entries ≡ some p
      → After (on_batch_certified srv ev (record s { guard = guard_of p }))
  unfolding on_batch_certified new journaled phase check_concurrent
  on_batch_certified-step ev s fresh h = ground arith
  on_batch_certified-step ev s _ h = ground arith

  pub on_block_constructed-step :
      (ev : BlockConstructedEvent) (s : ServerState (Journal S)) (p : Phase)
      → phase s.app_state.entries ≡ some p
      → After (on_block_constructed srv ev (record s { guard = guard_of p }))
  unfolding on_block_constructed new journaled phase check_concurrent
  on_block_constructed-step ev s fresh h = ground arith
  on_block_constructed-step ev s _ h = ground arith

  pub build_proposal-Obeys :
      (pctx : ProposalContext) (s : ServerState (Journal S))
      → Obeys s
      → After (build_proposal srv pctx s)
  unfolding build_proposal new journaled
  build_proposal-Obeys pctx s h = ground (arith, h.known, h.seen)

  pub verify_proposal-Obeys :
      (prop : ReceivedProposal) (s : ServerState (Journal S))
      → Obeys s
      → After (verify_proposal srv prop s)
  unfolding verify_proposal new journaled
  verify_proposal-Obeys prop s h = ground (arith, h.known, h.seen)

  pub extend_vote-Obeys :
      (vctx : VoteContext) (s : ServerState (Journal S)) → Obeys s → After (extend_vote srv vctx s)
  unfolding extend_vote new journaled
  extend_vote-Obeys vctx s h = ground (arith, h.known, h.seen)

  pub verify_extension-Obeys :
      (ext : ReceivedExtension) (s : ServerState (Journal S))
      → Obeys s
      → After (verify_extension srv ext s)
  unfolding verify_extension new journaled
  verify_extension-Obeys ext s h = ground (arith, h.known, h.seen)

  pub available_snapshots-Obeys :
      (s : ServerState (Journal S)) → Obeys s → After (available_snapshots srv s)
  unfolding available_snapshots new journaled
  available_snapshots-Obeys s h = ground (arith, h.known, h.seen)

  pub export_snapshot-Obeys :
      (height format : ℕ) (s : ServerState (Journal S))
      → Obeys s
      → After (export_snapshot srv height format s)
  unfolding export_snapshot new journaled
  export_snapshot-Obeys height format s h = ground (arith, h.known, h.seen)

  pub import_snapshot-Obeys :
      (desc : SnapshotDescriptor) (chunks : List SnapshotChunk) (s : ServerState (Journal S))
      → Obeys s
      → After (import_snapshot srv desc chunks s)
  unfolding import_snapshot new journaled
  import_snapshot-Obeys desc chunks s h = ground (arith, h.known, h.seen)
