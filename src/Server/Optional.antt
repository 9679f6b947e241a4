-- ===== src/Server/Optional.antt =====
-- server/server.go: the methods of `Server` for the optional interfaces.
use bapi.Base.{ℕ, true, Option, none, some, List, [], ◌++◌, if◌then◌else◌, String}
use bapi.Go.Text.{Bytes, text}
use bapi.Go.Error.{GoError, plain}
use bapi.Go.Run.{Action, Fallible, returned, pure, ◌>>◌}
use bapi.Types.{
  Tx, TxOutcome, ProposalContext, BuiltProposal, ReceivedProposal, ProposalVerdict, VoteContext,
  ReceivedExtension, ExtensionVerdict, extension_accept, SnapshotDescriptor, SnapshotChunk,
  ImportResult, unset_status, BatchCertifiedEvent, BlockConstructedEvent,
}
use bapi.Types.Capability.{
  has, cap_proposal_control, cap_vote_extensions, cap_state_sync, cap_simulation,
  cap_mempool_observer,
}
use bapi.Interfaces.{ProposalControl, VoteExtender, StateSync, Simulator, MempoolObserver, Export}
use bapi.Guard.{check_concurrent}
use bapi.Server.{Server, ServerState, on_guard, on_app}

pub unsupported : String → Option GoError
unsupported name =
    some (plain (text "github.com/blockberries/bapi: " ++ (text name ++ text " not supported")))

-- The zero values that stand beside an error.
abbrev no_result : ImportResult
no_result = record { status = unset_status; app_hash = none; reason = []; retry_indices = [] }

abbrev no_tx_outcome : TxOutcome
no_tx_outcome = record { index = 0; code = 0; info = []; payload = []; events = [] }

module _ {S : Type 0} (srv : Server S) where
  -- `ProposalControl`
  unfoldable pub build_proposal : ProposalContext → Action (ServerState S) (Fallible BuiltProposal)
  unfolding on_app unsupported
  build_proposal pctx = elim srv.proposal_ctl [
    | none ↦ pure (record { txs = [] }, unsupported "ProposalControl")
    | some p ↦ on_app (p.build_proposal pctx)
  ]

  unfoldable pub verify_proposal :
      ReceivedProposal → Action (ServerState S) (Fallible ProposalVerdict)
  unfolding on_app
  verify_proposal prop = elim srv.proposal_ctl [
    | none ↦ pure (record { accept = true; reject_reason = [] }, none)
    | some p ↦ on_app (p.verify_proposal prop)
  ]

  -- `VoteExtender`
  unfoldable pub extend_vote : VoteContext → Action (ServerState S) (Fallible Bytes)
  unfolding on_app unsupported
  extend_vote vctx = elim srv.vote_ext [
    | none ↦ pure ([], unsupported "VoteExtender")
    | some v ↦ on_app (v.extend_vote vctx)
  ]

  unfoldable pub verify_extension :
      ReceivedExtension → Action (ServerState S) (Fallible ExtensionVerdict)
  unfolding on_app
  verify_extension ext = elim srv.vote_ext [
    | none ↦ pure (extension_accept, none)
    | some v ↦ on_app (v.verify_extension ext)
  ]

  -- `StateSync`
  unfoldable pub available_snapshots : Action (ServerState S) (Fallible (List SnapshotDescriptor))
  unfolding on_app unsupported
  available_snapshots = elim srv.sync [
    | none ↦ pure ([], unsupported "StateSync")
    | some y ↦ on_app y.available_snapshots
  ]

  unfoldable pub export_snapshot : ℕ → ℕ → Action (ServerState S) (Fallible Export)
  unfolding on_app unsupported
  export_snapshot height format = elim srv.sync [
    | none ↦ pure (([], none), unsupported "StateSync")
    | some y ↦ on_app (y.export_snapshot height format)
  ]

  unfoldable pub import_snapshot :
      SnapshotDescriptor → List SnapshotChunk → Action (ServerState S) (Fallible ImportResult)
  unfolding on_app unsupported
  import_snapshot desc chunks = elim srv.sync [
    | none ↦ pure (no_result, unsupported "StateSync")
    | some y ↦ on_app (y.import_snapshot desc chunks)
  ]

  -- `Simulator`
  unfoldable pub simulate : Tx → Action (ServerState S) (Fallible TxOutcome)
  unfolding on_app on_guard unsupported
  simulate tx = elim srv.sim [
    | none ↦ pure (no_tx_outcome, unsupported "Simulator")
    | some m ↦ on_guard check_concurrent >> on_app (m.simulate tx)
  ]

  -- `MempoolObserver`
  unfoldable pub on_batch_certified : BatchCertifiedEvent → Action (ServerState S) (Option GoError)
  unfolding on_app on_guard
  on_batch_certified ev s = elim srv.mempool_obs [
    | none ↦ returned none s
    | some o ↦
        if has s.caps cap_mempool_observer
        then (on_guard check_concurrent >> on_app (o.on_batch_certified ev)) s
        else returned none s
  ]

  unfoldable pub on_block_constructed :
      BlockConstructedEvent → Action (ServerState S) (Option GoError)
  unfolding on_app on_guard
  on_block_constructed ev s = elim srv.mempool_obs [
    | none ↦ returned none s
    | some o ↦
        if has s.caps cap_mempool_observer
        then (on_guard check_concurrent >> on_app (o.on_block_constructed ev)) s
        else returned none s
  ]

  -- The accessors give the interface only if its capability was declared.
  unfoldable pub as_proposal_control : ServerState S → Option (ProposalControl S)
  as_proposal_control s = if has s.caps cap_proposal_control then srv.proposal_ctl else none

  unfoldable pub as_vote_extender : ServerState S → Option (VoteExtender S)
  as_vote_extender s = if has s.caps cap_vote_extensions then srv.vote_ext else none

  unfoldable pub as_state_sync : ServerState S → Option (StateSync S)
  as_state_sync s = if has s.caps cap_state_sync then srv.sync else none

  unfoldable pub as_simulator : ServerState S → Option (Simulator S)
  as_simulator s = if has s.caps cap_simulation then srv.sim else none

  unfoldable pub as_mempool_observer : ServerState S → Option (MempoolObserver S)
  as_mempool_observer s = if has s.caps cap_mempool_observer then srv.mempool_obs else none
