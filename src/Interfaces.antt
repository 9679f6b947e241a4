-- ===== src/Interfaces.antt =====
-- bapi.go: the interfaces between engine and application, over the application's state `S`.
-- A context carries no data and is left out. A channel of chunks is the list of what it delivers
-- before it is closed.
use bapi.Base.{ℕ, List, Option}
use bapi.Go.Text.{Bytes}
use bapi.Go.Run.{Action, Fallible}
use bapi.Types.{
  Tx, HandshakeRequest, HandshakeResponse, MempoolContext, GateVerdict, FinalizedBlock,
  BlockOutcome, CommitResult, StateQuery, StateQueryResult, ProposalContext, BuiltProposal,
  ReceivedProposal, ProposalVerdict, VoteContext, ReceivedExtension, ExtensionVerdict,
  SnapshotDescriptor, SnapshotChunk, ImportResult, TxOutcome, BatchCertifiedEvent,
  BlockConstructedEvent,
}
use bapi.Go.Error.{GoError}

pub record ProposalControl (S : Type 0) : Type 0 where
  pub build_proposal : ProposalContext → Action S (Fallible BuiltProposal)
  pub verify_proposal : ReceivedProposal → Action S (Fallible ProposalVerdict)

pub record VoteExtender (S : Type 0) : Type 0 where
  pub extend_vote : VoteContext → Action S (Fallible Bytes)
  pub verify_extension : ReceivedExtension → Action S (Fallible ExtensionVerdict)

-- The answer of `ExportSnapshot`: the chunks and the descriptor.
abbrev pub Export : Type 0
Export = List SnapshotChunk × Option SnapshotDescriptor

pub record StateSync (S : Type 0) : Type 0 where
  pub available_snapshots : Action S (Fallible (List SnapshotDescriptor))
  pub export_snapshot : ℕ → ℕ → Action S (Fallible Export)
  pub import_snapshot : SnapshotDescriptor → List SnapshotChunk → Action S (Fallible ImportResult)

pub record Simulator (S : Type 0) : Type 0 where
  pub simulate : Tx → Action S (Fallible TxOutcome)

pub record MempoolObserver (S : Type 0) : Type 0 where
  pub on_batch_certified : BatchCertifiedEvent → Action S (Option GoError)
  pub on_block_constructed : BlockConstructedEvent → Action S (Option GoError)

pub record Lifecycle (S : Type 0) : Type 0 where
  pub handshake : HandshakeRequest → Action S (Fallible HandshakeResponse)
  pub check_tx : Tx → MempoolContext → Action S (Fallible GateVerdict)
  pub execute_block : FinalizedBlock → Action S (Fallible BlockOutcome)
  pub commit : Action S (Fallible CommitResult)
  pub query : StateQuery → Action S (Fallible StateQueryResult)

-- An application value: the methods of `Lifecycle`, and what a type assertion to each optional
-- interface yields.
pub record App (S : Type 0) : Type 0 where
  pub lifecycle : Lifecycle S
  pub proposal_control : Option (ProposalControl S)
  pub vote_extender : Option (VoteExtender S)
  pub state_sync : Option (StateSync S)
  pub simulator : Option (Simulator S)
  pub mempool_observer : Option (MempoolObserver S)

-- The engine's side: what `Connection` offers over a state `T` of the connection and of all behind
-- it. An accessor gives an interface or nil.
pub record Connection (T : Type 0) : Type 0 where
  pub lifecycle : Lifecycle T
  pub capabilities : T → ℕ
  pub as_proposal_control : T → Option (ProposalControl T)
  pub as_vote_extender : T → Option (VoteExtender T)
  pub as_state_sync : T → Option (StateSync T)
  pub as_simulator : T → Option (Simulator T)
  pub as_mempool_observer : T → Option (MempoolObserver T)
  pub close : Action T (Option GoError)
