-- ===== src/Local.antt =====
-- local/local.go: the in-process connection. It forwards every call to the server that it wraps.
use mathlib.Core.Option.{map as map_option}
use bapi.Interfaces
use bapi.Base.{none, ℕ, Option}
use bapi.Server.{on_app, new, ServerState, Server}
use bapi.Types.{
  StateQueryResult, HandshakeResponse, GateVerdict, CommitResult, BlockOutcome, MempoolContext, Tx,
  StateQuery, HandshakeRequest, FinalizedBlock,
}
use bapi.Go.Run.{pure, Fallible, Action}
use bapi.Server
use bapi.Server.Optional
use bapi.Interfaces.{VoteExtender, StateSync, Simulator, ProposalControl, MempoolObserver, App}

pub record Connection (S : Type 0) : Type 0 where
  pub srv : Server S

unfoldable pub new_connection : {S : Type 0} → App S → Connection S
unfolding new
new_connection app = record { srv = new app }

module _ {S : Type 0} (c : Connection S) where
  unfoldable pub handshake : HandshakeRequest → Action (ServerState S) (Fallible HandshakeResponse)
  handshake = Server.handshake c.srv

  unfoldable pub check_tx : Tx → MempoolContext → Action (ServerState S) (Fallible GateVerdict)
  check_tx = Server.check_tx c.srv

  unfoldable pub execute_block : FinalizedBlock → Action (ServerState S) (Fallible BlockOutcome)
  execute_block = Server.execute_block c.srv

  unfoldable pub commit : Action (ServerState S) (Fallible CommitResult)
  commit = Server.commit c.srv

  unfoldable pub query : StateQuery → Action (ServerState S) (Fallible StateQueryResult)
  query = Server.query c.srv

  unfoldable pub capabilities : ServerState S → ℕ
  capabilities = Server.capabilities

  unfoldable pub as_proposal_control : ServerState S → Option (ProposalControl S)
  as_proposal_control = Optional.as_proposal_control c.srv

  unfoldable pub as_vote_extender : ServerState S → Option (VoteExtender S)
  as_vote_extender = Optional.as_vote_extender c.srv

  unfoldable pub as_state_sync : ServerState S → Option (StateSync S)
  as_state_sync = Optional.as_state_sync c.srv

  unfoldable pub as_simulator : ServerState S → Option (Simulator S)
  as_simulator = Optional.as_simulator c.srv

  unfoldable pub as_mempool_observer : ServerState S → Option (MempoolObserver S)
  as_mempool_observer = Optional.as_mempool_observer c.srv

-- The connection as the interface: an optional interface of the application is called directly.
through_proposal : {S : Type 0} → ProposalControl S → ProposalControl (ServerState S)
unfolding on_app
through_proposal p = record {
  build_proposal = λ pctx. on_app (p.build_proposal pctx);
  verify_proposal = λ prop. on_app (p.verify_proposal prop);
}

through_votes : {S : Type 0} → VoteExtender S → VoteExtender (ServerState S)
unfolding on_app
through_votes v = record {
  extend_vote = λ vctx. on_app (v.extend_vote vctx);
  verify_extension = λ ext. on_app (v.verify_extension ext);
}

through_sync : {S : Type 0} → StateSync S → StateSync (ServerState S)
unfolding on_app
through_sync y = record {
  available_snapshots = on_app y.available_snapshots;
  export_snapshot = λ height format. on_app (y.export_snapshot height format);
  import_snapshot = λ desc chunks. on_app (y.import_snapshot desc chunks);
}

through_simulator : {S : Type 0} → Simulator S → Simulator (ServerState S)
unfolding on_app
through_simulator m = record { simulate = λ tx. on_app (m.simulate tx) }

through_observer : {S : Type 0} → MempoolObserver S → MempoolObserver (ServerState S)
unfolding on_app
through_observer o = record {
  on_batch_certified = λ ev. on_app (o.on_batch_certified ev);
  on_block_constructed = λ ev. on_app (o.on_block_constructed ev);
}

unfoldable pub local_connection : {S : Type 0} → App S → Interfaces.Connection (ServerState S)
unfolding new_connection handshake check_tx execute_block commit query capabilities
    as_proposal_control as_vote_extender as_state_sync as_simulator as_mempool_observer
    through_proposal through_votes through_sync through_simulator through_observer
local_connection app = record {
  lifecycle = record {
    handshake = handshake (new_connection app);
    check_tx = check_tx (new_connection app);
    execute_block = execute_block (new_connection app);
    commit = commit (new_connection app);
    query = query (new_connection app);
  };
  capabilities = capabilities (new_connection app);
  as_proposal_control =
      λ s. map_option through_proposal (as_proposal_control (new_connection app) s);
  as_vote_extender = λ s. map_option through_votes (as_vote_extender (new_connection app) s);
  as_state_sync = λ s. map_option through_sync (as_state_sync (new_connection app) s);
  as_simulator = λ s. map_option through_simulator (as_simulator (new_connection app) s);
  as_mempool_observer =
      λ s. map_option through_observer (as_mempool_observer (new_connection app) s);
  close = pure none;
}
