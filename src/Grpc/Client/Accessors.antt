-- ===== src/Grpc/Client/Accessors.antt =====
-- grpc/client.go: the accessors for the optional interfaces, and the client as a `Connection`.
use bapi.Grpc.Client.Wrappers
use bapi.Types.Capability.{
  cap_vote_extensions, cap_state_sync, cap_simulation, cap_proposal_control, cap_mempool_observer,
  has,
}
use bapi.Go.Error.{GoError}
use bapi.Base.{none, some, if◌then◌else◌, Option}
use bapi.Go.Run.{Action}
use bapi.Grpc.Client
use bapi.Interfaces.{
  VoteExtender, StateSync, Simulator, ProposalControl, MempoolObserver, Connection,
}
use bapi.Grpc.Client.{on_remote, ClientState, Link}
use bapi.Grpc.Codec.{Cramberry}

module _ {R E : Type 0} (c : Cramberry E) (cc : Link R E) where
  unfoldable pub as_proposal_control : ClientState R → Option (ProposalControl (ClientState R))
  as_proposal_control s =
      if has s.caps cap_proposal_control
      then some (record {
        build_proposal = Wrappers.build_proposal c cc;
        verify_proposal = Wrappers.verify_proposal c cc;
      })
      else none

  unfoldable pub as_vote_extender : ClientState R → Option (VoteExtender (ClientState R))
  as_vote_extender s =
      if has s.caps cap_vote_extensions
      then some (record {
        extend_vote = Wrappers.extend_vote c cc;
        verify_extension = Wrappers.verify_extension c cc;
      })
      else none

  unfoldable pub as_state_sync : ClientState R → Option (StateSync (ClientState R))
  as_state_sync s =
      if has s.caps cap_state_sync
      then some (record {
        available_snapshots = Wrappers.available_snapshots c cc;
        export_snapshot = Wrappers.export_snapshot c cc;
        import_snapshot = Wrappers.import_snapshot c cc;
      })
      else none

  unfoldable pub as_simulator : ClientState R → Option (Simulator (ClientState R))
  as_simulator s =
      if has s.caps cap_simulation
      then some (record { simulate = Wrappers.simulate c cc })
      else none

  unfoldable pub as_mempool_observer : ClientState R → Option (MempoolObserver (ClientState R))
  as_mempool_observer s =
      if has s.caps cap_mempool_observer
      then some (record {
        on_batch_certified = Wrappers.on_batch_certified c cc;
        on_block_constructed = Wrappers.on_block_constructed c cc;
      })
      else none

  -- `Close`
  unfoldable pub close_client : Action (ClientState R) (Option GoError)
  unfolding on_remote
  close_client = on_remote cc.close

  unfoldable pub client_connection : Connection (ClientState R)
  unfolding as_proposal_control as_vote_extender as_state_sync as_simulator as_mempool_observer
      close_client
  client_connection = record {
    lifecycle = record {
      handshake = Client.handshake c cc;
      check_tx = Client.check_tx c cc;
      execute_block = Client.execute_block c cc;
      commit = Client.commit c cc;
      query = Client.query c cc;
    };
    capabilities = Client.capabilities;
    as_proposal_control = as_proposal_control;
    as_vote_extender = as_vote_extender;
    as_state_sync = as_state_sync;
    as_simulator = as_simulator;
    as_mempool_observer = as_mempool_observer;
    close = close_client;
  }
