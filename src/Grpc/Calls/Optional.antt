-- ===== src/Grpc/Calls/Optional.antt =====
-- The methods of the optional interfaces over the network.
use bapi.Grpc.Client.Wrappers.{no_tx_outcome}
use bapi.Grpc.GrpcServer.{map_done, answered}
use bapi.Grpc.Calls.{invoke-delivered, mirror}
use bapi.Go.Order.{bytes_eq}
use bapi.Base.{refl, arith, false, [], ◌≡◌, List}
use bapi.Go.Text.{text, Bytes}
use bapi.Grpc.Service.{methods, find_method}
use bapi.Guard.{check_concurrent}
use bapi.Types.{
  extension_reject, TxOutcome, SnapshotDescriptor, Tx, ProposalVerdict, ExtensionVerdict,
  BuiltProposal, VoteContext, ReceivedProposal, ReceivedExtension, ProposalContext,
}
use bapi.Go.Run.{returned, Fallible}
use bapi.Grpc.Delivery.{seen_as, Lawful, Delivers}
use bapi.Grpc.Client.{invoke, Link}
use bapi.Server.{ServerState, Server}
use bapi.Grpc.Codec.{relayed, Cramberry}
use bapi.Grpc.GrpcServer
use bapi.Grpc.Client.Wrappers
use bapi.Server.Optional

module _ {S E : Type 0} (c : Cramberry E) (srv : Server S) (cc : Link (ServerState S) E)
    (d : Delivers c srv cc) (l : Lawful c) where
  build_proposal-invoke :
      (pctx : ProposalContext) (s t : ServerState S) (r : Fallible BuiltProposal)
      → Optional.build_proposal srv pctx s ≡ returned r t
      → invoke c cc "BuildProposal" c.proposal_context c.built_proposal pctx s
        ≡ returned (relayed cc.status (answered r)) t
  unfolding find_method methods bytes_eq text GrpcServer.build_proposal
  build_proposal-invoke pctx s t r h =
      invoke-delivered c srv cc d "BuildProposal" c.proposal_context c.built_proposal
        (GrpcServer.build_proposal srv) refl l.proposal_context l.built_proposal pctx s t
        (answered r) (rw h refl)

  pub build_proposal-mirror :
      (pctx : ProposalContext) (s t : ServerState S) (r : Fallible BuiltProposal)
      → Optional.build_proposal srv pctx s ≡ returned r t
      → Wrappers.build_proposal c cc pctx (mirror s)
        ≡ returned (seen_as (record { txs = [] }) cc.status r) (mirror t)
  unfolding Wrappers.build_proposal Optional.build_proposal
  build_proposal-mirror pctx s t r h = ground (arith, build_proposal-invoke pctx s t r h)

  verify_proposal-invoke :
      (prop : ReceivedProposal) (s t : ServerState S) (r : Fallible ProposalVerdict)
      → Optional.verify_proposal srv prop s ≡ returned r t
      → invoke c cc "VerifyProposal" c.received_proposal c.proposal_verdict prop s
        ≡ returned (relayed cc.status (answered r)) t
  unfolding find_method methods bytes_eq text GrpcServer.verify_proposal
  verify_proposal-invoke prop s t r h =
      invoke-delivered c srv cc d "VerifyProposal" c.received_proposal c.proposal_verdict
        (GrpcServer.verify_proposal srv) refl l.received_proposal l.proposal_verdict prop s t
        (answered r) (rw h refl)

  pub verify_proposal-mirror :
      (prop : ReceivedProposal) (s t : ServerState S) (r : Fallible ProposalVerdict)
      → Optional.verify_proposal srv prop s ≡ returned r t
      → Wrappers.verify_proposal c cc prop (mirror s)
        ≡ returned (seen_as (record { accept = false; reject_reason = [] }) cc.status r) (mirror t)
  unfolding Wrappers.verify_proposal Optional.verify_proposal
  verify_proposal-mirror prop s t r h = ground (arith, verify_proposal-invoke prop s t r h)

  extend_vote-invoke :
      (vctx : VoteContext) (s t : ServerState S) (r : Fallible Bytes)
      → Optional.extend_vote srv vctx s ≡ returned r t
      → invoke c cc "ExtendVote" c.vote_context c.extend_vote_response vctx s
        ≡ returned (relayed cc.status (map_done (λ ext. record { extension = ext }) (answered r))) t
  unfolding find_method methods bytes_eq text GrpcServer.extend_vote
  extend_vote-invoke vctx s t r h =
      invoke-delivered c srv cc d "ExtendVote" c.vote_context c.extend_vote_response
        (GrpcServer.extend_vote srv) refl l.vote_context l.extend_vote_response vctx s t
        (map_done (λ ext. record { extension = ext }) (answered r)) (rw h refl)

  pub extend_vote-mirror :
      (vctx : VoteContext) (s t : ServerState S) (r : Fallible Bytes)
      → Optional.extend_vote srv vctx s ≡ returned r t
      → Wrappers.extend_vote c cc vctx (mirror s) ≡ returned (seen_as [] cc.status r) (mirror t)
  unfolding Wrappers.extend_vote Optional.extend_vote
  extend_vote-mirror vctx s t r h = ground (arith, extend_vote-invoke vctx s t r h)

  verify_extension-invoke :
      (ext : ReceivedExtension) (s t : ServerState S) (r : Fallible ExtensionVerdict)
      → Optional.verify_extension srv ext s ≡ returned r t
      → invoke c cc "VerifyExtension" c.received_extension c.extension_verdict_response ext s
        ≡ returned (relayed cc.status (map_done (λ v. record { verdict = v }) (answered r))) t
  unfolding find_method methods bytes_eq text GrpcServer.verify_extension
  verify_extension-invoke ext s t r h =
      invoke-delivered c srv cc d "VerifyExtension" c.received_extension
        c.extension_verdict_response (GrpcServer.verify_extension srv) refl l.received_extension
        l.extension_verdict_response ext s t (map_done (λ v. record { verdict = v }) (answered r))
        (rw h refl)

  pub verify_extension-mirror :
      (ext : ReceivedExtension) (s t : ServerState S) (r : Fallible ExtensionVerdict)
      → Optional.verify_extension srv ext s ≡ returned r t
      → Wrappers.verify_extension c cc ext (mirror s)
        ≡ returned (seen_as extension_reject cc.status r) (mirror t)
  unfolding Wrappers.verify_extension Optional.verify_extension
  verify_extension-mirror ext s t r h = ground (arith, verify_extension-invoke ext s t r h)

  available_snapshots-invoke :
      (s t : ServerState S) (r : Fallible (List SnapshotDescriptor))
      → Optional.available_snapshots srv s ≡ returned r t
      → invoke c cc "AvailableSnapshots" c.available_snapshots_request
          c.available_snapshots_response
          (record {})
          s
        ≡ returned (relayed cc.status (map_done (λ xs. record { snapshots = xs }) (answered r))) t
  unfolding find_method methods bytes_eq text GrpcServer.available_snapshots
  available_snapshots-invoke s t r h =
      invoke-delivered c srv cc d "AvailableSnapshots" c.available_snapshots_request
        c.available_snapshots_response (GrpcServer.available_snapshots srv) refl
        l.available_snapshots_request l.available_snapshots_response (record {}) s t
        (map_done (λ xs. record { snapshots = xs }) (answered r)) (rw h refl)

  pub available_snapshots-mirror :
      (s t : ServerState S) (r : Fallible (List SnapshotDescriptor))
      → Optional.available_snapshots srv s ≡ returned r t
      → Wrappers.available_snapshots c cc (mirror s) ≡ returned (seen_as [] cc.status r) (mirror t)
  unfolding Wrappers.available_snapshots Optional.available_snapshots
  available_snapshots-mirror s t r h = ground (arith, available_snapshots-invoke s t r h)

  simulate-invoke :
      (tx : Tx) (s t : ServerState S) (r : Fallible TxOutcome)
      → Optional.simulate srv tx s ≡ returned r t
      → invoke c cc "Simulate" c.simulate_request c.tx_outcome (record { tx = tx }) s
        ≡ returned (relayed cc.status (answered r)) t
  unfolding find_method methods bytes_eq text GrpcServer.simulate
  simulate-invoke tx s t r h =
      invoke-delivered c srv cc d "Simulate" c.simulate_request c.tx_outcome
        (GrpcServer.simulate srv) refl l.simulate_request l.tx_outcome (record { tx = tx }) s t
        (answered r) (rw h refl)

  pub simulate-mirror :
      (tx : Tx) (s t : ServerState S) (r : Fallible TxOutcome)
      → Optional.simulate srv tx s ≡ returned r t
      → Wrappers.simulate c cc tx (mirror s)
        ≡ returned (seen_as no_tx_outcome cc.status r) (mirror t)
  unfolding Wrappers.simulate Optional.simulate check_concurrent
  simulate-mirror tx s t r h = ground (arith, simulate-invoke tx s t r h)
