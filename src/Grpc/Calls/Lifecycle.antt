-- ===== src/Grpc/Calls/Lifecycle.antt =====
-- The methods of `Lifecycle` over the network.
use bapi.Grpc.GrpcServer.{answered}
use bapi.Grpc.Calls.{invoke-delivered, mirror}
use bapi.Base.{refl, arith, ◌≡◌}
use bapi.Go.Run.{returned, Fallible}
use bapi.Guard.{
  fail_handshake, complete_handshake, complete_commit, check_concurrent, acquire_handshake,
  acquire_commit, fail_execute, complete_execute, acquire_execute,
}
use bapi.Types.{
  GateVerdict, StateQueryResult, MempoolContext, HandshakeResponse, Tx, StateQuery,
  HandshakeRequest, CommitResult, BlockOutcome, FinalizedBlock,
}
use bapi.Grpc.GrpcServer
use bapi.Grpc.Client
use bapi.Server
use bapi.Go.Text.{text}
use bapi.Go.Order.{bytes_eq}
use bapi.Grpc.Service.{methods, find_method}
use bapi.Grpc.Delivery.{seen_as, Lawful, Delivers}
use bapi.Grpc.Client.{no_verdict, no_handshake, no_commit, no_answer, no_outcome, invoke, Link}
use bapi.Server.{ServerState, Server}
use bapi.Grpc.Codec.{relayed, Cramberry}

module _ {S E : Type 0} (c : Cramberry E) (srv : Server S) (cc : Link (ServerState S) E)
    (d : Delivers c srv cc) (l : Lawful c) where
  execute_block-invoke :
      (b : FinalizedBlock) (s t : ServerState S) (r : Fallible BlockOutcome)
      → Server.execute_block srv b s ≡ returned r t
      → invoke c cc "ExecuteBlock" c.finalized_block c.block_outcome b s
        ≡ returned (relayed cc.status (answered r)) t
  unfolding find_method methods bytes_eq text GrpcServer.execute_block
  execute_block-invoke b s t r h =
      invoke-delivered c srv cc d "ExecuteBlock" c.finalized_block c.block_outcome
        (GrpcServer.execute_block srv) refl l.finalized_block l.block_outcome b s t (answered r)
        (rw h refl)

  pub execute_block-mirror :
      (b : FinalizedBlock) (s t : ServerState S) (r : Fallible BlockOutcome)
      → Server.execute_block srv b s ≡ returned r t
      → Client.execute_block c cc b (mirror s)
        ≡ returned (seen_as no_outcome cc.status r) (mirror t)
  unfolding Client.execute_block Server.execute_block acquire_execute complete_execute fail_execute
  execute_block-mirror b s t r h = ground (arith, execute_block-invoke b s t r h)

  handshake-invoke :
      (req : HandshakeRequest) (s t : ServerState S) (r : Fallible HandshakeResponse)
      → Server.handshake srv req s ≡ returned r t
      → invoke c cc "Handshake" c.handshake_request c.handshake_response req s
        ≡ returned (relayed cc.status (answered r)) t
  unfolding find_method methods bytes_eq text GrpcServer.handshake
  handshake-invoke req s t r h =
      invoke-delivered c srv cc d "Handshake" c.handshake_request c.handshake_response
        (GrpcServer.handshake srv) refl l.handshake_request l.handshake_response req s t
        (answered r) (rw h refl)

  pub handshake-mirror :
      (req : HandshakeRequest) (s t : ServerState S) (r : Fallible HandshakeResponse)
      → Server.handshake srv req s ≡ returned r t
      → Client.handshake c cc req (mirror s)
        ≡ returned (seen_as no_handshake cc.status r) (mirror t)
  unfolding Client.handshake Server.handshake acquire_handshake complete_handshake fail_handshake
  handshake-mirror req s t r h = ground (arith, handshake-invoke req s t r h)

  check_tx-invoke :
      (tx : Tx) (mctx : MempoolContext) (s t : ServerState S) (r : Fallible GateVerdict)
      → Server.check_tx srv tx mctx s ≡ returned r t
      → invoke c cc "CheckTx" c.check_tx_request c.gate_verdict (record { tx = tx; mctx = mctx }) s
        ≡ returned (relayed cc.status (answered r)) t
  unfolding find_method methods bytes_eq text GrpcServer.check_tx
  check_tx-invoke tx mctx s t r h =
      invoke-delivered c srv cc d "CheckTx" c.check_tx_request c.gate_verdict
        (GrpcServer.check_tx srv) refl l.check_tx_request l.gate_verdict
        (record { tx = tx; mctx = mctx }) s t (answered r) (rw h refl)

  pub check_tx-mirror :
      (tx : Tx) (mctx : MempoolContext) (s t : ServerState S) (r : Fallible GateVerdict)
      → Server.check_tx srv tx mctx s ≡ returned r t
      → Client.check_tx c cc tx mctx (mirror s)
        ≡ returned (seen_as no_verdict cc.status r) (mirror t)
  unfolding Client.check_tx Server.check_tx check_concurrent
  check_tx-mirror tx mctx s t r h = ground (arith, check_tx-invoke tx mctx s t r h)

  commit-invoke :
      (s t : ServerState S) (r : Fallible CommitResult)
      → Server.commit srv s ≡ returned r t
      → invoke c cc "Commit" c.commit_request c.commit_result (record {}) s
        ≡ returned (relayed cc.status (answered r)) t
  unfolding find_method methods bytes_eq text GrpcServer.commit
  commit-invoke s t r h =
      invoke-delivered c srv cc d "Commit" c.commit_request c.commit_result (GrpcServer.commit srv)
        refl l.commit_request l.commit_result (record {}) s t (answered r) (rw h refl)

  pub commit-mirror :
      (s t : ServerState S) (r : Fallible CommitResult)
      → Server.commit srv s ≡ returned r t
      → Client.commit c cc (mirror s) ≡ returned (seen_as no_commit cc.status r) (mirror t)
  unfolding Client.commit Server.commit acquire_commit complete_commit
  commit-mirror s t r h = ground (arith, commit-invoke s t r h)

  query-invoke :
      (q : StateQuery) (s t : ServerState S) (r : Fallible StateQueryResult)
      → Server.query srv q s ≡ returned r t
      → invoke c cc "Query" c.state_query c.state_query_result q s
        ≡ returned (relayed cc.status (answered r)) t
  unfolding find_method methods bytes_eq text GrpcServer.query
  query-invoke q s t r h =
      invoke-delivered c srv cc d "Query" c.state_query c.state_query_result (GrpcServer.query srv)
        refl l.state_query l.state_query_result q s t (answered r) (rw h refl)

  pub query-mirror :
      (q : StateQuery) (s t : ServerState S) (r : Fallible StateQueryResult)
      → Server.query srv q s ≡ returned r t
      → Client.query c cc q (mirror s) ≡ returned (seen_as no_answer cc.status r) (mirror t)
  unfolding Client.query Server.query check_concurrent
  query-mirror q s t r h = ground (arith, query-invoke q s t r h)
