-- ===== src/Grpc/Faults.antt =====
-- Calls over the network that fail, and what errors lose on the way.
use bapi.Grpc.GrpcServer.{exported, answered}
use bapi.Grpc.Calls.Streams.{
  handled_export, read_chunks-take, handled_import, encode-Reads, export_snapshot-mirror,
}
use bapi.Grpc.Client.Accessors.{client_connection}
use bapi.Interfaces.{Export}
use bapi.Grpc.Client.Wrappers.{chunk_message, descriptor_message, encode_all}
use bapi.Engine.{ask}
use bapi.Server.Calls.{commits, queries, executes, checks, handshakes, Call}
use bapi.Grpc.Calls.{mirror}
use bapi.Go.Error.{GoError}
use bapi.Go.Run.{Fallible, returned, panicked}
use bapi.Base.{
  if◌then◌else◌, Bool, false, Option, map, ◌∷◌, take, [], List, ℕ, true, some, none, arith, ◌≡◌,
}
use bapi.Guard.{
  too_early, state_init, LifecycleState, Guard, state_executed, state_executing, state_ready,
  wrong_state, check_concurrent, acquire_commit, complete_execute, fail_execute, acquire_handshake,
  acquire_execute,
}
use bapi.Grpc.Service.{encoded, full_method, handler_execute_block}
use bapi.Types.{ImportResult, SnapshotChunk, SnapshotDescriptor, BlockOutcome, FinalizedBlock}
use bapi.Grpc.Delivery.{Delivers, Lawful}
use bapi.Go.Text.{Bytes}
use bapi.Server.{ServerState, Server}
use bapi.Grpc.Client.{no_outcome, invoke, ClientState, Link}
use bapi.Grpc.Codec.{failed, done, unmarshal, marshal, Cramberry}
use bapi.Server
use bapi.Server.Optional
use bapi.Grpc.Client
use bapi.Grpc.Client.Wrappers
use bapi.Grpc.GrpcServer

abbrev in_state : LifecycleState → LifecycleState → Bool
in_state state_init state_init = true
in_state state_ready state_ready = true
in_state state_executed state_executed = true
in_state _ _ = false

-- The message of the panic, for a call that is out of turn: a handshake after the first, a block
-- before a handshake or before the commit of the last one, a commit without a block, and a check or
-- a query before a handshake has succeeded.
abbrev pub violation : Call → Guard → Option Bytes
violation (handshakes req) g =
    if in_state state_init g.state then none else some (wrong_state "Handshake" "Init" g.state)
violation (executes b) g =
    if in_state state_ready g.state then none else some (wrong_state "ExecuteBlock" "Ready" g.state)
violation commits g =
    if in_state state_executed g.state then none else some (wrong_state "Commit" "Executed" g.state)
violation (checks tx mctx) g = if g.handshake_done then none else some too_early
violation (queries q) g = if g.handshake_done then none else some too_early
violation _ g = none

-- The client has protocol state of its own: where no call holds its mutex, a call that is out of
-- turn is never sent, whatever the link does. The client panics with the guard's message, and
-- client and peer are as before.
pub refused_at_client :
    {R E : Type 0} (c : Cramberry E) (cc : Link R E) (s : ClientState R) (m : Bytes) (x : Call)
    → s.guard.seq_mu ≡ false
    → violation x s.guard ≡ some m
    → ask (client_connection c cc) x s ≡ panicked m s
unfolding ask client_connection Client.handshake Client.execute_block Client.commit Client.check_tx
    Client.query acquire_handshake acquire_execute acquire_commit check_concurrent too_early
refused_at_client c conn s m (handshakes req) f h = ground arith
refused_at_client c conn s m (checks tx mctx) f h = ground arith
refused_at_client c conn s m (executes b) f h = ground arith
refused_at_client c conn s m commits f h = ground arith
refused_at_client c conn s m (queries q) f h = ground arith
refused_at_client c conn s m _ f h = cc

module _ {S E : Type 0} (c : Cramberry E) (srv : Server S) (cc : Link (ServerState S) E)
    (l : Lawful c) where
  -- When ExecuteBlock succeeds at the server and its reply is lost, the client returns an error and
  -- is ready, while the server holds the outcome. The client then refuses to commit, and if it
  -- executes a block again, as it may, the call panics in the server.
  pub lost_reply :
      (b b' : FinalizedBlock) (s t : ServerState S) (o : BlockOutcome) (e : GoError) (x x' : E)
      → Server.execute_block srv b s ≡ returned (o, none) t
      → c.finalized_block.encode b ≡ done x
      → c.finalized_block.decode x' ≡ done b'
      → cc.unary (full_method "ExecuteBlock") x s ≡ returned (failed e) t
      → let lost = record (mirror s) { remote = t } in
        (Client.execute_block c cc b (mirror s) ≡ returned (no_outcome, some e) lost)
        × (Client.commit c cc lost ≡ panicked (wrong_state "Commit" "Executed" state_ready) lost)
        × (acquire_execute lost.guard
            ≡ returned tt (record lost.guard { state = state_executing; seq_mu = true }))
        × (handler_execute_block c srv x' t
            ≡ panicked (wrong_state "ExecuteBlock" "Ready" state_executed) t)
  unfolding Client.execute_block Client.commit Server.execute_block invoke marshal unmarshal
      handler_execute_block GrpcServer.execute_block acquire_execute fail_execute complete_execute
      acquire_commit
  lost_reply b b' s t o e x x' h ex dx' u = (ground arith, ground arith, ground arith, ground arith)

  -- An export that the server refuses looks at the client like one of no chunks: the stream brings
  -- the status of the error, and the client returns no error, no chunk and no descriptor.
  pub export_error_hidden :
      (height format : ℕ) (s t : ServerState S) (x : Export) (e : GoError)
      → Delivers c srv cc
      → Optional.export_snapshot srv height format s ≡ returned (x, some e) t
      → (m : E) × (marshal c.export_snapshot_request (record { height = height; format = format })
          ≡ done m)
        × (cc.pull (full_method "ExportSnapshot") m s ≡ returned (done ([], cc.status e)) t)
        × (Wrappers.export_snapshot c cc height format (mirror s)
            ≡ returned (([], none), none) (mirror t))
  unfolding marshal exported
  export_error_hidden height format s t x e d h =
      let (m, em, dm) = l.export_snapshot_request (record { height = height; format = format }) in
      (
        m,
        ground (arith, em),
        d.pull m s t [] (some e) (handled_export c srv cc l height format m s t (x, some e) dm h),
        export_snapshot-mirror c srv cc d l height format s t (x, some e) h,
      )

  -- An import whose stream breaks after the first `k` chunks is to the server's application an
  -- import of just these chunks: it is not told of the error.
  pub import_cut :
      (desc : SnapshotDescriptor) (chunks : List SnapshotChunk) (k : ℕ) (ending : GoError)
      (s t : ServerState S) (r : Fallible ImportResult)
      → Optional.import_snapshot srv desc (take k chunks) s ≡ returned r t
      → (m : E) × (ms : List E) × (encode_all c cc
            (descriptor_message desc ∷ map chunk_message chunks)
          ≡ (m ∷ ms, none))
        × (GrpcServer.import_snapshot c srv (m ∷ take k ms) ending s
            ≡ returned (encoded c.import_result (answered r)) t)
  unfolding encode_all marshal
  import_cut desc chunks k ending s t r h =
      let (m, em, dm) = l.import_snapshot_message (descriptor_message desc) in
      let (ms, ems, dms) = encode-Reads c srv cc l chunks in
      (
        m,
        ms,
        ground (arith, em, ems),
        handled_import c srv cc l desc (take k chunks) m (take k ms) ending s t r dm
            (read_chunks-take c srv cc l k ms chunks dms) h,
      )
