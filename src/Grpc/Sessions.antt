-- ===== src/Grpc/Sessions.antt =====
-- Sessions over the network and in process.
use bapi.Grpc.Calls.Lifecycle.{
  query-mirror, commit-mirror, execute_block-mirror, check_tx-mirror, handshake-mirror,
}
use bapi.Grpc.Calls.{mirror}
use bapi.Grpc.Client.Accessors.{client_connection}
use bapi.Local.{local_connection}
use bapi.Base.{[], ◌∷◌, map, arith, All, ◌≡◌, List}
use bapi.Engine.{answered, committed, executed, checked, shaken, Answer, dialogue, ask}
use bapi.Go.Run.{◌>>=◌, pure, resume-returned, returned, Fallible}
use bapi.Types.{
  HandshakeResponse, HandshakeRequest, BlockOutcome, StateQueryResult, GateVerdict, FinalizedBlock,
  CommitResult, MempoolContext, Tx, StateQuery,
}
use bapi.Guard.{
  fail_handshake, fail_execute, complete_handshake, complete_execute, complete_commit,
  acquire_handshake, check_concurrent, acquire_execute, acquire_commit,
}
use bapi.Grpc.Accessors.{
  ask-simulates, ask-imports, ask-exports, ask-lists_snapshots, ask-verifies_extension, ask-extends,
  ask-verifies, ask-builds, Sound,
}
use bapi.Grpc.Delivery.{seen, Lawful, Delivers}
use bapi.Server.{Server, new, ServerState}
use bapi.Grpc.Client.{Link}
use bapi.Grpc.Codec.{Cramberry}
use bapi.Server.Calls.{
  lists_snapshots, commits, simulates, imports, exports, verifies_extension, extends, verifies,
  builds, queries, executes, checks, handshakes, constructs, certifies, Call,
}
use bapi.Interfaces.{App}
use bapi.Server

module _ {S : Type 0} (app : App S) (s t : ServerState S) (sound : Sound app s) where
  handshake-Sound :
      (req : HandshakeRequest) (r : Fallible HandshakeResponse)
      → Server.handshake (new app) req s ≡ returned r t
      → Sound app t
  unfolding Server.handshake new acquire_handshake complete_handshake fail_handshake
  handshake-Sound req r h = ground (arith, sound)

  check_tx-Sound :
      (tx : Tx) (mctx : MempoolContext) (r : Fallible GateVerdict)
      → Server.check_tx (new app) tx mctx s ≡ returned r t
      → Sound app t
  unfolding Server.check_tx check_concurrent
  check_tx-Sound tx mctx r h = ground (arith, sound)

  execute_block-Sound :
      (b : FinalizedBlock) (r : Fallible BlockOutcome)
      → Server.execute_block (new app) b s ≡ returned r t
      → Sound app t
  unfolding Server.execute_block acquire_execute complete_execute fail_execute
  execute_block-Sound b r h = ground (arith, sound)

  commit-Sound :
      (r : Fallible CommitResult) → Server.commit (new app) s ≡ returned r t → Sound app t
  unfolding Server.commit acquire_commit complete_commit
  commit-Sound r h = ground (arith, sound)

  query-Sound :
      (q : StateQuery) (r : Fallible StateQueryResult)
      → Server.query (new app) q s ≡ returned r t
      → Sound app t
  unfolding Server.query check_concurrent
  query-Sound q r h = ground (arith, sound)

-- The calls that the transport carries: all but those of the mempool observer.
abbrev pub Carried : Call → Type 0
Carried (certifies ev) = ⊥
Carried (constructs ev) = ⊥
Carried _ = Unit {0}

module _ {S E : Type 0} (c : Cramberry E) (app : App S) (cc : Link (ServerState S) E)
    (d : Delivers c (new app) cc) (l : Lawful c) where
  abbrev srv : Server S
  srv = new app

  pub ask-mirror :
      (x : Call) (s t : ServerState S) (a : Answer)
      → Sound app s
      → Carried x
      → ask (local_connection app) x s ≡ returned a t
      → (ask (client_connection c cc) x (mirror s) ≡ returned (seen cc.status a) (mirror t))
        × Sound app t
  unfolding ask local_connection client_connection
  ask-mirror (handshakes req) s t a w y h =
      let (r, u, q, k) =
        resume-returned (Server.handshake srv req s) (λ x. pure (shaken x)) a t h in
      ground
        (arith, q, k, handshake-mirror c srv cc d l req s u r q, handshake-Sound app s u w req r q)
  ask-mirror (checks tx mctx) s t a w y h =
      let (r, u, q, k) =
        resume-returned (Server.check_tx srv tx mctx s) (λ x. pure (checked x)) a t h in
      ground (
        arith,
        q,
        k,
        check_tx-mirror c srv cc d l tx mctx s u r q,
        check_tx-Sound app s u w tx mctx r q,
      )
  ask-mirror (executes b) s t a w y h =
      let (r, u, q, k) =
        resume-returned (Server.execute_block srv b s) (λ x. pure (executed x)) a t h in
      ground (
        arith,
        q,
        k,
        execute_block-mirror c srv cc d l b s u r q,
        execute_block-Sound app s u w b r q,
      )
  ask-mirror commits s t a w y h =
      let (r, u, q, k) = resume-returned (Server.commit srv s) (λ x. pure (committed x)) a t h in
      ground (arith, q, k, commit-mirror c srv cc d l s u r q, commit-Sound app s u w r q)
  ask-mirror (queries q') s t a w y h =
      let (r, u, q, k) = resume-returned (Server.query srv q' s) (λ x. pure (answered x)) a t h in
      ground (arith, q, k, query-mirror c srv cc d l q' s u r q, query-Sound app s u w q' r q)
  ask-mirror (builds pctx) s t a w y h = ask-builds c app cc d l s t a w pctx h
  ask-mirror (verifies prop) s t a w y h = ask-verifies c app cc d l s t a w prop h
  ask-mirror (extends vctx) s t a w y h = ask-extends c app cc d l s t a w vctx h
  ask-mirror (verifies_extension ext) s t a w y h =
      ask-verifies_extension c app cc d l s t a w ext h
  ask-mirror lists_snapshots s t a w y h = ask-lists_snapshots c app cc d l s t a w h
  ask-mirror (exports height format) s t a w y h = ask-exports c app cc d l s t a w height format h
  ask-mirror (imports desc chunks) s t a w y h = ask-imports c app cc d l s t a w desc chunks h
  ask-mirror (simulates tx) s t a w y h = ask-simulates c app cc d l s t a w tx h
  ask-mirror (certifies ev) s t a w y h = absurd y
  ask-mirror (constructs ev) s t a w y h = absurd y

  -- A session that returns in process returns over the network: each answer is what the client
  -- sees of the answer in process, and client and server are in the same state of the guard and
  -- know the same capabilities as the server in process. This holds where gRPC delivers every
  -- message, cramberry decodes what it encodes, and no call is one of the mempool observer.
  pub remote_session :
      (xs : List Call) (s t : ServerState S) (answers : List Answer)
      → Sound app s
      → All Carried xs
      → dialogue (local_connection app) xs s ≡ returned answers t
      → dialogue (client_connection c cc) xs (mirror s)
        ≡ returned (map (seen cc.status) answers) (mirror t)
  unfolding dialogue
  remote_session [] s t answers w y h = ground (arith, h)
  remote_session (x ∷ xs) s t answers w y h =
      let local = local_connection app in
      let (a, u, q, k) =
        resume-returned (ask local x s) (λ a. dialogue local xs >>= λ rest. pure (a ∷ rest)) answers
          t h in
      let (rest, v, q', k') =
        resume-returned (dialogue local xs u) (λ rest. pure (a ∷ rest)) answers t k in
      let (first, w') = ask-mirror x s u a w y.0 q in
      ground (arith, first, k', remote_session xs u v rest w' y.1 q')
