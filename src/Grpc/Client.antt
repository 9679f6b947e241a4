-- ===== src/Grpc/Client.antt =====
-- grpc/client.go: the engine's side. The package google.golang.org/grpc is the parameter `Link`.
pub mod Wrappers
pub mod Accessors
use bapi.Grpc.Service.{full_method}
use bapi.Go.Error.{wrapped, GoError}
use bapi.Base.Int.{pos}
use bapi.Base.{◌++◌, Option, some, Bool, none, [], String, List, ℕ}
use bapi.Guard.{
  complete_commit, complete_handshake, complete_execute, fail_handshake, fail_execute,
  check_concurrent, acquire_handshake, acquire_execute, acquire_commit, Guard, new_guard,
}
use bapi.Grpc.Codec.{relayed, unmarshal, marshal, done, failed, Codec, Cramberry, Coding}
use bapi.Go.Text.{text, Bytes}
use bapi.Types.{
  zero_hash, MempoolContext, Tx, StateQuery, HandshakeRequest, FinalizedBlock, StateQueryResult,
  HandshakeResponse, GateVerdict, CommitResult, BlockOutcome,
}
use bapi.Go.Run.{◌>>=◌, pure, blocked, ◌>>◌, panicked, returned, Fallible, Action}

-- A `*grpc.ClientConn` to a peer with state `R`: a unary call, a call that is answered by a stream
-- (its messages, and the error of the RecvMsg after the last one), one that sends a stream (which
-- the caller completes with CloseSend, or abandons), the error that gRPC makes of one of the codec,
-- and Close.
pub record Link (R E : Type 0) : Type 0 where
  pub unary : Bytes → E → Action R (Coding E)
  pub pull : Bytes → E → Action R (Coding (List E × GoError))
  pub push : Bytes → List E → Bool → Action R (Coding E)
  pub status : GoError → GoError
  pub close : Action R (Option GoError)

pub record ClientState (R : Type 0) : Type 0 where
  pub caps : ℕ
  pub guard : Guard
  pub remote : R

-- `Dial`: what `grpc.DialContext` gives is a peer or an error; the fixed part of a client is the
-- link.
unfoldable pub dial : {R : Type 0} → Bytes → Coding R → Coding (ClientState R)
unfolding new_guard
dial addr (failed e) =
    failed (wrapped (text "github.com/blockberries/bapi client: dial " ++ (addr ++ text ": ")) e)
dial addr (done r) = done (record { caps = 0; guard = new_guard; remote = r })

unfoldable pub on_client : {R A : Type 0} → Action Guard A → Action (ClientState R) A
on_client m s = elim (m s.guard) [
  | returned a g ↦ returned a (record s { guard = g })
  | panicked e g ↦ panicked e (record s { guard = g })
  | blocked g ↦ blocked (record s { guard = g })
]

unfoldable pub on_remote : {R A : Type 0} → Action R A → Action (ClientState R) A
on_remote m s = elim (m s.remote) [
  | returned a r ↦ returned a (record s { remote = r })
  | panicked e r ↦ panicked e (record s { remote = r })
  | blocked r ↦ blocked (record s { remote = r })
]

set_caps : {R : Type 0} → ℕ → Action (ClientState R) (Unit {0})
set_caps n s = returned tt (record s { caps = n })

-- `if err != nil { return zero, err }; return *resp, nil`
abbrev pub or_zero : {A : Type 0} → A → Coding A → Fallible A
or_zero zero_value (failed e) = (zero_value, some e)
or_zero zero_value (done a) = (a, none)

abbrev pub no_handshake : HandshakeResponse
no_handshake = record { last_block = none; app_hash = none; capabilities = 0 }

abbrev pub no_verdict : GateVerdict
no_verdict = record { code = 0; info = []; priority = pos 0; sender = [] }

abbrev pub no_outcome : BlockOutcome
no_outcome = record {
  tx_outcomes = [];
  block_events = [];
  app_hash = zero_hash;
  validator_updates = [];
  params_update = none;
}

abbrev pub no_commit : CommitResult
no_commit = record { retain_height = 0 }

abbrev pub no_answer : StateQueryResult
no_answer = record { code = 0; key = []; value = []; height = 0; proof = none; info = [] }

module _ {R E : Type 0} (c : Cramberry E) (cc : Link R E) where
  abbrev pub open_reply : {B : Type 0} → Codec E B → Coding E → Coding B
  open_reply p (failed e) = failed e
  open_reply p (done m) = relayed cc.status (unmarshal p m)

  -- `cc.Invoke`: the codec that `Dial` forces encodes the request and decodes the response.
  unfoldable pub invoke : {A B : Type 0} → String → Codec E A → Codec E B → A → Action R (Coding B)
  invoke m q p req = elim (marshal q req) [
    | failed e ↦ pure (failed (cc.status e))
    | done x ↦ do r ← cc.unary (full_method m) x; pure (open_reply p r)
  ]

  after_handshake : Coding HandshakeResponse → Action (ClientState R) (Fallible HandshakeResponse)
  unfolding on_client set_caps
  after_handshake (failed e) = do on_client fail_handshake; pure (no_handshake, some e)
  after_handshake (done resp) = do
    set_caps resp.capabilities
    on_client complete_handshake
    pure (resp, none)

  unfoldable pub handshake : HandshakeRequest → Action (ClientState R) (Fallible HandshakeResponse)
  unfolding on_client on_remote after_handshake
  handshake req = do
    on_client acquire_handshake
    r ← on_remote (invoke "Handshake" c.handshake_request c.handshake_response req)
    after_handshake r

  unfoldable pub check_tx : Tx → MempoolContext → Action (ClientState R) (Fallible GateVerdict)
  unfolding on_client on_remote
  check_tx tx mctx = do
    on_client check_concurrent
    r ←
        on_remote
          (invoke "CheckTx" c.check_tx_request c.gate_verdict (record { tx = tx; mctx = mctx }))
    pure (or_zero no_verdict r)

  after_execute : Coding BlockOutcome → Action (ClientState R) (Fallible BlockOutcome)
  unfolding on_client
  after_execute (failed e) = do on_client fail_execute; pure (no_outcome, some e)
  after_execute (done o) = do on_client complete_execute; pure (o, none)

  unfoldable pub execute_block : FinalizedBlock → Action (ClientState R) (Fallible BlockOutcome)
  unfolding on_client on_remote after_execute
  execute_block block = do
    on_client acquire_execute
    r ← on_remote (invoke "ExecuteBlock" c.finalized_block c.block_outcome block)
    after_execute r

  unfoldable pub commit : Action (ClientState R) (Fallible CommitResult)
  unfolding on_client on_remote
  commit = do
    on_client acquire_commit
    r ← on_remote (invoke "Commit" c.commit_request c.commit_result (record {}))
    on_client complete_commit
    pure (or_zero no_commit r)

  unfoldable pub query : StateQuery → Action (ClientState R) (Fallible StateQueryResult)
  unfolding on_client on_remote
  query req = do
    on_client check_concurrent
    r ← on_remote (invoke "Query" c.state_query c.state_query_result req)
    pure (or_zero no_answer r)

unfoldable pub capabilities : {R : Type 0} → ClientState R → ℕ
capabilities s = s.caps
