-- ===== src/Server.antt =====
-- server/server.go: lifecycle enforcement and capability routing around an application.
-- The fields that `New` sets and nothing changes are `Server`, the others `ServerState`, which
-- also holds the state of the application. The mutex `mu` only makes single accesses atomic.
pub mod Optional
pub mod Journal
pub mod Calls
pub mod Laws
pub mod Contract
use bapi.Base.{ℕ, Bool, true, false, Option, none, some, ◌++◌, ◌&&◌, not, if◌then◌else◌, String}
use bapi.Go.Text.{text}
use bapi.Go.Error.{GoError, plain}
use bapi.Go.Run.{Action, Fallible, returned, panicked, blocked, pure, ◌>>=◌, ◌>>◌}
use bapi.Types.{
  Tx, HandshakeRequest, HandshakeResponse, MempoolContext, GateVerdict, FinalizedBlock,
  BlockOutcome, CommitResult, StateQuery, StateQueryResult,
}
use bapi.Types.Capability.{
  has, cap_proposal_control, cap_vote_extensions, cap_state_sync, cap_simulation,
  cap_mempool_observer,
}
use bapi.Interfaces.{App, ProposalControl, VoteExtender, StateSync, Simulator, MempoolObserver}
use bapi.Guard.{
  Guard, new_guard, acquire_handshake, complete_handshake, fail_handshake, acquire_execute,
  complete_execute, fail_execute, acquire_commit, complete_commit, check_concurrent,
}

pub record Server (S : Type 0) : Type 0 where
  pub app : App S
  pub proposal_ctl : Option (ProposalControl S)
  pub vote_ext : Option (VoteExtender S)
  pub sync : Option (StateSync S)
  pub sim : Option (Simulator S)
  pub mempool_obs : Option (MempoolObserver S)

pub record ServerState (S : Type 0) : Type 0 where
  pub app_state : S
  pub guard : Guard
  pub caps : ℕ
  pub last_outcome : Option BlockOutcome
  pub last_exec_height : ℕ

-- `New` has two parts: the fixed fields, and the first state.
unfoldable pub new : {S : Type 0} → App S → Server S
new app = record {
  app = app;
  proposal_ctl = app.proposal_control;
  vote_ext = app.vote_extender;
  sync = app.state_sync;
  sim = app.simulator;
  mempool_obs = app.mempool_observer;
}

unfoldable pub new_state : {S : Type 0} → S → ServerState S
unfolding new_guard
new_state s = record {
  app_state = s;
  guard = new_guard;
  caps = 0;
  last_outcome = none;
  last_exec_height = 0;
}

-- A call of a method of the guard, and of one of the application.
unfoldable pub on_guard : {S A : Type 0} → Action Guard A → Action (ServerState S) A
on_guard m s = elim (m s.guard) [
  | returned a g ↦ returned a (record s { guard = g })
  | panicked e g ↦ panicked e (record s { guard = g })
  | blocked g ↦ blocked (record s { guard = g })
]

unfoldable pub on_app : {S A : Type 0} → Action S A → Action (ServerState S) A
on_app m s = elim (m s.app_state) [
  | returned a t ↦ returned a (record s { app_state = t })
  | panicked e t ↦ panicked e (record s { app_state = t })
  | blocked t ↦ blocked (record s { app_state = t })
]

abbrev pub is_some {ℓ} : {A : Type ℓ} → Option A → Bool
is_some none = false
is_some (some a) = true

undeclared : String → String → Option GoError
undeclared cap name = some (
    plain (
      text "github.com/blockberries/bapi: app declared "
      ++ (text cap ++ (text " but does not implement " ++ text name))))

-- The warnings that it logs for an interface that is implemented and not declared are output only.
unfoldable pub discover_capabilities : {S : Type 0} → App S → ℕ → Option GoError
unfolding undeclared
discover_capabilities app declared =
    if has declared cap_proposal_control && not (is_some app.proposal_control)
    then undeclared "CapProposalControl" "ProposalControl"
    else if has declared cap_vote_extensions && not (is_some app.vote_extender)
    then undeclared "CapVoteExtensions" "VoteExtender"
    else if has declared cap_state_sync && not (is_some app.state_sync)
    then undeclared "CapStateSync" "StateSync"
    else if has declared cap_simulation && not (is_some app.simulator)
    then undeclared "CapSimulation" "Simulator"
    else if has declared cap_mempool_observer && not (is_some app.mempool_observer)
    then undeclared "CapMempoolObserver" "MempoolObserver"
    else none

set_caps : {S : Type 0} → ℕ → Action (ServerState S) (Unit {0})
set_caps c s = returned tt (record s { caps = c })

-- `s.lastOutcome = &outcome; s.lastExecHeight = block.Height`
set_outcome : {S : Type 0} → BlockOutcome → ℕ → Action (ServerState S) (Unit {0})
set_outcome o h s = returned tt (record s { last_outcome = some o; last_exec_height = h })

clear_outcome : {S : Type 0} → Action (ServerState S) (Unit {0})
clear_outcome s = returned tt (record s { last_outcome = none })

module _ {S : Type 0} (srv : Server S) where
  open srv.app use {lifecycle}

  -- The rest of `Handshake` once the capabilities are checked, and once the application answered.
  finish_handshake :
      HandshakeResponse → Option GoError → Action (ServerState S) (Fallible HandshakeResponse)
  unfolding on_guard set_caps
  finish_handshake resp (some e) = do on_guard fail_handshake; pure (resp, some e)
  finish_handshake resp none = do
    set_caps resp.capabilities
    on_guard complete_handshake
    pure (resp, none)

  check_response :
      HandshakeResponse → Option GoError → Action (ServerState S) (Fallible HandshakeResponse)
  unfolding on_guard finish_handshake
  check_response resp (some e) = do on_guard fail_handshake; pure (resp, some e)
  check_response resp none = finish_handshake resp (discover_capabilities srv.app resp.capabilities)

  unfoldable pub handshake : HandshakeRequest → Action (ServerState S) (Fallible HandshakeResponse)
  unfolding on_guard on_app check_response
  handshake req = do
    on_guard acquire_handshake
    (resp, e) ← on_app (lifecycle.handshake req)
    check_response resp e

  unfoldable pub check_tx : Tx → MempoolContext → Action (ServerState S) (Fallible GateVerdict)
  unfolding on_guard on_app
  check_tx tx mctx = do on_guard check_concurrent; on_app (lifecycle.check_tx tx mctx)

  finish_execute :
      ℕ → BlockOutcome → Option GoError → Action (ServerState S) (Fallible BlockOutcome)
  unfolding on_guard set_outcome
  finish_execute height outcome (some e) = do on_guard fail_execute; pure (outcome, some e)
  finish_execute height outcome none = do
    set_outcome outcome height
    on_guard complete_execute
    pure (outcome, none)

  unfoldable pub execute_block : FinalizedBlock → Action (ServerState S) (Fallible BlockOutcome)
  unfolding on_guard on_app finish_execute
  execute_block block = do
    on_guard acquire_execute
    (outcome, e) ← on_app (lifecycle.execute_block block)
    finish_execute block.height outcome e

  unfoldable pub commit : Action (ServerState S) (Fallible CommitResult)
  unfolding on_guard on_app clear_outcome
  commit = do
    on_guard acquire_commit
    result ← on_app lifecycle.commit
    clear_outcome
    on_guard complete_commit
    pure result

  unfoldable pub query : StateQuery → Action (ServerState S) (Fallible StateQueryResult)
  unfolding on_guard on_app
  query req = do on_guard check_concurrent; on_app (lifecycle.query req)

-- `Capabilities` and `LastOutcome`
unfoldable pub capabilities : {S : Type 0} → ServerState S → ℕ
capabilities s = s.caps

unfoldable pub pending_outcome : {S : Type 0} → ServerState S → Option BlockOutcome
pending_outcome s = s.last_outcome
