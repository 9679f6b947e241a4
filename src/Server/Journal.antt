-- ===== src/Server/Journal.antt =====
-- The contract of `Lifecycle` (bapi.go, lines 19 to 23) as an automaton over what an application
-- sees of Handshake, CheckTx, ExecuteBlock, Commit, Query, Simulate and the observer's callbacks,
-- and an application that keeps a journal of these calls.
use bapi.Base.{Bool, true, false, Option, none, some, List, [], ◌∷◌, ◌&&◌, not}
use bapi.Go.Run.{Action, Fallible, returned, panicked, blocked}
use bapi.Types.{HandshakeResponse}
use mathlib.Core.Option.{map as map_option}
use bapi.Interfaces.{App, ProposalControl, VoteExtender, StateSync, Simulator, MempoolObserver}
use bapi.Server.{is_some, discover_capabilities}

-- What one call was, and for the first two whether it succeeded.
pub data AppEvent : Type 0 where
  shook_hands : Bool → AppEvent
  executed : Bool → AppEvent
  committed : AppEvent
  consulted : AppEvent

pub data Phase : Type 0 where
  fresh ready pending : Phase

-- The calls that the contract allows in a phase; `none` is a violation.
abbrev pub advance : AppEvent → Phase → Option Phase
advance (shook_hands true) fresh = some ready
advance (shook_hands false) fresh = some fresh
advance (executed true) ready = some pending
advance (executed false) ready = some ready
advance committed pending = some ready
advance consulted ready = some ready
advance consulted pending = some pending
advance _ _ = none

abbrev pub then_phase : AppEvent → Option Phase → Option Phase
then_phase e none = none
then_phase e (some p) = advance e p

-- The phase after a journal, newest entry first.
unfoldable pub phase : List AppEvent → Option Phase
phase [] = some fresh
phase (e ∷ es) = then_phase e (phase es)

pub record Journal (S : Type 0) : Type 0 where
  pub inner : S
  pub entries : List AppEvent

-- Runs a call of the application and, if it returns, enters what it was.
unfoldable pub noting : {S A : Type 0} → (A → AppEvent) → Action S A → Action (Journal S) A
noting event m j = elim (m j.inner) [
  | returned a t ↦ returned a (record { inner = t; entries = event a ∷ j.entries })
  | panicked e t ↦ panicked e (record j { inner = t })
  | blocked t ↦ blocked (record j { inner = t })
]

abbrev pub succeeded : {A : Type 0} → Fallible A → Bool
succeeded r = not (is_some r.1)

-- A handshake counts once the declared capabilities are found to be implemented.
abbrev pub shook : {S : Type 0} → App S → Fallible HandshakeResponse → Bool
shook app r = succeeded r && not (is_some (discover_capabilities app r.0.capabilities))

note_mempool : {S : Type 0} → MempoolObserver S → MempoolObserver (Journal S)
unfolding noting
note_mempool o = record {
  on_batch_certified = λ ev. noting (λ _. consulted) (o.on_batch_certified ev);
  on_block_constructed = λ ev. noting (λ _. consulted) (o.on_block_constructed ev);
}

note_simulator : {S : Type 0} → Simulator S → Simulator (Journal S)
unfolding noting
note_simulator m = record { simulate = λ tx. noting (λ _. consulted) (m.simulate tx) }

-- The contract says nothing of the calls below: they are passed on and leave no entry.
quietly : {S A : Type 0} → Action S A → Action (Journal S) A
quietly m j = elim (m j.inner) [
  | returned a t ↦ returned a (record j { inner = t })
  | panicked e t ↦ panicked e (record j { inner = t })
  | blocked t ↦ blocked (record j { inner = t })
]

pass_proposal : {S : Type 0} → ProposalControl S → ProposalControl (Journal S)
unfolding quietly
pass_proposal c = record {
  build_proposal = λ pctx. quietly (c.build_proposal pctx);
  verify_proposal = λ prop. quietly (c.verify_proposal prop);
}

pass_votes : {S : Type 0} → VoteExtender S → VoteExtender (Journal S)
unfolding quietly
pass_votes v = record {
  extend_vote = λ vctx. quietly (v.extend_vote vctx);
  verify_extension = λ ext. quietly (v.verify_extension ext);
}

pass_sync : {S : Type 0} → StateSync S → StateSync (Journal S)
unfolding quietly
pass_sync y = record {
  available_snapshots = quietly y.available_snapshots;
  export_snapshot = λ height format. quietly (y.export_snapshot height format);
  import_snapshot = λ desc chunks. quietly (y.import_snapshot desc chunks);
}

-- `app`, with a journal of what the contract speaks of.
unfoldable pub journaled : {S : Type 0} → App S → App (Journal S)
unfolding noting note_mempool note_simulator pass_proposal pass_votes pass_sync
journaled app = record {
  lifecycle = record {
    handshake = λ req. noting (λ r. shook_hands (shook app r)) (app.lifecycle.handshake req);
    check_tx = λ tx mctx. noting (λ _. consulted) (app.lifecycle.check_tx tx mctx);
    execute_block = λ b. noting (λ r. executed (succeeded r)) (app.lifecycle.execute_block b);
    commit = noting (λ _. committed) app.lifecycle.commit;
    query = λ q. noting (λ _. consulted) (app.lifecycle.query q);
  };
  proposal_control = map_option pass_proposal app.proposal_control;
  vote_extender = map_option pass_votes app.vote_extender;
  state_sync = map_option pass_sync app.state_sync;
  simulator = map_option note_simulator app.simulator;
  mempool_observer = map_option note_mempool app.mempool_observer;
}
