-- ===== src/Server/Contract/Sessions.antt =====
-- Sessions of calls, and the contract of `Lifecycle`.
use bapi.Base.{true, List, [], ◌∷◌, ◌≡◌, refl}
use bapi.Go.Run.{Run, Action, returned, panicked, blocked, pure, ◌>>◌}
use bapi.Interfaces.{App}
use bapi.Server.{
  Server, ServerState, new, is_some, handshake, execute_block, commit, query, check_tx,
}
use bapi.Server.Optional.{
  build_proposal, verify_proposal, extend_vote, verify_extension, available_snapshots,
  export_snapshot, import_snapshot, simulate, on_batch_certified, on_block_constructed,
}
use bapi.Server.Calls.{
  Call, handshakes, checks, executes, commits, queries, builds, verifies, extends,
  verifies_extension, lists_snapshots, exports, imports, simulates, certifies, constructs, step,
  run,
}
use bapi.Server.Journal.{Journal, phase, journaled}
use bapi.Server.Calls.{
  Call, handshakes, checks, executes, commits, queries, builds, verifies, extends,
  verifies_extension, lists_snapshots, exports, imports, simulates, certifies, constructs, step,
  run,
}
use bapi.Server.{new_state}
use bapi.Go.Run.{final}
use bapi.Server.Contract.{Obeys, After, by_phase, journaling, After-resume}
use bapi.Server.Contract.Steps

module _ {S : Type 0} (app : App S) where
  abbrev srv : Server (Journal S)
  srv = journaling app

  drops :
      {A : Type 0} (m : Action (ServerState (Journal S)) A) (s : ServerState (Journal S))
      → After (m s)
      → After ((m >> pure tt) s)
  drops m s h = After-resume (m s) (λ _. pure tt) h (λ a t k. k)

  step-Obeys : (c : Call) (s : ServerState (Journal S)) → Obeys s → After (step srv c s)
  unfolding step
  step-Obeys (handshakes req) s h =
      let m = handshake srv req in drops m s (by_phase m (Steps.handshake-step app req) s h)
  step-Obeys (checks tx mctx) s h =
      let m = check_tx srv tx mctx in drops m s (by_phase m (Steps.check_tx-step app tx mctx) s h)
  step-Obeys (executes b) s h =
      let m = execute_block srv b in drops m s (by_phase m (Steps.execute_block-step app b) s h)
  step-Obeys commits s h = let m = commit srv in drops m s (by_phase m (Steps.commit-step app) s h)
  step-Obeys (queries q) s h =
      let m = query srv q in drops m s (by_phase m (Steps.query-step app q) s h)
  step-Obeys (simulates tx) s h =
      let m = simulate srv tx in drops m s (by_phase m (Steps.simulate-step app tx) s h)
  step-Obeys (certifies ev) s h =
      let m = on_batch_certified srv ev in
      drops m s (by_phase m (Steps.on_batch_certified-step app ev) s h)
  step-Obeys (constructs ev) s h =
      let m = on_block_constructed srv ev in
      drops m s (by_phase m (Steps.on_block_constructed-step app ev) s h)
  step-Obeys (builds pctx) s h =
      drops (build_proposal srv pctx) s (Steps.build_proposal-Obeys app pctx s h)
  step-Obeys (verifies prop) s h =
      drops (verify_proposal srv prop) s (Steps.verify_proposal-Obeys app prop s h)
  step-Obeys (extends vctx) s h =
      drops (extend_vote srv vctx) s (Steps.extend_vote-Obeys app vctx s h)
  step-Obeys (verifies_extension ext) s h =
      drops (verify_extension srv ext) s (Steps.verify_extension-Obeys app ext s h)
  step-Obeys lists_snapshots s h =
      drops (available_snapshots srv) s (Steps.available_snapshots-Obeys app s h)
  step-Obeys (exports height format) s h =
      drops (export_snapshot srv height format) s
        (Steps.export_snapshot-Obeys app height format s h)
  step-Obeys (imports desc chunks) s h =
      drops (import_snapshot srv desc chunks) s (Steps.import_snapshot-Obeys app desc chunks s h)

  run-Obeys : (cs : List Call) (s : ServerState (Journal S)) → Obeys s → After (run srv cs s)
  unfolding run
  run-Obeys [] s h = h
  run-Obeys (c ∷ cs) s h =
      After-resume (step srv c s) (λ _. run srv cs) (step-Obeys c s h) (λ _ t k. run-Obeys cs t k)

  -- The journal of a call's final state.
  After-final :
      {A : Type 0} (r : Run (ServerState (Journal S)) A)
      → After r
      → is_some (phase (final r).app_state.entries) ≡ true
  After-final (returned a t) h = rw h.seen h.known
  After-final (panicked e t) h = h
  After-final (blocked t) h = h

  start-Obeys : (s : S) → Obeys (new_state (record { inner = s; entries = [] }))
  unfolding new_state phase
  start-Obeys s = record { known = refl; seen = refl }

-- Of the calls of Handshake, CheckTx, ExecuteBlock, Commit, Query, Simulate and the observer's
-- callbacks the application sees none out of turn, whatever it does and in whatever order the engine
-- calls the server, until a call panics or waits for ever: none of these but a handshake comes
-- before a successful handshake and no second handshake after it, every commit follows a successful
-- ExecuteBlock of its own, and no ExecuteBlock comes between the two. If the whole session returns,
-- the guard shows the phase that the journal ends in. The calls of ProposalControl, VoteExtender and
-- StateSync are part of the session, but not of the journal: the server passes them on at any time.
pub contract :
    {S : Type 0} (app : App S) (cs : List Call) (s : S)
    → let r = run (new (journaled app)) cs (new_state (record { inner = s; entries = [] })) in
      (is_some (phase (final r).app_state.entries) ≡ true) × After r
contract app cs s = let h = run-Obeys app cs _ (start-Obeys app s) in (After-final app _ h, h)
