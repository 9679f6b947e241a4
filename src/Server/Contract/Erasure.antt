-- ===== src/Server/Contract/Erasure.antt =====
-- The server with and without the journal.
use bapi.Base.{[], ap, refl, ◌∙◌, ◌∷◌, ℕ, List, ◌≡◌, arith}
use bapi.Types.{
  ProposalContext, ReceivedProposal, VoteContext, ReceivedExtension, SnapshotDescriptor,
  SnapshotChunk, BatchCertifiedEvent, BlockConstructedEvent, Tx, HandshakeRequest, MempoolContext,
  FinalizedBlock, StateQuery,
}
use bapi.Interfaces.{App}
use bapi.Server.{Server, ServerState, new, handshake, execute_block, commit, query, check_tx}
use bapi.Server.Optional.{
  build_proposal, verify_proposal, extend_vote, verify_extension, available_snapshots,
  export_snapshot, import_snapshot, simulate, on_batch_certified, on_block_constructed,
}
use bapi.Server.Journal.{Journal, journaled}
use bapi.Server.Calls.{
  Call, handshakes, checks, executes, commits, queries, builds, verifies, extends,
  verifies_extension, lists_snapshots, exports, imports, simulates, certifies, constructs, step,
  run,
}
use bapi.Go.Run.{blocked, panicked, returned, Action, pure, Run, resume}
use bapi.Server.Contract.{journaling}
use bapi.Server.Contract.Steps

abbrev pub erase : {S : Type 0} → ServerState (Journal S) → ServerState S
erase s = record {
  app_state = s.app_state.inner;
  guard = s.guard;
  caps = s.caps;
  last_outcome = s.last_outcome;
  last_exec_height = s.last_exec_height;
}

abbrev pub erase_run : {S A : Type 0} → Run (ServerState (Journal S)) A → Run (ServerState S) A
erase_run (returned a t) = returned a (erase t)
erase_run (panicked e t) = panicked e (erase t)
erase_run (blocked t) = blocked (erase t)

erase-resume :
    {S A B : Type 0} (r : Run (ServerState (Journal S)) A)
    (f : A → Action (ServerState (Journal S)) B) (g : A → Action (ServerState S) B)
    → ((a : A) (t : ServerState (Journal S)) → erase_run (f a t) ≡ g a (erase t))
    → erase_run (resume r f) ≡ resume (erase_run r) g
erase-resume (returned a t) f g h = h a t
erase-resume (panicked e t) f g h = refl
erase-resume (blocked t) f g h = refl

module _ {S : Type 0} (app : App S) where
  abbrev srv : Server (Journal S)
  srv = journaling app

  erase-handshake :
      (req : HandshakeRequest) (s : ServerState (Journal S))
      → erase_run (handshake srv req s) ≡ handshake (new app) req (erase s)
  unfolding handshake new journaled
  erase-handshake req s = grind (arith, Steps.discover-journaled app)

  erase-check_tx :
      (tx : Tx) (mctx : MempoolContext) (s : ServerState (Journal S))
      → erase_run (check_tx srv tx mctx s) ≡ check_tx (new app) tx mctx (erase s)
  unfolding check_tx new journaled
  erase-check_tx tx mctx s = ground arith

  erase-execute_block :
      (b : FinalizedBlock) (s : ServerState (Journal S))
      → erase_run (execute_block srv b s) ≡ execute_block (new app) b (erase s)
  unfolding execute_block new journaled
  erase-execute_block b s = ground arith

  erase-commit :
      (s : ServerState (Journal S)) → erase_run (commit srv s) ≡ commit (new app) (erase s)
  unfolding commit new journaled
  erase-commit s = ground arith

  erase-query :
      (q : StateQuery) (s : ServerState (Journal S))
      → erase_run (query srv q s) ≡ query (new app) q (erase s)
  unfolding query new journaled
  erase-query q s = ground arith

  erase-build_proposal :
      (pctx : ProposalContext) (s : ServerState (Journal S))
      → erase_run (build_proposal srv pctx s) ≡ build_proposal (new app) pctx (erase s)
  unfolding build_proposal new journaled
  erase-build_proposal pctx s = ground arith

  erase-verify_proposal :
      (prop : ReceivedProposal) (s : ServerState (Journal S))
      → erase_run (verify_proposal srv prop s) ≡ verify_proposal (new app) prop (erase s)
  unfolding verify_proposal new journaled
  erase-verify_proposal prop s = ground arith

  erase-extend_vote :
      (vctx : VoteContext) (s : ServerState (Journal S))
      → erase_run (extend_vote srv vctx s) ≡ extend_vote (new app) vctx (erase s)
  unfolding extend_vote new journaled
  erase-extend_vote vctx s = ground arith

  erase-verify_extension :
      (ext : ReceivedExtension) (s : ServerState (Journal S))
      → erase_run (verify_extension srv ext s) ≡ verify_extension (new app) ext (erase s)
  unfolding verify_extension new journaled
  erase-verify_extension ext s = ground arith

  erase-available_snapshots :
      (s : ServerState (Journal S))
      → erase_run (available_snapshots srv s) ≡ available_snapshots (new app) (erase s)
  unfolding available_snapshots new journaled
  erase-available_snapshots s = ground arith

  erase-export_snapshot :
      (height format : ℕ) (s : ServerState (Journal S))
      → erase_run (export_snapshot srv height format s)
        ≡ export_snapshot (new app) height format (erase s)
  unfolding export_snapshot new journaled
  erase-export_snapshot height format s = ground arith

  erase-import_snapshot :
      (desc : SnapshotDescriptor) (chunks : List SnapshotChunk) (s : ServerState (Journal S))
      → erase_run (import_snapshot srv desc chunks s)
        ≡ import_snapshot (new app) desc chunks (erase s)
  unfolding import_snapshot new journaled
  erase-import_snapshot desc chunks s = ground arith

  erase-simulate :
      (tx : Tx) (s : ServerState (Journal S))
      → erase_run (simulate srv tx s) ≡ simulate (new app) tx (erase s)
  unfolding simulate new journaled
  erase-simulate tx s = ground arith

  erase-on_batch_certified :
      (ev : BatchCertifiedEvent) (s : ServerState (Journal S))
      → erase_run (on_batch_certified srv ev s) ≡ on_batch_certified (new app) ev (erase s)
  unfolding on_batch_certified new journaled
  erase-on_batch_certified ev s = ground arith

  erase-on_block_constructed :
      (ev : BlockConstructedEvent) (s : ServerState (Journal S))
      → erase_run (on_block_constructed srv ev s) ≡ on_block_constructed (new app) ev (erase s)
  unfolding on_block_constructed new journaled
  erase-on_block_constructed ev s = ground arith

  erase-step :
      (c : Call) (s : ServerState (Journal S))
      → erase_run (step srv c s) ≡ step (new app) c (erase s)
  unfolding step
  erase-step (handshakes req) s =
      erase-resume (handshake srv req s) (λ _. pure tt) (λ _. pure tt) (λ a t. refl)
      ∙ ap (λ r. resume r (λ _. pure tt)) (erase-handshake req s)
  erase-step (checks tx mctx) s =
      erase-resume (check_tx srv tx mctx s) (λ _. pure tt) (λ _. pure tt) (λ a t. refl)
      ∙ ap (λ r. resume r (λ _. pure tt)) (erase-check_tx tx mctx s)
  erase-step (executes b) s =
      erase-resume (execute_block srv b s) (λ _. pure tt) (λ _. pure tt) (λ a t. refl)
      ∙ ap (λ r. resume r (λ _. pure tt)) (erase-execute_block b s)
  erase-step commits s =
      erase-resume (commit srv s) (λ _. pure tt) (λ _. pure tt) (λ a t. refl)
      ∙ ap (λ r. resume r (λ _. pure tt)) (erase-commit s)
  erase-step (queries q) s =
      erase-resume (query srv q s) (λ _. pure tt) (λ _. pure tt) (λ a t. refl)
      ∙ ap (λ r. resume r (λ _. pure tt)) (erase-query q s)
  erase-step (builds pctx) s =
      erase-resume (build_proposal srv pctx s) (λ _. pure tt) (λ _. pure tt) (λ a t. refl)
      ∙ ap (λ r. resume r (λ _. pure tt)) (erase-build_proposal pctx s)
  erase-step (verifies prop) s =
      erase-resume (verify_proposal srv prop s) (λ _. pure tt) (λ _. pure tt) (λ a t. refl)
      ∙ ap (λ r. resume r (λ _. pure tt)) (erase-verify_proposal prop s)
  erase-step (extends vctx) s =
      erase-resume (extend_vote srv vctx s) (λ _. pure tt) (λ _. pure tt) (λ a t. refl)
      ∙ ap (λ r. resume r (λ _. pure tt)) (erase-extend_vote vctx s)
  erase-step (verifies_extension ext) s =
      erase-resume (verify_extension srv ext s) (λ _. pure tt) (λ _. pure tt) (λ a t. refl)
      ∙ ap (λ r. resume r (λ _. pure tt)) (erase-verify_extension ext s)
  erase-step lists_snapshots s =
      erase-resume (available_snapshots srv s) (λ _. pure tt) (λ _. pure tt) (λ a t. refl)
      ∙ ap (λ r. resume r (λ _. pure tt)) (erase-available_snapshots s)
  erase-step (exports height format) s =
      erase-resume (export_snapshot srv height format s) (λ _. pure tt) (λ _. pure tt) (λ a t. refl)
      ∙ ap (λ r. resume r (λ _. pure tt)) (erase-export_snapshot height format s)
  erase-step (imports desc chunks) s =
      erase-resume (import_snapshot srv desc chunks s) (λ _. pure tt) (λ _. pure tt) (λ a t. refl)
      ∙ ap (λ r. resume r (λ _. pure tt)) (erase-import_snapshot desc chunks s)
  erase-step (simulates tx) s =
      erase-resume (simulate srv tx s) (λ _. pure tt) (λ _. pure tt) (λ a t. refl)
      ∙ ap (λ r. resume r (λ _. pure tt)) (erase-simulate tx s)
  erase-step (certifies ev) s =
      erase-resume (on_batch_certified srv ev s) (λ _. pure tt) (λ _. pure tt) (λ a t. refl)
      ∙ ap (λ r. resume r (λ _. pure tt)) (erase-on_batch_certified ev s)
  erase-step (constructs ev) s =
      erase-resume (on_block_constructed srv ev s) (λ _. pure tt) (λ _. pure tt) (λ a t. refl)
      ∙ ap (λ r. resume r (λ _. pure tt)) (erase-on_block_constructed ev s)

-- A session of the server around an application is the session around the same application with a
-- journal, once the journal is dropped: the same result, panic or wait, and the same state.
erase-run :
    {S : Type 0} (app : App S) (cs : List Call) (s : ServerState (Journal S))
    → erase_run (run (new (journaled app)) cs s) ≡ run (new app) cs (erase s)
unfolding run
erase-run app [] s = refl
erase-run app (c ∷ cs) s =
    erase-resume (step (journaling app) c s) (λ _. run (journaling app) cs) (λ _. run (new app) cs)
      (λ _ t. erase-run app cs t)
    ∙ ap (λ r. resume r (λ _. run (new app) cs)) (erase-step app c s)
