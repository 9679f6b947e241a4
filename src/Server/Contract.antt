-- ===== src/Server/Contract.antt =====
-- The contract of `Lifecycle` as an invariant of the server.
pub mod Steps
pub mod Sessions
pub mod Erasure
use bapi.Base.{
  ℕ, Bool, true, false, Option, none, some, List, [], ◌∷◌, ◌≡◌, refl, arith, sym, ap, subst, ◌∙◌,
}
use bapi.Go.Text.{Bytes}
use bapi.Go.Run.{resume, Run, Action, Fallible, returned, panicked, blocked, pure, ◌>>=◌, ◌>>◌}
use bapi.Types.{
  BatchCertifiedEvent, BlockConstructedEvent, Tx, HandshakeRequest, MempoolContext, FinalizedBlock,
  StateQuery,
}
use bapi.Interfaces.{App}
use bapi.Guard.{
  Guard, LifecycleState, state_init, state_ready, state_executed, acquire_handshake,
  complete_handshake, fail_handshake, acquire_execute, complete_execute, fail_execute,
  acquire_commit, complete_commit, check_concurrent,
}
use bapi.Server.{
  Server, ServerState, new, is_some, discover_capabilities, handshake, execute_block, commit, query,
  check_tx, on_guard,
}
use bapi.Server.Optional.{
  build_proposal, verify_proposal, extend_vote, verify_extension, available_snapshots,
  export_snapshot, import_snapshot, simulate, on_batch_certified, on_block_constructed,
}
use bapi.Server.Calls.{
  Call, handshakes, checks, executes, commits, queries, builds, verifies, extends,
  verifies_extension, lists_snapshots, exports, imports, simulates, certifies, constructs, step,
  run,
}
use bapi.Server.Journal.{Journal, Phase, fresh, ready, pending, phase, journaled}

-- The guard between calls, in each phase.
abbrev pub guard_of : Phase → Guard
guard_of fresh = record { state = state_init; seq_mu = false; handshake_done = false }
guard_of ready = record { state = state_ready; seq_mu = false; handshake_done = true }
guard_of pending = record { state = state_executed; seq_mu = false; handshake_done = true }

abbrev pub shown : LifecycleState → Bool → Bool → Option Phase
shown state_init false false = some fresh
shown state_ready false true = some ready
shown state_executed false true = some pending
shown _ _ _ = none

abbrev pub phase_shown : Guard → Option Phase
phase_shown g = shown g.state g.seq_mu g.handshake_done

-- No entry of the journal violates the contract, and the guard is in the phase that it ends in.
pub record Obeys {S : Type 0} (s : ServerState (Journal S)) : Type 0 where
  pub known : is_some (phase_shown s.guard) ≡ true
  pub seen : phase s.app_state.entries ≡ phase_shown s.guard

-- A call that panics or waits may leave the guard elsewhere, but it adds no violation.
abbrev pub After : {S A : Type 0} → Run (ServerState (Journal S)) A → Type 0
After (returned a t) = Obeys t
After (panicked e t) = is_some (phase t.app_state.entries) ≡ true
After (blocked t) = is_some (phase t.app_state.entries) ≡ true

shown_cases :
    (state : LifecycleState) (mu done : Bool)
    → is_some (shown state mu done) ≡ true
    → (p : Phase) × (◌≡◌ {A = Guard}
        (record { state = state; seq_mu = mu; handshake_done = done })
        (guard_of p))
shown_cases state_init false false h = (fresh, refl)
shown_cases state_ready false true h = (ready, refl)
shown_cases state_executed false true h = (pending, refl)
shown_cases _ _ _ h = cc

-- To prove a fact of every state that obeys the contract, prove it in each phase.
shown-guard_of : (p : Phase) → phase_shown (guard_of p) ≡ some p
shown-guard_of fresh = refl
shown-guard_of ready = refl
shown-guard_of pending = refl

pub by_phase :
    {S A : Type 0} (m : Action (ServerState (Journal S)) A)
    → ((s : ServerState (Journal S)) (p : Phase)
        → phase s.app_state.entries ≡ some p
        → After (m (record s { guard = guard_of p })))
    → (s : ServerState (Journal S)) → Obeys s
    → After (m s)
by_phase m step s h =
    let (p, e) = shown_cases s.guard.state s.guard.seq_mu s.guard.handshake_done h.known in
    subst (λ g. After (m (record s { guard = g }))) (sym e)
      (step s p (h.seen ∙ ap phase_shown e ∙ shown-guard_of p))

-- The server of an application that keeps a journal.
abbrev pub journaling : {S : Type 0} → App S → Server (Journal S)
journaling app = new (journaled app)

-- The contract of a chain of calls.
pub After-resume :
    {S A B : Type 0} (r : Run (ServerState (Journal S)) A)
    (f : A → Action (ServerState (Journal S)) B)
    → After r
    → ((a : A) (t : ServerState (Journal S)) → Obeys t → After (f a t))
    → After (resume r f)
After-resume (returned a t) f h k = k a t h
After-resume (panicked e t) f h k = h
After-resume (blocked t) f h k = h
