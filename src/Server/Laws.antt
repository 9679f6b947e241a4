-- ===== src/Server/Laws.antt =====
-- What the calls of `Server` do on success, on an error, and on a panic of the application.
use bapi.Interfaces.{ProposalControl}
use bapi.Go.Error.{GoError}
use bapi.Go.Run.{blocked, panicked, returned, Fallible}
use bapi.Go.Text.{Bytes}
use bapi.Types.{
  ReceivedProposal, ProposalContext, StateQuery, CommitResult, MempoolContext, HandshakeResponse,
  BlockOutcome, Tx, HandshakeRequest, FinalizedBlock,
}
use bapi.Types.Capability.{cap_mempool_observer}
use bapi.Server.Optional.{
  as_mempool_observer, as_simulator, verify_proposal, as_state_sync, build_proposal,
  as_vote_extender, as_proposal_control,
}
use bapi.Guard.{
  state_executing, state_executed, wrong_state, too_early, state_ready, state_init, complete_commit,
  is_ready, fail_handshake, fail_execute, complete_execute, check_concurrent, acquire_handshake,
  acquire_execute, acquire_commit,
}
use bapi.Base.{
  refl, Option, true, arith, some, none, false, if◌then◌else◌, ◌≡◌, [], ◌∷◌, Bool, List, ℕ,
}
use bapi.Server.{
  cap_simulation, cap_state_sync, cap_vote_extensions, pending_outcome, has, capabilities,
  cap_proposal_control, query, discover_capabilities, handshake, execute_block, commit, check_tx,
  App, ServerState, new, on_app, is_some,
}

-- A declared capability is an implemented one.
abbrev pub Implies : Bool → Bool → Type 0
Implies a b = a ≡ true → b ≡ true

pub discover-none :
    {S : Type 0} (app : App S) (c : ℕ)
    → discover_capabilities app c ≡ none
    → Implies (has c cap_proposal_control) (is_some app.proposal_control)
      × Implies (has c cap_vote_extensions) (is_some app.vote_extender)
      × Implies (has c cap_state_sync) (is_some app.state_sync)
      × Implies (has c cap_simulation) (is_some app.simulator)
      × Implies (has c cap_mempool_observer) (is_some app.mempool_observer)
unfolding discover_capabilities
discover-none app c h =
    (λ d. ground arith, λ d. ground arith, λ d. ground arith, λ d. ground arith, λ d. ground arith)

is_some-if :
    {A : Type 0} (b : Bool) (o : Option A)
    → Implies b (is_some o)
    → is_some (if b then o else none) ≡ b
is_some-if true o h = h refl
is_some-if false o h = refl

module _ {S : Type 0} (app : App S) (s : ServerState S) where
  -- The interface that each accessor gives, seen by whether there is one.
  abbrev pub given : ServerState S → List Bool
  given t =
      is_some (as_proposal_control (new app) t)
      ∷ is_some (as_vote_extender (new app) t)
      ∷ is_some (as_state_sync (new app) t)
      ∷ is_some (as_simulator (new app) t)
      ∷ is_some (as_mempool_observer (new app) t)
      ∷ []

  abbrev pub declared : ℕ → List Bool
  declared c =
      has c cap_proposal_control
      ∷ has c cap_vote_extensions
      ∷ has c cap_state_sync
      ∷ has c cap_simulation
      ∷ has c cap_mempool_observer
      ∷ []

  accessors-discover :
      (t : ServerState S) (c : ℕ)
      → t.caps ≡ c
      → discover_capabilities app c ≡ none
      → given t ≡ declared c
  unfolding new as_proposal_control as_vote_extender as_state_sync as_simulator as_mempool_observer
  accessors-discover t c e h =
      let (p, v, y, m, o) = discover-none app c h in
      rw e (
        cc (
          is_some-if (has c cap_proposal_control) app.proposal_control p,
          is_some-if (has c cap_vote_extensions) app.vote_extender v,
          is_some-if (has c cap_state_sync) app.state_sync y,
          is_some-if (has c cap_simulation) app.simulator m,
          is_some-if (has c cap_mempool_observer) app.mempool_observer o,
        ))

  handshake-discover :
      (req : HandshakeRequest) (resp : HandshakeResponse) (t : ServerState S)
      → handshake (new app) req s ≡ returned (resp, none) t
      → (t.caps ≡ resp.capabilities) × (discover_capabilities app resp.capabilities ≡ none)
  unfolding handshake new
  handshake-discover req resp t h = ground arith

  -- After a handshake that succeeds the server has the capabilities that the application declared,
  -- and each of the five accessors gives an interface exactly if its capability was declared.
  pub handshake_capabilities :
      (req : HandshakeRequest) (resp : HandshakeResponse) (t : ServerState S)
      → handshake (new app) req s ≡ returned (resp, none) t
      → (capabilities t ≡ resp.capabilities) × (given t ≡ declared resp.capabilities)
  unfolding capabilities
  handshake_capabilities req resp t h =
      let (c, d) = handshake-discover req resp t h in
      (c, accessors-discover t resp.capabilities c d)

  -- A handshake from the initial state that returns an error, whether the application's or for a
  -- capability that is declared and not implemented, changes nothing but the application's state,
  -- so that the engine can try again.
  pub handshake_error :
      (req : HandshakeRequest) (resp : HandshakeResponse) (e : GoError) (t : ServerState S)
      → s.guard.state ≡ state_init
      → handshake (new app) req s ≡ returned (resp, some e) t
      → t ≡ record s { app_state = t.app_state }
  unfolding handshake new acquire_handshake fail_handshake
  handshake_error req resp e t i h = ground arith

  -- When ExecuteBlock returns an error (a request to halt, say), only the state of the
  -- application has changed. A Commit that follows panics, and does not reach the application.
  pub execute_block_error :
      (b : FinalizedBlock) (o : BlockOutcome) (e : GoError) (t : ServerState S)
      → execute_block (new app) b s ≡ returned (o, some e) t
      → (t ≡ record s { app_state = t.app_state })
        × (commit (new app) t ≡ panicked (wrong_state "Commit" "Executed" state_ready) t)
  unfolding execute_block commit new acquire_execute fail_execute acquire_commit
  execute_block_error b o e t h = ground arith

  -- When ExecuteBlock succeeds its outcome is pending and its height is kept. A second
  -- ExecuteBlock panics before it reaches the application.
  pub execute_block_success :
      (b b' : FinalizedBlock) (o : BlockOutcome) (t : ServerState S)
      → execute_block (new app) b s ≡ returned (o, none) t
      → (pending_outcome t ≡ some o)
        × (t.last_exec_height ≡ b.height)
        × (execute_block (new app) b' t
            ≡ panicked (wrong_state "ExecuteBlock" "Ready" state_executed) t)
  unfolding execute_block new acquire_execute complete_execute pending_outcome
  execute_block_success b b' o t h = ground arith

  -- A Commit that returns, with an error or not, drops the pending outcome and leaves the server
  -- ready: a second Commit panics before it reaches the application, so a failed one cannot be
  -- tried again.
  pub commit_once :
      (r : Fallible CommitResult) (t : ServerState S)
      → commit (new app) s ≡ returned r t
      → (pending_outcome t ≡ none)
        × (is_ready t.guard ≡ true)
        × (commit (new app) t ≡ panicked (wrong_state "Commit" "Executed" state_ready) t)
  unfolding commit new acquire_commit complete_commit pending_outcome is_ready
  commit_once r t h = ground arith

  -- If the application panics in ExecuteBlock the mutex stays held: from then on every
  -- ExecuteBlock and every Commit waits for ever.
  pub execute_block_app_panic :
      (b b' : FinalizedBlock) (m : Bytes) (u : S)
      → s.guard.state ≡ state_ready
      → s.guard.seq_mu ≡ false
      → app.lifecycle.execute_block b s.app_state ≡ panicked m u
      → (t : ServerState S) × (execute_block (new app) b s ≡ panicked m t)
        × (execute_block (new app) b' t ≡ blocked t)
        × (commit (new app) t ≡ blocked t)
  unfolding execute_block commit new acquire_execute acquire_commit
  execute_block_app_panic b b' m u r l h = (
    record s { app_state = u; guard = record s.guard { state = state_executing; seq_mu = true } },
    ground arith,
    ground arith,
    ground arith,
  )

  -- Where an application implements ProposalControl and has not declared it, the accessor gives
  -- nothing, and yet BuildProposal and VerifyProposal reach the application, in any state of the
  -- guard.
  undeclared_proposal_control :
      (p : ProposalControl S) (pctx : ProposalContext) (prop : ReceivedProposal)
      → app.proposal_control ≡ some p
      → has s.caps cap_proposal_control ≡ false
      → (as_proposal_control (new app) s ≡ none)
        × (build_proposal (new app) pctx s ≡ on_app (p.build_proposal pctx) s)
        × (verify_proposal (new app) prop s ≡ on_app (p.verify_proposal prop) s)
  unfolding new as_proposal_control build_proposal verify_proposal
  undeclared_proposal_control p pctx prop i d = ground arith

  -- CheckTx and Query are passed on in every state of the guard once the handshake is done, also
  -- between ExecuteBlock and Commit, and never before.
  concurrent_calls :
      (tx : Tx) (mctx : MempoolContext) (q : StateQuery)
      → (check_tx (new app) tx mctx s ≡ (
          if s.guard.handshake_done
          then on_app (app.lifecycle.check_tx tx mctx) s
          else panicked too_early s))
        × (query (new app) q s ≡ (
            if s.guard.handshake_done
            then on_app (app.lifecycle.query q) s
            else panicked too_early s))
  unfolding check_tx query new check_concurrent too_early
  concurrent_calls tx mctx q = ground arith
