-- ===== src/Testing/Live.antt =====
-- An engine that keeps to the protocol is never stuck: runs of the harness.
use bapi.Server.{new_state}
use bapi.Go.Run.{◌>>◌, ◌>>=◌, pure, returned, Action}
use bapi.Base.{some, length, refl, arith, ◌∷◌, [], none, true, ◌≡◌, false, List}
use bapi.Types.{
  GenesisDoc, CommitResult, BlockOutcome, HandshakeResponse, FinalizedBlock, HandshakeRequest,
}
use bapi.Server.{new, discover_capabilities, pending_outcome, ServerState, Server}
use bapi.Guard.{
  complete_handshake, acquire_handshake, new_guard, complete_commit, acquire_commit,
  complete_execute, acquire_execute, state_ready, Guard,
}
use bapi.Testing.Harness.{new_harness, fatal_if, on_server, Bench}
use bapi.Interfaces.{App}
use bapi.Testing.Harness
use bapi.Server

abbrev pub open_guard : Guard
open_guard = record { state = state_ready; seq_mu = false; handshake_done = true }

-- What an application promises: it answers the handshake, and answers each block and each commit in
-- its turn, without an error. `I` holds of its state between blocks and `J` before a commit.
pub record Serving {S : Type 0} (app : App S) (I J : S → Type 0) : Type 0 where
  pub shakes :
      (req : HandshakeRequest) (s : S)
      → I s
      → (r : HandshakeResponse) × (t : S) × (app.lifecycle.handshake req s ≡ returned (r, none) t)
        × (discover_capabilities app r.capabilities ≡ none)
        × I t
  pub executes :
      (b : FinalizedBlock) (s : S)
      → I s
      → (o : BlockOutcome) × (t : S) × (app.lifecycle.execute_block b s ≡ returned (o, none) t)
        × J t
  pub commits :
      (s : S)
      → J s
      → (r : CommitResult) × (t : S) × (app.lifecycle.commit s ≡ returned (r, none) t) × I t

-- Between blocks, with nothing reported.
pub record Idle {S : Type 0} (I : S → Type 0) (b : Bench (ServerState S)) : Type 0 where
  pub guard_open : b.under.guard ≡ open_guard
  pub nothing_pending : pending_outcome b.under ≡ none
  pub no_report : b.reports ≡ []
  pub app_idle : I b.under.app_state

module _ {S : Type 0} (srv : Server S) where
  -- Blocks decided one after the other.
  unfoldable pub drive : List FinalizedBlock → Action (Bench (ServerState S)) (List BlockOutcome)
  drive [] = pure []
  drive (b ∷ bs) = do o ← Harness.execute_and_commit srv b; os ← drive bs; pure (o ∷ os)

module _ {S : Type 0} (app : App S) where
  open app use {lifecycle}

  -- The same blocks given to the application alone.
  unfoldable pub alone : List FinalizedBlock → Action S (List BlockOutcome)
  alone [] = pure []
  alone (b ∷ bs) = do
    (o, e) ← lifecycle.execute_block b
    lifecycle.commit
    os ← alone bs
    pure (o ∷ os)

  unfoldable pub genesis_alone : GenesisDoc → List FinalizedBlock → Action S (List BlockOutcome)
  unfolding alone
  genesis_alone doc bs = do
    lifecycle.handshake (record { last_committed = none; genesis = some doc })
    alone bs

module _ {S : Type 0} (app : App S) {I J : S → Type 0} (h : Serving app I J) where
  cycle :
      (block : FinalizedBlock) (b : Bench (ServerState S))
      → Idle I b
      → (o : BlockOutcome) × (t : Bench (ServerState S)) × (Harness.execute_and_commit
            (new app)
            block
            b
          ≡ returned o t)
        × Idle I t
        × ((bs : List FinalizedBlock) (os : List BlockOutcome) (x : S)
            → alone app bs t.under.app_state ≡ returned os x
            → alone app (block ∷ bs) b.under.app_state ≡ returned (o ∷ os) x)
  unfolding Harness.execute_and_commit Harness.execute_block Harness.commit on_server fatal_if
      Server.execute_block Server.commit acquire_execute complete_execute acquire_commit
      complete_commit new pending_outcome alone
  cycle block b w =
      let (o, u, e, j) = h.executes block b.under.app_state w.app_idle in
      let (r, v, c, i) = h.commits u j in
      (
        o,
        record b {
          under = record b.under {
            app_state = v;
            last_outcome = none;
            last_exec_height = block.height;
          };
        },
        ground (arith, w.guard_open, e, c),
        record {
          guard_open = w.guard_open;
          nothing_pending = refl;
          no_report = w.no_report;
          app_idle = i;
        },
        λ bs os x q. ground (arith, e, c, q),
      )

  cycles :
      (blocks : List FinalizedBlock) (b : Bench (ServerState S))
      → Idle I b
      → (os : List BlockOutcome) × (t : Bench (ServerState S)) × (drive (new app) blocks b
          ≡ returned os t)
        × (alone app blocks b.under.app_state ≡ returned os t.under.app_state)
        × (length os ≡ length blocks)
        × Idle I t
  unfolding drive alone
  cycles [] b w = ([], b, refl, refl, refl, w)
  cycles (block ∷ blocks) b w =
      let (o, u, e, v, n) = cycle block b w in
      let (os, t, f, a, l, x) = cycles blocks u v in
      (o ∷ os, t, ground (arith, e, f), n blocks os t.under.app_state a, ground (arith, l), x)

  genesis-Idle :
      (doc : GenesisDoc) (s : S)
      → I s
      → (r : HandshakeResponse) × (t : Bench (ServerState S)) × (Harness.genesis
            (new app)
            doc
            (new_harness s)
          ≡ returned r t)
        × (app.lifecycle.handshake (record { last_committed = none; genesis = some doc }) s
            ≡ returned (r, none) t.under.app_state)
        × Idle I t
  unfolding Harness.genesis on_server fatal_if new_harness new_state new_guard Server.handshake
      acquire_handshake complete_handshake new pending_outcome
  genesis-Idle doc s i =
      let (r, u, e, k, j) = h.shakes (record { last_committed = none; genesis = some doc }) s i in
      (
        r,
        record {
          reports = [];
          under = record (new_state s) { app_state = u; guard = open_guard; caps = r.capabilities };
        },
        ground (arith, e, k),
        e,
        record { guard_open = refl; nothing_pending = refl; no_report = refl; app_idle = j },
      )

  -- Around an application that answers the handshake, each block and each commit without an error,
  -- the harness is never stuck: after the genesis handshake every list of blocks can be executed and
  -- committed one after the other, each block has its outcome, the one that the application
  -- alone gives when it is called in this order, and leaves the application's state as it does then.
  -- Nothing is reported to the test, and at the end the server is ready for more, with no outcome
  -- pending.
  pub never_stuck :
      (doc : GenesisDoc) (blocks : List FinalizedBlock) (s : S)
      → I s
      → (os : List BlockOutcome) × (t : Bench (ServerState S)) × ((Harness.genesis (new app) doc
              >> drive (new app) blocks)
            (new_harness s)
          ≡ returned os t)
        × (genesis_alone app doc blocks s ≡ returned os t.under.app_state)
        × (length os ≡ length blocks)
        × Idle I t
  unfolding genesis_alone
  never_stuck doc blocks s i =
      let (r, b, e, k, w) = genesis-Idle doc s i in
      let (os, t, f, a, l, v) = cycles blocks b w in
      (os, t, ground (arith, e, f), ground (arith, k, a), l, v)
