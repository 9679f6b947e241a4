-- ===== src/Testing/Mock.antt =====
-- testing/mock.go: an application whose methods are set by the test. The handlers work on a state
-- `H` of their own; the fields that never change are `MockApp`, the others `MockState`.
use bapi.Base.Int.{pos}
use bapi.Go.Text.{Bytes}
use bapi.Base.{true, ◌^◌, ◌+◌, ◌%◌, replicate, none, [], ◌∷◌, some, List, ℕ, Option}
use bapi.Types.{
  zero_hash, import_ok, extension_accept, ImportResult, TxOutcome, StateQueryResult, SnapshotChunk,
  ProposalVerdict, HandshakeResponse, GateVerdict, ExtensionVerdict, CommitResult, BuiltProposal,
  BlockOutcome, MempoolContext, VoteContext, Tx, StateQuery, SnapshotDescriptor, ReceivedProposal,
  ReceivedExtension, ProposalContext, HandshakeRequest, FinalizedBlock, AppHash,
}
use bapi.Interfaces.{Export, App}
use bapi.Go.Run.{◌>>◌, blocked, panicked, returned, pure, Fallible, Action}
use mathlib.Core.Option.{map as map_option}

pub record MockApp (H : Type 0) : Type 0 where
  pub declared_capabilities : ℕ
  pub handshake_fn : Option (HandshakeRequest → Action H (Fallible HandshakeResponse))
  pub check_tx_fn : Option (Tx → MempoolContext → Action H (Fallible GateVerdict))
  pub execute_block_fn : Option (FinalizedBlock → Action H (Fallible BlockOutcome))
  pub commit_fn : Option (Action H (Fallible CommitResult))
  pub query_fn : Option (StateQuery → Action H (Fallible StateQueryResult))
  pub build_proposal_fn : Option (ProposalContext → Action H (Fallible BuiltProposal))
  pub verify_proposal_fn : Option (ReceivedProposal → Action H (Fallible ProposalVerdict))
  pub extend_vote_fn : Option (VoteContext → Action H (Fallible Bytes))
  pub verify_extension_fn : Option (ReceivedExtension → Action H (Fallible ExtensionVerdict))
  pub available_snapshots_fn : Option (Action H (Fallible (List SnapshotDescriptor)))
  pub export_snapshot_fn : Option (ℕ → ℕ → Action H (Fallible Export))
  pub import_snapshot_fn :
      Option (SnapshotDescriptor → List SnapshotChunk → Action H (Fallible ImportResult))
  pub simulate_fn : Option (Tx → Action H (Fallible TxOutcome))

-- A counter is the 64 bits of an atomic.Int64, which wraps.
pub record MockState (H : Type 0) : Type 0 where
  pub handshake_calls : ℕ
  pub check_tx_calls : ℕ
  pub execute_block_calls : ℕ
  pub commit_calls : ℕ
  pub query_calls : ℕ
  pub handlers : H

-- `&MockApp{...}`
unfoldable pub new_mock : {H : Type 0} → H → MockState H
new_mock h = record {
  handshake_calls = 0;
  check_tx_calls = 0;
  execute_block_calls = 0;
  commit_calls = 0;
  query_calls = 0;
  handlers = h;
}

unfoldable pub by_handler : {H A : Type 0} → Action H A → Action (MockState H) A
by_handler m s = elim (m s.handlers) [
  | returned a h ↦ returned a (record s { handlers = h })
  | panicked e h ↦ panicked e (record s { handlers = h })
  | blocked h ↦ blocked (record s { handlers = h })
]

-- `if m.Fn != nil { return m.Fn(...) }`, and the default.
unfoldable pub handled : {H A : Type 0} → Option (Action H A) → A → Action (MockState H) A
unfolding by_handler
handled none a = pure a
handled (some m) a = by_handler m

abbrev counting : {H : Type 0} → (MockState H → MockState H) → Action (MockState H) (Unit {0})
counting f s = returned tt (f s)

-- The outcomes of the default ExecuteBlock, from index `i` on.
unfoldable pub plain_outcomes : ℕ → List Tx → List TxOutcome
plain_outcomes i [] = []
plain_outcomes i (tx ∷ txs) =
    record { index = i % 2 ^ 32; code = 0; info = []; payload = []; events = [] }
    ∷ plain_outcomes (i + 1) txs

-- `types.AppHash{0x01}`
abbrev pub mock_hash : AppHash
mock_hash = 1 ∷ replicate 31 0

module _ {H : Type 0} (m : MockApp H) where
  unfoldable pub handshake : HandshakeRequest → Action (MockState H) (Fallible HandshakeResponse)
  unfolding handled
  handshake req = do
    counting λ s. record s { handshake_calls = (s.handshake_calls + 1) % 2 ^ 64 }
    handled (map_option (λ f. f req) m.handshake_fn) (
      record { last_block = none; app_hash = none; capabilities = m.declared_capabilities },
      none,
    )

  unfoldable pub check_tx : Tx → MempoolContext → Action (MockState H) (Fallible GateVerdict)
  unfolding handled
  check_tx tx mctx = do
    counting λ s. record s { check_tx_calls = (s.check_tx_calls + 1) % 2 ^ 64 }
    handled (map_option (λ f. f tx mctx) m.check_tx_fn)
        (record { code = 0; info = []; priority = pos 0; sender = [] }, none)

  unfoldable pub execute_block : FinalizedBlock → Action (MockState H) (Fallible BlockOutcome)
  unfolding handled plain_outcomes
  execute_block block = do
    counting λ s. record s { execute_block_calls = (s.execute_block_calls + 1) % 2 ^ 64 }
    handled (map_option (λ f. f block) m.execute_block_fn) (
      record {
        tx_outcomes = plain_outcomes 0 block.txs;
        block_events = [];
        app_hash = mock_hash;
        validator_updates = [];
        params_update = none;
      },
      none,
    )

  unfoldable pub commit : Action (MockState H) (Fallible CommitResult)
  unfolding handled
  commit = do
    counting λ s. record s { commit_calls = (s.commit_calls + 1) % 2 ^ 64 }
    handled m.commit_fn (record { retain_height = 0 }, none)

  unfoldable pub query : StateQuery → Action (MockState H) (Fallible StateQueryResult)
  unfolding handled
  query req = do
    counting λ s. record s { query_calls = (s.query_calls + 1) % 2 ^ 64 }
    handled (map_option (λ f. f req) m.query_fn)
        (record { code = 0; key = []; value = []; height = 0; proof = none; info = [] }, none)

  unfoldable pub build_proposal : ProposalContext → Action (MockState H) (Fallible BuiltProposal)
  unfolding handled
  build_proposal pctx =
      handled (map_option (λ f. f pctx) m.build_proposal_fn)
        (record { txs = pctx.mempool_txs }, none)

  unfoldable pub verify_proposal :
      ReceivedProposal → Action (MockState H) (Fallible ProposalVerdict)
  unfolding handled
  verify_proposal prop =
      handled (map_option (λ f. f prop) m.verify_proposal_fn)
        (record { accept = true; reject_reason = [] }, none)

  unfoldable pub extend_vote : VoteContext → Action (MockState H) (Fallible Bytes)
  unfolding handled
  extend_vote vctx = handled (map_option (λ f. f vctx) m.extend_vote_fn) ([], none)

  unfoldable pub verify_extension :
      ReceivedExtension → Action (MockState H) (Fallible ExtensionVerdict)
  unfolding handled
  verify_extension ext =
      handled (map_option (λ f. f ext) m.verify_extension_fn) (extension_accept, none)

  unfoldable pub available_snapshots : Action (MockState H) (Fallible (List SnapshotDescriptor))
  unfolding handled
  available_snapshots = handled m.available_snapshots_fn ([], none)

  unfoldable pub export_snapshot : ℕ → ℕ → Action (MockState H) (Fallible Export)
  unfolding handled
  export_snapshot height format = handled (map_option (λ f. f height format) m.export_snapshot_fn) (
    (
      [],
      some (record {
        height = height;
        format = format;
        chunks = 0;
        hash = zero_hash;
        metadata = [];
      }),
    ),
    none,
  )

  unfoldable pub import_snapshot :
      SnapshotDescriptor → List SnapshotChunk → Action (MockState H) (Fallible ImportResult)
  unfolding handled
  import_snapshot desc chunks = handled (map_option (λ f. f desc chunks) m.import_snapshot_fn) (
    record { status = import_ok; app_hash = some mock_hash; reason = []; retry_indices = [] },
    none,
  )

  unfoldable pub simulate : Tx → Action (MockState H) (Fallible TxOutcome)
  unfolding handled
  simulate tx =
      handled (map_option (λ f. f tx) m.simulate_fn)
        (record { index = 0; code = 0; info = []; payload = []; events = [] }, none)

  -- It implements all interfaces but the observer.
  unfoldable pub mock_app : App (MockState H)
  mock_app = record {
    lifecycle = record {
      handshake = handshake;
      check_tx = check_tx;
      execute_block = execute_block;
      commit = commit;
      query = query;
    };
    proposal_control =
        some (record { build_proposal = build_proposal; verify_proposal = verify_proposal });
    vote_extender =
        some (record { extend_vote = extend_vote; verify_extension = verify_extension });
    state_sync = some (record {
      available_snapshots = available_snapshots;
      export_snapshot = export_snapshot;
      import_snapshot = import_snapshot;
    });
    simulator = some (record { simulate = simulate });
    mempool_observer = none;
  }
