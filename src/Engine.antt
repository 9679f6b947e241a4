-- ===== src/Engine.antt =====
-- What an engine does with a connection: calls one after the other, each with its answer. A call of
-- an optional interface goes through the accessor, and is left out where that gives nil.
use bapi.Go.Error.{GoError}
use bapi.Go.Text.{Bytes}
use bapi.Types.{
  TxOutcome, ImportResult, SnapshotDescriptor, ExtensionVerdict, ProposalVerdict, BuiltProposal,
  StateQueryResult, CommitResult, BlockOutcome, GateVerdict, HandshakeResponse,
}
use bapi.Server.Calls.{
  lists_snapshots, commits, constructs, certifies, simulates, imports, exports, verifies_extension,
  extends, verifies, builds, queries, executes, checks, handshakes, Call,
}
use bapi.Base.{none, some, [], ◌∷◌, List, Option}
use bapi.Interfaces.{Export, Connection}
use bapi.Go.Run.{returned, pure, ◌>>=◌, Fallible, Action}

pub data Answer : Type 0 where
  unavailable : Answer
  shaken : Fallible HandshakeResponse → Answer
  checked : Fallible GateVerdict → Answer
  executed : Fallible BlockOutcome → Answer
  committed : Fallible CommitResult → Answer
  answered : Fallible StateQueryResult → Answer
  built : Fallible BuiltProposal → Answer
  verified : Fallible ProposalVerdict → Answer
  extended : Fallible Bytes → Answer
  judged : Fallible ExtensionVerdict → Answer
  listed : Fallible (List SnapshotDescriptor) → Answer
  exported : Fallible Export → Answer
  imported : Fallible ImportResult → Answer
  simulated : Fallible TxOutcome → Answer
  notified : Option GoError → Answer

abbrev pub with_answer : {T A : Type 0} → (A → Answer) → Action T A → Action T Answer
with_answer f m = do a ← m; pure (f a)

-- A call through an accessor.
abbrev pub through :
    {T I A : Type 0} → (A → Answer) → (T → Option I) → (I → Action T A) → Action T Answer
through f access m t = elim (access t) [
  | none ↦ returned unavailable t
  | some i ↦ with_answer f (m i) t
]

module _ {T : Type 0} (k : Connection T) where
  unfoldable pub ask : Call → Action T Answer
  ask (handshakes req) = with_answer shaken (k.lifecycle.handshake req)
  ask (checks tx mctx) = with_answer checked (k.lifecycle.check_tx tx mctx)
  ask (executes block) = with_answer executed (k.lifecycle.execute_block block)
  ask commits = with_answer committed k.lifecycle.commit
  ask (queries q) = with_answer answered (k.lifecycle.query q)
  ask (builds pctx) = through built k.as_proposal_control (λ p. p.build_proposal pctx)
  ask (verifies prop) = through verified k.as_proposal_control (λ p. p.verify_proposal prop)
  ask (extends vctx) = through extended k.as_vote_extender (λ v. v.extend_vote vctx)
  ask (verifies_extension ext) = through judged k.as_vote_extender (λ v. v.verify_extension ext)
  ask lists_snapshots = through listed k.as_state_sync (λ y. y.available_snapshots)
  ask (exports height format) =
      through exported k.as_state_sync (λ y. y.export_snapshot height format)
  ask (imports desc chunks) = through imported k.as_state_sync (λ y. y.import_snapshot desc chunks)
  ask (simulates tx) = through simulated k.as_simulator (λ m. m.simulate tx)
  ask (certifies ev) = through notified k.as_mempool_observer (λ o. o.on_batch_certified ev)
  ask (constructs ev) = through notified k.as_mempool_observer (λ o. o.on_block_constructed ev)

  unfoldable pub dialogue : List Call → Action T (List Answer)
  dialogue [] = pure []
  dialogue (x ∷ xs) = do a ← ask x; rest ← dialogue xs; pure (a ∷ rest)
