-- ===== src/Grpc/Accessors.antt =====
-- Calls of the optional interfaces through the accessors, in process and over the network.
use bapi.Grpc.Calls.Streams.{import_snapshot-mirror, export_snapshot-mirror}
use bapi.Guard.{check_concurrent}
use bapi.Types.Capability.{has}
use bapi.Engine.{exported, imported, simulated, listed, judged, extended, verified}
use bapi.Grpc.Calls.Optional.{
  simulate-mirror, verify_proposal-mirror, verify_extension-mirror, extend_vote-mirror,
  available_snapshots-mirror, build_proposal-mirror,
}
use bapi.Server.Laws.{discover-none}
use bapi.Types.{
  Tx, SnapshotChunk, VoteContext, SnapshotDescriptor, ReceivedProposal, ReceivedExtension,
  ProposalContext,
}
use bapi.Server.Optional
use bapi.Grpc.Calls.{mirror}
use bapi.Grpc.Client.Accessors.{client_connection}
use bapi.Local.{local_connection}
use bapi.Server.Calls.{
  simulates, imports, verifies_extension, verifies, extends, exports, lists_snapshots, builds, Call,
}
use bapi.Grpc.Delivery.{seen, Lawful, Delivers}
use bapi.Server.{new, discover_capabilities, ServerState}
use bapi.Grpc.Client.{Link}
use bapi.Grpc.Codec.{Cramberry}
use bapi.Interfaces.{App}
use bapi.Go.Run.{pure, resume-returned, returned, Action}
use bapi.Base.{List, ℕ, true, inr, arith, inl, Option-cases, some, ◌⊎◌, none, ◌≡◌, Option}
use bapi.Engine.{built, ask, unavailable, through, Answer}

-- A call through an accessor that returned: there was no interface, or the method returned.
pub through-returned :
    {T I A : Type 0} (f : A → Answer) (access : T → Option I) (m : I → Action T A) (s t : T)
    (a : Answer)
    → through f access m s ≡ returned a t
    → ((access s ≡ none) × (a ≡ unavailable) × (t ≡ s))
      ⊎ ((i : I) × (r : A) × (access s ≡ some i) × (m i s ≡ returned r t) × (a ≡ f r))
through-returned f access m s t a h = elim (Option-cases (access s)) [
  | inl n ↦ inl (n, ground arith, ground arith)
  | inr (i, e) ↦
      let (r, u, q, k) = resume-returned (m i s) (λ x. pure (f x)) a t (ground arith) in
      inr (i, r, e, ground arith, ground arith)
]

-- What holds of a server between calls: the declared capabilities are implemented, and none is
-- declared before the handshake is done.
pub record Sound {S : Type 0} (app : App S) (s : ServerState S) : Type 0 where
  pub implemented : discover_capabilities app s.caps ≡ none
  pub early : (s.guard.handshake_done ≡ true) ⊎ (s.caps ≡ 0)

module _ {S E : Type 0} (c : Cramberry E) (app : App S) (cc : Link (ServerState S) E)
    (d : Delivers c (new app) cc) (l : Lawful c) (s t : ServerState S) (a : Answer)
    (sound : Sound app s) where
  -- Both connections give the same interfaces, so they answer alike, and nothing of the guard or
  -- the capabilities changes.
  abbrev pub Alike : Call → Type 0
  Alike x =
      ask (local_connection app) x s ≡ returned a t
      → (ask (client_connection c cc) x (mirror s) ≡ returned (seen cc.status a) (mirror t))
        × Sound app t

  pub ask-builds : (pctx : ProposalContext) → Alike (builds pctx)
  unfolding ask local_connection client_connection Optional.build_proposal
      Optional.as_proposal_control new
  ask-builds pctx h =
      elim (through-returned built (local_connection app).as_proposal_control
        (λ p. p.build_proposal pctx) s t a h) [
          | inl (n, u, e) ↦
              ground (arith, n, u, e, sound, (discover-none app s.caps sound.implemented).0)
          | inr (p, r, e, run, u) ↦
              ground (arith, e, run, u, sound, build_proposal-mirror c (new app) cc d l pctx s t r)
        ]

  pub ask-verifies : (prop : ReceivedProposal) → Alike (verifies prop)
  unfolding ask local_connection client_connection Optional.verify_proposal
      Optional.as_proposal_control new
  ask-verifies prop h =
      elim (through-returned verified (local_connection app).as_proposal_control
        (λ i. i.verify_proposal prop) s t a h) [
          | inl (n, u, e) ↦
              ground (arith, n, u, e, sound, (discover-none app s.caps sound.implemented).0)
          | inr (p, r, e, run, u) ↦
              ground (arith, e, run, u, sound, verify_proposal-mirror c (new app) cc d l prop s t r)
        ]

  pub ask-extends : (vctx : VoteContext) → Alike (extends vctx)
  unfolding ask local_connection client_connection Optional.extend_vote Optional.as_vote_extender
      new
  ask-extends vctx h =
      elim (through-returned extended (local_connection app).as_vote_extender
        (λ i. i.extend_vote vctx) s t a h) [
          | inl (n, u, e) ↦
              ground (arith, n, u, e, sound, (discover-none app s.caps sound.implemented).1)
          | inr (p, r, e, run, u) ↦
              ground (arith, e, run, u, sound, extend_vote-mirror c (new app) cc d l vctx s t r)
        ]

  pub ask-verifies_extension : (ext : ReceivedExtension) → Alike (verifies_extension ext)
  unfolding ask local_connection client_connection Optional.verify_extension
      Optional.as_vote_extender new
  ask-verifies_extension ext h =
      elim (through-returned judged (local_connection app).as_vote_extender
        (λ i. i.verify_extension ext) s t a h) [
          | inl (n, u, e) ↦
              ground (arith, n, u, e, sound, (discover-none app s.caps sound.implemented).1)
          | inr (p, r, e, run, u) ↦
              ground (arith, e, run, u, sound, verify_extension-mirror c (new app) cc d l ext s t r)
        ]

  pub ask-lists_snapshots : Alike lists_snapshots
  unfolding ask local_connection client_connection Optional.available_snapshots
      Optional.as_state_sync new
  ask-lists_snapshots h =
      elim (through-returned listed (local_connection app).as_state_sync
        (λ i. i.available_snapshots) s t a h) [
          | inl (n, u, e) ↦
              ground (arith, n, u, e, sound, (discover-none app s.caps sound.implemented).2)
          | inr (p, r, e, run, u) ↦
              ground (arith, e, run, u, sound, available_snapshots-mirror c (new app) cc d l s t r)
        ]

  pub ask-exports : (height : ℕ) (format : ℕ) → Alike (exports height format)
  unfolding ask local_connection client_connection Optional.export_snapshot Optional.as_state_sync
      new
  ask-exports height format h =
      elim (through-returned exported (local_connection app).as_state_sync
        (λ i. i.export_snapshot height format) s t a h) [
          | inl (n, u, e) ↦
              ground (arith, n, u, e, sound, (discover-none app s.caps sound.implemented).2)
          | inr (p, r, e, run, u) ↦ ground (
            arith,
            e,
            run,
            u,
            sound,
            export_snapshot-mirror c (new app) cc d l height format s t r,
          )
        ]

  pub ask-imports :
      (desc : SnapshotDescriptor) (chunks : List SnapshotChunk) → Alike (imports desc chunks)
  unfolding ask local_connection client_connection Optional.import_snapshot Optional.as_state_sync
      new
  ask-imports desc chunks h =
      elim (through-returned imported (local_connection app).as_state_sync
        (λ i. i.import_snapshot desc chunks) s t a h) [
          | inl (n, u, e) ↦
              ground (arith, n, u, e, sound, (discover-none app s.caps sound.implemented).2)
          | inr (p, r, e, run, u) ↦
              ground (
                arith,
                e,
                run,
                u,
                sound,
                import_snapshot-mirror c (new app) cc d l desc chunks s t r,
              )
        ]

  pub ask-simulates : (tx : Tx) → Alike (simulates tx)
  unfolding ask local_connection client_connection Optional.simulate Optional.as_simulator new has
      check_concurrent
  ask-simulates tx h =
      elim (through-returned simulated (local_connection app).as_simulator (λ i. i.simulate tx) s t
        a h) [
          | inl (n, u, e) ↦
              ground (arith, n, u, e, sound, (discover-none app s.caps sound.implemented).3)
          | inr (p, r, e, run, u) ↦
              ground (arith, e, run, u, sound, simulate-mirror c (new app) cc d l tx s t r)
        ]
