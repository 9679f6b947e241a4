-- ===== src/Example/Dex/Snapshots/Rounds.antt =====
-- How many rounds an import takes.
use bapi.Example.Dex.Snapshots.{install}
-- What an import returns that succeeds or rejects, and asks for no chunks.
use bapi.Go.Order.{bytes_eq}
use bapi.Example.Dex.Snapshots.Arrival.{length-receive, Below}
use bapi.Go.Error.{GoError}
use bapi.Example.Dex.Snapshots.Retry.{import_snapshot-retry_indices, listed, sent}
use bapi.Types.{
  import_reject, import_ok, import_retry_chunks, ImportResult, SnapshotChunk, SnapshotDescriptor,
}
use bapi.Example.Dex.Chain.{Dex}
use bapi.Base.{
  ◌⊎◌, inl, inr, All-append, true, ◌==◌, refl, not, by_if, arith, All, ◌∷◌, ◌^◌, ◌||◌, ◌<◌, none,
  [], ◌≡◌, ◌++◌, length, Option, List, ℕ,
}
use bapi.Example.Dex.Snapshots.{snapshot_format, assemble, receive, u32, import_snapshot}
use bapi.Example.Dex.State.{decoded, malformed, State, Decoded, World}
use bapi.Go.Run.{blocked, panicked, returned, Fallible, Run}

abbrev pub Settled : Run Dex (Fallible ImportResult) → Type 0
Settled (returned (r, e) t) =
    (e ≡ none) × ((r.status ≡ import_ok) ⊎ (r.status ≡ import_reject)) × (r.retry_indices ≡ [])
Settled (panicked e t) = ⊥
Settled (blocked t) = ⊥

sent-append : (j : ℕ) (xs ys : List SnapshotChunk) → sent j (xs ++ ys) ≡ (sent j xs || sent j ys)
sent-append j [] ys = refl
sent-append j (x ∷ xs) ys = ground (arith, sent-append j xs ys)

install-Settled : (w : World) (d : Decoded State) (app : Dex) → Settled (install w d app)
unfolding install
install-Settled w (malformed e) app = (refl, inr refl, refl)
install-Settled w (decoded s) app = (refl, inl refl, refl)

-- An import that has received as many chunks as the descriptor counts asks for none.
complete-Settled :
    (w : World) (desc : SnapshotDescriptor) (chunks : List SnapshotChunk) (app : Dex)
    → (u32 (length (receive chunks [])) ≡ desc.chunks)
    → Settled (import_snapshot w desc chunks app)
unfolding import_snapshot
complete-Settled w desc chunks app e =
    let full = assemble (receive chunks []) 0 desc.chunks in
    by_if Settled (not (desc.format == snapshot_format)) _ _ (λ h. (refl, inr refl, refl))
      λ h.
        by_if Settled (not (u32 (length (receive chunks [])) == desc.chunks)) _ _
          (λ h. absurd (ground (arith, e, h)))
          λ h.
            by_if Settled (not (bytes_eq (w.sha256 full) desc.hash)) _ _
              (λ h. (refl, inr refl, refl)) λ h. install-Settled w (w.unmarshal_state full) app

-- An import is over after two rounds. Where no chunk has an index that the descriptor does not
-- count, and the first round asks for chunks again, a second round with all that it asks for, added
-- to what came before, returns without an error: it succeeds or rejects, and asks for no chunks.
pub second_round :
    (w : World) (desc : SnapshotDescriptor) (first second : List SnapshotChunk) (app : Dex)
    (r : ImportResult) (e : Option GoError) (t : Dex)
    → desc.chunks < 2 ^ 32
    → All (Below desc.chunks) first
    → All (Below desc.chunks) second
    → import_snapshot w desc first app ≡ returned (r, e) t
    → r.status ≡ import_retry_chunks
    → ((j : ℕ) → listed j r.retry_indices ≡ true → sent j second ≡ true)
    → Settled (import_snapshot w desc (first ++ second) t)
second_round w desc first second app r e t small f s i k again =
    let n = desc.chunks in
    let there : (j : ℕ) → j < n → sent j (first ++ second) ≡ true = λ j l. ground (
      arith,
      l,
      again j,
      sent-append j first second,
      (import_snapshot-retry_indices w desc first app r e t j i k).0,
    ) in
    complete-Settled w desc (first ++ second) t (
      omega (
        arith,
        small,
        length-receive n (first ++ second) (All-append (Below n) first second f s) there,
      ))
