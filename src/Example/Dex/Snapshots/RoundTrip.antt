-- ===== src/Example/Dex/Snapshots/RoundTrip.antt =====
-- A snapshot that one application exports and another imports, and what an import checks.
use bapi.Go.Text.{Bytes}
use bapi.Go.Order.{eq_of_bytes_eq, bytes_eq, bytes_eq_refl}
use bapi.Example.Dex.Snapshots.Arrival.{assemble_arrived, Within}
use bapi.Go.Run.{blocked, panicked, Fallible, Run, returned}
use bapi.Base.{
  by_if, inl, refl, inr, ◌==◌, not, arith, ◌≢◌, ◌⊎◌, ◌^◌, ◌<◌, ◌+◌, [], none, length, some, ◌≡◌,
  List,
}
use bapi.Example.Dex.Chain.{Dex}
use bapi.Types.{Hash, import_ok, SnapshotChunk, ImportResult, SnapshotDescriptor}
use bapi.Example.Dex.Snapshots.{
  install, u32, chunk_count, chunks_from, snapshot_format, receive, chunk_size, assemble,
  descriptor, import_snapshot, export_snapshot,
}
use bapi.Example.Dex.State.{malformed, Decoded, decoded, app_hash, State, World}

-- The result of an import that succeeds.
abbrev pub imported : World → State → ImportResult
imported w s = record {
  status = import_ok;
  app_hash = some (app_hash w s);
  reason = [];
  retry_indices = [];
}

-- The chunks of the exported state.
abbrev pub exported : World → State → List SnapshotChunk
exported w s = let bytes = w.marshal_state s in chunks_from bytes 0 (chunk_count bytes)

-- What ExportSnapshot gives for the current height, ImportSnapshot of another application takes in,
-- in whatever order and however often the chunks arrive, once each of them is there and no other:
-- it reports the application hash of the exported state and makes that state current. This holds
-- where the JSON of the state decodes to it, and is shorter than 2^32 bytes less one chunk.
pub export-import :
    (w : World) (s : State) (giver taker : Dex) (arrived : List SnapshotChunk)
    → giver.current ≡ some s
    → length (w.marshal_state s) + chunk_size < 2 ^ 32
    → w.unmarshal_state (w.marshal_state s) ≡ decoded s
    → Within arrived (exported w s)
    → Within (exported w s) arrived
    → (export_snapshot w s.height snapshot_format giver
        ≡ returned ((exported w s, some (descriptor w s)), none) giver)
      × (import_snapshot w (descriptor w s) arrived taker
          ≡ returned (imported w s, none) (record taker { current = some s }))
unfolding export_snapshot import_snapshot descriptor
export-import w s giver taker arrived c h d own all =
    let bytes = w.marshal_state s in
    let (counted, assembled) = assemble_arrived bytes arrived h own all in
    (ground (arith, c), ground (arith, counted, assembled, bytes_eq_refl (w.sha256 bytes), d))

-- The outcome of an import that put `full` together: success after all checks, or no change.
abbrev pub Checked : World → Bytes → Hash → Dex → Run Dex (Fallible ImportResult) → Type 0
Checked w full hash app (returned (r, e) t) =
    (e ≡ none)
    × (((r.status ≡ import_ok)
          × ((s : State) × (w.unmarshal_state full ≡ decoded s)
              × (w.sha256 full ≡ hash)
              × (r.app_hash ≡ some (app_hash w s))
              × (t ≡ record app { current = some s })))
        ⊎ ((r.status ≢ import_ok) × (t ≡ app)))
Checked w full hash app (panicked e t) = ⊥
Checked w full hash app (blocked t) = ⊥

install-Checked :
    (w : World) (full : Bytes) (hash : Hash) (app : Dex) (d : Decoded State)
    → w.unmarshal_state full ≡ d
    → w.sha256 full ≡ hash
    → Checked w full hash app (install w d app)
unfolding install
install-Checked w full hash app (malformed e) u h = (refl, inr ((λ q. cc), refl))
install-Checked w full hash app (decoded s) u h = (refl, inl (refl, (s, u, h, refl, refl)))

-- An import returns with no error. If it reports success, the chunks put together have the hash of
-- the descriptor, they decode to the state that is now current, and the hash reported is that of
-- this state. If it reports anything else, the application is as before.
pub import_snapshot-Checked :
    (w : World) (desc : SnapshotDescriptor) (chunks : List SnapshotChunk) (app : Dex)
    → Checked w
        (assemble (receive chunks []) 0 desc.chunks)
        desc.hash
        app
        (import_snapshot w desc chunks app)
unfolding import_snapshot
import_snapshot-Checked w desc chunks app =
    let received = receive chunks [] in
    let full = assemble received 0 desc.chunks in
    let P : Run Dex (Fallible ImportResult) → Type 0 = Checked w full desc.hash app in
    by_if P (not (desc.format == snapshot_format)) _ _ (λ h. (refl, inr ((λ q. cc), refl)))
      λ h.
        by_if P (not (u32 (length received) == desc.chunks)) _ _
          (λ h. (refl, inr ((λ q. cc), refl)))
          λ h.
            by_if P (not (bytes_eq (w.sha256 full) desc.hash)) _ _
              (λ h. (refl, inr ((λ q. cc), refl)))
              λ h.
                install-Checked w full desc.hash app _ refl
                  (ground (arith, eq_of_bytes_eq (w.sha256 full) desc.hash))
