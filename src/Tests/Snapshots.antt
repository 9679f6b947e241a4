-- ===== src/Tests/Snapshots.antt =====
-- Exports and imports of snapshots, at concrete states.
use bapi.Example.Dex.Snapshots.Rounds.{second_round, Settled}
use mathlib.Core.List.{mem-cons_self}
use bapi.Base.{◌++◌}
use bapi.Example.Dex.Snapshots.Retry.{import_snapshot-retry_indices, sent, listed}
use bapi.Go.BigEndian.{put_uint64, uint64-put_uint64_alone, length-put_uint64}
use bapi.Example.Dex.Snapshots.{
  chunk_at, chunks_from, chunk_count, descriptor, get_chunk, put_chunk, missing, import_snapshot,
  snapshot_format, receive, export_snapshot, assemble,
}
use bapi.Tests.Data.{at_five, giver, small_world}
use bapi.Go.Run.{returned}
use bapi.Example.Dex.State.{decoded, new_state}
use bapi.Types.{import_retry_chunks, ImportResult, SnapshotChunk, SnapshotDescriptor}
use bapi.Base.{not, ◌&&◌, ltb, ap, arith, refl, ◌≡◌, none, ◌∷◌, some, [], List}
use bapi.Example.Dex.Chain.{new_dex}
use bapi.Example.Dex.Snapshots.RoundTrip.{
  exported, export-import, imported, import_snapshot-Checked, Checked,
}

-- The only chunk, twice.
abbrev repeated : List SnapshotChunk
repeated =
    let piece : SnapshotChunk = record { index = 0; chunk_data = chunk_at (put_uint64 5) 0 } in
    piece ∷ piece ∷ []

export-import_example :
    (export_snapshot small_world 5 snapshot_format giver
      ≡ returned
          ((exported small_world at_five, some (descriptor small_world at_five)), none)
          giver)
    × (import_snapshot small_world (descriptor small_world at_five) repeated new_dex
        ≡ returned (imported small_world at_five, none) (record new_dex { current = some at_five }))
unfolding new_state chunks_from chunk_count put_uint64
export-import_example =
    export-import small_world at_five giver new_dex repeated refl
      (omega (arith, length-put_uint64 5))
      (ap (λ h. decoded (record new_state { height = h })) (uint64-put_uint64_alone 5))
      (mem-cons_self, (mem-cons_self, tt)) (mem-cons_self, tt)

abbrev stray : List SnapshotChunk
stray = record { index = 0; chunk_data = 1 ∷ 2 ∷ [] } ∷ []

abbrev described : SnapshotDescriptor
described = record { height = 5; format = 1; chunks = 1; hash = 1 ∷ 3 ∷ []; metadata = [] }

-- A chunk with the wrong hash.
import_snapshot-Checked_example :
    Checked small_world
      (assemble (receive stray []) 0 1)
      (1 ∷ 3 ∷ [])
      giver
      (import_snapshot small_world described stray giver)
import_snapshot-Checked_example = import_snapshot-Checked small_world described stray giver

abbrev halves : SnapshotDescriptor
halves = record described { chunks = 2 }

abbrev second_again : ImportResult
second_again = record {
  status = import_retry_chunks;
  app_hash = none;
  reason = [];
  retry_indices = 1 ∷ [];
}

import_snapshot-retry_indices_example :
    (listed 1 second_again.retry_indices ≡ (ltb 1 2 && not (sent 1 stray))) × (giver ≡ giver)
unfolding import_snapshot receive missing put_chunk get_chunk
import_snapshot-retry_indices_example =
    import_snapshot-retry_indices small_world halves stray giver second_again none giver 1 refl refl

abbrev rest_of_halves : List SnapshotChunk
rest_of_halves = record { index = 1; chunk_data = 3 ∷ [] } ∷ []

second_round_example : Settled (import_snapshot small_world halves (stray ++ rest_of_halves) giver)
unfolding import_snapshot receive missing put_chunk get_chunk
second_round_example =
    second_round small_world halves stray rest_of_halves giver second_again none giver (omega arith)
      (omega arith, tt) (omega arith, tt) refl refl λ j h. ground (arith, h)

abbrev uncounted : List SnapshotChunk
uncounted = record { index = 7; chunk_data = [] } ∷ []

-- A chunk that the descriptor does not count: all that are counted are there, and the import asks
-- for chunks again, and names none.
asks_for_nothing :
    import_snapshot small_world described (stray ++ uncounted) giver
    ≡ returned (record second_again { retry_indices = [] }, none) giver
unfolding import_snapshot receive missing put_chunk get_chunk
asks_for_nothing = refl
