-- ===== src/Example/Dex/Snapshots.antt =====
-- StateSync: a snapshot is the JSON of the committed state, cut into chunks of 64 KiB.
-- The channel of chunks is the list of what it delivers.
pub mod Chunks
pub mod Arrival
pub mod RoundTrip
pub mod Retry
pub mod Rounds
use bapi.Go.Order.{bytes_eq}
use bapi.Go.Error.{plain}
use bapi.Interfaces.{Export}
use bapi.Example.Dex.Chain.{with_current, Dex}
use bapi.Example.Dex.State.{decoded, malformed, Decoded, app_hash, State, World}
use bapi.Types.{
  import_ok, import_retry_chunks, import_reject, SnapshotDescriptor, SnapshotChunk, ImportResult,
}
use bapi.Base.{
  zero, drop, ◌/◌, not, ltb, ◌==◌, ◌-◌, ◌++◌, take, ◌^◌, ◌+◌, suc, some, none, if◌then◌else◌, ◌∷◌,
  ◌*◌, ◌%◌, length, [], Option, List, ℕ,
}
use bapi.Go.Text.{decimal, text, Bytes}
use bapi.Go.Run.{returned, pure, Fallible, Action}

abbrev pub snapshot_format : ℕ
snapshot_format = 1

abbrev pub chunk_size : ℕ
chunk_size = 65536

-- uint32 arithmetic
abbrev pub u32 : ℕ → ℕ
u32 n = n % 2 ^ 32

-- `(uint32(len(data)) + snapshotChunkSize - 1) / snapshotChunkSize`
unfoldable pub chunk_count : Bytes → ℕ
chunk_count bytes = u32 (u32 (length bytes) + (chunk_size - 1)) / chunk_size

-- `data[start:end]` of chunk `i`. Where a state has 4 GiB and `end` wraps below `start`, Go panics;
-- the chunk is empty here.
unfoldable pub chunk_at : Bytes → ℕ → Bytes
chunk_at bytes i =
    let start = u32 (i * chunk_size) in
    let end = u32 (start + chunk_size) in
    take ((if ltb (length bytes) end then u32 (length bytes) else end) - start) (drop start bytes)

-- The goroutine of `ExportSnapshot`: the chunks from `i` on, `k` of them.
unfoldable pub chunks_from : Bytes → ℕ → ℕ → List SnapshotChunk
unfolding chunk_at
chunks_from bytes i zero = []
chunks_from bytes i (suc k) =
    record { index = i; chunk_data = chunk_at bytes i } ∷ chunks_from bytes (i + 1) k

-- `received`, a map from index to data: the last chunk with an index wins.
abbrev pub Received : Type 0
Received = List (ℕ × Bytes)

unfoldable pub put_chunk : ℕ → Bytes → Received → Received
put_chunk i b [] = (i, b) ∷ []
put_chunk i b ((j, c) ∷ m) =
    let rest = put_chunk i b m in if j == i then (i, b) ∷ m else (j, c) ∷ rest

unfoldable pub get_chunk : ℕ → Received → Option Bytes
get_chunk i [] = none
get_chunk i ((j, c) ∷ m) = if j == i then some c else get_chunk i m

unfoldable pub receive : List SnapshotChunk → Received → Received
receive [] m = m
receive (c ∷ cs) m = receive cs (put_chunk c.index c.chunk_data m)

-- The indices from `i` on, `k` of them, that were not received.
unfoldable pub missing : Received → ℕ → ℕ → List ℕ
missing m i zero = []
missing m i (suc k) =
    let rest = missing m (i + 1) k in elim (get_chunk i m) [ none ↦ i ∷ rest | some c ↦ rest ]

abbrev pub or_nil : Option Bytes → Bytes
or_nil none = []
or_nil (some b) = b

unfoldable pub assemble : Received → ℕ → ℕ → Bytes
assemble m i zero = []
assemble m i (suc k) = or_nil (get_chunk i m) ++ assemble m (i + 1) k

rejecting : Bytes → ImportResult
rejecting why = record { status = import_reject; app_hash = none; reason = why; retry_indices = [] }

retrying : List ℕ → ImportResult
retrying indices = record {
  status = import_retry_chunks;
  app_hash = none;
  reason = [];
  retry_indices = indices;
}

module _ (w : World) where
  unfoldable pub descriptor : State → SnapshotDescriptor
  descriptor s = record {
    height = s.height;
    format = snapshot_format;
    chunks = chunk_count (w.marshal_state s);
    hash = w.sha256 (w.marshal_state s);
    metadata = [];
  }

  unfoldable pub available_snapshots : Action Dex (Fallible (List SnapshotDescriptor))
  unfolding descriptor
  available_snapshots =
      with_current λ s. pure (if s.height == 0 then [] else descriptor s ∷ [], none)

  unfoldable pub export_snapshot : ℕ → ℕ → Action Dex (Fallible Export)
  unfolding descriptor chunks_from
  export_snapshot height format app =
      if not (format == snapshot_format)
      then returned
          (([], none), some (plain (text "unsupported snapshot format " ++ decimal format))) app
      else with_current
          (λ s.
            if not (s.height == height)
            then pure (
              ([], none),
              some (
                  plain (
                    text "snapshot at height "
                    ++ (decimal height
                        ++ (text " not available (current: " ++ (decimal s.height ++ text ")"))))),
            )
            else pure (
              (
                chunks_from (w.marshal_state s) 0 (chunk_count (w.marshal_state s)),
                some (descriptor s),
              ),
              none,
            ))
          app

  install : Decoded State → Action Dex (Fallible ImportResult)
  unfolding rejecting app_hash
  install (malformed e) app = returned (rejecting (text "unmarshal state: " ++ e), none) app
  install (decoded s) app =
      returned
        (
          record {
            status = import_ok;
            app_hash = some (app_hash w s);
            reason = [];
            retry_indices = [];
          },
          none,
        )
        (record app { current = some s })

  unfoldable pub import_snapshot :
      SnapshotDescriptor → List SnapshotChunk → Action Dex (Fallible ImportResult)
  unfolding rejecting retrying install receive missing assemble
  import_snapshot desc chunks app =
      let received = receive chunks [] in
      let full = assemble received 0 desc.chunks in
      if not (desc.format == snapshot_format)
      then returned (rejecting (text "unsupported format " ++ decimal desc.format), none) app
      else if not (u32 (length received) == desc.chunks)
      then returned (retrying (missing received 0 desc.chunks), none) app
      else if not (bytes_eq (w.sha256 full) desc.hash)
      then returned (rejecting (text "snapshot hash mismatch"), none) app
      else install (w.unmarshal_state full) app
