-- ===== src/Types/Snapshot.antt =====
-- snapshot.go.
use bapi.Base.{ℕ, List, Option}
use bapi.Go.Text.{Bytes}
use bapi.Types.Core.{Hash, AppHash}

pub record SnapshotDescriptor : Type 0 where
  pub height : ℕ
  pub format : ℕ
  pub chunks : ℕ
  pub hash : Hash
  pub metadata : Bytes

pub record SnapshotChunk : Type 0 where
  pub index : ℕ
  pub chunk_data : Bytes

-- The zero value, which an error result carries, names no status.
pub data ImportStatus : Type 0 where
  unset_status import_ok import_reject import_retry_chunks : ImportStatus

pub record ImportResult : Type 0 where
  pub status : ImportStatus
  pub app_hash : Option AppHash
  pub reason : Bytes
  pub retry_indices : List ℕ
