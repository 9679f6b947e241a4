-- ===== src/Grpc/Wire.antt =====
-- grpc/wire.go: the messages of the calls whose arguments or results are not one struct.
use bapi.Base.{ℕ, Option, List}
use bapi.Types.{SnapshotChunk, SnapshotDescriptor, MempoolContext, Tx, ExtensionVerdict}
use bapi.Go.Text.{Bytes}

pub record CheckTxRequest : Type 0 where
  pub tx : Tx
  pub mctx : MempoolContext

pub record CommitRequest : Type 0 where

pub record ExtendVoteResponse : Type 0 where
  pub extension : Bytes

pub record ExtensionVerdictResponse : Type 0 where
  pub verdict : ExtensionVerdict

pub record AvailableSnapshotsRequest : Type 0 where

pub record AvailableSnapshotsResponse : Type 0 where
  pub snapshots : List SnapshotDescriptor

pub record ExportSnapshotRequest : Type 0 where
  pub height : ℕ
  pub format : ℕ

-- The first message of an import holds the descriptor, each other a chunk.
pub record ImportSnapshotMessage : Type 0 where
  pub descriptor : Option SnapshotDescriptor
  pub chunk : Option SnapshotChunk

pub record SimulateRequest : Type 0 where
  pub tx : Tx
