-- ===== src/Grpc/Calls/Streams.antt =====
-- Snapshots over the network: the two calls that stream.
use bapi.Go.Error.{GoError}
use bapi.Grpc.Calls.{relay, mirror}
use bapi.Types.{ImportResult, SnapshotDescriptor, SnapshotChunk}
use bapi.Interfaces.{Export}
use bapi.Go.Run.{returned, Fallible}
use bapi.Base.{zero, suc, take, map, refl, [], ◌+◌, some, arith, ap, ◌∷◌, ◌≡◌, none, List, ℕ}
use bapi.Grpc.GrpcServer.{answered, read_chunks, send_chunks, exported}
use bapi.Grpc.Service.{encoded, handler_export_snapshot}
use bapi.Grpc.Client.Wrappers.{
  read_stream, no_import, chunk_message, descriptor_message, encode_all, receive_chunks, export_of,
}
use bapi.Grpc.Delivery.{ended, eof, seen_as, seen_export, Lawful, Delivers}
use bapi.Grpc.Client.{Link}
use bapi.Server.{ServerState, Server}
use bapi.Grpc.Codec.{done, unmarshal, marshal, Cramberry}
use bapi.Grpc.GrpcServer
use bapi.Grpc.Client.Wrappers
use bapi.Server.Optional

module _ {S E : Type 0} (c : Cramberry E) (srv : Server S) (cc : Link (ServerState S) E)
    (l : Lawful c) where
  -- The chunks that are sent are received.
  receive-send :
      (i : ℕ) (xs : List SnapshotChunk) (ending : GoError)
      → receive_chunks c cc
          (read_stream c cc (send_chunks c.snapshot_chunk (λ j. none) i xs).0 ending)
        ≡ xs
  unfolding receive_chunks send_chunks marshal unmarshal
  receive-send i [] ending = refl
  receive-send i (x ∷ xs) ending =
      let (m, em, dm) = l.snapshot_chunk x in ground (arith, em, dm, receive-send (i + 1) xs ending)

  pub handled_export :
      (height format : ℕ) (x : E) (s t : ServerState S) (r : Fallible Export)
      → c.export_snapshot_request.decode x ≡ done (record { height = height; format = format })
      → Optional.export_snapshot srv height format s ≡ returned r t
      → handler_export_snapshot c srv (λ i. none) x s
        ≡ returned (exported c.snapshot_chunk (λ i. none) r) t
  unfolding handler_export_snapshot GrpcServer.export_snapshot unmarshal
  handled_export height format x s t r dx h = ground (arith, dx, h)

  export_of-exported :
      (r : Fallible Export)
      → let sent = exported c.snapshot_chunk (λ i. none) r in
        export_of c cc (done (sent.0, ended cc.status sent.1)) ≡ seen_export r
  unfolding export_of exported
  export_of-exported (x, none) =
      ap (λ ch. ((ch, none), none))
        (receive-send 0 x.0 (ended cc.status (send_chunks c.snapshot_chunk (λ i. none) 0 x.0).1))
  export_of-exported (x, some e) = refl

  -- Each message holds the chunk beside it.
  abbrev Reads : List E → List SnapshotChunk → Type 0
  Reads [] [] = Unit {0}
  Reads (m ∷ ms) (x ∷ xs) =
      (c.import_snapshot_message.decode m ≡ done (chunk_message x)) × Reads ms xs
  Reads _ _ = ⊥

  pub encode-Reads :
      (xs : List SnapshotChunk)
      → (ms : List E) × (encode_all c cc (map chunk_message xs) ≡ (ms, none)) × Reads ms xs
  unfolding encode_all marshal
  encode-Reads [] = ([], refl, tt)
  encode-Reads (x ∷ xs) =
      let (m, em, dm) = l.import_snapshot_message (chunk_message x) in
      let (ms, ems, dms) = encode-Reads xs in (m ∷ ms, ground (arith, em, ems), (dm, dms))

  -- The server reads the chunks of the messages that arrive.
  pub read_chunks-take :
      (k : ℕ) (ms : List E) (xs : List SnapshotChunk)
      → Reads ms xs
      → read_chunks c (take k ms) ≡ take k xs
  unfolding read_chunks unmarshal
  read_chunks-take zero ms xs w = refl
  read_chunks-take (suc k) [] [] w = refl
  read_chunks-take (suc k) (m ∷ ms) (x ∷ xs) w = ground (arith, w.0, read_chunks-take k ms xs w.1)
  read_chunks-take (suc k) [] (x ∷ xs) w = absurd w
  read_chunks-take (suc k) (m ∷ ms) [] w = absurd w

  read_chunks-all : (ms : List E) (xs : List SnapshotChunk) → Reads ms xs → read_chunks c ms ≡ xs
  unfolding read_chunks unmarshal
  read_chunks-all [] [] w = refl
  read_chunks-all (m ∷ ms) (x ∷ xs) w = ground (arith, w.0, read_chunks-all ms xs w.1)
  read_chunks-all [] (x ∷ xs) w = absurd w
  read_chunks-all (m ∷ ms) [] w = absurd w

  pub handled_import :
      (desc : SnapshotDescriptor) (chunks : List SnapshotChunk) (m : E) (ms : List E)
      (ending : GoError) (s t : ServerState S) (r : Fallible ImportResult)
      → c.import_snapshot_message.decode m ≡ done (descriptor_message desc)
      → read_chunks c ms ≡ chunks
      → Optional.import_snapshot srv desc chunks s ≡ returned r t
      → GrpcServer.import_snapshot c srv (m ∷ ms) ending s
        ≡ returned (encoded c.import_result (answered r)) t
  unfolding GrpcServer.import_snapshot unmarshal
  handled_import desc chunks m ms ending s t r dm read h = ground (arith, dm, read, h)

module _ {S E : Type 0} (c : Cramberry E) (srv : Server S) (cc : Link (ServerState S) E)
    (d : Delivers c srv cc) (l : Lawful c) where
  pub export_snapshot-mirror :
      (height format : ℕ) (s t : ServerState S) (r : Fallible Export)
      → Optional.export_snapshot srv height format s ≡ returned r t
      → Wrappers.export_snapshot c cc height format (mirror s) ≡ returned (seen_export r) (mirror t)
  unfolding Wrappers.export_snapshot marshal Optional.export_snapshot
  export_snapshot-mirror height format s t r h =
      let (x, ex, dx) = l.export_snapshot_request (record { height = height; format = format }) in
      let sent = exported c.snapshot_chunk (λ i. none) r in
      ground (
        arith,
        ex,
        d.pull x s t sent.0 sent.1 (handled_export c srv cc l height format x s t r dx h),
        export_of-exported c srv cc l r,
      )

  pub import_snapshot-mirror :
      (desc : SnapshotDescriptor) (chunks : List SnapshotChunk) (s t : ServerState S)
      (r : Fallible ImportResult)
      → Optional.import_snapshot srv desc chunks s ≡ returned r t
      → Wrappers.import_snapshot c cc desc chunks (mirror s)
        ≡ returned (seen_as no_import cc.status r) (mirror t)
  unfolding Wrappers.import_snapshot encode_all marshal Optional.import_snapshot
  import_snapshot-mirror desc chunks s t r h =
      let (m, em, dm) = l.import_snapshot_message (descriptor_message desc) in
      let (ms, ems, dms) = encode-Reads c srv cc l chunks in
      ground (
        arith,
        em,
        ems,
        d.push (m ∷ ms) s t (encoded c.import_result (answered r)) (
            handled_import c srv cc l desc chunks m ms eof s t r dm
              (read_chunks-all c srv cc l ms chunks dms) h),
        relay c srv cc d c.import_result (answered r) l.import_result,
      )
