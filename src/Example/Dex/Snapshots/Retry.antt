-- ===== src/Example/Dex/Snapshots/Retry.antt =====
-- Which chunks ImportSnapshot asks for again.
use bapi.Go.Run.{returned}
use bapi.Go.Error.{GoError}
use bapi.Server.{is_some}
use bapi.Example.Dex.Chain.{Dex}
use bapi.Types.{import_retry_chunks, ImportResult, SnapshotDescriptor, SnapshotChunk}
use bapi.Go.Text.{Bytes}
use bapi.Example.Dex.State.{decoded, malformed, State, Decoded, World}
use bapi.Base.{
  some, if◌then◌else◌, ◌≢◌, zero, suc, ap, suc, not, ◌+◌, refl, ltb, arith, [], Option, ◌∷◌, ◌||◌,
  ◌==◌, ◌&&◌, leb, false, ◌≡◌, Bool, List, ℕ,
}
use bapi.Example.Dex.Snapshots.{
  install, assemble, put_chunk, Received, receive, missing, import_snapshot, get_chunk,
}

abbrev pub listed : ℕ → List ℕ → Bool
listed j [] = false
listed j (i ∷ is) = i == j || listed j is

-- Whether a chunk with the index was sent.
abbrev pub sent : ℕ → List SnapshotChunk → Bool
sent j [] = false
sent j (c ∷ cs) = c.index == j || sent j cs

pub get_chunk-put_chunk :
    (j i : ℕ) (b : Bytes) (m : Received)
    → get_chunk j (put_chunk i b m) ≡ (if i == j then some b else get_chunk j m)
unfolding get_chunk put_chunk
get_chunk-put_chunk j i b [] = ground arith
get_chunk-put_chunk j i b ((k, c) ∷ m) = ground (arith, get_chunk-put_chunk j i b m)

pub get_chunk-receive :
    (j : ℕ) (cs : List SnapshotChunk) (m : Received)
    → is_some (get_chunk j (receive cs m)) ≡ (sent j cs || is_some (get_chunk j m))
unfolding receive
get_chunk-receive j [] m = refl
get_chunk-receive j (c ∷ cs) m = ground (
  arith,
  get_chunk-receive j cs (put_chunk c.index c.chunk_data m),
  get_chunk-put_chunk j c.index c.chunk_data m,
)

listed-missing :
    (m : Received) (i k j : ℕ)
    → listed j (missing m i k) ≡ (leb i j && (ltb j (i + k) && not (is_some (get_chunk j m))))
unfolding missing
listed-missing m i zero j = ground arith
listed-missing m i (suc k) j =
    let same : i ≡ j → get_chunk i m ≡ get_chunk j m = ap (λ n. get_chunk n m) in
    ground (arith, listed-missing m (i + 1) k j, same)

install-status :
    (w : World) (d : Decoded State) (app : Dex) (r : ImportResult) (e : Option GoError) (t : Dex)
    → install w d app ≡ returned (r, e) t
    → r.status ≢ import_retry_chunks
unfolding install
install-status w (malformed x) app r e t h = ground arith
install-status w (decoded s) app r e t h = ground arith

-- When an import asks for chunks again, it asks for exactly the indices below the descriptor's
-- count that no chunk had, and the application is as before.
pub import_snapshot-retry_indices :
    (w : World) (desc : SnapshotDescriptor) (chunks : List SnapshotChunk) (app : Dex)
    (r : ImportResult) (e : Option GoError) (t : Dex) (j : ℕ)
    → import_snapshot w desc chunks app ≡ returned (r, e) t
    → r.status ≡ import_retry_chunks
    → (listed j r.retry_indices ≡ (ltb j desc.chunks && not (sent j chunks))) × (t ≡ app)
unfolding import_snapshot get_chunk
import_snapshot-retry_indices w desc chunks app r e t j h k =
    let received = receive chunks [] in
    ground (
      arith,
      install-status w (w.unmarshal_state (assemble received 0 desc.chunks)) app r e t,
      listed-missing received 0 desc.chunks j,
      get_chunk-receive j chunks [],
    )
