-- ===== src/Example/Dex/Snapshots/Arrival.antt =====
-- Chunks that arrive in any order, some of them more than once.
use bapi.Example.Dex.Snapshots.Chunks.{assemble_whole, chunk_count-bounds}
use bapi.Example.Dex.Snapshots.Retry.{get_chunk-put_chunk, get_chunk-receive, sent}
use bapi.Server.{is_some}
use bapi.Types.{SnapshotChunk}
use bapi.Example.Dex.Snapshots.{
  assemble, u32, chunk_count, chunks_from, chunk_size, chunk_at, receive, put_chunk, get_chunk,
  Received,
}
use bapi.Base.{
  All_mono, inl, subst, ◌≤◌, ◌^◌, true, ◌⊎◌, ap, All-Mem, refl, ◌==◌, suc, none, arith, [], ◌∷◌,
  ◌<◌, ◌+◌, ltb, if◌then◌else◌, All, ◌≡◌, some, length, ℕ, List,
}
use bapi.Go.Text.{Bytes}
use mathlib.Core.List.{Mem, not-mem-nil, eq-or-mem_of_mem-cons}
use mathlib.Core.Logic.Or
use native.Mathlib.Bridge.{le_prop}
use bapi.Base.{zero, suc, dec_lt}

-- The chunks of a list are all in another.
abbrev pub Within : List SnapshotChunk → List SnapshotChunk → Type 0
Within xs ys = All (λ c. Mem c ys) xs

abbrev pub Below : ℕ → SnapshotChunk → Type 0
Below n c = c.index < n

-- A chunk of `bytes`, of which there are `n`.
abbrev Genuine : Bytes → ℕ → SnapshotChunk → Type 0
Genuine bytes n c = Below n c × (c.chunk_data ≡ chunk_at bytes c.index)

Genuine-prop : (bytes : Bytes) (n : ℕ) (c : SnapshotChunk) → IsProp (Genuine bytes n c)
Genuine-prop bytes n c = hlevel (le_prop)

All-Within :
    (P : SnapshotChunk → Type 0)
    → ((c : SnapshotChunk) → IsProp (P c))
    → (xs ys : List SnapshotChunk) → Within xs ys
    → All P ys
    → All P xs
All-Within P prop [] ys w h = tt
All-Within P prop (x ∷ xs) ys w h = (All-Mem P prop ys h x w.0, All-Within P prop xs ys w.1 h)

-- Each index has one entry.
Distinct : Received → Type 0
Distinct [] = Unit
Distinct ((j, c) ∷ m) = (get_chunk j m ≡ none) × Distinct m

put-Distinct : (i : ℕ) (b : Bytes) (m : Received) → Distinct m → Distinct (put_chunk i b m)
unfolding Distinct put_chunk get_chunk
put-Distinct i b [] h = (refl, tt)
put-Distinct i b ((j, c) ∷ m) h =
    let same : j ≡ i → get_chunk j m ≡ get_chunk i m = ap (λ n. get_chunk n m) in
    ground (arith, h, put-Distinct i b m h.1, get_chunk-put_chunk j i b m, same)

receive-Distinct : (cs : List SnapshotChunk) (m : Received) → Distinct m → Distinct (receive cs m)
unfolding receive
receive-Distinct [] m h = h
receive-Distinct (c ∷ cs) m h =
    receive-Distinct cs (put_chunk c.index c.chunk_data m) (put-Distinct c.index c.chunk_data m h)

remove : ℕ → Received → Received
remove i [] = []
remove i ((j, c) ∷ m) = let rest = remove i m in if j == i then rest else (j, c) ∷ rest

get_chunk-remove :
    (j i : ℕ) (m : Received) → get_chunk j (remove i m) ≡ (if i == j then none else get_chunk j m)
unfolding get_chunk remove
get_chunk-remove j i [] = ground arith
get_chunk-remove j i ((k, c) ∷ m) = ground (arith, get_chunk-remove j i m)

remove-Distinct : (i : ℕ) (m : Received) → Distinct m → Distinct (remove i m)
unfolding Distinct remove
remove-Distinct i [] h = tt
remove-Distinct i ((j, c) ∷ m) h =
    ground (arith, h, remove-Distinct i m h.1, get_chunk-remove j i m)

length-remove :
    (i : ℕ) (m : Received)
    → Distinct m
    → length m ≡ length (remove i m) + (if is_some (get_chunk i m) then 1 else 0)
unfolding Distinct remove get_chunk
length-remove i [] h = refl
length-remove i ((j, c) ∷ m) h = ground (arith, h, length-remove i m h.1)

-- A map with the indices below `n`, and no others, has `n` entries.
length_full :
    (n : ℕ) (m : Received)
    → Distinct m
    → ((j : ℕ) → is_some (get_chunk j m) ≡ ltb j n)
    → length m ≡ n
unfolding get_chunk
length_full zero [] h f = refl
length_full zero ((j, c) ∷ m) h f = ground (arith, f j)
length_full (suc n) m h f = ground (
  arith,
  f n,
  length-remove n m h,
  length_full n (remove n m) (remove-Distinct n m h)
      (λ j. ground (arith, get_chunk-remove j n m, f j)),
)

-- What has arrived is genuine wherever it is looked up.
get_receive-Genuine :
    (bytes : Bytes) (n : ℕ) (cs : List SnapshotChunk) (m : Received)
    → All (Genuine bytes n) cs
    → ((j : ℕ) → (get_chunk j m ≡ none) ⊎ (get_chunk j m ≡ some (chunk_at bytes j)))
    → (j : ℕ)
    → (get_chunk j (receive cs m) ≡ none) ⊎ (get_chunk j (receive cs m) ≡ some (chunk_at bytes j))
unfolding receive
get_receive-Genuine bytes n [] m h f j = f j
get_receive-Genuine bytes n (c ∷ cs) m h f j =
    get_receive-Genuine bytes n cs (put_chunk c.index c.chunk_data m) h.1
      (λ k.
        let same : c.index ≡ k → chunk_at bytes c.index ≡ chunk_at bytes k = ap (chunk_at bytes) in
        ground (arith, get_chunk-put_chunk k c.index c.chunk_data m, f k, h.0, same))
      j

sent-Below : (n j : ℕ) (cs : List SnapshotChunk) → All (Below n) cs → sent j cs ≡ true → j < n
sent-Below n j [] h s = cc
sent-Below n j (c ∷ cs) h s = ground (arith, h.0, sent-Below n j cs h.1)

-- Where each chunk has an index below `n`, and each index below `n` a chunk, `n` are received.
pub length-receive :
    (n : ℕ) (cs : List SnapshotChunk)
    → All (Below n) cs
    → ((j : ℕ) → j < n → sent j cs ≡ true)
    → length (receive cs []) ≡ n
unfolding get_chunk Distinct
length-receive n cs h f =
    length_full n (receive cs []) (receive-Distinct cs [] tt)
      (λ j. ground (arith, get_chunk-receive j cs [], sent-Below n j cs h, f j))

sent-Mem : (c : SnapshotChunk) (cs : List SnapshotChunk) → Mem c cs → sent c.index cs ≡ true
sent-Mem c [] m = absurd (not-mem-nil m)
sent-Mem c (d ∷ cs) m =
    let prop : IsProp (sent c.index (d ∷ cs) ≡ true) = hlevel in
    Or.elim prop (eq-or-mem_of_mem-cons m)
      (λ e. let same = ap (λ (x : SnapshotChunk). x.index) e in ground (arith, same))
      (λ k. ground (arith, sent-Mem c cs k))

chunks_from-Genuine :
    (bytes : Bytes) (i k n : ℕ) → i + k ≡ n → All (Genuine bytes n) (chunks_from bytes i k)
unfolding chunks_from
chunks_from-Genuine bytes i zero n h = tt
chunks_from-Genuine bytes i (suc k) n h =
    ((omega arith, refl), chunks_from-Genuine bytes (i + 1) k n (omega arith))

-- Every chunk of an export is sent by a list that it is within.
sent-chunks_from :
    (bytes : Bytes) (cs : List SnapshotChunk) (i k j : ℕ)
    → Within (chunks_from bytes i k) cs
    → i ≤ j
    → j < i + k
    → sent j cs ≡ true
unfolding chunks_from
sent-chunks_from bytes cs i zero j w l u = absurd (omega arith)
sent-chunks_from bytes cs i (suc k) j w l u = elim (dec_lt i j) [
  | yes h ↦ sent-chunks_from bytes cs (i + 1) k j w.1 (omega arith) (omega arith)
  | no h ↦
      let e : i ≡ j = omega arith in
      subst (λ n. sent n cs ≡ true) e
        (sent-Mem (record { index = i; chunk_data = chunk_at bytes i }) cs w.0)
]

-- Whatever arrives of the chunks of an export, in any order and any number of times, is the export
-- again once every chunk is there.
pub assemble_arrived :
    (bytes : Bytes) (arrived : List SnapshotChunk)
    → length bytes + chunk_size < 2 ^ 32
    → Within arrived (chunks_from bytes 0 (chunk_count bytes))
    → Within (chunks_from bytes 0 (chunk_count bytes)) arrived
    → let n = chunk_count bytes in
      let m = receive arrived [] in (u32 (length m) ≡ n) × (assemble m 0 n ≡ bytes)
unfolding get_chunk
assemble_arrived bytes arrived h w v =
    let n = chunk_count bytes in
    let m = receive arrived [] in
    let genuine : All (Genuine bytes n) arrived =
      All-Within (Genuine bytes n) (Genuine-prop bytes n) arrived (chunks_from bytes 0 n) w
        (chunks_from-Genuine bytes 0 n n (omega arith)) in
    let all_sent : (j : ℕ) → j < n → sent j arrived ≡ true =
      λ j l. sent-chunks_from bytes arrived 0 n j v (omega arith) (omega (arith, l)) in
    let full =
      length-receive n arrived (All_mono (Genuine bytes n) (Below n) (λ c g. g.0) arrived genuine)
        all_sent in
    let (low, high) = chunk_count-bounds bytes h in
    (
      omega (arith, full, low, high),
      assemble_whole bytes m h (λ j l. ground (
        arith,
        all_sent j l,
        get_chunk-receive j arrived [],
        get_receive-Genuine bytes n arrived [] genuine (λ k. inl refl) j,
      )),
    )
