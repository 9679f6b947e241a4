-- ===== src/Example/Dex/Snapshots/Chunks.antt =====
-- The chunks of an export, and what an import makes of them.
use bapi.Base.{
  length-drop, inr, inl, drop-drop, ◌∙◌, ap₂, ltb, ◌-◌, if◌then◌else◌, ◌⊎◌, ◌*◌, sym, refl, ◌^◌,
  zero, drop, arith, ap, ◌∷◌, ◌++◌, suc, some, ◌≡◌, ◌<◌, ◌+◌, take, [], ◌≤◌, length, List, ℕ,
}
use bapi.Example.Dex.Snapshots.{
  or_nil, chunk_count, assemble, u32, chunk_size, Received, get_chunk, chunk_at,
}
use bapi.Go.Text.{Bytes}

module _ {A : Type 0} where
  take_all : (n : ℕ) (xs : List A) → length xs ≤ n → take n xs ≡ xs
  take_all zero [] h = refl
  take_all zero (x ∷ xs) h = absurd (omega arith)
  take_all (suc n) [] h = refl
  take_all (suc n) (x ∷ xs) h = ap (◌∷◌ x) (take_all n xs (omega arith))

  take_add : (m n k : ℕ) (xs : List A) → k ≡ m + n → take k xs ≡ take m xs ++ take n (drop m xs)
  take_add zero n k xs h = ap (λ j. take j xs) (omega arith)
  take_add (suc m) n zero xs h = absurd (omega arith)
  take_add (suc m) n (suc k) [] h = sym (take_all n [] (omega arith))
  take_add (suc m) n (suc k) (x ∷ xs) h = ap (◌∷◌ x) (take_add m n k xs (omega arith))

-- The length of a chunk, where the arithmetic does not wrap.
chunk_length : ℕ → ℕ → ℕ
chunk_length len i =
    let start = u32 (i * chunk_size) in
    let end = u32 (start + chunk_size) in (if ltb len end then u32 len else end) - start

chunk_length-cases :
    (len i : ℕ)
    → len + chunk_size < 2 ^ 32
    → i * chunk_size < len
    → (chunk_length len i ≡ chunk_size)
      ⊎ ((chunk_length len i ≡ len - i * chunk_size) × (len - i * chunk_size ≤ chunk_size))
unfolding chunk_length
chunk_length-cases len i h l = ground arith

chunk_at-take :
    (bytes : Bytes) (i : ℕ)
    → length bytes + chunk_size < 2 ^ 32
    → i * chunk_size < length bytes
    → chunk_at bytes i ≡ take chunk_size (drop (i * chunk_size) bytes)
unfolding chunk_at chunk_length
chunk_at-take bytes i h l =
    let len = length bytes in
    let start = i * chunk_size in
    let cut : (n : ℕ) → chunk_length len i ≡ n → chunk_at bytes i ≡ take n (drop start bytes) =
      λ n e. ap₂ (λ n m. take n (drop m bytes)) e (omega arith) in
    elim (chunk_length-cases len i h l) [
      | inl e ↦ cut chunk_size e
      | inr (e, small) ↦
          cut (len - start) e
          ∙ take_all (len - start) (drop start bytes) (omega (arith, length-drop start bytes))
          ∙ sym (take_all chunk_size (drop start bytes) (omega (arith, length-drop start bytes)))
    ]

-- Chunks put one after the other.
abbrev parts : Bytes → ℕ → ℕ → Bytes
parts bytes i zero = []
parts bytes i (suc k) = chunk_at bytes i ++ parts bytes (i + 1) k

parts-take :
    (bytes : Bytes) (i k : ℕ)
    → length bytes + chunk_size < 2 ^ 32
    → (i + k) * chunk_size < length bytes + chunk_size
    → parts bytes i k ≡ take (k * chunk_size) (drop (i * chunk_size) bytes)
parts-take bytes i zero h l = refl
parts-take bytes i (suc k) h l =
    ap₂ (λ x y. x ++ y) (chunk_at-take bytes i h (omega arith))
      (parts-take bytes (i + 1) k h (omega arith)
        ∙ ap (take (k * chunk_size)) (
            sym (drop-drop chunk_size (i * chunk_size) ((i + 1) * chunk_size) bytes (omega arith))))
    ∙ sym (
        take_add chunk_size (k * chunk_size) (suc k * chunk_size) (drop (i * chunk_size) bytes)
          (omega arith))

assemble-parts :
    (bytes : Bytes) (m : Received) (i k : ℕ)
    → ((j : ℕ) → i ≤ j → j < i + k → get_chunk j m ≡ some (chunk_at bytes j))
    → assemble m i k ≡ parts bytes i k
unfolding assemble
assemble-parts bytes m i zero h = refl
assemble-parts bytes m i (suc k) h =
    ap₂ (λ o y. or_nil o ++ y) (h i (omega arith) (omega arith))
      (assemble-parts bytes m (i + 1) k (λ j l u. h j (omega arith) (omega arith)))

pub chunk_count-bounds :
    (bytes : Bytes)
    → length bytes + chunk_size < 2 ^ 32
    → (length bytes ≤ chunk_count bytes * chunk_size)
      × (chunk_count bytes * chunk_size < length bytes + chunk_size)
unfolding chunk_count
chunk_count-bounds bytes h = (omega arith, omega arith)

-- Where every chunk of an export is received, what an import assembles is what was exported.
pub assemble_whole :
    (bytes : Bytes) (m : Received)
    → length bytes + chunk_size < 2 ^ 32
    → ((j : ℕ) → j < chunk_count bytes → get_chunk j m ≡ some (chunk_at bytes j))
    → assemble m 0 (chunk_count bytes) ≡ bytes
assemble_whole bytes m h f =
    let n = chunk_count bytes in
    let (low, high) = chunk_count-bounds bytes h in
    assemble-parts bytes m 0 n (λ j l u. f j (omega (arith, u)))
    ∙ parts-take bytes 0 n h (omega arith)
    ∙ take_all (n * chunk_size) bytes low
