-- ===== src/Go/BigEndian.antt =====
-- encoding/binary: `BigEndian.Uint64` and `BigEndian.PutUint64`.
use bapi.Base.{ℕ, ◌+◌, ◌*◌, ◌/◌, ◌%◌, ◌^◌, ◌<◌, ◌≡◌, refl, [], ◌∷◌, ◌++◌, arith, take, All, length}
use bapi.Go.Text.{Bytes}

-- The eight bytes that `PutUint64` writes.
unfoldable pub put_uint64 : ℕ → Bytes
put_uint64 v =
    (v / 2 ^ 56 % 256)
    ∷ (v / 2 ^ 48 % 256)
    ∷ (v / 2 ^ 40 % 256)
    ∷ (v / 2 ^ 32 % 256)
    ∷ (v / 2 ^ 24 % 256)
    ∷ (v / 2 ^ 16 % 256)
    ∷ (v / 2 ^ 8 % 256)
    ∷ (v % 256)
    ∷ []

abbrev big_endian : ℕ → Bytes → ℕ
big_endian acc [] = acc
big_endian acc (b ∷ bs) = big_endian (acc * 256 + b) bs

-- The number in the first eight bytes. (Go panics on a shorter slice; every caller has checked.)
unfoldable pub uint64 : Bytes → ℕ
uint64 bs = big_endian 0 (take 8 bs)

abbrev pub IsByte : ℕ → Type 0
IsByte b = b < 256

pub uint64-put_uint64 : (v : ℕ) (rest : Bytes) → uint64 (put_uint64 v ++ rest) ≡ v % 2 ^ 64
unfolding uint64 put_uint64
uint64-put_uint64 v rest = omega arith

-- Go's round trip, for the bytes alone and for a slice that goes on.
pub uint64-put_uint64_alone : (v : ℕ) → uint64 (put_uint64 v) ≡ v % 2 ^ 64
unfolding uint64 put_uint64
uint64-put_uint64_alone v = omega arith

pub length-put_uint64 : (v : ℕ) → length (put_uint64 v) ≡ 8
unfolding put_uint64
length-put_uint64 v = refl

pub put_uint64-IsByte : (v : ℕ) → All IsByte (put_uint64 v)
unfolding put_uint64
put_uint64-IsByte v = omega arith

pub uint64-lt : (bs : Bytes) → All IsByte bs → uint64 bs < 2 ^ 64
unfolding uint64
uint64-lt (a ∷ b ∷ c ∷ d ∷ e ∷ f ∷ g ∷ h ∷ rest) bytes = omega arith
uint64-lt _ bytes = omega arith
