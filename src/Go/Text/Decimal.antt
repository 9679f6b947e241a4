-- ===== src/Go/Text/Decimal.antt =====
-- The digits that `%d` prints, read again.
use bapi.Base.{zero, ◌/◌, ◌%◌, ◌<◌, refl, ◌-◌, ◌+◌, ◌*◌, arith, [], ◌∷◌, ◌++◌, suc, ◌≡◌, ℕ}
use bapi.Go.Text.{decimal_digits, Bytes, decimal}

abbrev read_digits : ℕ → Bytes → ℕ
read_digits n [] = n
read_digits n (c ∷ cs) = read_digits (10 * n + (c - 48)) cs

read_digits-append :
    (n c : ℕ) (cs : Bytes) → read_digits n (cs ++ (c ∷ [])) ≡ 10 * read_digits n cs + (c - 48)
read_digits-append n c [] = refl
read_digits-append n c (d ∷ cs) = read_digits-append (10 * n + (d - 48)) c cs

decimal_digits-read : (fuel n : ℕ) → n < fuel → read_digits 0 (decimal_digits fuel n) ≡ n
unfolding decimal_digits
decimal_digits-read zero n h = absurd (omega arith)
decimal_digits-read (suc fuel) n h = ground (
  arith,
  read_digits-append 0 (48 + n % 10) (decimal_digits fuel (n / 10)),
  decimal_digits-read fuel (n / 10),
)

-- The digits are those of the number: the rounds that `decimal` allows are enough.
read-decimal : (n : ℕ) → read_digits 0 (decimal n) ≡ n
unfolding decimal
read-decimal n = decimal_digits-read (suc n) n (omega arith)
