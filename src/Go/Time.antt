-- ===== src/Go/Time.antt =====
-- What the source uses of package time: a time.Time, and arithmetic on int64.
use bapi.Base.Int.{pos, negsuc, ℤ}
use bapi.Base.{ℕ, ◌+◌, ◌-◌, ◌/◌, ◌%◌, ◌^◌, ltb, if◌then◌else◌}

-- A number plus or minus a natural one.
unfoldable pub add_nat : ℤ → ℕ → ℤ
add_nat (pos a) k = pos (a + k)
add_nat (negsuc a) k = if ltb a k then pos (k - a - 1) else negsuc (a - k)

unfoldable pub sub_nat : ℤ → ℕ → ℤ
sub_nat (pos a) k = if ltb a k then negsuc (k - a - 1) else pos (a - k)
sub_nat (negsuc a) k = negsuc (a + k)

-- The int64 with the same lowest 64 bits.
unfoldable pub int64 : ℤ → ℤ
int64 (pos n) = let m = n % 2 ^ 64 in if ltb m (2 ^ 63) then pos m else negsuc (2 ^ 64 - 1 - m)
int64 (negsuc n) = let m = n % 2 ^ 64 in if ltb m (2 ^ 63) then negsuc m else pos (2 ^ 64 - 1 - m)

abbrev pub second : ℕ
second = 1000000000

-- An instant: seconds since 1970, and the nanoseconds of the second that has begun. The location
-- and the reading of the monotonic clock are left out.
pub record Time : Type 0 where
  pub unix : ℤ
  pub nanosecond : ℕ

-- `time.Unix`
unfoldable pub unix_time : ℤ → ℤ → Time
unfolding add_nat sub_nat int64
unix_time sec (pos n) = record { unix = int64 (add_nat sec (n / second)); nanosecond = n % second }
unix_time sec (negsuc n) = record {
  unix = int64 (sub_nat sec (n / second + 1));
  nanosecond = second - 1 - n % second;
}

-- `Time.Add`, by nanoseconds.
unfoldable pub after : Time → ℤ → Time
unfolding unix_time
after t d = unix_time t.unix (add_nat d t.nanosecond)

-- `time.Date(2024, 1, 1, 0, 0, 0, 0, time.UTC)`
abbrev pub year_2024 : Time
year_2024 = record { unix = pos 1704067200; nanosecond = 0 }
