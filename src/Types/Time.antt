-- ===== src/Types/Time.antt =====
-- time.go: timestamps and durations of the wire, from and to Go's.
use bapi.Base.{◌%◌, ap, ◌/◌, ℕ, ◌↔◌, arith, ◌≡◌, ◌^◌, ◌<◌}
use bapi.Base.Int.{negsuc, pos, ℤ}
use bapi.Go.Time.{second, int64, add_nat, Time, unix_time}
use bapi.Types.Core.{Timestamp, Duration}

-- The nanoseconds fit an int32.
unfoldable pub time_to_timestamp : Time → Timestamp
time_to_timestamp t = record { seconds = t.unix; nanos = pos t.nanosecond }

unfoldable pub to_time : Timestamp → Time
unfolding unix_time
to_time ts = unix_time ts.seconds ts.nanos

-- A time.Duration is its nanoseconds, an int64.
unfoldable pub duration_from_go : ℤ → Duration
duration_from_go d = record { nanos = d }

unfoldable pub to_go : Duration → ℤ
to_go d = d.nanos

-- The values of an int64.
unfoldable pub IsInt64 : ℤ → Type 0
IsInt64 (pos n) = n < 2 ^ 63
IsInt64 (negsuc n) = n < 2 ^ 63

-- Of a timestamp, the part that is a whole number of nanoseconds in a second.
unfoldable pub IsNanos : ℤ → Type 0
IsNanos (pos n) = n < second
IsNanos (negsuc n) = ⊥

int64-IsInt64 : (i : ℤ) → IsInt64 i → int64 i ≡ i
unfolding int64 IsInt64
int64-IsInt64 (pos n) h = ground arith
int64-IsInt64 (negsuc n) h = ground arith

add_nat_zero : (i : ℤ) → add_nat i 0 ≡ i
unfolding add_nat
add_nat_zero (pos n) = ground arith
add_nat_zero (negsuc n) = ground arith

small_div : (n : ℕ) → n < second → n / second ≡ 0
small_div n k = omega arith

small_mod : (n : ℕ) → n < second → n % second ≡ n
small_mod n k = omega arith

unix_time-small :
    (sec : ℤ) (n : ℕ)
    → IsInt64 sec
    → n < second
    → unix_time sec (pos n) ≡ record { unix = sec; nanosecond = n }
unfolding unix_time
unix_time-small sec n h k =
    ground (arith, small_div n k, small_mod n k, add_nat_zero sec, int64-IsInt64 sec h)

to_time_same :
    (sec nanos : ℤ)
    → IsInt64 sec
    → (time_to_timestamp (unix_time sec nanos) ≡ record { seconds = sec; nanos = nanos })
      ↔ IsNanos nanos
unfolding time_to_timestamp IsNanos unix_time
to_time_same sec (pos n) h = (
  λ e. ground (arith, ap (λ (x : Timestamp). x.nanos) e),
  λ k. ap time_to_timestamp (unix_time-small sec n h k),
)
to_time_same sec (negsuc n) h =
    (λ e. ground (arith, ap (λ (x : Timestamp). x.nanos) e), λ k. absurd k)

-- Every time keeps its instant on the way through a timestamp, and a timestamp comes back the same
-- from a time exactly if its nanoseconds are those of a second, from 0 to 999999999. The seconds
-- are those of an int64.
pub round_trips :
    (t : Time) (ts : Timestamp)
    → IsInt64 t.unix
    → t.nanosecond < second
    → IsInt64 ts.seconds
    → (to_time (time_to_timestamp t) ≡ t)
      × ((time_to_timestamp (to_time ts) ≡ ts) ↔ IsNanos ts.nanos)
unfolding to_time time_to_timestamp unix_time IsNanos
round_trips t ts h n k =
    (unix_time-small t.unix t.nanosecond h n, to_time_same ts.seconds ts.nanos k)
