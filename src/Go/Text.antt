-- ===== src/Go/Text.antt =====
-- Go strings and byte slices are lists of bytes; the verbs `%d`, `%x` and `0x%02x` of `fmt`.
pub mod Decimal
use Prim.Native.Char.{code}
use bapi.Base.{ℕ, zero, suc, ◌+◌, ◌/◌, ◌%◌, String, List, [], ◌∷◌, ◌++◌, ltb, if◌then◌else◌}

abbrev pub Bytes : Type 0
Bytes = List ℕ

-- A literal of the source; all of them are ASCII.
unfoldable pub text : String → Bytes
text String.[] = []
text (String.◌∷◌ c s) = code c ∷ text s

-- `%d` of an unsigned number: one round for each digit.
decimal_digits : ℕ → ℕ → Bytes
decimal_digits zero n = []
decimal_digits (suc fuel) n =
    let rest = decimal_digits fuel (n / 10) in
    if ltb n 10 then (48 + n) ∷ [] else rest ++ ((48 + n % 10) ∷ [])

unfoldable pub decimal : ℕ → Bytes
unfolding decimal_digits
decimal n = decimal_digits (suc n) n

abbrev pub hex_digit : ℕ → ℕ
hex_digit d = if ltb d 10 then 48 + d else 87 + d

-- `%02x` of one byte.
unfoldable pub hex_byte : ℕ → Bytes
hex_byte b = hex_digit (b / 16 % 16) ∷ hex_digit (b % 16) ∷ []

-- `%x` of a byte slice.
unfoldable pub hex : Bytes → Bytes
unfolding hex_byte
hex [] = []
hex (b ∷ bs) = hex_byte b ++ hex bs
