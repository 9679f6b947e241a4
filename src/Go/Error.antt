-- ===== src/Go/Error.antt =====
-- errors.go, and the error values of Go that the program tells apart: a plain message, a
-- `*HaltError`, and an error wrapped by `%w`.
use bapi.Base.{ℕ, Option, none, some, ◌++◌}
use bapi.Go.Text.{Bytes, text, decimal}

pub record HaltError : Type 0 where
  pub reason : Bytes
  pub height : ℕ

pub data GoError : Type 0 where
  plain : Bytes → GoError
  halt : HaltError → GoError
  wrapped : Bytes → GoError → GoError

unfoldable pub halt_error_text : HaltError → Bytes
halt_error_text e = text "HALT at height " ++ (decimal e.height ++ (text ": " ++ e.reason))

-- `err.Error()`
unfoldable pub error_text : GoError → Bytes
unfolding halt_error_text
error_text (plain m) = m
error_text (halt h) = halt_error_text h
error_text (wrapped m e) = m ++ error_text e

unfoldable pub new_halt_error : ℕ → Bytes → HaltError
new_halt_error height reason = record { reason = reason; height = height }

-- `errors.As` walks the chain of wrapped errors. The nil error is `none`.
unfoldable pub as_halt : GoError → Option HaltError
as_halt (plain m) = none
as_halt (halt h) = some h
as_halt (wrapped m e) = as_halt e

unfoldable pub is_halt : Option GoError → Option HaltError
unfolding as_halt
is_halt none = none
is_halt (some e) = as_halt e
