-- ===== src/Guard/Interleaving/Exclusion.antt =====
-- The mutex of the guard, with handshakes that may fail.
use bapi.Base.{if◌then◌else◌, ◌≡◌, ℕ}
use bapi.Guard.Interleaving.{World}

-- As many goroutines hold the mutex as it is held.
abbrev Locked : ℕ → World → Type 0
Locked n w = n ≡ (if w.guard.seq_mu then 1 else 0)
