-- ===== src/Tests/Overlapping.antt =====
-- Overlapping calls: an ExecuteBlock and a Commit that start during a handshake.
use bapi.Guard.Interleaving.Runs.{total, serial}
use bapi.Guard.Interleaving.{
  checks, handshakes, commit, idle, check_begins, handshake_begins, handshake_ends,
}
use bapi.Base.{replicate}
use bapi.Guard.Interleaving.Agreement.{mutex_of}
use bapi.Guard.Interleaving.Serial.{view}
use bapi.Server.{is_some}
use bapi.Guard.Interleaving.{
  returns, execute_ends, execute, call_begins, calls, shakes, micro, turn, fresh, Choice, schedule,
}
use bapi.Guard.{state_init, new_guard}
use bapi.Guard.Overlap.{
  execute_during_handshake, fails, move, succeeds, ends_handshake, begins_commit, exclusion,
  begins_execute, Exclusive, begins_handshake, Move, no_calls, moves,
}
use bapi.Base.{arith, if◌then◌else◌, true, replicate, ℕ, refl, false, ◌≡◌, [], ◌∷◌, ◌≤◌, ◌+◌, List}

abbrev crossing : List Move
crossing = begins_handshake ∷ begins_execute ∷ begins_commit ∷ ends_handshake succeeds ∷ []

exclusion_example :
    let s = moves crossing no_calls in (s.executing + s.committing ≤ 1) × Exclusive s
exclusion_example = exclusion crossing

execute_during_handshake_example :
    let t = moves (begins_handshake ∷ begins_execute ∷ []) no_calls in
    (t.shaking ≡ 1)
    × (t.executing ≡ 1)
    × (t.guard.handshake_done ≡ false)
    × ((move (ends_handshake fails) t).guard.state ≡ state_init)
unfolding no_calls new_guard
execute_during_handshake_example = execute_during_handshake no_calls refl refl

-- One goroutine shakes hands, then one executes a block while another waits to commit it, and a
-- third asks for a check in between.
abbrev turns : List (ℕ × Choice)
turns =
    (0, Choice.handshakes)
    ∷ (0, Choice.handshakes)
    ∷ (0, shakes succeeds)
    ∷ (1, calls execute)
    ∷ (0, Choice.handshakes)
    ∷ (1, Choice.checks)
    ∷ (2, calls commit)
    ∷ (1, Choice.checks)
    ∷ (2, Choice.checks)
    ∷ (0, Choice.checks)
    ∷ (1, Choice.checks)
    ∷ (0, Choice.checks)
    ∷ (1, Choice.checks)
    ∷ (1, returns succeeds)
    ∷ (1, Choice.checks)
    ∷ (2, Choice.checks)
    ∷ (1, Choice.checks)
    ∷ (2, Choice.checks)
    ∷ (2, Choice.checks)
    ∷ (2, Choice.checks)
    ∷ (2, Choice.checks)
    ∷ []

seen_in_order :
    (schedule turns fresh (replicate 3 idle)).0.log
    ≡ call_begins commit
      ∷ execute_ends succeeds
      ∷ call_begins execute
      ∷ check_begins
      ∷ handshake_ends succeeds
      ∷ handshake_begins
      ∷ []
unfolding schedule turn micro fresh new_guard
seen_in_order = refl

serial_example :
    let (w, ps) = schedule turns fresh (replicate 3 idle) in
    (is_some (view w.log) ≡ true) × (total mutex_of ps ≡ (if w.guard.seq_mu then 1 else 0))
serial_example = serial 3 turns (omega arith)

-- A handshake that fails while a block runs.
abbrev failing_turns : List (ℕ × Choice)
failing_turns =
    (0, handshakes)
    ∷ (0, checks)
    ∷ (1, calls execute)
    ∷ (1, checks)
    ∷ (1, checks)
    ∷ (1, checks)
    ∷ (0, shakes fails)
    ∷ (0, checks)
    ∷ (2, calls execute)
    ∷ []
