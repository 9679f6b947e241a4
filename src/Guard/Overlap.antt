-- ===== src/Guard/Overlap.antt =====
-- Calls that overlap: several goroutines between the guard's methods, in any interleaving.
-- Each method of the guard is one step; a caller that waits for the mutex tries again later.
use bapi.Base.{◌-◌, ◌==◌, refl, false, [], ◌≤◌, ◌∷◌, ℕ, if◌then◌else◌, ◌≡◌, ◌+◌, arith, List}
use bapi.Guard.{
  complete_commit, fail_handshake, fail_execute, acquire_commit, state_init, complete_handshake,
  complete_execute, acquire_execute, new_guard, acquire_handshake, Guard,
}
use bapi.Go.Run.{blocked, panicked, returned, Run, Action}

pub data Outcome : Type 0 where
  succeeds fails : Outcome

-- What some goroutine does next: a call of the server begins, or its application call has ended.
pub data Move : Type 0 where
  begins_handshake begins_execute begins_commit ends_commit : Move
  ends_handshake ends_execute : Outcome → Move

-- How many goroutines are inside each call of the application.
pub record Calls : Type 0 where
  pub guard : Guard
  pub shaking : ℕ
  pub executing : ℕ
  pub committing : ℕ

-- The guard after a method, and whether it returned.
abbrev after : Run Guard (Unit {0}) → Guard × ℕ
after (returned a g) = (g, 1)
after (panicked e g) = (g, 0)
after (blocked g) = (g, 0)

abbrev end_handshake : Outcome → Action Guard (Unit {0})
end_handshake succeeds = complete_handshake
end_handshake fails = fail_handshake

abbrev end_execute : Outcome → Action Guard (Unit {0})
end_execute succeeds = complete_execute
end_execute fails = fail_execute

-- A move that no goroutine can make changes nothing.
unfoldable pub move : Move → Calls → Calls
unfolding acquire_handshake acquire_execute acquire_commit complete_handshake fail_handshake
    complete_execute fail_execute complete_commit
move begins_handshake s =
    let (g, n) = after (acquire_handshake s.guard) in
    record s { guard = g; shaking = s.shaking + n }
move begins_execute s =
    let (g, n) = after (acquire_execute s.guard) in
    record s { guard = g; executing = s.executing + n }
move begins_commit s =
    let (g, n) = after (acquire_commit s.guard) in
    record s { guard = g; committing = s.committing + n }
move ends_commit s =
    let (g, n) = after (complete_commit s.guard) in
    if s.committing == 0 then s else record s { guard = g; committing = s.committing - 1 }
move (ends_handshake o) s =
    let (g, n) = after (end_handshake o s.guard) in
    if s.shaking == 0 then s else record s { guard = g; shaking = s.shaking - 1 }
move (ends_execute o) s =
    let (g, n) = after (end_execute o s.guard) in
    if s.executing == 0 then s else record s { guard = g; executing = s.executing - 1 }

unfoldable pub moves : List Move → Calls → Calls
moves [] s = s
moves (m ∷ ms) s = moves ms (move m s)

unfoldable pub no_calls : Calls
no_calls = record { guard = new_guard; shaking = 0; executing = 0; committing = 0 }

-- The mutex is held exactly for the one call that is inside.
abbrev pub Exclusive : Calls → Type 0
Exclusive s = s.executing + s.committing ≡ (if s.guard.seq_mu then 1 else 0)

move-Exclusive : (m : Move) (s : Calls) → Exclusive s → Exclusive (move m s)
unfolding move
move-Exclusive begins_handshake s h = ground arith
move-Exclusive begins_execute s h = ground arith
move-Exclusive begins_commit s h = ground arith
move-Exclusive ends_commit s h = ground arith
move-Exclusive (ends_handshake succeeds) s h = ground arith
move-Exclusive (ends_handshake fails) s h = ground arith
move-Exclusive (ends_execute succeeds) s h = ground arith
move-Exclusive (ends_execute fails) s h = ground arith

moves-Exclusive : (ms : List Move) (s : Calls) → Exclusive s → Exclusive (moves ms s)
unfolding moves
moves-Exclusive [] s h = h
moves-Exclusive (m ∷ ms) s h = moves-Exclusive ms (move m s) (move-Exclusive m s h)

-- However calls overlap, also with handshakes that succeed or fail at any time, at most one
-- goroutine is inside ExecuteBlock or Commit of the application, and the mutex is held exactly
-- while one is.
pub exclusion :
    (ms : List Move) → let s = moves ms no_calls in (s.executing + s.committing ≤ 1) × Exclusive s
unfolding no_calls new_guard
exclusion ms = let e = moves-Exclusive ms no_calls refl in (ground (arith, e), e)

-- While the application's Handshake is still running, the guard lets ExecuteBlock through: the
-- state is Ready before the handshake has completed. If the handshake then fails, the state is
-- Init in the middle of the block.
pub execute_during_handshake :
    (s : Calls)
    → s.guard.state ≡ state_init
    → s.guard.seq_mu ≡ false
    → let t = moves (begins_handshake ∷ begins_execute ∷ []) s in
      (t.shaking ≡ s.shaking + 1)
      × (t.executing ≡ s.executing + 1)
      × (t.guard.handshake_done ≡ s.guard.handshake_done)
      × ((move (ends_handshake fails) t).guard.state ≡ state_init)
unfolding moves move
execute_during_handshake s i l = ground arith
