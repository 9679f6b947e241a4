-- ===== src/Guard/Interleaving/Serial.antt =====
-- What the application may see of calls that overlap, as an automaton over its log.
use bapi.Guard.Overlap.{fails, succeeds, Outcome}
use bapi.Base.{[], ◌∷◌, none, some, Option, List}
use bapi.Guard.Interleaving.{
  commit_ends, check_begins, handshake_begins, execute_ends, commit, call_begins, shakes,
  handshake_ends, execute, Seq, Event, Choice,
}

-- Of the calls that come one at a time, and of the handshake.
pub data Stage : Type 0 where
  between decided : Stage
  during : Seq → Stage

pub data Shake : Type 0 where
  unshaken underway shaken : Shake

pub record View : Type 0 where
  pub stage : Stage
  pub shake : Shake

abbrev pub before : Seq → Stage
before execute = between
before commit = decided

-- A call of ExecuteBlock may begin between two blocks, and one of Commit once a block is decided.
begin : Seq → Stage → Option Stage
begin execute between = some (during execute)
begin commit decided = some (during commit)
begin q s = none

end_execute : Outcome → Stage → Option Stage
end_execute succeeds (during execute) = some decided
end_execute fails (during execute) = some between
end_execute o s = none

end_commit : Stage → Option Stage
end_commit (during commit) = some between
end_commit s = none

begin_handshake : Shake → Option Shake
begin_handshake unshaken = some underway
begin_handshake h = none

end_handshake : Outcome → Shake → Option Shake
end_handshake succeeds underway = some shaken
end_handshake fails underway = some unshaken
end_handshake o h = none

check : Shake → Option Shake
check shaken = some shaken
check h = none

with_stage : Option Stage → View → Option View
with_stage none v = none
with_stage (some s) v = some (record v { stage = s })

with_shake : Option Shake → View → Option View
with_shake none v = none
with_shake (some h) v = some (record v { shake = h })

unfoldable pub advance : Event → View → Option View
unfolding begin end_execute end_commit begin_handshake end_handshake check with_stage with_shake
advance handshake_begins v = with_shake (begin_handshake v.shake) v
advance (handshake_ends o) v = with_shake (end_handshake o v.shake) v
advance check_begins v = with_shake (check v.shake) v
advance (call_begins q) v = with_stage (begin q v.stage) v
advance (execute_ends o) v = with_stage (end_execute o v.stage) v
advance commit_ends v = with_stage (end_commit v.stage) v

after : Event → Option View → Option View
unfolding advance
after e none = none
after e (some v) = advance e v

-- The events are listed with the newest first.
unfoldable pub view : List Event → Option View
unfolding after
view [] = some (record { stage = between; shake = unshaken })
view (e ∷ es) = after e (view es)

-- All but a handshake of the application that fails.
abbrev pub Succeeds : Choice → Type 0
Succeeds (shakes fails) = ⊥
Succeeds c = Unit
