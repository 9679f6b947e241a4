-- ===== src/Guard.antt =====
-- server/state_machine.go: the lifecycle state machine that wraps an application.
-- Each method is an action on the guard; one that waits for the held mutex is `blocked`.
pub mod Overlap
pub mod Interleaving
use bapi.Base.{String, Bool, true, false, ◌++◌, if◌then◌else◌}
use bapi.Go.Text.{Bytes, text}
use bapi.Go.Run.{Action, returned, panicked, blocked, panic, ◌>>=◌, ◌>>◌}

pub data LifecycleState : Type 0 where
  state_init state_ready state_executing state_executed state_committing : LifecycleState

-- `lifecycleState.String`; its default branch is for values that the type does not have here.
unfoldable pub state_text : LifecycleState → Bytes
state_text state_init = text "Init"
state_text state_ready = text "Ready"
state_text state_executing = text "Executing"
state_text state_executed = text "Executed"
state_text state_committing = text "Committing"

pub record Guard : Type 0 where
  pub state : LifecycleState
  pub seq_mu : Bool  -- held
  pub handshake_done : Bool

unfoldable pub new_guard : Guard
new_guard = record { state = state_init; seq_mu = false; handshake_done = false }

-- `g.state.Load()` and `g.state.Store(s)`
load : Action Guard LifecycleState
load g = returned g.state g

store : LifecycleState → Action Guard (Unit {0})
store s g = returned tt (record g { state = s })

-- `g.seqMu.Lock()` and `g.seqMu.Unlock()`
lock : Action Guard (Unit {0})
lock g = if g.seq_mu then blocked g else returned tt (record g { seq_mu = true })

unlock : Action Guard (Unit {0})
unlock g =
    if g.seq_mu
    then returned tt (record g { seq_mu = false })
    else panicked (text "sync: unlock of unlocked mutex") g

unfoldable pub wrong_state : String → String → LifecycleState → Bytes
wrong_state call expected state =
    text "github.com/blockberries/bapi: "
    ++ (text call
        ++ (text " called in state "
            ++ (state_text state ++ (text " (expected " ++ (text expected ++ text ")")))))

-- `LifecycleGuard.State`
unfoldable pub state_name : Guard → Bytes
state_name g = state_text g.state

compare_and_swap_init : LifecycleState → Guard → Bool × Guard
compare_and_swap_init state_init g = (true, record g { state = state_ready })
compare_and_swap_init _ g = (false, g)

unfoldable pub acquire_handshake : Action Guard (Unit {0})
unfolding compare_and_swap_init
acquire_handshake g =
    let (swapped, h) = compare_and_swap_init g.state g in
    if swapped then returned tt h else panicked (wrong_state "Handshake" "Init" h.state) h

unfoldable pub complete_handshake : Action Guard (Unit {0})
complete_handshake g = returned tt (record g { handshake_done = true })

unfoldable pub fail_handshake : Action Guard (Unit {0})
unfolding store
fail_handshake = store state_init

execute_in : LifecycleState → Action Guard (Unit {0})
unfolding store unlock
execute_in state_ready = store state_executing
execute_in state = unlock >> panic (wrong_state "ExecuteBlock" "Ready" state)

unfoldable pub acquire_execute : Action Guard (Unit {0})
unfolding lock load execute_in
acquire_execute = do lock; state ← load; execute_in state

unfoldable pub complete_execute : Action Guard (Unit {0})
unfolding store unlock
complete_execute = do store state_executed; unlock

unfoldable pub fail_execute : Action Guard (Unit {0})
unfolding store unlock
fail_execute = do store state_ready; unlock

commit_in : LifecycleState → Action Guard (Unit {0})
unfolding store unlock
commit_in state_executed = store state_committing
commit_in state = unlock >> panic (wrong_state "Commit" "Executed" state)

unfoldable pub acquire_commit : Action Guard (Unit {0})
unfolding lock load commit_in
acquire_commit = do lock; state ← load; commit_in state

unfoldable pub complete_commit : Action Guard (Unit {0})
unfolding store unlock
complete_commit = do store state_ready; unlock

unfoldable pub too_early : Bytes
too_early = text "github.com/blockberries/bapi: concurrent call before Handshake completed"

unfoldable pub check_concurrent : Action Guard (Unit {0})
check_concurrent g =
    if g.handshake_done
    then returned tt g
    else panicked (text "github.com/blockberries/bapi: concurrent call before Handshake completed")
        g

ready_state : LifecycleState → Bool
ready_state state_ready = true
ready_state _ = false

unfoldable pub is_ready : Guard → Bool
unfolding ready_state
is_ready g = ready_state g.state
