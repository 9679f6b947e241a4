-- ===== src/Guard/Interleaving.antt =====
-- Goroutines inside the guard's methods: each atomic access, each operation of the mutex and each
-- call of the application is a step of its own. A goroutine is where it stands in one of the
-- server's calls; `CheckTx`, `Query` and `Simulate` are alike here.
pub mod Serial
pub mod Agreement
pub mod Steps
pub mod Runs
pub mod Exclusion
use bapi.Base.{zero, suc, [], Bool, ◌∷◌, ℕ, true, if◌then◌else◌, false, List}
use bapi.Guard.{
  state_committing, state_ready, state_init, state_executing, state_executed, new_guard,
  LifecycleState, Guard,
}
use bapi.Guard.Overlap.{Outcome, succeeds, fails}

-- The calls that take the mutex.
pub data Seq : Type 0 where
  execute commit : Seq

-- The state that a call asks for, and the one that it sets.
abbrev pub needed : Seq → LifecycleState
needed execute = state_ready
needed commit = state_executed

abbrev pub busy : Seq → LifecycleState
busy execute = state_executing
busy commit = state_committing

-- Before the application's Handshake, inside it, and before the guard is told of the outcome.
pub data Shaking : Type 0 where
  begins inside : Shaking
  ends : Outcome → Shaking

-- With the mutex: before the state is loaded, before the mutex is given back in a refusal, before
-- the state is set, before and inside the application's call, before the state is set again, and
-- before the mutex is given back.
pub data Holding : Type 0 where
  locked cleared enters inside : Seq → Holding
  refused : Holding
  leaves : LifecycleState → Holding
  releases : Holding

pub data Pc : Type 0 where
  idle panicking : Pc
  shaking : Shaking → Pc
  waits : Seq → Pc
  holding : Holding → Pc
  checking : Pc

-- What the application sees of the calls.
pub data Event : Type 0 where
  handshake_begins commit_ends check_begins : Event
  handshake_ends execute_ends : Outcome → Event
  call_begins : Seq → Event

-- The call that an idle goroutine makes, or how the application's Handshake or another of its calls
-- ends.
pub data Choice : Type 0 where
  handshakes checks : Choice
  calls : Seq → Choice
  shakes returns : Outcome → Choice

pub record World : Type 0 where
  pub guard : Guard
  pub log : List Event  -- the newest first

abbrev set_state : LifecycleState → World → World
set_state s w = record w { guard = record w.guard { state = s } }

abbrev sees : Event → World → World
sees e w = record w { log = e ∷ w.log }

same_state : LifecycleState → LifecycleState → Bool
same_state state_init state_init = true
same_state state_ready state_ready = true
same_state state_executing state_executing = true
same_state state_executed state_executed = true
same_state state_committing state_committing = true
same_state s t = false

-- `CompareAndSwap(stateInit, stateReady)`
shake_step : LifecycleState → World → World × Pc
shake_step state_init w = (set_state state_ready w, shaking begins)
shake_step s w = (w, panicking)

start : Choice → World → World × Pc
unfolding shake_step
start handshakes w = shake_step w.guard.state w
start checks w = (w, if w.guard.handshake_done then checking else panicking)
start (calls q) w = (w, waits q)
start c w = (w, idle)

shaking_step : Choice → Shaking → World → World × Pc
shaking_step c begins w = (sees handshake_begins w, shaking inside)
shaking_step (shakes o) inside w = (sees (handshake_ends o) w, shaking (ends o))
shaking_step c inside w = (w, shaking inside)
shaking_step c (ends succeeds) w =
    (record w { guard = record w.guard { handshake_done = true } }, idle)
shaking_step c (ends fails) w = (set_state state_init w, idle)

-- `defer` is not used: a call of the application that ends gives the state that is set next.
ended : Seq → Outcome → World → World × Pc
ended execute succeeds w = (sees (execute_ends succeeds) w, holding (leaves state_executed))
ended execute fails w = (sees (execute_ends fails) w, holding (leaves state_ready))
ended commit o w = (sees commit_ends w, holding (leaves state_ready))

give_back : World → World
give_back w = record w { guard = record w.guard { seq_mu = false } }

holding_step : Choice → Holding → World → World × Pc
unfolding ended give_back same_state
holding_step c (locked q) w =
    (w, holding (if same_state w.guard.state (needed q) then cleared q else refused))
holding_step c refused w = (give_back w, panicking)
holding_step c (cleared q) w = (set_state (busy q) w, holding (enters q))
holding_step c (enters q) w = (sees (call_begins q) w, holding (inside q))
holding_step (returns o) (inside q) w = ended q o w
holding_step c (inside q) w = (w, holding (inside q))
holding_step c (leaves s) w = (set_state s w, holding releases)
holding_step c releases w = (give_back w, idle)

-- A goroutine that waits for the mutex while it is held stays where it is.
unfoldable pub micro : Choice → Pc → World → World × Pc
unfolding start shaking_step holding_step
micro c idle w = start c w
micro c panicking w = (w, panicking)
micro c (shaking p) w = shaking_step c p w
micro c (waits q) w =
    if w.guard.seq_mu
    then (w, waits q)
    else (record w { guard = record w.guard { seq_mu = true } }, holding (locked q))
micro c (holding p) w = holding_step c p w
micro c checking w = (sees check_begins w, idle)

-- The goroutine with the number `n` makes its next step.
unfoldable pub turn : ℕ → Choice → World → List Pc → World × List Pc
turn n c w [] = (w, [])
turn zero c w (p ∷ ps) = let (v, q) = micro c p w in (v, q ∷ ps)
turn (suc n) c w (p ∷ ps) = let (v, qs) = turn n c w ps in (v, p ∷ qs)

-- Whose turn it is, one after the other.
unfoldable pub schedule : List (ℕ × Choice) → World → List Pc → World × List Pc
schedule [] w ps = (w, ps)
schedule ((n, c) ∷ ts) w ps = let (v, qs) = turn n c w ps in schedule ts v qs

unfoldable pub fresh : World
unfolding new_guard
fresh = record { guard = new_guard; log = [] }
