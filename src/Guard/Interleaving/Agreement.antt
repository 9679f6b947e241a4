-- ===== src/Guard/Interleaving/Agreement.antt =====
-- How the place of each goroutine agrees with the guard and with the log.

use bapi.Guard.Overlap.{fails, succeeds}
use bapi.Guard.Interleaving.Serial.{
  during, before, underway, view, decided, unshaken, shaken, between, View, Stage,
}
use bapi.Base.{true, ◌⊎◌, some, false, ◌≤◌, if◌then◌else◌, ◌≡◌, ℕ}
use bapi.Guard.Interleaving.{
  releases, refused, leaves, inside, busy, enters, begins, ends, needed, cleared, checking, locked,
  Shaking, Holding, shaking, holding, World, Pc,
}
use bapi.Guard.{state_executed, state_ready, state_init, LifecycleState, Guard}

-- What the states say while the mutex is free.
abbrev pub Calm : LifecycleState → Stage → Type 0
Calm state_init s = s ≡ between
Calm state_ready s = s ≡ between
Calm state_executed s = s ≡ decided
Calm _ s = ⊥

abbrev pub Begun : LifecycleState → Type 0
Begun state_init = ⊥
Begun _ = Unit

-- What the next call of the application leaves the state that is set then.
abbrev pub Left : LifecycleState → Stage → Type 0
Left state_ready s = s ≡ between
Left state_executed s = s ≡ decided
Left _ s = ⊥

abbrev pub AgreesHolding : Guard → View → Holding → Type 0
AgreesHolding g v (locked q) = Calm g.state v.stage
AgreesHolding g v refused = Calm g.state v.stage
AgreesHolding g v (cleared q) = (g.state ≡ needed q) × (v.stage ≡ before q)
AgreesHolding g v (enters q) = (g.state ≡ busy q) × (v.stage ≡ before q)
AgreesHolding g v (inside q) = (g.state ≡ busy q) × (v.stage ≡ during q)
AgreesHolding g v (leaves s) = Begun g.state × Left s v.stage
AgreesHolding g v releases = Calm g.state v.stage

abbrev pub AgreesShaking : Guard → View → Shaking → Type 0
AgreesShaking g v begins = Begun g.state × (v.shake ≡ unshaken) × (g.handshake_done ≡ false)
AgreesShaking g v inside = Begun g.state × (v.shake ≡ underway) × (g.handshake_done ≡ false)
AgreesShaking g v (ends succeeds) = Begun g.state × (v.shake ≡ shaken)
AgreesShaking g v (ends fails) = ⊥

abbrev pub Agrees : Guard → View → Pc → Type 0
Agrees g v (holding p) = AgreesHolding g v p
Agrees g v (shaking p) = AgreesShaking g v p
Agrees g v checking = v.shake ≡ shaken
Agrees g v _ = Unit

-- With no handshake under way, none has begun or one is done.
abbrev pub Rests : Guard → View → Type 0
Rests g v =
    ((g.state ≡ state_init) × (v.shake ≡ unshaken) × (g.handshake_done ≡ false))
    ⊎ (Begun g.state × (v.shake ≡ shaken) × (g.handshake_done ≡ true))

abbrev pub mutex_of : Pc → ℕ
mutex_of (holding p) = 1
mutex_of _ = 0

abbrev pub shake_of : Pc → ℕ
shake_of (shaking p) = 1
shake_of _ = 0

-- What holds between steps, with `a` goroutines more that have the mutex, and `b` in a handshake.
pub record Holds (a b : ℕ) (w : World) (v : View) : Type 0 where
  pub mutex : a ≡ (if w.guard.seq_mu then 1 else 0)
  pub one_shake : b ≤ 1
  pub seen : view w.log ≡ some v
  pub calm : a ≡ 0 → Calm w.guard.state v.stage
  pub rests : b ≡ 0 → Rests w.guard v
  pub begun : 1 ≤ b → Begun w.guard.state
  pub done : w.guard.handshake_done ≡ true → v.shake ≡ shaken

-- What a step does not spoil for the goroutines that have the mutex, for those in a handshake, and
-- for those that the guard has let through.
pub record Kept (a b : ℕ) (g : Guard) (v : View) (g' : Guard) (v' : View) : Type 0 where
  pub hold : (p : Holding) → 1 ≤ a → AgreesHolding g v p → AgreesHolding g' v' p
  pub shake : (p : Shaking) → 1 ≤ b → AgreesShaking g v p → AgreesShaking g' v' p
  pub check : v.shake ≡ shaken → v'.shake ≡ shaken
