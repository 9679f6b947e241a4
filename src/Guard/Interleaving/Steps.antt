-- ===== src/Guard/Interleaving/Steps.antt =====
-- Every step of a goroutine keeps the agreement, for itself and for the others.
use bapi.Guard.Overlap.{fails, succeeds}
use bapi.Guard.Interleaving.Agreement.{
  Kept, Agrees, shake_of, mutex_of, AgreesShaking, AgreesHolding, Holds,
}
use bapi.Guard.Interleaving.Serial.{
  between, decided, unshaken, Succeeds, during, underway, shaken, view, View,
}
use bapi.Guard.Interleaving.{
  releases, commit, refused, execute, leaves, ends, cleared, checks, begins, shaking, locked,
  inside, handshakes, returns, holding, calls, waits, shakes, checking, panicking, idle, enters,
  Seq, Shaking, Holding, micro, Pc, Choice, World,
}
use bapi.Base.{refl, arith, ◌+◌, ◌≡◌, ℕ}

module _ (a b : ℕ) (w : World) (v : View) where
  abbrev pub After : World × Pc → View → Type 0
  After r v' =
      Holds (a + mutex_of r.1) (b + shake_of r.1) r.0 v'
      × Agrees r.0.guard v' r.1
      × Kept a b w.guard v r.0.guard v'

  idle_lem : (c : Choice) (h : Holds a b w v) → After (micro c idle w) v
  unfolding micro view
  idle_lem handshakes h = ground (arith, h)
  idle_lem checks h = ground (arith, h)
  idle_lem (calls q) h = ground (arith, h)
  idle_lem (shakes o) h = ground (arith, h)
  idle_lem (returns o) h = ground (arith, h)

  panicking_lem : (c : Choice) (h : Holds a b w v) → After (micro c panicking w) v
  unfolding micro view
  panicking_lem c h = ground (arith, h)

  waits_lem : (c : Choice) (q : Seq) (h : Holds a b w v) → After (micro c (waits q) w) v
  unfolding micro view
  waits_lem c q h = ground (arith, h)

  -- The steps of a goroutine that has the mutex, and of one in a handshake: the view they leave.
  holding_view : Choice → Holding → View
  holding_view c (enters q) = record v { stage = during q }
  holding_view (returns o) (inside execute) = record v {
    stage = elim o [ succeeds ↦ decided | fails ↦ between ];
  }
  holding_view (returns o) (inside commit) = record v { stage = between }
  holding_view c p = v

  shaking_view : Choice → Shaking → View
  shaking_view c begins = record v { shake = underway }
  shaking_view (shakes o) inside = record v {
    shake = elim o [ succeeds ↦ shaken | fails ↦ unshaken ];
  }
  shaking_view c p = v

  checking_lem : (c : Choice) (h : Holds a b w v) → v.shake ≡ shaken → After (micro c checking w) v
  unfolding micro view
  checking_lem c h k = ground (arith, h, k)

  holding_lem :
      (c : Choice) (p : Holding)
      → Holds (a + 1) b w v
      → AgreesHolding w.guard v p
      → After (micro c (holding p) w) (holding_view c p)
  unfolding micro view holding_view
  holding_lem c (locked q) h k = ground (arith, h, k)
  holding_lem c (cleared q) h k = ground (arith, h, k)
  holding_lem c (enters q) h k = ground (arith, h, k)
  holding_lem handshakes (inside q) h k = ground (arith, h, k)
  holding_lem checks (inside q) h k = ground (arith, h, k)
  holding_lem (calls r) (inside q) h k = ground (arith, h, k)
  holding_lem (shakes o) (inside q) h k = ground (arith, h, k)
  holding_lem (returns o) (inside execute) h k = ground (arith, h, k)
  holding_lem (returns o) (inside commit) h k = ground (arith, h, k)
  holding_lem c refused h k = ground (arith, h, k)
  holding_lem c (leaves s) h k = ground (arith, h, k)
  holding_lem c releases h k = ground (arith, h, k)

  shaking_lem :
      (c : Choice) (p : Shaking)
      → Holds a (b + 1) w v
      → AgreesShaking w.guard v p
      → Succeeds c
      → After (micro c (shaking p) w) (shaking_view c p)
  unfolding micro view shaking_view
  shaking_lem c begins h k s = ground (arith, h, k, s)
  shaking_lem handshakes inside h k s = ground (arith, h, k, s)
  shaking_lem checks inside h k s = ground (arith, h, k, s)
  shaking_lem (calls r) inside h k s = ground (arith, h, k, s)
  shaking_lem (shakes succeeds) inside h k s = ground (arith, h, k, s)
  shaking_lem (shakes fails) inside h k s = absurd s
  shaking_lem (returns o) inside h k s = ground (arith, h, k, s)
  shaking_lem c (ends succeeds) h k s = ground (arith, h, k, s)
  shaking_lem c (ends fails) h k s = absurd k

pub Holds-cong :
    (a a' b b' : ℕ) (w : World) (v : View) → a ≡ a' → b ≡ b' → Holds a b w v → Holds a' b' w v
Holds-cong a a' b b' w v e f h = rw (← e, ← f) h

pub micro_lem :
    (a b : ℕ) (w : World) (v : View) (c : Choice) (p : Pc)
    → Holds (a + mutex_of p) (b + shake_of p) w v
    → Agrees w.guard v p
    → Succeeds c
    → (v' : View) × After a b w v (micro c p w) v'
micro_lem a b w v c idle h k s =
    (v, idle_lem a b w v c (Holds-cong (a + 0) a (b + 0) b w v (omega arith) (omega arith) h))
micro_lem a b w v c panicking h k s =
    (v, panicking_lem a b w v c (Holds-cong (a + 0) a (b + 0) b w v (omega arith) (omega arith) h))
micro_lem a b w v c (waits q) h k s =
    (v, waits_lem a b w v c q (Holds-cong (a + 0) a (b + 0) b w v (omega arith) (omega arith) h))
micro_lem a b w v c (holding p) h k s = (
  holding_view a b w v c p,
  holding_lem a b w v c p (Holds-cong (a + 1) (a + 1) (b + 0) b w v refl (omega arith) h) k,
)
micro_lem a b w v c (shaking p) h k s = (
  shaking_view a b w v c p,
  shaking_lem a b w v c p (Holds-cong (a + 0) a (b + 1) (b + 1) w v (omega arith) refl h) k s,
)
micro_lem a b w v c checking h k s =
    (v, checking_lem a b w v c (Holds-cong (a + 0) a (b + 0) b w v (omega arith) (omega arith) h) k)
