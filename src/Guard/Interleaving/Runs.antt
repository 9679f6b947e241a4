-- ===== src/Guard/Interleaving/Runs.antt =====
-- Interleavings of any number of goroutines.
use bapi.Go.Run.{blocked, panicked, returned, Run, Action}
use bapi.Guard.Interleaving.Steps.{micro_lem, Holds-cong}
use bapi.Server.{is_some}
use bapi.Guard.Interleaving.Agreement.{shake_of, mutex_of, Holds, Agrees, Kept}
use bapi.Guard.Interleaving.Serial.{unshaken, between, Succeeds, view, View}
use bapi.Base.{
  sym, refl, if◌then◌else◌, zero, true, suc, arith, [], ◌+◌, replicate, ◌≡◌, ◌∷◌, All, List, ℕ,
}
use bapi.Guard.Interleaving.{
  enters, commit, calls, execute, Event, Seq, checking, panicking, shaking, holding, waits, micro,
  World, idle, Choice, turn, schedule, fresh, Pc,
}
use bapi.Guard.{acquire_commit, acquire_execute, new_guard, Guard}

abbrev pub total : (Pc → ℕ) → List Pc → ℕ
total f [] = 0
total f (p ∷ ps) = f p + total f ps

Kept-Agrees :
    (a b : ℕ) (g g' : Guard) (v v' : View) (p : Pc)
    → Kept (a + mutex_of p) (b + shake_of p) g v g' v'
    → Agrees g v p
    → Agrees g' v' p
Kept-Agrees a b g g' v v' idle k h = h
Kept-Agrees a b g g' v v' panicking k h = h
Kept-Agrees a b g g' v v' (waits q) k h = h
Kept-Agrees a b g g' v v' (holding p) k h = k.hold p (omega arith) h
Kept-Agrees a b g g' v v' (shaking p) k h = k.shake p (omega arith) h
Kept-Agrees a b g g' v v' checking k h = k.check h

Kept-less :
    (a b c d : ℕ) (g g' : Guard) (v v' : View) → Kept (a + c) (b + d) g v g' v' → Kept a b g v g' v'
Kept-less a b c d g g' v v' k = record {
  hold = λ p i. k.hold p (omega arith);
  shake = λ p i. k.shake p (omega arith);
  check = k.check;
}

Kept-cong :
    (a a' b b' : ℕ) (g g' : Guard) (v v' : View)
    → a ≡ a'
    → b ≡ b'
    → Kept a b g v g' v'
    → Kept a' b' g v g' v'
Kept-cong a a' b b' g g' v v' e f k = rw (← e, ← f) k

Kept-All :
    (a b : ℕ) (g g' : Guard) (v v' : View) (ps : List Pc)
    → Kept (a + total mutex_of ps) (b + total shake_of ps) g v g' v'
    → All (Agrees g v) ps
    → All (Agrees g' v') ps
Kept-All a b g g' v v' [] k h = tt
Kept-All a b g g' v v' (p ∷ ps) k h =
    let A = total mutex_of ps in
    let B = total shake_of ps in
    (
      Kept-Agrees (a + A) (b + B) g g' v v' p
          (Kept-cong (a + (mutex_of p + A)) (a + A + mutex_of p) (b + (shake_of p + B))
            (b + B + shake_of p) g g' v v' (omega arith) (omega arith) k)
          h.0,
      Kept-All (a + mutex_of p) (b + shake_of p) g g' v v' ps
          (Kept-cong (a + (mutex_of p + A)) (a + mutex_of p + A) (b + (shake_of p + B))
            (b + shake_of p + B) g g' v v' (omega arith) (omega arith) k)
          h.1,
    )

turn_lem :
    (n : ℕ) (c : Choice) (ps : List Pc) (a b : ℕ) (w : World) (v : View)
    → Holds (a + total mutex_of ps) (b + total shake_of ps) w v
    → All (Agrees w.guard v) ps
    → Succeeds c
    → let r = turn n c w ps in
      (v' : View) × Holds (a + total mutex_of r.1) (b + total shake_of r.1) r.0 v'
      × All (Agrees r.0.guard v') r.1
      × Kept a b w.guard v r.0.guard v'
unfolding turn
turn_lem n c [] a b w v h k s =
    (v, h, tt, record { hold = λ p i q. q; shake = λ p i q. q; check = λ q. q })
turn_lem zero c (p ∷ ps) a b w v h k s =
    let A = total mutex_of ps in
    let B = total shake_of ps in
    let q = (micro c p w).1 in
    let (v', (h', g', k')) =
      micro_lem (a + A) (b + B) w v c p
        (Holds-cong (a + (mutex_of p + A)) (a + A + mutex_of p) (b + (shake_of p + B))
          (b + B + shake_of p) w v (omega arith) (omega arith) h)
        k.0 s in
    (
      v',
      Holds-cong (a + A + mutex_of q) (a + (mutex_of q + A)) (b + B + shake_of q)
          (b + (shake_of q + B)) (micro c p w).0 v' (omega arith) (omega arith) h',
      (g', Kept-All a b w.guard (micro c p w).0.guard v v' ps k' k.1),
      Kept-less a b A B w.guard (micro c p w).0.guard v v' k',
    )
turn_lem (suc n) c (p ∷ ps) a b w v h k s =
    let A = total mutex_of ps in
    let B = total shake_of ps in
    let (w', qs) = turn n c w ps in
    let (v', h', g', k') =
      turn_lem n c ps (a + mutex_of p) (b + shake_of p) w v
        (Holds-cong (a + (mutex_of p + A)) (a + mutex_of p + A) (b + (shake_of p + B))
          (b + shake_of p + B) w v (omega arith) (omega arith) h)
        k.1 s in
    (
      v',
      Holds-cong (a + mutex_of p + total mutex_of qs) (a + (mutex_of p + total mutex_of qs))
          (b + shake_of p + total shake_of qs) (b + (shake_of p + total shake_of qs)) w' v'
          (omega arith) (omega arith) h',
      (Kept-Agrees a b w.guard w'.guard v v' p k' k.0, g'),
      Kept-less a b (mutex_of p) (shake_of p) w.guard w'.guard v v' k',
    )

schedule_lem :
    (ts : List (ℕ × Choice)) (ps : List Pc) (w : World) (v : View)
    → Holds (total mutex_of ps) (total shake_of ps) w v
    → All (Agrees w.guard v) ps
    → All (λ (t : ℕ × Choice). Succeeds t.1) ts
    → let r = schedule ts w ps in
      (v' : View) × Holds (total mutex_of r.1) (total shake_of r.1) r.0 v'
      × All (Agrees r.0.guard v') r.1
unfolding schedule
schedule_lem [] ps w v h k s = (v, h, k)
schedule_lem ((n, c) ∷ ts) ps w v h k s =
    let (v', h', k', f) =
      turn_lem n c ps 0 0 w v
        (Holds-cong (total mutex_of ps) (0 + total mutex_of ps) (total shake_of ps)
          (0 + total shake_of ps) w v (omega arith) (omega arith) h)
        k s.0 in
    let (w', qs) = turn n c w ps in
    schedule_lem ts qs w' v'
      (Holds-cong (0 + total mutex_of qs) (total mutex_of qs) (0 + total shake_of qs)
        (total shake_of qs) w' v' (omega arith) (omega arith) h')
      k' s.1

pub idle-total : (f : Pc → ℕ) → f idle ≡ 0 → (n : ℕ) → total f (replicate n idle) ≡ 0
idle-total f e zero = refl
idle-total f e (suc n) = ground (arith, e, idle-total f e n)

idle-Agrees : (g : Guard) (v : View) (n : ℕ) → All (Agrees g v) (replicate n idle)
idle-Agrees g v zero = tt
idle-Agrees g v (suc n) = (tt, idle-Agrees g v n)

fresh-Holds : Holds 0 0 fresh (record { stage = between; shake = unshaken })
unfolding fresh new_guard view
fresh-Holds = ground arith

-- However many goroutines call the server, and however the single accesses to the guard and the
-- calls of the application are interleaved, as long as no handshake of the application fails: the
-- application's ExecuteBlock and Commit never overlap, a Commit comes after an ExecuteBlock that
-- succeeded and no ExecuteBlock comes between the two, the application sees one handshake at most,
-- and CheckTx, Query and Simulate only after that has succeeded. An ExecuteBlock may begin, and end,
-- before the handshake does. And the mutex is held exactly while one goroutine is between taking it
-- and giving it back.
pub serial :
    (goroutines : ℕ) (ts : List (ℕ × Choice))
    → All (λ (t : ℕ × Choice). Succeeds t.1) ts
    → let (w, ps) = schedule ts fresh (replicate goroutines idle) in
      (is_some (view w.log) ≡ true) × (total mutex_of ps ≡ (if w.guard.seq_mu then 1 else 0))
unfolding fresh new_guard
serial n ts s =
    let ps = replicate n idle in
    let v : View = record { stage = between; shake = unshaken } in
    let (v', h, k) =
      schedule_lem ts ps fresh v
        (Holds-cong 0 (total mutex_of ps) 0 (total shake_of ps) fresh v
          (sym (idle-total mutex_of refl n)) (sym (idle-total shake_of refl n)) fresh-Holds)
        (idle-Agrees fresh.guard v n) s in
    (ground (arith, h), h.mutex)

-- Where a goroutine stands that has called the guard before one of the sequential calls.
abbrev stands : Seq → Run Guard (Unit {0}) → Guard × Pc
stands q (returned r g) = (g, holding (enters q))
stands q (panicked e g) = (g, panicking)
stands q (blocked g) = (g, waits q)

abbrev acquire : Seq → Action Guard (Unit {0})
acquire execute = acquire_execute
acquire commit = acquire_commit

-- A goroutine that no other interrupts does in four steps what the guard's method does.
pub uninterrupted :
    (q : Seq) (c : Choice) (g : Guard) (es : List Event)
    → let (h, p) = stands q (acquire q g) in
      schedule
        ((0, calls q) ∷ (0, c) ∷ (0, c) ∷ (0, c) ∷ [])
        (record { guard = g; log = es })
        (idle ∷ [])
      ≡ (record { guard = h; log = es }, p ∷ [])
unfolding schedule turn micro acquire_execute acquire_commit
uninterrupted execute c g es = ground arith
uninterrupted commit c g es = ground arith
