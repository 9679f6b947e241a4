-- ===== src/Testing/Counts.antt =====
-- What the counters of the mock say of a session.
use bapi.Guard.{
  fail_execute, fail_handshake, complete_commit, complete_execute, complete_handshake,
  acquire_commit, acquire_execute, acquire_handshake, check_concurrent,
}
use bapi.Go.Run.{resume-returned, returned, Action}
use bapi.Server.{ServerState, new, Server}
use bapi.Server.Calls.{run, commits, queries, executes, checks, handshakes, step, Call}
use bapi.Testing.Mock.{mock_app, by_handler, handled, MockState, MockApp}
use bapi.Base.{◌^◌, sym, ◌<◌, ◌%◌, subst, none, some, arith, [], ◌≡◌, ◌∷◌, Option, ◌+◌, ℕ, List}
use bapi.Testing.Mock
use bapi.Server
use bapi.Server.Optional

abbrev pub Counts : Type 0
Counts = ℕ × ℕ × ℕ × ℕ × ℕ

abbrev pub counts : {H : Type 0} → MockState H → Counts
counts s =
    (s.handshake_calls, s.check_tx_calls, s.execute_block_calls, s.commit_calls, s.query_calls)

-- How often each method of `Lifecycle` is called.
unfoldable pub tally : List Call → Counts
tally [] = (0, 0, 0, 0, 0)
tally (x ∷ xs) =
    let (h, c, e, m, q) = tally xs in
    elim x [
      | handshakes req ↦ (1 + h, c, e, m, q)
      | checks tx mctx ↦ (h, 1 + c, e, m, q)
      | executes b ↦ (h, c, 1 + e, m, q)
      | commits ↦ (h, c, e, 1 + m, q)
      | queries r ↦ (h, c, e, m, 1 + q)
      | _ ↦ (h, c, e, m, q)
    ]

-- Sums of 64 bits.
abbrev pub plus : Counts → Counts → Counts
plus (a, b, c, d, e) (h, i, j, k, l) =
    ((a + h) % 2 ^ 64, (b + i) % 2 ^ 64, (c + j) % 2 ^ 64, (d + k) % 2 ^ 64, (e + l) % 2 ^ 64)

abbrev pub Fits : Counts → Type 0
Fits (a, b, c, d, e) = (a < 2 ^ 64) × (b < 2 ^ 64) × (c < 2 ^ 64) × (d < 2 ^ 64) × (e < 2 ^ 64)

module _ {H : Type 0} where
  handled-counts :
      {A : Type 0} (o : Option (Action H A)) (d a : A) (s t : MockState H)
      → handled o d s ≡ returned a t
      → counts t ≡ counts s
  unfolding handled by_handler
  handled-counts none d a s t h = ground (arith, h)
  handled-counts (some m) d a s t h = ground (arith, h)

  module _ (m : MockApp H) where
    abbrev pub srv : Server (MockState H)
    srv = new (mock_app m)

    step-counts :
        (x : Call) (s t : ServerState (MockState H))
        → Fits (counts s.app_state)
        → step srv x s ≡ returned tt t
        → counts t.app_state ≡ plus (counts s.app_state) (tally (x ∷ []))
    unfolding step tally new mock_app handled by_handler check_concurrent acquire_handshake
        acquire_execute acquire_commit complete_handshake complete_execute complete_commit
        fail_handshake fail_execute Server.handshake Mock.handshake Server.check_tx Mock.check_tx
        Server.execute_block Mock.execute_block Server.commit Mock.commit Server.query Mock.query
        Optional.build_proposal Mock.build_proposal Optional.verify_proposal Mock.verify_proposal
        Optional.extend_vote Mock.extend_vote Optional.verify_extension Mock.verify_extension
        Optional.available_snapshots Mock.available_snapshots Optional.export_snapshot
        Mock.export_snapshot Optional.import_snapshot Mock.import_snapshot Optional.simulate
        Mock.simulate Optional.on_batch_certified Optional.on_block_constructed
    step-counts (handshakes req) s t f h = ground (arith, f, h)
    step-counts (checks tx mctx) s t f h = ground (arith, f, h)
    step-counts (executes b) s t f h = ground (arith, f, h)
    step-counts commits s t f h = ground (arith, f, h)
    step-counts (queries q) s t f h = ground (arith, f, h)
    step-counts x s t f h = ground (arith, f, h)

    tally-cons :
        (x : Call) (xs : List Call) (c : Counts)
        → plus (plus c (tally (x ∷ []))) (tally xs) ≡ plus c (tally (x ∷ xs))
    unfolding tally
    tally-cons (handshakes req) xs c = ground arith
    tally-cons (checks tx mctx) xs c = ground arith
    tally-cons (executes b) xs c = ground arith
    tally-cons commits xs c = ground arith
    tally-cons (queries q) xs c = ground arith
    tally-cons x xs c = ground arith

    plus-Fits : (c d : Counts) → Fits (plus c d)
    plus-Fits (a, b, c, d, e) (h, i, j, k, l) =
        (omega arith, omega arith, omega arith, omega arith, omega arith)

    -- In every session with a server around the mock that returns, whatever its handlers answer, the
    -- counters have gone up by the number of calls of each method of Lifecycle, in the arithmetic of
    -- 64 bits.
    pub run-counts :
        (xs : List Call) (s t : ServerState (MockState H))
        → Fits (counts s.app_state)
        → run srv xs s ≡ returned tt t
        → counts t.app_state ≡ plus (counts s.app_state) (tally xs)
    unfolding run tally
    run-counts [] s t f h = ground (arith, f, h)
    run-counts (x ∷ xs) s t f h =
        let (a, u, e, k) = resume-returned (step srv x s) (λ a. run srv xs) tt t h in
        let one = step-counts x s u f e in
        let fits = subst Fits (sym one) (plus-Fits (counts s.app_state) (tally (x ∷ []))) in
        rw (run-counts xs u t fits k, one) (tally-cons x xs (counts s.app_state))
