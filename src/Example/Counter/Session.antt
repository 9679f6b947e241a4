-- ===== src/Example/Counter/Session.antt =====
-- The counter behind an in-process connection, from the handshake on.
use bapi.Types.Capability.{has}
use bapi.Go.BigEndian.{put_uint64}
use bapi.Local.{new_connection}
use bapi.Go.Run.{returned, final}
use bapi.Example.Counter.Laws.{count_txs-total, total}
use bapi.Example.Counter.{committed_count, new_counter, counter_app, Counter}
use bapi.Server.Calls.{handshakes, commits, executes, step, Call, run}
use bapi.Server.{discover_capabilities, new_state, new, ServerState, Server}
use bapi.Types.{BlockId, StateQueryResult, StateQuery, HandshakeRequest, Tx, FinalizedBlock}
use bapi.Guard.{
  check_concurrent, complete_handshake, acquire_handshake, complete_commit, acquire_commit,
  complete_execute, acquire_execute, state_ready, Guard,
}
use bapi.Go.Text.{text, Bytes}
use bapi.Local
use bapi.Base.{
  some, Option, ap₂, refl, ◌∙◌, ◌%◌, arith, ◌^◌, ◌+◌, none, ◌≡◌, ◌<◌, ◌++◌, true, [], ◌∷◌, false,
  List, ℕ,
}
use bapi.Example.Counter
use bapi.Server

-- Decided blocks, each executed and committed.
abbrev pub cycles : List FinalizedBlock → List Call
cycles [] = []
cycles (b ∷ bs) = executes b ∷ commits ∷ cycles bs

abbrev pub all_txs : List FinalizedBlock → List Tx
all_txs [] = []
all_txs (b ∷ bs) = b.txs ++ all_txs bs

abbrev pub last_height : ℕ → List FinalizedBlock → ℕ
last_height h [] = h
last_height h (b ∷ bs) = last_height b.height bs

total-append : (xs ys : List Tx) → total (xs ++ ys) ≡ total xs + total ys
total-append [] ys = omega arith
total-append (x ∷ xs) ys = omega (arith, total-append xs ys)

abbrev idle_guard : Guard
idle_guard = record { state = state_ready; seq_mu = false; handshake_done = true }

module _ (sha256 : Bytes → Bytes) where
  abbrev srv : Server Counter
  srv = new (counter_app sha256)

  -- The server after the cycle of one block.
  abbrev committed_block : FinalizedBlock → ServerState Counter → ServerState Counter
  committed_block b s = record s {
    app_state = final (Counter.commit sha256 (final (Counter.execute_block sha256 b s.app_state)));
    guard = idle_guard;
    last_outcome = none;
    last_exec_height = b.height;
  }

  cycle_lem :
      (b : FinalizedBlock) (cs : List Call) (s : ServerState Counter)
      → run srv (executes b ∷ commits ∷ cs) (record s { guard = idle_guard })
        ≡ run srv cs (committed_block b s)
  unfolding run step new counter_app Server.execute_block Server.commit acquire_execute
      complete_execute acquire_commit complete_commit
  cycle_lem b cs s = refl

  -- What a session has brought the server to.
  record Reached (s : ServerState Counter) (bs : List FinalizedBlock) : Type 0 where
    pub last : ServerState Counter
    pub ran : run srv (cycles bs) (record s { guard = idle_guard }) ≡ returned tt last
    pub idle : last.guard ≡ idle_guard
    pub count : last.app_state.count ≡ (s.app_state.count + total (all_txs bs)) % 2 ^ 64
    pub height : last.app_state.height ≡ last_height s.app_state.height bs

  cycles_lem :
      (bs : List FinalizedBlock) (s : ServerState Counter)
      → s.app_state.count < 2 ^ 64
      → Reached s bs
  unfolding run Counter.execute_block Counter.commit
  cycles_lem [] s h = record {
    last = record s { guard = idle_guard };
    ran = refl;
    idle = refl;
    count = omega arith;
    height = refl;
  }
  cycles_lem (b ∷ bs) s h =
      let e = count_txs-total 0 s.app_state.count b.txs h in
      let r = cycles_lem bs (committed_block b s) (omega (arith, e)) in
      record {
        last = r.last;
        ran = cycle_lem b (cycles bs) s ∙ r.ran;
        idle = r.idle;
        count = omega (arith, e, r.count, total-append b.txs (all_txs bs));
        height = r.height;
      }

abbrev pub answer : ℕ → ℕ → StateQueryResult
answer count height = record {
  code = 0;
  key = text "count";
  value = put_uint64 count;
  height = height;
  proof = none;
  info = [];
}

opening :
    (sha256 : Bytes → Bytes) (req : HandshakeRequest) (cs : List Call) (l : Option BlockId)
    → req.last_committed ≡ l
    → run (new (counter_app sha256)) (handshakes req ∷ cs) (new_state (new_counter sha256))
      ≡ run
          (new (counter_app sha256))
          cs
          (record (new_state (new_counter sha256)) { guard = idle_guard })
unfolding run step Server.handshake new counter_app new_state new_counter acquire_handshake
    complete_handshake discover_capabilities has
opening sha256 req cs none e = ground arith
opening sha256 req cs (some b) e = ground arith

query-idle :
    (sha256 : Bytes → Bytes) (q : StateQuery) (t : ServerState Counter)
    → t.guard ≡ idle_guard
    → Local.query (new_connection (counter_app sha256)) q t
      ≡ returned (answer t.app_state.count t.app_state.height, none) t
unfolding new_connection Local.query Server.query new counter_app check_concurrent
query-idle sha256 q t e = ground arith

-- After a handshake, whatever the request, and any list of decided blocks, each executed and
-- committed over the in-process connection, no call has panicked or waits, Count is the sum of the
-- increments of all well-formed transactions, modulo 2^64, and Query answers with this sum in eight
-- bytes, at the height of the last block.
pub session :
    (sha256 : Bytes → Bytes) (req : HandshakeRequest) (bs : List FinalizedBlock) (q : StateQuery)
    → let c = new_connection (counter_app sha256) in
      (t : ServerState Counter) × (run c.srv
          (handshakes req ∷ cycles bs)
          (new_state (new_counter sha256))
        ≡ returned tt t)
      × (committed_count t.app_state ≡ total (all_txs bs) % 2 ^ 64)
      × (Local.query c q t
          ≡ returned (answer (total (all_txs bs) % 2 ^ 64) (last_height 0 bs), none) t)
unfolding new_connection new_state new_counter committed_count
session sha256 req bs q =
    let s = new_state (new_counter sha256) in
    let r = cycles_lem sha256 bs s (omega arith) in
    (
      r.last,
      opening sha256 req (cycles bs) req.last_committed refl ∙ r.ran,
      r.count ∙ omega arith,
      query-idle sha256 q r.last r.idle
          ∙ ap₂ (λ c h. returned (answer c h, none) r.last) (r.count ∙ omega arith) r.height,
    )
