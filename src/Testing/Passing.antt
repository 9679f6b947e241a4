-- ===== src/Testing/Passing.antt =====
-- The counter under the suite.
use bapi.Go.BigEndian.{uint64}
use bapi.Types.Capability.{has}
use bapi.Guard.{
  new_guard, check_concurrent, complete_commit, acquire_commit, complete_execute, acquire_execute,
  complete_handshake, acquire_handshake,
}
use bapi.Example.Dex.State.{new_state}
use bapi.Server.{discover_capabilities, new}
use bapi.Testing.Harness.{make_empty_block, make_block, new_harness, errorf, fatal_if, on_server}
use bapi.Testing.Suite.{
  on_second, on_first, same_hashes, deterministic_with_txs, empty_blocks_deterministic,
  run_compliance_suite,
}
use bapi.Interfaces.{App}
use bapi.Base.{refl, ◌^◌, ◌%◌, [], ◌∷◌, arith, true, Bool, All, false, ◌≡◌}
use bapi.Types.{zero_hash}
use bapi.Example.Counter.{count_txs, new_counter, counter_app, Counter, compute_hash}
use bapi.Go.Order.{bytes_eq_refl, bytes_eq}
use bapi.Go.Text.{Bytes}
use bapi.Testing.Harness
use bapi.Testing.Compliance
use bapi.Server
use bapi.Example.Counter

module _ (sha256 : Bytes → Bytes) (h : bytes_eq (compute_hash sha256 0) zero_hash ≡ false) where
  abbrev app : App Counter
  app = counter_app sha256

  abbrev first : Counter
  first = new_counter sha256

  -- Where SHA-256 of the count 0 is not zero, the counter passes every check of the suite, the
  -- goroutines of a concurrent one running one after the other.
  counter_passes : All (λ (r : Bytes × Bool). r.1 ≡ true) (run_compliance_suite app first)
  unfolding run_compliance_suite Compliance.genesis_handshake Compliance.genesis_returns_app_hash
      Compliance.execute_commit_cycle Compliance.concurrent_checktx_after_handshake
      Compliance.concurrent_query_after_handshake Compliance.query_returns_height
      Compliance.tx_outcome_indices empty_blocks_deterministic deterministic_with_txs
      Compliance.cycle_heights Compliance.check_tx_times Compliance.query_times
      Compliance.indices_from same_hashes on_first on_second on_server fatal_if errorf new_harness
      Harness.genesis_default Harness.genesis Harness.execute_and_commit Harness.execute_block
      Harness.commit Harness.query Server.handshake Server.execute_block Server.commit Server.query
      Server.check_tx new new_state counter_app new_counter Counter.handshake Counter.execute_block
      Counter.commit Counter.query Counter.check_tx count_txs make_block make_empty_block
      acquire_handshake complete_handshake acquire_execute complete_execute acquire_commit
      complete_commit check_concurrent new_guard discover_capabilities has
  counter_passes = (
    refl,
    (
      refl,
      (
        ground (arith, h),
        (
          ground (arith, bytes_eq_refl (compute_hash sha256 0)),
          (
            ground (
              arith,
              bytes_eq_refl
                  (compute_hash sha256 (uint64 (1 ∷ 2 ∷ 3 ∷ 4 ∷ 5 ∷ 6 ∷ 7 ∷ 8 ∷ []) % 2 ^ 64)),
            ),
            (refl, (refl, (refl, (refl, tt)))),
          ),
        ),
      ),
    ),
  )
