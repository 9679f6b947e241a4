-- ===== src/Testing/Suite.antt =====
-- testing/compliance.go: the checks with two instances of the application, and the whole suite.
use bapi.Go.Order.{bytes_eq}
use bapi.Server.{new_state}
use bapi.Types.{BlockOutcome, FinalizedBlock}
use bapi.Go.Text.{hex, decimal, text, Bytes}
use bapi.Testing.Harness.{errorf, new_harness, make_empty_block, make_block, Bench, on_server}
use bapi.Server.{new, ServerState, Server}
use bapi.Base.{◌++◌, false, ◌==◌, if◌then◌else◌, ℕ, length, [], ◌∷◌, String, Bool, List}
use bapi.Interfaces.{App}
use bapi.Go.Run.{blocked, ◌>>=◌, panicked, returned, pure, Run, ◌>>◌, Action}
use bapi.Testing.Harness
use bapi.Testing.Compliance

-- Two harnesses of one test.
pub record Twins (T : Type 0) : Type 0 where
  pub reports : List Bytes
  pub first : T
  pub second : T

unfoldable pub on_first : {T A : Type 0} → Action (Bench T) A → Action (Twins T) A
on_first m s = elim (m (record { reports = s.reports; under = s.first })) [
  | returned a b ↦ returned a (record s { reports = b.reports; first = b.under })
  | panicked e b ↦ panicked e (record s { reports = b.reports; first = b.under })
  | blocked b ↦ blocked (record s { reports = b.reports; first = b.under })
]

unfoldable pub on_second : {T A : Type 0} → Action (Bench T) A → Action (Twins T) A
on_second m s = elim (m (record { reports = s.reports; under = s.second })) [
  | returned a b ↦ returned a (record s { reports = b.reports; second = b.under })
  | panicked e b ↦ panicked e (record s { reports = b.reports; second = b.under })
  | blocked b ↦ blocked (record s { reports = b.reports; second = b.under })
]

module _ {S : Type 0} (srv : Server S) where
  abbrev Both : Type 0 → Type 0
  Both A = Action (Twins (ServerState S)) A

  both_execute : FinalizedBlock → Both (BlockOutcome × BlockOutcome)
  unfolding on_first on_second Harness.execute_and_commit
  both_execute block = do
    o1 ← on_first (Harness.execute_and_commit srv block)
    o2 ← on_second (Harness.execute_and_commit srv block)
    pure (o1, o2)

  both_genesis : Both (Unit {0})
  unfolding on_first on_second Harness.genesis_default
  both_genesis = do
    on_first (Harness.genesis_default srv)
    on_second (Harness.genesis_default srv)
    pure tt

  unfoldable pub same_hashes : List ℕ → Both (Unit {0})
  unfolding on_first both_execute make_empty_block errorf
  same_hashes [] = pure tt
  same_hashes (i ∷ is) = do
    (o1, o2) ← both_execute (make_empty_block i)
    if bytes_eq o1.app_hash o2.app_hash
        then pure tt
        else on_first (
            errorf (
              text "height "
              ++ (decimal i
                  ++ (text ": non-deterministic: "
                      ++ (hex o1.app_hash ++ (text " != " ++ hex o2.app_hash))))))
    same_hashes is

  unfoldable pub empty_blocks_deterministic : Both (Unit {0})
  unfolding both_genesis same_hashes
  empty_blocks_deterministic = do both_genesis; same_hashes (1 ∷ 2 ∷ 3 ∷ [])

  unfoldable pub deterministic_with_txs : Both (Unit {0})
  unfolding on_first both_genesis both_execute make_block errorf
  deterministic_with_txs = do
    both_genesis
    (o1, o2) ← both_execute (make_block 1 ((1 ∷ 2 ∷ 3 ∷ 4 ∷ 5 ∷ 6 ∷ 7 ∷ 8 ∷ []) ∷ []))
    if bytes_eq o1.app_hash o2.app_hash
        then pure tt
        else on_first (
            errorf (
              text "non-deterministic with txs: "
              ++ (hex o1.app_hash ++ (text " != " ++ hex o2.app_hash))))
    if length o1.tx_outcomes == length o2.tx_outcomes
        then pure tt
        else on_first (
            errorf (
              text "outcome count mismatch: "
              ++ (decimal (length o1.tx_outcomes)
                  ++ (text " != " ++ decimal (length o2.tx_outcomes)))))

-- A check passes if its function returns and nothing was reported.
abbrev pub passes : {T A : Type 0} → (T → List Bytes) → Run T A → Bool
passes reports (returned a t) = length (reports t) == 0
passes reports (panicked e t) = false
passes reports (blocked t) = false

module _ {S : Type 0} (app : App S) (s : S) where
  single : String → Action (Bench (ServerState S)) (Unit {0}) → Bytes × Bool
  unfolding new_harness
  single name check = (text name, passes (λ b. b.reports) (check (new_harness s)))

  double : String → Action (Twins (ServerState S)) (Unit {0}) → Bytes × Bool
  unfolding new_state
  double name check = (
    text name,
    passes (λ b. b.reports)
        (check (record { reports = []; first = new_state s; second = new_state s })),
  )

  -- `RunComplianceSuite`: the name of each check, and if it passes.
  unfoldable pub run_compliance_suite : List (Bytes × Bool)
  unfolding single double
  run_compliance_suite =
      single "genesis_handshake" (Compliance.genesis_handshake (new app))
      ∷ single "genesis_returns_app_hash" (Compliance.genesis_returns_app_hash (new app))
      ∷ single "execute_commit_cycle" (Compliance.execute_commit_cycle (new app))
      ∷ double "empty_blocks_deterministic" (empty_blocks_deterministic (new app))
      ∷ double "deterministic_with_txs" (deterministic_with_txs (new app))
      ∷ single "concurrent_checktx_after_handshake"
          (Compliance.concurrent_checktx_after_handshake (new app))
      ∷ single "concurrent_query_after_handshake"
          (Compliance.concurrent_query_after_handshake (new app))
      ∷ single "query_returns_height" (Compliance.query_returns_height (new app))
      ∷ single "tx_outcome_indices" (Compliance.tx_outcome_indices (new app))
      ∷ []
