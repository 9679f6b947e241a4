-- ===== src/Tests/Pricing.antt =====
-- The exchange's prices, at concrete vote extensions.
use bapi.Example.Dex.Oracle.Applied.{honest_majority}
use bapi.Example.Dex.Transactions.{execute_tx}
use bapi.Example.Dex.Execute.{tx_oracle_update}
use mathlib.Core.List.{Permᴰ}
use mathlib.Core.List.Permᴰ
use bapi.Example.Dex.Determinism.{visiting, any_order, Visits}
use bapi.Go.Dict.{or_zero, Sorted, Dict}
use bapi.Go.Order.{bytes_eq, bytes_lt}
use bapi.Types.{Tx, CommittedVoteExtension}
use bapi.Example.Dex.State.{OraclePrice}
use bapi.Example.Dex.Oracle.{oracle_tx, collect_decoded, build_oracle_tx}
use bapi.Example.Dex.Proposals.{build_proposal}
use bapi.Base.{◌≤◌, ℕ, map}
use bapi.Go.Dict.{lookup, insert}
use bapi.Go.Sort.{sort_slice}
use bapi.Go.Text.{text}
use bapi.Example.Dex.App.{deposit_tx}
use bapi.Tests.Data.{first_vote, at_five, gold, alice, small_world, epoch}
use bapi.Example.Dex.Oracle.{median, collect_prices, extend_vote, aggregate, collect}
use bapi.Example.Dex.State.{decoded, new_state, World, State}
use bapi.Types.{ProposalContext}
use bapi.Base.{arith, refl, ◌≡◌, ◌∷◌, some, [], List}
use bapi.Example.Dex.Chain.{new_dex}

-- Two ways to visit a map.
abbrev forth : (V : Type 0) → Dict V → Dict V
forth V d = d

abbrev swapped : (V : Type 0) → Dict V → Dict V
swapped V [] = []
swapped V (e ∷ []) = e ∷ []
swapped V (e ∷ f ∷ d) = f ∷ e ∷ d

swapped-Visits : Visits swapped
swapped-Visits V [] = Permᴰ.nil
swapped-Visits V (e ∷ []) = Permᴰ.refl (e ∷ [])
swapped-Visits V (e ∷ f ∷ d) = Permᴰ.swap refl refl

-- Any extension gives two prices.
abbrev two_prices : World
two_prices = record small_world {
  unmarshal_prices = λ b.
      decoded
        (record { pair = text "b/x"; price = 3 } ∷ record { pair = text "a/x"; price = 4 } ∷ []);
  marshal_prices = λ ps. map (λ (p : OraclePrice). p.price) ps;
}

abbrev one_extension : List CommittedVoteExtension
one_extension = record { validator = []; extension = 1 ∷ [] } ∷ []

abbrev priced : State
priced = record new_state { prices = (text "a/x", 1) ∷ (text "b/x", 2) ∷ [] }

abbrev crowded : ProposalContext
crowded = record {
  height = 6;
  time = epoch;
  proposer = [];
  mempool_txs = deposit_tx alice 5 gold ∷ [];
  max_tx_bytes = 1000;
  vote_extensions = one_extension;
}

any_order_example :
    let l = visiting two_prices forth in
    let r = visiting two_prices swapped in
    let t = record new_dex { current = some priced } in
    (build_oracle_tx l one_extension ≡ build_oracle_tx r one_extension)
    × (build_proposal l crowded new_dex ≡ build_proposal r crowded new_dex)
    × (extend_vote l first_vote t ≡ extend_vote r first_vote t)
unfolding Sorted bytes_lt text
any_order_example =
    any_order two_prices forth swapped one_extension crowded first_vote new_dex priced
      (λ V d. Permᴰ.refl d) swapped-Visits ((refl, tt), (tt, tt))

abbrev of_gold : ℕ → OraclePrice
of_gold n = record { pair = gold; price = n }

-- Each byte is a price of gold.
abbrev golden_world : World
golden_world = record small_world {
  marshal_prices = λ ps. map (λ (p : OraclePrice). p.price) ps;
  unmarshal_prices = λ b. decoded (map of_gold b);
}

abbrev reporting : List ℕ → CommittedVoteExtension
reporting ns = record { validator = []; extension = ns }

-- Two of three are about right.
abbrev one_outlier : List CommittedVoteExtension
one_outlier = reporting (6 ∷ []) ∷ reporting (200 ∷ []) ∷ reporting (5 ∷ []) ∷ []

honest_majority_example :
    (tx : Tx) × (build_oracle_tx golden_world one_outlier ≡ some tx)
    × (5 ≤ or_zero (lookup gold (execute_tx golden_world at_five 0 tx).0.prices))
    × (or_zero (lookup gold (execute_tx golden_world at_five 0 tx).0.prices) ≤ 7)
unfolding collect aggregate sort_slice collect_prices collect_decoded insert median lookup bytes_eq
    bytes_lt text
honest_majority_example =
    honest_majority golden_world one_outlier at_five 0 gold 5 7 (λ V d. Permᴰ.refl d) refl
      (omega arith) (omega arith) (omega arith)

-- One of three validators repeats a pair in its extension, and alone decides its price.
outvoted :
    build_oracle_tx golden_world
      (reporting (6 ∷ []) ∷ reporting (200 ∷ 200 ∷ 200 ∷ []) ∷ reporting (5 ∷ []) ∷ [])
    ≡ some (tx_oracle_update ∷ 200 ∷ [])
unfolding build_oracle_tx collect oracle_tx aggregate sort_slice collect_prices collect_decoded
    insert median lookup bytes_eq bytes_lt text
outvoted = refl
