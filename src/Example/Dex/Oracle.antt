-- ===== src/Example/Dex/Oracle.antt =====
-- Vote extensions and the aggregation of oracle prices.
pub mod Median
pub mod Applied
use bapi.Example.Dex.Execute.{tx_oracle_update}
use bapi.Example.Dex.Transactions.{is_void}
use bapi.Go.Sort.{sort_slice}
use bapi.Go.Order.{bytes_lt}
use bapi.Example.Dex.Chain.{with_current, Dex}
use bapi.Go.Dict.{lookup, insert, Dict}
use bapi.Types.{
  extension_accept, extension_reject, Tx, VoteContext, ReceivedExtension, ExtensionVerdict,
  CommittedVoteExtension,
}
use bapi.Example.Dex.State.{elements, decoded, malformed, State, World, OraclePrice, Decoded}
use bapi.Base.{
  ◌++◌, ◌||◌, some, ◌==◌, ◌/◌, none, [], map, ltb, length, if◌then◌else◌, ◌∷◌, false, Option,
  get_or, Bool, List, ℕ,
}
use bapi.Go.Text.{Bytes}
use bapi.Go.Run.{pure, Fallible, Action}

abbrev pub by_pair : OraclePrice → OraclePrice → Bool
by_pair p q = bytes_lt p.pair q.pair

abbrev pub price_of : Bytes × ℕ → OraclePrice
price_of (pair, price) = record { pair = pair; price = price }

-- `pairPrices[p.Pair] = append(pairPrices[p.Pair], p.Price)` for each price that is not void
unfoldable pub collect_prices : List OraclePrice → Dict (List ℕ) → Dict (List ℕ)
collect_prices [] m = m
collect_prices (p ∷ ps) m =
    collect_prices ps
      (if is_void p then m else insert p.pair (elements (lookup p.pair m) ++ (p.price ∷ [])) m)

unfoldable pub collect_decoded : Decoded (List OraclePrice) → Dict (List ℕ) → Dict (List ℕ)
collect_decoded (malformed e) m = m
collect_decoded (decoded ps) m = collect_prices ps m

-- `vals[len(vals)/2]` of the sorted values
unfoldable pub median : List ℕ → ℕ
median vals = get_or (sort_slice ltb vals) (length vals / 2) 0

abbrev pub median_of : Bytes × List ℕ → OraclePrice
median_of (pair, vals) = record { pair = pair; price = median vals }

unfoldable pub any_unnamed : List OraclePrice → Bool
any_unnamed [] = false
any_unnamed (p ∷ ps) = length p.pair == 0 || any_unnamed ps

module _ (w : World) where
  unfoldable pub collect : List CommittedVoteExtension → Dict (List ℕ) → Dict (List ℕ)
  unfolding collect_decoded
  collect [] m = m
  collect (x ∷ exts) m =
      collect exts
        (if length x.extension == 0 then m else collect_decoded (w.unmarshal_prices x.extension) m)

  unfoldable pub aggregate : Dict (List ℕ) → List OraclePrice
  aggregate m = sort_slice by_pair (map median_of (w.order m))

  unfoldable pub oracle_tx : Dict (List ℕ) → Option Tx
  unfolding aggregate
  oracle_tx [] = none
  oracle_tx (e ∷ m) = some (tx_oracle_update ∷ w.marshal_prices (aggregate (e ∷ m)))

  -- `buildOracleTxFromExtensions`; `none` is the nil transaction.
  unfoldable pub build_oracle_tx : List CommittedVoteExtension → Option Tx
  unfolding oracle_tx collect
  build_oracle_tx exts = oracle_tx (collect exts [])

  unfoldable pub published : State → Bytes
  published s = w.marshal_prices (sort_slice by_pair (map price_of (w.order s.prices)))

  unfoldable pub extend_vote : VoteContext → Action Dex (Fallible Bytes)
  unfolding published
  extend_vote vctx = with_current λ s. pure (published s, none)

  judge : Decoded (List OraclePrice) → ExtensionVerdict
  judge (malformed e) = extension_reject
  judge (decoded ps) = if any_unnamed ps then extension_reject else extension_accept

  unfoldable pub verify_extension : ReceivedExtension → Action Dex (Fallible ExtensionVerdict)
  unfolding judge
  verify_extension ext = pure (
    if length ext.extension == 0
        then extension_accept
        else judge (w.unmarshal_prices ext.extension),
    none,
  )
