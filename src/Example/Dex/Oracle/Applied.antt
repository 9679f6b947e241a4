-- ===== src/Example/Dex/Oracle/Applied.antt =====
-- The oracle transaction that a proposal carries, executed.
use bapi.Example.Dex.Execute.{tx_oracle_update}
use bapi.Go.Sort.Numbers.{count, middle-within, within}
use bapi.Go.Sort.{sort_slice-perm}
use mathlib.Core.List.Perm
use mathlib.Core.List.Permᴰ
use bapi.Example.Dex.Determinism.{Visits}
use bapi.Types.{Tx, CommittedVoteExtension}
use bapi.Example.Dex.Oracle.{
  oracle_tx, by_pair, build_oracle_tx, collect, median_of, median, aggregate,
}
use bapi.Example.Dex.Oracle.Median.{
  aggregate-Fair, reports-unnamed, collect-reports, reports, MostWithin, Fair,
}
use native.Mathlib.Bridge.{le_prop}
use bapi.Go.Order.{bytes_eq_iff, bytes_eq, eq_of_bytes_eq}
use bapi.Example.Dex.Transactions.{
  updated_prices, execute_oracle_update, execute_tx, is_void, apply_prices,
}
use bapi.Example.Dex.State.{decoded, State, elements, World, OraclePrice}
use bapi.Base.{
  subst, refl, none, map, length, ◌<◌, Option, ◌∙◌, sym, ap, inr, inl, by_if, [], if◌then◌else◌,
  false, Bool-cases, ◌∷◌, arith, All, some, List, ◌≤◌, ◌≡◌, ℕ,
}
use bapi.Go.Dict.{lookup-insert, or_zero, insert, Dict, lookup}
use bapi.Go.Text.{Bytes}
use mathlib.Core.List.{
  mem-map_of_mem, Mem, mem-cons_self, mem-cons_of_mem, not-mem-nil, eq-or-mem_of_mem-cons,
}
use mathlib.Core.Logic.Or

-- The price of the pair, 0 if there is none, lies between two bounds.
abbrev Inside : Bytes → ℕ → ℕ → Dict ℕ → Type 0
Inside pair lo hi m = (lo ≤ or_zero (lookup pair m)) × (or_zero (lookup pair m) ≤ hi)

module _ (pair : Bytes) (lo hi : ℕ) where
  insert-Inside :
      (p : OraclePrice) (m : Dict ℕ)
      → Fair pair lo hi p
      → Inside pair lo hi m
      → Inside pair lo hi (insert p.pair p.price m)
  unfolding lookup
  insert-Inside p m f h =
      ground (arith, lookup-insert p.pair pair p.price m, eq_of_bytes_eq p.pair pair, f, h)

  set-Inside :
      (p : OraclePrice) (m : Dict ℕ)
      → Fair pair lo hi p
      → p.pair ≡ pair
      → is_void p ≡ false
      → Inside pair lo hi (if is_void p then m else insert p.pair p.price m)
  unfolding lookup
  set-Inside p m f e v =
      ground (arith, v, lookup-insert p.pair pair p.price m, f e, (bytes_eq_iff p.pair pair).1 e)

  apply_prices-Inside :
      (ps : List OraclePrice) (m : Dict ℕ)
      → All (Fair pair lo hi) ps
      → Inside pair lo hi m
      → Inside pair lo hi (apply_prices ps m).0
  unfolding apply_prices
  apply_prices-Inside [] m f h = h
  apply_prices-Inside (p ∷ ps) m f h =
      apply_prices-Inside ps (if is_void p then m else insert p.pair p.price m) f.1 (
        by_if (Inside pair lo hi) (is_void p) m (insert p.pair p.price m) (λ e. h)
          (λ e. insert-Inside p m f.0 h))

  -- One price of the pair is enough, whatever the state had.
  apply_prices-Mem :
      (ps : List OraclePrice) (m : Dict ℕ) (q : OraclePrice)
      → All (Fair pair lo hi) ps
      → Mem q ps
      → q.pair ≡ pair
      → is_void q ≡ false
      → Inside pair lo hi (apply_prices ps m).0
  unfolding apply_prices
  apply_prices-Mem [] m q f i e v = absurd (not-mem-nil i)
  apply_prices-Mem (p ∷ ps) m q f i e v =
      let m' = if is_void p then m else insert p.pair p.price m in
      let prop : IsProp (Inside pair lo hi (apply_prices ps m').0) = hlevel (le_prop) in
      Or.elim prop (eq-or-mem_of_mem-cons i)
        (λ same. apply_prices-Inside ps m' f.1 (
          set-Inside p m f.0 (ap (λ (x : OraclePrice). x.pair) (sym same) ∙ e)
            (ap is_void (sym same) ∙ v)))
        (λ k. apply_prices-Mem ps m' q f.1 k e v)

lookup-Mem : {V : Type 0} (k : Bytes) (v : V) (d : Dict V) → lookup k d ≡ some v → Mem (k, v) d
unfolding lookup
lookup-Mem k v [] h = cc
lookup-Mem k v ((j, x) ∷ d) h = elim (Bool-cases (bytes_eq j k)) [
  | inl e ↦
      let same : x ≡ v = ground (arith, e, h) in rw (← eq_of_bytes_eq j k e, ← same) mem-cons_self
  | inr e ↦ mem-cons_of_mem (j, x) (lookup-Mem k v d (ground (arith, e, h)))
]

-- A majority is the reports of a pair that the map of all reports has.
reported :
    (w : World) (exts : List CommittedVoteExtension) (pair : Bytes) (lo hi : ℕ)
    (o : Option (List ℕ))
    → MostWithin w exts pair lo hi
    → lookup pair (collect w exts []) ≡ o
    → (vals : List ℕ) × (o ≡ some vals) × (vals ≡ reports w pair exts)
unfolding lookup
reported w exts pair lo hi none m e =
    let nothing : [] ≡ reports w pair exts = ap elements (sym e) ∙ collect-reports w pair exts [] in
    let none_inside = ap (count (within lo hi)) nothing in absurd (omega (arith, m, none_inside))
reported w exts pair lo hi (some vals) m e =
    (vals, refl, ap elements (sym e) ∙ collect-reports w pair exts [])

-- The aggregated prices have the pair.
aggregate-Mem :
    (w : World) (m : Dict (List ℕ)) (pair : Bytes) (vals : List ℕ)
    → Visits (λ V. w.order)
    → lookup pair m ≡ some vals
    → Mem (median_of (pair, vals)) (aggregate w m)
unfolding aggregate
aggregate-Mem w m pair vals v e =
    (Perm.mem_iff (sort_slice-perm by_pair (map median_of (w.order m)))).1
      (mem-map_of_mem median_of (Permᴰ.mem (v (List ℕ) m) (lookup-Mem pair vals m e)))

median-positive :
    (w : World) (exts : List CommittedVoteExtension) (pair : Bytes) (lo hi : ℕ)
    → 0 < lo
    → MostWithin w exts pair lo hi
    → is_void (median_of (pair, reports w pair exts)) ≡ false
unfolding median
median-positive w exts pair lo hi l m =
    let unnamed : length pair ≡ 0 → count (within lo hi) (reports w pair exts) ≡ 0 =
      λ e. ap (count (within lo hi)) (reports-unnamed w pair exts e) in
    ground (arith, l, m, unnamed, middle-within lo hi (reports w pair exts) m)

oracle_tx-found :
    (w : World) (pair : Bytes) (vals : List ℕ) (m : Dict (List ℕ))
    → lookup pair m ≡ some vals
    → oracle_tx w m ≡ some (tx_oracle_update ∷ w.marshal_prices (aggregate w m))
unfolding lookup oracle_tx
oracle_tx-found w pair vals [] e = absurd cc
oracle_tx-found w pair vals (x ∷ m) e = refl

prices-execute_tx :
    (w : World) (s : State) (i : ℕ) (payload : Bytes) (ps : List OraclePrice)
    → 0 < length payload
    → w.unmarshal_prices payload ≡ decoded ps
    → (execute_tx w s i (tx_oracle_update ∷ payload)).0.prices ≡ (apply_prices ps s.prices).0
unfolding execute_tx execute_oracle_update updated_prices
prices-execute_tx w s i payload ps n d = ground (arith, n, d)

-- From the vote extensions an oracle transaction is built that leaves the pair, when it is executed
-- in any state, with a price between the two bounds: this holds where more than half of the prices
-- that the extensions report of the pair lie between them, however far off the others are, and in
-- whatever order Go visits the map of pairs, if the JSON of prices decodes to them and is not
-- empty. A price of zero, and one without a pair, is no report.
pub honest_majority :
    (w : World) (exts : List CommittedVoteExtension) (s : State) (i : ℕ) (pair : Bytes) (lo hi : ℕ)
    → Visits (λ V. w.order)
    → let prices = aggregate w (collect w exts []) in
      w.unmarshal_prices (w.marshal_prices prices) ≡ decoded prices
      → 0 < length (w.marshal_prices (aggregate w (collect w exts [])))
      → 0 < lo
      → MostWithin w exts pair lo hi
      → (tx : Tx) × (build_oracle_tx w exts ≡ some tx)
        × (lo ≤ or_zero (lookup pair (execute_tx w s i tx).0.prices))
        × (or_zero (lookup pair (execute_tx w s i tx).0.prices) ≤ hi)
unfolding build_oracle_tx
honest_majority w exts s i pair lo hi v d n l m =
    let c = collect w exts [] in
    let ps = aggregate w c in
    let (vals, e, same) = reported w exts pair lo hi (lookup pair c) m refl in
    let there = aggregate-Mem w c pair vals v e in
    let void : is_void (median_of (pair, vals)) ≡ false =
      ap (λ xs. is_void (median_of (pair, xs))) same ∙ median-positive w exts pair lo hi l m in
    let inside =
      apply_prices-Mem pair lo hi ps s.prices (median_of (pair, vals))
        (aggregate-Fair w exts pair lo hi v m) there refl void in
    let payload = w.marshal_prices ps in
    let after : Inside pair lo hi (execute_tx w s i (tx_oracle_update ∷ payload)).0.prices =
      subst (Inside pair lo hi) (sym (prices-execute_tx w s i payload ps n d)) inside in
    (tx_oracle_update ∷ payload, oracle_tx-found w pair vals c e, after.0, after.1)
