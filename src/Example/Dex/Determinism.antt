-- ===== src/Example/Dex/Determinism.antt =====
-- What does not depend on the order in which Go visits a map.
use bapi.Example.Dex.Chain.{Dex}
use bapi.Example.Dex.Execute.{tx_oracle_update}
use bapi.Example.Dex.Proposals.{proposal_txs, build_proposal}
use bapi.Go.Sort.{sort_slice-Permᴰ, sort_slice, Apart}
use mathlib.Core.List.{Pairwise, Permᴰ}
use mathlib.Core.List.Permᴰ
use bapi.Example.Dex.Transactions.{is_void}
use bapi.Go.Order.{bytes_lt_asym, bytes_lt, bytes_lt_trans}
use bapi.Go.Dict.{insert-Sorted, lookup, insert, Sorted, Dict}
use bapi.Types.{VoteContext, ProposalContext, CommittedVoteExtension}
use bapi.Base.{
  All-Mem, some, ap, if◌then◌else◌, refl, ◌∙◌, arith, sym, map, ◌++◌, [], inr, ◌==◌, inl, length,
  Bool-cases, ◌∷◌, ℕ, false, All, true, ◌≡◌, List,
}
use bapi.Example.Dex.Oracle.{
  price_of, extend_vote, published, oracle_tx, build_oracle_tx, median_of, aggregate, by_pair,
  collect_prices, collect_decoded, collect,
}
use bapi.Example.Dex.State.{State, elements, decoded, malformed, World, Decoded, OraclePrice}
use bapi.Go.Text.{Bytes}

by_pair_trans : (p q r : OraclePrice) → by_pair p q ≡ true → by_pair q r ≡ true → by_pair p r ≡ true
by_pair_trans p q r h k = bytes_lt_trans p.pair q.pair r.pair h k

by_pair_asym : (p q : OraclePrice) → by_pair p q ≡ true → by_pair q p ≡ false
by_pair_asym p q h = bytes_lt_asym p.pair q.pair h

collect_prices-Sorted :
    (ps : List OraclePrice) (m : Dict (List ℕ)) → Sorted m → Sorted (collect_prices ps m)
unfolding collect_prices
collect_prices-Sorted [] m s = s
collect_prices-Sorted (p ∷ ps) m s = elim (Bool-cases (is_void p)) [
  | inl e ↦ rw e (collect_prices-Sorted ps m s)
  | inr e ↦ rw e (
      collect_prices-Sorted ps (insert p.pair (elements (lookup p.pair m) ++ (p.price ∷ [])) m)
        (insert-Sorted p.pair (elements (lookup p.pair m) ++ (p.price ∷ [])) m s))
]

collect_decoded-Sorted :
    (d : Decoded (List OraclePrice)) (m : Dict (List ℕ)) → Sorted m → Sorted (collect_decoded d m)
unfolding collect_decoded
collect_decoded-Sorted (malformed e) m s = s
collect_decoded-Sorted (decoded ps) m s = collect_prices-Sorted ps m s

pub collect-Sorted :
    (w : World) (exts : List CommittedVoteExtension) (m : Dict (List ℕ))
    → Sorted m
    → Sorted (collect w exts m)
unfolding collect
collect-Sorted w [] m s = s
collect-Sorted w (x ∷ exts) m s = elim (Bool-cases (length x.extension == 0)) [
  | inl e ↦ rw e (collect-Sorted w exts m s)
  | inr e ↦ rw e (
      collect-Sorted w exts (collect_decoded (w.unmarshal_prices x.extension) m)
        (collect_decoded-Sorted (w.unmarshal_prices x.extension) m s))
]

module _ {V : Type 0} (f : Bytes × V → OraclePrice)
    (keeps : (e : Bytes × V) → (f e).pair ≡ e.0) where
  mapped-All :
      (e : Bytes × V) (d : Dict V)
      → All (λ (x : Bytes × V). bytes_lt e.0 x.0 ≡ true) d
      → All (Apart by_pair (f e)) (map f d)
  mapped-All e [] h = tt
  mapped-All e (x ∷ d) h = (ground (arith, keeps e, keeps x, h.0), mapped-All e d h.1)

  mapped-Apart : (d : Dict V) → Sorted d → Pairwise (Apart by_pair) (map f d)
  unfolding Sorted
  mapped-Apart [] s = Pairwise.nil
  mapped-Apart (e ∷ d) s =
      Pairwise.cons (All-Mem (Apart by_pair (f e)) (λ p. hlevel) (map f d) (mapped-All e d s.0))
        (mapped-Apart d s.1)

  mapped-sort :
      (d d' : Dict V)
      → Sorted d
      → Permᴰ d d'
      → sort_slice by_pair (map f d') ≡ sort_slice by_pair (map f d)
  mapped-sort d d' s p =
      sym (sort_slice-Permᴰ by_pair by_pair_trans by_pair_asym (Permᴰ.map f p) (mapped-Apart d s))

-- Each entry is visited once.
abbrev pub Visits : ((V : Type 0) → Dict V → Dict V) → Type 1
Visits o = (V : Type 0) (d : Dict V) → Permᴰ d (o V d)

-- The same library, visiting maps in another order.
abbrev pub visiting : World → ((V : Type 0) → Dict V → Dict V) → World
visiting w o = record w { order = λ {V} d. o V d }

collect-visiting :
    (w : World) (o : (V : Type 0) → Dict V → Dict V) (exts : List CommittedVoteExtension)
    (m : Dict (List ℕ))
    → collect (visiting w o) exts m ≡ collect w exts m
unfolding collect
collect-visiting w o [] m = refl
collect-visiting w o (x ∷ exts) m =
    collect-visiting w o exts
      (if length x.extension == 0 then m else collect_decoded (w.unmarshal_prices x.extension) m)

module _ (w : World) (o o' : (V : Type 0) → Dict V → Dict V) (h : Visits o) (h' : Visits o') where
  aggregate_any :
      (m : Dict (List ℕ)) → Sorted m → aggregate (visiting w o) m ≡ aggregate (visiting w o') m
  unfolding aggregate
  aggregate_any m s =
      mapped-sort median_of (λ e. refl) m (o (List ℕ) m) s (h (List ℕ) m)
      ∙ sym (mapped-sort median_of (λ e. refl) m (o' (List ℕ) m) s (h' (List ℕ) m))

  published_any :
      (s : State) → Sorted s.prices → published (visiting w o) s ≡ published (visiting w o') s
  unfolding published
  published_any s k = ap w.marshal_prices (
      mapped-sort price_of (λ e. refl) s.prices (o ℕ s.prices) k (h ℕ s.prices)
      ∙ sym (mapped-sort price_of (λ e. refl) s.prices (o' ℕ s.prices) k (h' ℕ s.prices)))

  oracle_tx_any :
      (m : Dict (List ℕ)) → Sorted m → oracle_tx (visiting w o) m ≡ oracle_tx (visiting w o') m
  unfolding oracle_tx
  oracle_tx_any [] s = refl
  oracle_tx_any (e ∷ m) s =
      ap (λ ps. some (tx_oracle_update ∷ w.marshal_prices ps)) (aggregate_any (e ∷ m) s)

  build_oracle_tx_any :
      (exts : List CommittedVoteExtension)
      → build_oracle_tx (visiting w o) exts ≡ build_oracle_tx (visiting w o') exts
  unfolding build_oracle_tx Sorted
  build_oracle_tx_any exts =
      rw (collect-visiting w o exts [], collect-visiting w o' exts [])
        (oracle_tx_any (collect w exts []) (collect-Sorted w exts [] tt))

-- Nodes on which Go visits maps in different orders agree: from the same vote extensions they build
-- the same oracle transaction, from the same context the same proposal, and from the same state
-- they extend a vote with the same bytes. Each way visits every entry once, and the prices of the
-- state are a map.
pub any_order :
    (w : World) (o o' : (V : Type 0) → Dict V → Dict V) (exts : List CommittedVoteExtension)
    (pctx : ProposalContext) (vctx : VoteContext) (d : Dex) (s : State)
    → Visits o
    → Visits o'
    → Sorted s.prices
    → let l = visiting w o in
      let r = visiting w o' in
      let t = record d { current = some s } in
      (build_oracle_tx l exts ≡ build_oracle_tx r exts)
      × (build_proposal l pctx d ≡ build_proposal r pctx d)
      × (extend_vote l vctx t ≡ extend_vote r vctx t)
unfolding build_proposal extend_vote proposal_txs
any_order w o o' exts pctx vctx d s h h' k =
    let same = build_oracle_tx_any w o o' h h' in
    (same exts, rw (same pctx.vote_extensions) refl, rw (published_any w o o' h h' s k) refl)
