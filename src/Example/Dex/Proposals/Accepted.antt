-- ===== src/Example/Dex/Proposals/Accepted.antt =====
-- VerifyProposal on what BuildProposal makes.
use bapi.Example.Dex.Proposals.Laws.{fill-oracle}
use bapi.Go.Run.{returned}
use bapi.Example.Dex.Chain.{Dex}
use bapi.Example.Dex.Execute.{tx_oracle_update}
use bapi.Types.{ReceivedProposal, ProposalContext, Tx, CommittedVoteExtension, ProposalVerdict}
use bapi.Go.Order.{bytes_lt, bytes_eq}
use bapi.Go.Sort.{length-sort_slice, sort_slice-All, sort_slice}
use bapi.Example.Dex.Transactions.{is_void}
use bapi.Example.Dex.State.{malformed, Decoded, decoded, World, elements, OraclePrice}
use bapi.Go.Dict.{Dict, lookup, insert}
use bapi.Example.Dex.Oracle.{
  oracle_tx, collect_decoded, build_oracle_tx, by_pair, collect, aggregate, median_of, median,
  collect_prices,
}
use bapi.Example.Dex.Proposals.{
  fill, proposal_txs, any_oracle, verify_proposal, judged, injected, any_void,
}
use bapi.Base.{
  ◌∙◌, ap₂, ap, if◌then◌else◌, none, some, ◌==◌, Option, true, All-append, length-append, ◌++◌,
  zero, refl, ◌/◌, suc, map, inr, [], ltb, inl, false, arith, ◌≡◌, get_or, Bool-cases, ◌∷◌, length,
  ◌<◌, All, ℕ, List,
}
use bapi.Go.Text.{Bytes}

-- What `collect` holds for a pair: a name, and at least one price, none of them zero.
record Usable (e : Bytes × List ℕ) : Type 0 where
  pub named : 0 < length e.0
  pub any : 0 < length e.1
  pub priced : All (λ n. 0 < n) e.1

insert-Usable :
    (k : Bytes) (v : List ℕ) (m : Dict (List ℕ))
    → Usable (k, v)
    → All Usable m
    → All Usable (insert k v m)
unfolding insert
insert-Usable k v [] u h = (u, tt)
insert-Usable k v ((j, c) ∷ m) u h = elim (Bool-cases (bytes_eq j k)) [
  | inl e ↦ rw e (u, h.1)
  | inr e ↦ elim (Bool-cases (bytes_lt k j)) [
    | inl l ↦ rw (e, l) (u, h)
    | inr l ↦ rw (e, l) (h.0, insert-Usable k v m u h.1)
  ]
]

lookup-priced :
    (k : Bytes) (m : Dict (List ℕ)) → All Usable m → All (λ n. 0 < n) (elements (lookup k m))
unfolding lookup
lookup-priced k [] h = tt
lookup-priced k ((j, c) ∷ m) h = elim (Bool-cases (bytes_eq j k)) [
  | inl e ↦ rw e h.0.priced
  | inr e ↦ rw e (lookup-priced k m h.1)
]

collect_prices-Usable :
    (ps : List OraclePrice) (m : Dict (List ℕ)) → All Usable m → All Usable (collect_prices ps m)
unfolding collect_prices
collect_prices-Usable [] m h = h
collect_prices-Usable (p ∷ ps) m h = elim (Bool-cases (is_void p)) [
  | inl e ↦ rw e (collect_prices-Usable ps m h)
  | inr e ↦
      let old = elements (lookup p.pair m) in
      rw e (
        collect_prices-Usable ps (insert p.pair (old ++ (p.price ∷ [])) m) (
          insert-Usable p.pair (old ++ (p.price ∷ [])) m
            (record {
              named = ground arith;
              any = omega (arith, length-append old (p.price ∷ []));
              priced =
                  All-append (λ n. 0 < n) old (p.price ∷ []) (lookup-priced p.pair m h)
                    (ground arith, tt);
            })
            h))
]

collect_decoded-Usable :
    (d : Decoded (List OraclePrice)) (m : Dict (List ℕ))
    → All Usable m
    → All Usable (collect_decoded d m)
unfolding collect_decoded
collect_decoded-Usable (malformed e) m h = h
collect_decoded-Usable (decoded ps) m h = collect_prices-Usable ps m h

get_or-positive : (xs : List ℕ) (i : ℕ) → All (λ n. 0 < n) xs → i < length xs → 0 < get_or xs i 0
get_or-positive [] i h l = absurd (omega arith)
get_or-positive (x ∷ xs) zero h l = h.0
get_or-positive (x ∷ xs) (suc i) h l = get_or-positive xs i h.1 (omega arith)

median-positive : (vals : List ℕ) → All (λ n. 0 < n) vals → 0 < length vals → 0 < median vals
unfolding median
median-positive vals h l =
    get_or-positive (sort_slice ltb vals) (length vals / 2) (sort_slice-All ltb (λ n. 0 < n) vals h)
      (omega (arith, l, length-sort_slice ltb vals))

any_void-none : (ps : List OraclePrice) → All (λ p. is_void p ≡ false) ps → any_void ps ≡ false
unfolding any_void
any_void-none [] h = refl
any_void-none (p ∷ ps) h = rw h.0 (any_void-none ps h.1)

medians_sound :
    (es : List (Bytes × List ℕ)) → All Usable es → All (λ p. is_void p ≡ false) (map median_of es)
medians_sound [] h = tt
medians_sound (e ∷ es) h =
    (ground (arith, h.0.named, median-positive e.1 h.0.priced h.0.any), medians_sound es h.1)

abbrev Accepting : ProposalVerdict → Type 0
Accepting v = v ≡ record { accept = true; reject_reason = [] }

module _ (w : World) where
  collect-Usable :
      (exts : List CommittedVoteExtension) (m : Dict (List ℕ))
      → All Usable m
      → All Usable (collect w exts m)
  unfolding collect
  collect-Usable [] m h = h
  collect-Usable (x ∷ exts) m h = elim (Bool-cases (length x.extension == 0)) [
    | inl e ↦ rw e (collect-Usable exts m h)
    | inr e ↦ rw e (
        collect-Usable exts (collect_decoded (w.unmarshal_prices x.extension) m)
          (collect_decoded-Usable (w.unmarshal_prices x.extension) m h))
  ]

  judged-plain :
      (exts : List CommittedVoteExtension) (txs : List Tx)
      → any_oracle txs ≡ false
      → Accepting (judged w exts txs)
  unfolding judged any_oracle
  judged-plain exts [] h = refl
  judged-plain exts (first ∷ others) h = ground arith

  judged-oracle :
      (exts : List CommittedVoteExtension) (ps : List OraclePrice) (others : List Tx)
      → w.unmarshal_prices (w.marshal_prices ps) ≡ decoded ps
      → any_void ps ≡ false
      → any_oracle others ≡ false
      → Accepting (judged w exts ((tx_oracle_update ∷ w.marshal_prices ps) ∷ others))
  unfolding judged
  judged-oracle exts ps others d v h = rw (d, v, h) (ground arith)

  -- A transaction that is accepted before any others, or none.
  Leads : List CommittedVoteExtension → Option Tx → Type 0
  Leads exts none = Unit {0}
  Leads exts (some tx) =
      (others : List Tx) → any_oracle others ≡ false → Accepting (judged w exts (tx ∷ others))

  judged-injected :
      (exts : List CommittedVoteExtension) (max : ℕ) (o : Option Tx) (others : List Tx)
      → Leads exts o
      → any_oracle others ≡ false
      → Accepting (judged w exts ((injected max o).0 ++ others))
  unfolding injected Leads
  judged-injected exts max none others l h = judged-plain exts others h
  judged-injected exts max (some tx) others l h = elim (Bool-cases (ltb max (length tx))) [
    | inl e ↦ rw e (judged-plain exts others h)
    | inr e ↦ rw e (l others h)
  ]

  oracle_tx-Leads :
      (exts : List CommittedVoteExtension) (m : Dict (List ℕ))
      → w.unmarshal_prices (w.marshal_prices (aggregate w m)) ≡ decoded (aggregate w m)
      → any_void (aggregate w m) ≡ false
      → Leads exts (oracle_tx w m)
  unfolding oracle_tx Leads
  oracle_tx-Leads exts [] d v = tt
  oracle_tx-Leads exts (e ∷ m) d v =
      λ others h. judged-oracle exts (aggregate w (e ∷ m)) others d v h

  aggregate_sound : (m : Dict (List ℕ)) → All Usable (w.order m) → any_void (aggregate w m) ≡ false
  unfolding aggregate
  aggregate_sound m h = any_void-none (sort_slice by_pair (map median_of (w.order m))) (
      sort_slice-All by_pair (λ p. is_void p ≡ false) (map median_of (w.order m))
        (medians_sound (w.order m) h))

  -- What BuildProposal makes is accepted by VerifyProposal under the same vote extensions, in any
  -- state. This holds where the loop over the map of prices visits only what is in the map, and
  -- the JSON of the aggregated prices decodes to them.
  pub own_accepted :
      (pctx : ProposalContext) (prop : ReceivedProposal) (app : Dex)
      → let m = collect w pctx.vote_extensions [] in
        ((P : Bytes × List ℕ → Type 0) → All P m → All P (w.order m))
        → w.unmarshal_prices (w.marshal_prices (aggregate w m)) ≡ decoded (aggregate w m)
        → prop.vote_extensions ≡ pctx.vote_extensions
        → prop.txs ≡ proposal_txs w pctx
        → verify_proposal w prop app
          ≡ returned (record { accept = true; reject_reason = [] }, none) app
  unfolding verify_proposal proposal_txs build_oracle_tx Leads
  own_accepted pctx prop app visits d e t =
      let exts = pctx.vote_extensions in
      let m = collect w exts [] in
      let max = pctx.max_tx_bytes in
      let o : Option Tx = if length exts == 0 then none else oracle_tx w m in
      let leads : Leads exts o = elim (Bool-cases (length exts == 0)) [
        | inl e ↦ rw e tt
        | inr e ↦ rw e (
            oracle_tx-Leads exts m d
              (aggregate_sound m (visits Usable (collect-Usable exts [] tt))))
      ] in
      let rest = fill max (injected max o).1 pctx.mempool_txs in
      ap (λ v. returned (v, none) app)
        (ap₂ (judged w) e t
          ∙ judged-injected exts max o rest leads
              (fill-oracle max (injected max o).1 pctx.mempool_txs))
