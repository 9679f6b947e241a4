-- ===== src/Example/Dex/Proposals/Laws.antt =====
-- What BuildProposal puts into a block, and what VerifyProposal makes of it.
use bapi.Example.Dex.Oracle.{build_oracle_tx}
use bapi.Example.Dex.State.{decoded, malformed, OraclePrice, Decoded, World}
use bapi.Types.{ProposalContext, CommittedVoteExtension, Tx}
use bapi.Example.Dex.Proposals.{
  any_void, is_oracle, proposal_txs, judged, injected, any_oracle, fill,
}
use bapi.Base.{
  ◌&&◌, ◌||◌, Bool, not, ◌==◌, true, none, if◌then◌else◌, some, Option, ◌++◌, drop, refl, ◌^◌, ◌<◌,
  ◌%◌, [], ◌+◌, arith, length, false, All, ◌≤◌, ◌≡◌, ◌∷◌, ℕ, List,
}

-- The bytes of a list of transactions.
abbrev pub size : List Tx → ℕ
size [] = 0
size (tx ∷ txs) = length tx + size txs

fill-size :
    (max total : ℕ) (txs : List Tx)
    → total ≤ max
    → All (λ tx. max + length tx < 2 ^ 64) txs
    → total + size (fill max total txs) ≤ max
unfolding fill
fill-size max total [] h a = omega arith
fill-size max total (tx ∷ txs) h a =
    ground
      (arith, fill-size max total txs h a.1, fill-size max ((total + length tx) % 2 ^ 64) txs, a.0)

pub fill-oracle : (max total : ℕ) (txs : List Tx) → any_oracle (fill max total txs) ≡ false
unfolding fill any_oracle
fill-oracle max total [] = refl
fill-oracle max total (tx ∷ txs) =
    ground (arith, fill-oracle max total txs, fill-oracle max ((total + length tx) % 2 ^ 64) txs)

injected-size : (max : ℕ) (o : Option Tx) → size (injected max o).0 ≡ (injected max o).1
unfolding injected
injected-size max none = refl
injected-size max (some tx) = ground arith

injected-max : (max : ℕ) (o : Option Tx) → (injected max o).1 ≤ max
unfolding injected
injected-max max none = omega arith
injected-max max (some tx) = ground arith

size-append : (xs ys : List Tx) → size (xs ++ ys) ≡ size xs + size ys
size-append [] ys = omega arith
size-append (x ∷ xs) ys = omega (arith, size-append xs ys)

any_oracle-tail : (txs : List Tx) → any_oracle txs ≡ false → any_oracle (drop 1 txs) ≡ false
unfolding any_oracle
any_oracle-tail [] h = refl
any_oracle-tail (tx ∷ txs) h = ground arith

injected-others :
    (max : ℕ) (o : Option Tx) (txs : List Tx)
    → any_oracle txs ≡ false
    → any_oracle (drop 1 ((injected max o).0 ++ txs)) ≡ false
unfolding injected
injected-others max none txs h = any_oracle-tail txs h
injected-others max (some tx) txs h = ground (arith, any_oracle-tail txs h)

module _ (w : World) where
  -- What is built is no larger than the context allows, where no sum of that bound and the length
  -- of a transaction overflows, and no transaction but the first is an oracle update.
  pub proposal_bounds :
      (pctx : ProposalContext)
      → All (λ tx. pctx.max_tx_bytes + length tx < 2 ^ 64) pctx.mempool_txs
      → (size (proposal_txs w pctx) ≤ pctx.max_tx_bytes)
        × (any_oracle (drop 1 (proposal_txs w pctx)) ≡ false)
  unfolding proposal_txs
  proposal_bounds pctx h =
      let max = pctx.max_tx_bytes in
      let txs = pctx.mempool_txs in
      let o : Option Tx =
        if length pctx.vote_extensions == 0 then none else build_oracle_tx w pctx.vote_extensions in
      let i = injected max o in
      (
        omega (
          arith,
          size-append i.0 (fill max i.1 txs),
          injected-size max o,
          fill-size max i.1 txs (injected-max max o) h,
        ),
        injected-others max o (fill max i.1 txs) (fill-oracle max i.1 txs),
      )

  -- A transaction that is no oracle update, put first, has a block with vote extensions accepted
  -- whatever follows it; without vote extensions the same block is accepted just where no oracle
  -- update follows.
  judged_others :
      (ext : CommittedVoteExtension) (exts : List CommittedVoteExtension) (first : Tx)
      (others : List Tx)
      → is_oracle first ≡ false
      → ((judged w (ext ∷ exts) (first ∷ others)).accept ≡ true)
        × ((judged w [] (first ∷ others)).accept ≡ not (any_oracle others))
  unfolding judged
  judged_others ext exts first others h = ground arith

-- What VerifyProposal is there to check: an oracle update is the first transaction or none, and its
-- JSON is one of prices of which none is void.
abbrev sound : Decoded (List OraclePrice) → Bool
sound (malformed e) = false
sound (decoded ps) = not (any_void ps)

abbrev pub intended : World → List Tx → Bool
intended w [] = true
intended w (first ∷ others) =
    not (any_oracle others) && (not (is_oracle first) || sound (w.unmarshal_prices (drop 1 first)))

-- There are vote extensions, and the first transaction is no oracle update.
abbrev pub unchecked : List CommittedVoteExtension → List Tx → Bool
unchecked exts [] = false
unchecked exts (first ∷ others) = not (length exts == 0) && not (is_oracle first)

judged-decoded :
    (w : World) (d : Decoded (List OraclePrice)) (exts : List CommittedVoteExtension) (first : Tx)
    (others : List Tx)
    → w.unmarshal_prices (drop 1 first) ≡ d
    → (judged w exts (first ∷ others)).accept
      ≡ (unchecked exts (first ∷ others) || intended w (first ∷ others))
unfolding judged
judged-decoded w (malformed e) exts first others h = ground (arith, h)
judged-decoded w (decoded ps) exts first others h = ground (arith, h)

-- Which proposals are accepted: those in which an oracle update is the first transaction or none and
-- is one of prices that are not void, and besides them every block with vote extensions whose first
-- transaction is no oracle update, whatever follows it.
pub accept-judged :
    (w : World) (exts : List CommittedVoteExtension) (txs : List Tx)
    → (judged w exts txs).accept ≡ (unchecked exts txs || intended w txs)
unfolding judged
accept-judged w exts [] = refl
accept-judged w exts (first ∷ others) =
    judged-decoded w (w.unmarshal_prices (drop 1 first)) exts first others refl
