-- ===== src/Example/Dex/Proposals.antt =====
-- ProposalControl: what goes into a block, and which blocks are accepted.
pub mod Laws
pub mod Accepted
use bapi.Example.Dex.Oracle.{build_oracle_tx}
use bapi.Example.Dex.Execute.{tx_oracle_update}
use bapi.Example.Dex.Transactions.{is_void}
use bapi.Example.Dex.Chain.{Dex}
use bapi.Types.{
  BuiltProposal, ReceivedProposal, ProposalContext, CommittedVoteExtension, Tx, ProposalVerdict,
}
use bapi.Example.Dex.State.{decoded, malformed, OraclePrice, World, Decoded}
use bapi.Base.{
  ◌^◌, drop, ◌++◌, ◌&&◌, ◌%◌, none, ltb, ◌||◌, ◌==◌, ◌+◌, some, not, length, ◌∷◌, true,
  if◌then◌else◌, false, [], Bool, Option, List, ℕ,
}
use bapi.Go.Text.{text, Bytes}
use bapi.Go.Run.{pure, Fallible, Action}

-- `len(tx) > 0 && tx[0] == TxOracleUpdate`
abbrev pub is_oracle : Tx → Bool
is_oracle [] = false
is_oracle (b ∷ rest) = b == tx_oracle_update

-- Whether the loop of `BuildProposal` takes a transaction after `total` bytes.
abbrev pub takes : ℕ → ℕ → Tx → Bool
takes max total tx = not (ltb max ((total + length tx) % 2 ^ 64)) && not (is_oracle tx)

unfoldable pub fill : ℕ → ℕ → List Tx → List Tx
fill max total [] = []
fill max total (tx ∷ txs) =
    let rest = fill max (if takes max total tx then (total + length tx) % 2 ^ 64 else total) txs in
    if takes max total tx then tx ∷ rest else rest

-- The oracle transaction, if there is one and it fits, and the number of its bytes.
unfoldable pub injected : ℕ → Option Tx → List Tx × ℕ
injected max none = ([], 0)
injected max (some tx) = if ltb max (length tx) then ([], 0) else (tx ∷ [], length tx)

unfoldable pub any_void : List OraclePrice → Bool
any_void [] = false
any_void (p ∷ ps) = is_void p || any_void ps

unfoldable pub any_oracle : List Tx → Bool
any_oracle [] = false
any_oracle (tx ∷ txs) = is_oracle tx || any_oracle txs

abbrev accepted : ProposalVerdict
accepted = record { accept = true; reject_reason = [] }

abbrev rejected : Bytes → ProposalVerdict
rejected why = record { accept = false; reject_reason = why }

-- The loop over the transactions from index 1.
check_others : List Tx → ProposalVerdict
check_others txs =
    if any_oracle txs
    then rejected (text "oracle_update tx must only appear at index 0")
    else accepted

check_prices : Decoded (List OraclePrice) → List Tx → ProposalVerdict
unfolding check_others
check_prices (malformed e) others = rejected (text "invalid oracle_update tx: " ++ e)
check_prices (decoded ps) others =
    if any_void ps
    then rejected (text "oracle_update contains empty pair or zero price")
    else check_others others

module _ (w : World) where
  unfoldable pub proposal_txs : ProposalContext → List Tx
  unfolding injected fill
  proposal_txs pctx =
      let (first, total) = injected pctx.max_tx_bytes (
        if length pctx.vote_extensions == 0
        then none
        else build_oracle_tx w pctx.vote_extensions) in
      first ++ fill pctx.max_tx_bytes total pctx.mempool_txs

  unfoldable pub build_proposal : ProposalContext → Action Dex (Fallible BuiltProposal)
  unfolding proposal_txs
  build_proposal pctx = pure (record { txs = proposal_txs pctx }, none)

  -- The verdict on the transactions, given the vote extensions.
  unfoldable pub judged : List CommittedVoteExtension → List Tx → ProposalVerdict
  unfolding check_prices check_others
  judged exts [] = accepted
  judged exts (first ∷ others) =
      if not (length exts == 0) && not (is_oracle first)
      then accepted
      else if is_oracle first
      then check_prices (w.unmarshal_prices (drop 1 first)) others
      else check_others others

  unfoldable pub verify_proposal : ReceivedProposal → Action Dex (Fallible ProposalVerdict)
  unfolding judged
  verify_proposal prop = pure (judged prop.vote_extensions prop.txs, none)
