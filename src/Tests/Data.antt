-- ===== src/Tests/Data.antt =====
-- Test data: a block, requests, and a library whose hash is the identity.
use bapi.Example.Dex.Chain.{Dex}
use bapi.Example.Dex.App.{test_address}
use bapi.Go.BigEndian.{uint64, put_uint64}
use bapi.Base.Int.{pos}
use bapi.Base.{some, false, [], none, List, ℕ}
use bapi.Example.Dex.State.{State, new_state, decoded, World}
use bapi.Types.{VoteContext, FinalizedBlock, Tx, Timestamp, StateQuery, HandshakeRequest}
use bapi.Go.Text.{text, Bytes}

abbrev pub epoch : Timestamp
epoch = record { seconds = pos 0; nanos = pos 0 }

abbrev pub block_at : ℕ → List Tx → FinalizedBlock
block_at h txs = record {
  height = h;
  time = epoch;
  proposer = [];
  txs = txs;
  last_block_hash = [];
  evidence = [];
  vote_extensions = [];
}

abbrev pub first_request : HandshakeRequest
first_request = record { last_committed = none; genesis = none }

abbrev pub value_query : StateQuery
value_query = record { path = text "/value"; query_data = []; height = none; prove = false }

abbrev pub same : Bytes → Bytes
same b = b

-- JSON that keeps the height, and reads any prices as none.
abbrev pub small_world : World
small_world = record {
  sha256 = same;
  marshal_state = λ s. put_uint64 s.height;
  unmarshal_state = λ b. decoded (record new_state { height = uint64 b });
  marshal_orders = λ o. [];
  marshal_prices = λ ps. [];
  unmarshal_prices = λ b. decoded [];
  order = λ d. d;
}

abbrev pub alice : Bytes
alice = test_address 7

abbrev pub gold : Bytes
gold = text "gold"

abbrev pub at_five : State
at_five = record new_state { height = 5 }

abbrev pub giver : Dex
giver = record { current = some at_five; staged = none }

abbrev pub first_vote : VoteContext
first_vote = record { height = 6; round = 0; block_hash = [] }
