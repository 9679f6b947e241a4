-- ===== src/Types/Capability.antt =====
-- capability.go: the bit field of optional interfaces.
use bapi.Base.{ℕ, Bool, List, [], ◌∷◌, ◌++◌, bit_and, ◌==◌, if◌then◌else◌}
use bapi.Go.Text.{Bytes, text}

abbrev pub cap_proposal_control : ℕ
cap_proposal_control = 1

abbrev pub cap_vote_extensions : ℕ
cap_vote_extensions = 2

abbrev pub cap_state_sync : ℕ
cap_state_sync = 4

abbrev pub cap_simulation : ℕ
cap_simulation = 8

abbrev pub cap_mempool_observer : ℕ
cap_mempool_observer = 16

-- All bits of `cap` are set in `c`.
unfoldable pub has : ℕ → ℕ → Bool
has c cap = bit_and c cap == cap

abbrev name_if : Bool → Bytes → List Bytes
name_if b name = if b then name ∷ [] else []

-- `strings.Join`
join : Bytes → List Bytes → Bytes
join sep [] = []
join sep (x ∷ []) = x
join sep (x ∷ y ∷ rest) = x ++ (sep ++ join sep (y ∷ rest))

capability_names : ℕ → List Bytes
capability_names c =
    name_if (has c cap_proposal_control) (text "ProposalControl")
    ++ (name_if (has c cap_vote_extensions) (text "VoteExtensions")
        ++ (name_if (has c cap_state_sync) (text "StateSync")
            ++ (name_if (has c cap_simulation) (text "Simulation")
                ++ name_if (has c cap_mempool_observer) (text "MempoolObserver"))))

joined_names : List Bytes → Bytes
joined_names [] = text "none"
joined_names (x ∷ rest) = join (text "|") (x ∷ rest)

-- `Capabilities.String`
unfoldable pub capabilities_text : ℕ → Bytes
unfolding joined_names capability_names join
capabilities_text c = joined_names (capability_names c)
