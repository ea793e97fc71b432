-- ===== src/DefectRepair/Consensus.antt =====
-- defect_repair/repair_strategies.py, the class `L3RepairStrategy`: three proposals, and the one that
-- is proposed most often.
use Prim.Native.String
use agent_manager.Prelude.Dict
use agent_manager.Prelude.Dict.{Dict}
use agent_manager.Prelude.{
  ℕ, zero, suc, String, Option, none, some, List, [], ◌∷◌, ltb, str_eq, if◌then◌else◌,
}
use agent_manager.Runtime.Context.{number}
use agent_manager.Recovery.Repairs.{RepairResult}
use agent_manager.DefectRepair.Results.{success_result, failed_result}

-- `_agent_analyze`; every agent has a proposal.
unfoldable pub agent_analyze : (agent_id : ℕ) → (code : String) → Option String
agent_analyze zero code =
    some (String.◌++◌ "try:\n    " (String.◌++◌ code "\nexcept Exception:\n    pass"))
agent_analyze (suc zero) code = some (String.◌++◌ "if code:\n    " code)
agent_analyze (suc (suc n)) code = some (
    String.◌++◌ "import logging\nlogger = logging.getLogger(__name__)\nlogger.debug('Executing')\n"
      code)

-- The body of the loop of `_get_agent_proposals`: a proposal that is there and not empty is kept.
unfoldable pub add_proposal : Option String → List String → List String
add_proposal none proposals = proposals
add_proposal (some proposal) proposals =
    if str_eq proposal "" then proposals else proposal ∷ proposals

unfoldable pub proposals_from : (agents : List ℕ) → (code : String) → List String
unfolding agent_analyze add_proposal
proposals_from [] code = []
proposals_from (agent_id ∷ agents) code =
    add_proposal (agent_analyze agent_id code) (proposals_from agents code)

-- `_get_agent_proposals`, of NUM_AGENTS agents
unfoldable pub get_agent_proposals : (code : String) → List String
unfolding proposals_from
get_agent_proposals code = proposals_from (0 ∷ 1 ∷ 2 ∷ []) code

abbrev pub or_zero : Option ℕ → ℕ
or_zero none = 0
or_zero (some n) = n

-- `counter[text]`
unfoldable pub tally : Dict ℕ → String → ℕ
tally counter text = or_zero (Dict.get counter text)

-- `Counter(proposals)`
unfoldable pub count_proposals : List String → Dict ℕ → Dict ℕ
count_proposals [] counter = counter
count_proposals (text ∷ proposals) counter =
    count_proposals proposals (Dict.put counter text (suc (tally counter text)))

-- The first entry with the greatest number.
unfoldable pub greatest : (best : String × ℕ) → Dict ℕ → String × ℕ
greatest best [] = best
greatest best (next ∷ counter) = greatest (if ltb best.1 next.1 then next else best) counter

-- `counter.most_common(1)`
unfoldable pub most_common : Dict ℕ → Option (String × ℕ)
unfolding greatest
most_common [] = none
most_common (first ∷ counter) = some (greatest first counter)

-- `_select_consensus_repair`
unfoldable pub select_consensus_repair : List String → Option String
unfolding count_proposals most_common
select_consensus_repair [] = none
select_consensus_repair (first ∷ proposals) =
    elim (most_common (count_proposals (first ∷ proposals) [])) [
      | some entry ↦ some entry.0
      | none ↦ some first
    ]

unfoldable pub length_of : List String → ℕ
length_of [] = 0
length_of (x ∷ xs) = suc (length_of xs)

unfoldable pub by_consensus : (proposals : List String) → Option String → RepairResult
unfolding length_of
by_consensus proposals none = failed_result "No consensus repair found" 1
by_consensus proposals (some best) =
    if str_eq best ""
    then failed_result "No consensus repair found" 1
    else success_result best 1 (
        ("num_agents", number (length_of proposals))
        ∷ ("proposals", number (length_of proposals))
        ∷ [])

unfoldable pub reviewed : (proposals : List String) → RepairResult
unfolding select_consensus_repair by_consensus
reviewed [] = failed_result "No agent proposals generated" 1
reviewed (first ∷ proposals) =
    by_consensus (first ∷ proposals) (select_consensus_repair (first ∷ proposals))

-- `repair`
unfoldable pub repair_l3 : (code : String) → RepairResult
unfolding get_agent_proposals reviewed
repair_l3 code = reviewed (get_agent_proposals code)

-- How often a text is among the proposals.
unfoldable pub occurrences : String → List String → ℕ
occurrences text [] = 0
occurrences text (p ∷ proposals) =
    let rest = occurrences text proposals in if str_eq p text then suc rest else rest
