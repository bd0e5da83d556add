-- ===== src/Evaluator/Assertion.antt =====
-- crates/governance-evaluator/src/lib.rs: one assertion of a rule at one trigger.
pub mod Laws
pub mod Cited
use Prim.Native.String.{◌++◌ as text_append}
use featherlane_ai.Prelude.{
  Bool, false, not, ◌&&◌, ◌||◌, Option, none, some, List, [], ◌∷◌, map, String, str_eq,
  if◌then◌else◌, ltb, leb, length, is_empty, is_some_and, or_else, any, keep,
}
use featherlane_ai.Text.{decimal}
use featherlane_ai.Json.{Numbers, Value, lookup, as_str}
use featherlane_ai.Domain.Ids.{OffsetDateTime, EventId}
use featherlane_ai.Domain.Events.{
  event_type_name, EventMatcher, RuleAssertion, exists_before, absent, max_count, terminal_state,
  NormalizedEvent, EvidenceBundle,
}
use featherlane_ai.Evaluator.Matching.{event_matches, matching}

infixr 65 ◌+++◌
abbrev pub ◌+++◌ : String → String → String
s +++ t = text_append s t

-- `Pass` and `Fail` with the events that they cite.
pub data AssertionOutcome : Type 0 where
  passed : List EventId → AssertionOutcome
  failed : String → List EventId → AssertionOutcome
  not_observable : String → AssertionOutcome

module _ {num : Numbers} where
  abbrev is_text : Option (Value num) → String → Bool
  is_text none s = false
  is_text (some v) s = is_some_and (as_str v) (λ t. str_eq t s)

  -- The three spellings of the attribute, the first that is there.
  unfoldable pub state_attribute : NormalizedEvent num → Option (Value num)
  state_attribute event =
      or_else
        (or_else (lookup "terminal_state" event.attributes)
          (lookup "featherlane.run.terminal_state" event.attributes))
        (lookup "governance.terminal_state" event.attributes)

  unfoldable pub state_matches : String → EvidenceBundle num → Bool
  state_matches state evidence =
      is_some_and evidence.terminal_state (λ s. str_eq s state)
      || any (λ event. is_text (state_attribute event) state) evidence.events

  -- `max_by_key` on the sequence: of several greatest the last.
  unfoldable pub latest_from :
      NormalizedEvent num → List (NormalizedEvent num) → NormalizedEvent num
  latest_from best [] = best
  latest_from best (e ∷ es) = latest_from (if leb best.sequence e.sequence then e else best) es

  unfoldable pub latest : List (NormalizedEvent num) → Option (NormalizedEvent num)
  unfolding latest_from
  latest [] = none
  latest (e ∷ es) = some (latest_from e es)

  abbrev display_event_type : EventMatcher num → String
  display_event_type matcher = event_type_name matcher.event_type

  abbrev ids : List (NormalizedEvent num) → List EventId
  ids = map (λ event. event.id)

  abbrev pub before :
      NormalizedEvent num
      → EventMatcher num
      → List (NormalizedEvent num)
      → List (NormalizedEvent num)
  before trigger matcher =
      keep (λ event. ltb event.sequence trigger.sequence && event_matches event matcher)

  -- `map_or_else` on the latest event.
  unfoldable pub before_outcome :
      EventMatcher num → NormalizedEvent num → Option (NormalizedEvent num) → AssertionOutcome
  before_outcome matcher trigger none =
      failed
        ("required "
          +++ display_event_type matcher
          +++ " event was not observed before "
          +++ trigger.name)
        []
  before_outcome matcher trigger (some event) = passed (event.id ∷ [])

  -- The `match` on the end of the trigger.
  unfoldable pub terminal_outcome :
      String → NormalizedEvent num → EvidenceBundle num → Option OffsetDateTime → AssertionOutcome
  terminal_outcome state trigger evidence none =
      not_observable "terminal state cannot be established without a terminal event"
  terminal_outcome state trigger evidence (some _) =
      if state_matches state evidence
      then passed (trigger.id ∷ [])
      else failed ("required terminal state " +++ state +++ " was not observed") []

  unfoldable pub evaluate_assertion :
      RuleAssertion num → NormalizedEvent num → EvidenceBundle num → AssertionOutcome
  unfolding before_outcome terminal_outcome
  evaluate_assertion (exists_before matcher) trigger evidence =
      before_outcome matcher trigger (latest (before trigger matcher evidence.events))
  evaluate_assertion (absent matcher) trigger evidence =
      let found = ids (matching matcher evidence.events) in
      if is_empty found
      then passed []
      else failed ("prohibited " +++ display_event_type matcher +++ " event was observed") found
  evaluate_assertion (max_count matcher count) trigger evidence =
      let found = ids (matching matcher evidence.events) in
      if leb (length found) count
      then passed found
      else failed
          ("event count " +++ decimal (length found) +++ " exceeded maximum " +++ decimal count)
          found
  evaluate_assertion (terminal_state state) trigger evidence =
      terminal_outcome state trigger evidence trigger.ended_at
