-- ===== src/Domain/Collection.antt =====
-- crates/governance-domain/src/policy_collection.rs: collections of policy imports.
pub mod Readiness
use featherlane_ai.Prelude.{
  ℕ, ◌+◌, ◌%◌, Bool, true, false, ◌&&◌, List, [], ◌∷◌, ◌++◌, String, ltb, ◌==◌, length, is_empty,
  keep, if◌then◌else◌,
}
use featherlane_ai.Json.{Numbers}
use featherlane_ai.Domain.Ids.{PolicyImportId}
use featherlane_ai.Domain.Import.{PolicyImport, PolicyCandidate, has_candidate_status, approved}
use featherlane_ai.Domain.Import as Import

pub data SourceIngestionItemStatus : Type 0 where
  pending acquiring queued processing : SourceIngestionItemStatus
  review_required unchanged blocked failed : SourceIngestionItemStatus

-- The pairs of the `matches!`.
unfoldable pub item_can_transition_to : SourceIngestionItemStatus → SourceIngestionItemStatus → Bool
item_can_transition_to pending acquiring = true
item_can_transition_to acquiring queued = true
item_can_transition_to acquiring unchanged = true
item_can_transition_to acquiring blocked = true
item_can_transition_to acquiring failed = true
item_can_transition_to queued processing = true
item_can_transition_to queued failed = true
item_can_transition_to processing review_required = true
item_can_transition_to processing blocked = true
item_can_transition_to processing failed = true
item_can_transition_to failed pending = true
item_can_transition_to _ _ = false

pub record PolicyCollectionSourceBlocker : Type 0 where
  pub policy_import_id : PolicyImportId
  pub title : String
  pub blockers : List String

pub record PolicyCollectionReadiness : Type 0 where
  pub source_count : ℕ
  pub review_complete_count : ℕ
  pub approved_rule_count : ℕ
  pub blockers : List PolicyCollectionSourceBlocker
  pub collection_blockers : List String

-- `u32::try_from(n).unwrap_or(u32::MAX)`.
unfoldable pub saturated : ℕ → ℕ
saturated n = if ltb n 4294967296 then n else 4294967295

-- `+=` on `u32`, with the wrap-around of a release build.
unfoldable pub add_u32 : ℕ → ℕ → ℕ
add_u32 a b = (a + b) % 4294967296

abbrev pub Members : Numbers → Type 0
Members num = List (PolicyImport × List (PolicyCandidate num))

-- The check behind the loop.
unfoldable pub check_rules : PolicyCollectionReadiness → PolicyCollectionReadiness
check_rules r =
    if r.approved_rule_count == 0
    then record r {
      collection_blockers =
          r.collection_blockers ++ "collection must contain at least one approved rule" ∷ [];
    }
    else r

module _ {num : Numbers} where
  abbrev pub source_blocker :
      PolicyImport × List (PolicyCandidate num) → PolicyCollectionSourceBlocker
  source_blocker member = record {
    policy_import_id = member.0.id;
    title = member.0.title;
    blockers = Import.review_blockers (Import.calculate member.0 member.1);
  }

  -- The first update of a member: it is complete, or it blocks.
  unfoldable pub count_review :
      PolicyImport × List (PolicyCandidate num)
      → PolicyCollectionReadiness
      → PolicyCollectionReadiness
  unfolding add_u32
  count_review member r =
      if Import.review_complete (Import.calculate member.0 member.1)
      then record r { review_complete_count = add_u32 r.review_complete_count 1 }
      else record r { blockers = r.blockers ++ source_blocker member ∷ [] }

  unfoldable pub count_rules :
      PolicyImport × List (PolicyCandidate num)
      → PolicyCollectionReadiness
      → PolicyCollectionReadiness
  unfolding add_u32 saturated
  count_rules member r = record r {
    approved_rule_count =
        add_u32 r.approved_rule_count
          (saturated (length (keep (has_candidate_status approved) member.1)));
  }

  -- The loop.
  unfoldable pub count_members : PolicyCollectionReadiness → Members num → PolicyCollectionReadiness
  unfolding count_review count_rules
  count_members r [] = r
  count_members r (member ∷ members) =
      count_members (count_rules member (count_review member r)) members

  abbrev pub initial : Members num → PolicyCollectionReadiness
  initial members = record {
    source_count = saturated (length members);
    review_complete_count = 0;
    approved_rule_count = 0;
    blockers = [];
    collection_blockers = [];
  }

  unfoldable pub collection_readiness : Members num → PolicyCollectionReadiness
  unfolding saturated count_members check_rules
  collection_readiness members =
      let result = initial members in
      if is_empty members
      then record result {
        collection_blockers =
            result.collection_blockers ++ "collection must contain at least one source" ∷ [];
      }
      else check_rules (count_members result members)

unfoldable pub collection_is_ready : PolicyCollectionReadiness → Bool
collection_is_ready r =
    ltb 0 r.source_count && is_empty r.blockers && is_empty r.collection_blockers
