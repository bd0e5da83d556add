-- ===== src/Telemetry/Redaction/Observations.antt =====
-- What `normalize_observations` makes of the observations of a wrapper.
use featherlane_ai.Prelude.{
  ℕ, suc, ◌≤◌, ◌≡◌, refl, ◌↔◌, ◌≢◌, true, not, List, [], ◌∷◌, String, All, any, length, ltb, arith,
  not-any_iff, zero, ◌+◌, ◌<◌, Option, none, some, inl, inr, Bool-cases, false-ne_true, ensure-ok,
  ok-ensure, ok_inj, subst, ok,
}
use featherlane_ai.Text.{trim, is_blank, is_blank_iff}
use featherlane_ai.Json.{Numbers}
use featherlane_ai.Domain.Ids.{EventId, OffsetDateTime}
use featherlane_ai.Domain.Events.{Actor, ObservedEvent, NormalizedEvent}
use featherlane_ai.Telemetry.{NormalizationContext}
use featherlane_ai.Telemetry.Redaction.{
  RedactionPolicy, redact_nested, filled_actor, parent_of, normalize_from, normalize_observations,
}
use featherlane_ai.Telemetry.Redaction.Values.{IsClean, redact_nested-IsClean}
use featherlane_ai.Telemetry.Redaction.Attributes.{
  IsPublic, Redacts, redact_attributes-IsPublic, redact_attributes-Redacts,
}

module _ (ids : ℕ → EventId) where
  -- The first event has no parent.
  abbrev pub IsParent : ℕ → Option EventId → Type 0
  IsParent index parent = (index ≡ 0 → parent ≡ none) × (0 < index → parent ≡ some (ids 0))

  parent_of-IsParent : (index : ℕ) → IsParent index (parent_of ids index)
  parent_of-IsParent zero = ((λ _. refl), λ h. absurd (omega (arith, h)))
  parent_of-IsParent (suc n) = ((λ e. absurd (omega (arith, e))), λ _. refl)

module _ (target_id : String) where
  -- The actor of an observation, who is the target where the observation does not say who.
  abbrev pub IsActor : Actor → Actor → Type 0
  IsActor said actor =
      (trim said.id ≡ "" → actor ≡ record said { id = target_id })
      × (trim said.id ≢ "" → actor ≡ said)

  filled_actor-IsActor : (said : Actor) → IsActor said (filled_actor target_id said)
  filled_actor-IsActor said = elim (Bool-cases (is_blank (trim said.id))) [
    | inl blank ↦ rw blank ((λ _. refl), λ n. absurd (n ((is_blank_iff (trim said.id)).0 blank)))
    | inr named ↦
        rw named
          ((λ e. absurd (false-ne_true ((is_blank_iff (trim said.id)).1 e) named)), λ _. refl)
  ]

module _ {num : Numbers} (context : NormalizationContext) (trace_id target_id : String)
    (policy : RedactionPolicy) (ids : ℕ → EventId) (now : OffsetDateTime) where
  -- The event of an observation at an index: owned by the context, without secrets.
  pub record Normalizes (index : ℕ) (o : ObservedEvent num) (e : NormalizedEvent num) : Type 0 where
    pub owner :
        (e.organization_id ≡ context.organization_id)
        × (e.eval_run_id ≡ context.eval_run_id)
        × (e.invocation_id ≡ context.invocation_id)
        × (e.scenario_id ≡ context.scenario_id)
    pub place : (e.trace_id ≡ trace_id) × (e.sequence ≡ index + 1) × (e.id ≡ ids index)
    pub parent : IsParent ids index e.parent_event_id
    pub times : (e.started_at ≡ now) × (e.ended_at ≡ some now)
    pub actor : IsActor target_id o.actor e.actor
    pub said : (e.event_type ≡ o.event_type) × (e.name ≡ o.name)
    pub clean_input : IsClean policy.sensitive_key_fragments e.input
    pub clean_output : IsClean policy.sensitive_key_fragments e.output
    pub public_attributes : All (IsPublic policy) e.attributes
    pub left_of_input : e.input ≡ redact_nested policy.sensitive_key_fragments o.input
    pub left_of_output : e.output ≡ redact_nested policy.sensitive_key_fragments o.output
    pub left_of_attributes : Redacts policy o.attributes e.attributes
    pub marked : e.redacted ≡ true

  -- Observation by observation, from an index on.
  abbrev pub NormalizesFrom : ℕ → List (ObservedEvent num) → List (NormalizedEvent num) → Type 0
  NormalizesFrom index [] [] = Unit
  NormalizesFrom index (o ∷ os) (e ∷ es) = Normalizes index o e × NormalizesFrom (suc index) os es
  NormalizesFrom index _ _ = ⊥

  normalize_from-Normalizes :
      (index : ℕ) (os : List (ObservedEvent num))
      → NormalizesFrom index os (normalize_from context trace_id target_id policy ids now index os)
  unfolding normalize_from
  normalize_from-Normalizes index [] = tt
  normalize_from-Normalizes index (o ∷ os) = (
    record {
      owner = (refl, refl, refl, refl);
      place = (refl, omega arith, refl);
      parent = parent_of-IsParent ids index;
      times = (refl, refl);
      actor = filled_actor-IsActor target_id o.actor;
      said = (refl, refl);
      clean_input = redact_nested-IsClean policy.sensitive_key_fragments o.input;
      clean_output = redact_nested-IsClean policy.sensitive_key_fragments o.output;
      public_attributes = (redact_attributes-IsPublic policy o.attributes).0;
      left_of_input = refl;
      left_of_output = refl;
      left_of_attributes = redact_attributes-Redacts policy o.attributes;
      marked = refl;
    },
    normalize_from-Normalizes (suc index) os,
  )

  named_iff :
      (os : List (ObservedEvent num))
      → (not (any (λ o. is_blank (trim o.name)) os) ≡ true) ↔ All (λ o. trim o.name ≢ "") os
  named_iff os = not-any_iff (λ o. is_blank (trim o.name)) (λ o. is_blank_iff (trim o.name)) os

  -- At most 1000 observations, each with a name, are accepted, and no others. Each becomes an event
  -- of the context and of the trace, in order, with its type and name: numbered from 1, with the
  -- first event as the parent of all others and no parent itself, at the given time, of the actor
  -- that was observed, or the target where that one has a blank id, with the input and output
  -- redacted, so that no sensitive key is left at any depth, with the attributes that the policy
  -- lets through, and marked as redacted.
  pub normalize_observations-Normalizes :
      (os : List (ObservedEvent num))
      → (((length os ≤ 1000) × All (λ o. trim o.name ≢ "") os)
          → (es : List (NormalizedEvent num)) × (normalize_observations context trace_id target_id
                policy ids now os
              ≡ ok es))
        × ((es : List (NormalizedEvent num))
            → normalize_observations context trace_id target_id policy ids now os ≡ ok es
            → (length os ≤ 1000) × All (λ o. trim o.name ≢ "") os × NormalizesFrom 0 os es)
  unfolding normalize_observations
  normalize_observations-Normalizes os = (
    λ h. (_, ok-ensure _ (ground (arith, h.0)) (ok-ensure _ ((named_iff os).1 h.1) refl)),
    λ es h.
        let (few, h1) = ensure-ok (not (ltb 1000 (length os))) _ _ es h in
        let (named, h2) = ensure-ok (not (any (λ o. is_blank (trim o.name)) os)) _ _ es h1 in
        (
          ground (arith, few),
          (named_iff os).0 named,
          subst (NormalizesFrom 0 os) (ok_inj h2) (normalize_from-Normalizes 0 os),
        ),
  )
