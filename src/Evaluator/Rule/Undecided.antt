-- ===== src/Evaluator/Rule/Undecided.antt =====
-- What the loops of `evaluate_rule` leave where an assertion cannot be decided.
use featherlane_ai.Prelude.{
  ◌≡◌, refl, ◌↔◌, ◌⊎◌, inl, inr, Bool, true, Option, List, [], ◌∷◌, ◌++◌, String, All, keep,
  is_empty, Bool-cases, false-ne_true,
}
use featherlane_ai.Json.{Numbers, Value}
use featherlane_ai.Domain.Ids.{EventId, RuleResultId}
use featherlane_ai.Domain.Events.{
  MissingEvidencePolicy, RuleAssertion, terminal_state, CompiledRule, NormalizedEvent,
  EvidenceBundle, insufficient, RuleStatus, fail,
}
use featherlane_ai.Evaluator.Matching.Laws.{Selects}
use featherlane_ai.Evaluator.Assertion.{
  AssertionOutcome, passed, failed, not_observable, evaluate_assertion,
}
use featherlane_ai.Evaluator.Assertion.Laws.{Holds, Observable, Decides, evaluate_assertion-Decides}
use featherlane_ai.Evaluator.Requirement.{has_required_evidence}
use featherlane_ai.Evaluator.Rule.{
  missing_status, result, missing_evidence_result, Progress, continues, returns, ◌>>=◌, cite,
  check_assertions, check_triggers,
}

-- The status that a policy names for missing evidence.
pub data Names : MissingEvidencePolicy → RuleStatus → Type 0 where
  as_not_observable : Names MissingEvidencePolicy.not_observable RuleStatus.not_observable
  as_failure : Names MissingEvidencePolicy.fail RuleStatus.fail
  as_error : Names MissingEvidencePolicy.error RuleStatus.error

pub missing_status-Names : (p : MissingEvidencePolicy) → Names p (missing_status p)
missing_status-Names MissingEvidencePolicy.not_observable = as_not_observable
missing_status-Names MissingEvidencePolicy.fail = as_failure
missing_status-Names MissingEvidencePolicy.error = as_error

module _ {A : Type 0} where
  -- Some element has `Q`, and all those before it have `P`.
  abbrev pub Leads : (A → Type 0) → (A → Type 0) → List A → Type 0
  Leads P Q [] = ⊥
  Leads P Q (x ∷ xs) = Q x ⊎ (P x × Leads P Q xs)

  pub Leads-is_empty : (P Q : A → Type 0) (xs : List A) → is_empty xs ≡ true → ¬ Leads P Q xs
  Leads-is_empty P Q [] e = λ h. h
  Leads-is_empty P Q (x ∷ xs) e = absurd (cc)

  pub Leads-keep_iff :
      (p : A → Bool) (S P Q : A → Type 0)
      → ((a : A) → (p a ≡ true) ↔ S a)
      → (xs : List A) → Leads P Q (keep p xs) ↔ Leads (λ a. S a → P a) (λ a. S a × Q a) xs
  Leads-keep_iff p S P Q e [] = ((λ h. h), λ h. h)
  Leads-keep_iff p S P Q e (x ∷ xs) =
      let (to, from) = Leads-keep_iff p S P Q e xs in
      elim (Bool-cases (p x)) [
        | inl hit ↦ rw hit (
          λ h. elim h [ inl q ↦ inl ((e x).0 hit, q) | inr l ↦ inr ((λ _. l.0), to l.1) ],
          λ h. elim h [ inl q ↦ inl q.1 | inr l ↦ inr (l.0 ((e x).0 hit), from l.1) ],
        )
        | inr miss ↦
            let out : ¬ S x = λ s. false-ne_true ((e x).1 s) miss in
            rw miss (
              λ h. inr ((λ s. absurd (out s)), to h),
              λ h. elim h [ inl q ↦ absurd (out q.0) | inr l ↦ from l.1 ],
            )
      ]

module _ {num : Numbers} where
  pub Holds-Observable :
      (trigger : NormalizedEvent num) (evidence : EvidenceBundle num)
      (assertion : RuleAssertion num)
      → Holds trigger evidence assertion
      → Observable trigger evidence assertion
  Holds-Observable trigger evidence (terminal_state state) h = h.0
  Holds-Observable trigger evidence _ h = tt

  -- The evidence cannot tell whether the assertion holds.
  abbrev pub IsOpen : EvidenceBundle num → NormalizedEvent num → RuleAssertion num → Type 0
  IsOpen evidence trigger assertion = ¬ Observable trigger evidence assertion

  -- The first assertion that does not hold at the trigger is open.
  abbrev pub IsOpenAt : CompiledRule num → EvidenceBundle num → NormalizedEvent num → Type 0
  IsOpenAt rule evidence trigger =
      Leads (Holds trigger evidence) (IsOpen evidence trigger) rule.assertions

  -- All that the rule demands at one trigger.
  abbrev pub Upholds : CompiledRule num → EvidenceBundle num → NormalizedEvent num → Type 0
  Upholds rule evidence trigger = All (Holds trigger evidence) rule.assertions

module _ {num : Numbers} (from_str : String → Option (Value num)) where
  -- The evidence does not say whether the rule is kept.
  abbrev pub IsUndecided : CompiledRule num → EvidenceBundle num → Type 0
  IsUndecided rule evidence =
      (evidence.trace_quality ≡ insufficient)
      ⊎ ¬ All (λ requirement. has_required_evidence from_str requirement evidence ≡ true)
          rule.evidence_required
      ⊎ Leads (λ event. Selects rule.trigger event → Upholds rule evidence event)
          (λ event. Selects rule.trigger event × IsOpenAt rule evidence event) evidence.events

  module _ (rule : CompiledRule num) (id : RuleResultId) (evidence : EvidenceBundle num) where
    -- What a part of the loops leaves: it went on because `P` held, it returned for the lack of
    -- evidence `Q`, or it returned a failure.
    abbrev pub Splits : Type 0 → Type 0 → Progress → Type 0
    Splits P Q (continues cited) = P × ¬ Q
    Splits P Q (returns r) =
        (Q × Names rule.on_missing_evidence r.status × (r.evidence_event_ids ≡ []))
        ⊎ ((r.status ≡ fail) × (¬ P) × ¬ Q)

    bind-Splits :
        (P Q S T : Type 0) (m : Progress) (k : List EventId → Progress)
        → Splits P Q m
        → ((cited : List EventId) → Splits S T (k cited))
        → Splits (P × S) (Q ⊎ (P × T)) (m >>= k)
    bind-Splits P Q S T (returns r) k h f = elim h [
      | inl x ↦ inl (inl x.0, x.1, x.2)
      | inr x ↦ inr (x.0, (λ p. x.1 p.0), λ q. elim q [ inl y ↦ x.2 y | inr y ↦ x.1 y.0 ])
    ]
    bind-Splits P Q S T (continues cited) k (p, n) f = go (k cited) (f cited)
      where
        go : (o : Progress) → Splits S T o → Splits (P × S) (Q ⊎ (P × T)) o
        go (continues more) (s, t) = ((p, s), λ q. elim q [ inl y ↦ n y | inr y ↦ t y.1 ])
        go (returns r) (inl x) = inl (inr (p, x.0), x.1, x.2)
        go (returns r) (inr x) =
            inr (x.0, (λ y. x.1 y.1), λ q. elim q [ inl y ↦ n y | inr y ↦ x.2 y.1 ])

    cite-Splits :
        (trigger : NormalizedEvent num) (assertion : RuleAssertion num) (cited : List EventId)
        (o : AssertionOutcome)
        → Decides trigger evidence assertion o
        → Splits
            (Holds trigger evidence assertion)
            (IsOpen evidence trigger assertion)
            (cite from_str rule id evidence cited o)
    unfolding cite result missing_evidence_result
    cite-Splits trigger assertion cited (passed found) d =
        (d, λ open'. open' (Holds-Observable trigger evidence assertion d))
    cite-Splits trigger assertion cited (failed message found) d =
        inr (refl, d.1, λ open'. open' d.0)
    cite-Splits trigger assertion cited (not_observable message) d =
        inl (d, missing_status-Names rule.on_missing_evidence, refl)

    check_assertions-Splits :
        (trigger : NormalizedEvent num) (assertions : List (RuleAssertion num))
        (cited : List EventId)
        → Splits
            (All (Holds trigger evidence) assertions)
            (Leads (Holds trigger evidence) (IsOpen evidence trigger) assertions)
            (check_assertions from_str rule id evidence trigger assertions cited)
    unfolding check_assertions
    check_assertions-Splits trigger [] cited = (tt, λ h. h)
    check_assertions-Splits trigger (assertion ∷ assertions) cited =
        bind-Splits _ _ _ _
          (cite from_str rule id evidence cited (evaluate_assertion assertion trigger evidence))
          (check_assertions from_str rule id evidence trigger assertions)
          (cite-Splits trigger assertion cited _
            (evaluate_assertion-Decides assertion trigger evidence))
          (check_assertions-Splits trigger assertions)

    pub check_triggers-Splits :
        (triggers : List (NormalizedEvent num)) (cited : List EventId)
        → Splits
            (All (Upholds rule evidence) triggers)
            (Leads (Upholds rule evidence) (IsOpenAt rule evidence) triggers)
            (check_triggers from_str rule id evidence triggers cited)
    unfolding check_triggers
    check_triggers-Splits [] cited = (tt, λ h. h)
    check_triggers-Splits (trigger ∷ triggers) cited =
        bind-Splits _ _ _ _
          (check_assertions from_str rule id evidence trigger rule.assertions
            (cited ++ trigger.id ∷ []))
          (check_triggers from_str rule id evidence triggers)
          (check_assertions-Splits trigger rule.assertions _) (check_triggers-Splits triggers)
