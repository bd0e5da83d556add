-- ===== src/Evaluator/Pack/Conformance.antt =====
-- What the verdict of a pack says of the evidence.
use featherlane_ai.Prelude.{
  ℕ, suc, ◌≡◌, refl, sym, subst, ◌∙◌, inl, inr, Option, List, [], ◌∷◌, String, All, Any, All-map,
  not-Any,
}
use featherlane_ai.Json.{Numbers, Value}
use featherlane_ai.Domain.Ids.{EvalRunId, RuleResultId}
use featherlane_ai.Domain.Events.{CompiledRule, EvidenceBundle, pass, RuleResult, RunVerdict}
use featherlane_ai.Evaluator.Rule.{evaluate_rule}
use featherlane_ai.Evaluator.Rule.Header.{evaluate_rule-IsAbout}
use featherlane_ai.Evaluator.Rule.Passing.{Conforms, evaluate_rule-pass_iff}
use featherlane_ai.Evaluator.Pack.{evaluate_rules, evaluate_pack}
use featherlane_ai.Evaluator.Pack.Verdict.{
  Blocks, IsBlockingFailure, IsDecided, Verdict, evaluate_pack-Verdict,
}

pass_of :
    (r : RuleResult) → IsDecided r → ¬ IsBlockingFailure r → Blocks r.severity → r.status ≡ pass
pass_of r (inl p) n b = p
pass_of r (inr f) n b = absurd (n (f, b))

-- Where every result passed, only one verdict is right.
only_pass :
    (rs : List RuleResult)
    → All (λ r. r.status ≡ pass) rs
    → (v : RunVerdict) → Verdict rs v
    → v ≡ RunVerdict.pass
only_pass rs h RunVerdict.pass d = refl
only_pass rs h RunVerdict.inconclusive d = absurd (d.1 (All-map (λ r e. inl e) rs h))
only_pass rs h RunVerdict.fail d =
    absurd (not-Any IsBlockingFailure rs (All-map (λ r e f. cc (sym e ∙ f.0)) rs h) d)

module _ {num : Numbers} (from_str : String → Option (Value num))
    (evidence : EvidenceBundle num) where
  -- What holds of each rule's result holds of the list, and the other way round.
  All-evaluate_rules :
      (P : RuleResult → Type 0) (Q : CompiledRule num → Type 0)
      → ((rule : CompiledRule num) (id : RuleResultId)
          → P (evaluate_rule from_str rule id evidence)
          → Q rule)
      → (fresh : ℕ → RuleResultId) (n : ℕ) (rules : List (CompiledRule num))
      → All P (evaluate_rules from_str fresh n rules evidence)
      → All Q rules
  unfolding evaluate_rules
  All-evaluate_rules P Q f fresh n [] h = tt
  All-evaluate_rules P Q f fresh n (rule ∷ rules) h =
      (f rule (fresh n) h.0, All-evaluate_rules P Q f fresh (suc n) rules h.1)

  evaluate_rules-All :
      (P : RuleResult → Type 0) (Q : CompiledRule num → Type 0)
      → ((rule : CompiledRule num) (id : RuleResultId)
          → Q rule
          → P (evaluate_rule from_str rule id evidence))
      → (fresh : ℕ → RuleResultId) (n : ℕ) (rules : List (CompiledRule num)) → All Q rules
      → All P (evaluate_rules from_str fresh n rules evidence)
  unfolding evaluate_rules
  evaluate_rules-All P Q f fresh n [] h = tt
  evaluate_rules-All P Q f fresh n (rule ∷ rules) h =
      (f rule (fresh n) h.0, evaluate_rules-All P Q f fresh (suc n) rules h.1)

  conforms_of :
      (rule : CompiledRule num) (id : RuleResultId)
      → (Blocks (evaluate_rule from_str rule id evidence).severity
          → (evaluate_rule from_str rule id evidence).status ≡ pass)
      → Blocks rule.severity
      → Conforms from_str rule evidence
  conforms_of rule id h b =
      (evaluate_rule-pass_iff from_str rule id evidence).0
        (h (subst Blocks (sym (evaluate_rule-IsAbout from_str rule id evidence).2) b))

  sound :
      (rs : List RuleResult)
      → ¬ Any IsBlockingFailure rs
      → All IsDecided rs
      → All (λ r. Blocks r.severity → r.status ≡ pass) rs
  sound [] n d = tt
  sound (r ∷ rs) n d = (pass_of r d.0 (λ f. n (inl f)), sound rs (λ f. n (inr f)) d.1)

  module _ (fresh : ℕ → RuleResultId) (run : EvalRunId) (rules : List (CompiledRule num)) where
    -- A pass is sound: when the verdict is `pass`, the evidence conforms to every rule of critical or
    -- high severity.
    pub evaluate_pack-pass :
        (evaluate_pack from_str fresh run rules evidence).verdict ≡ RunVerdict.pass
        → All (λ rule. Blocks rule.severity → Conforms from_str rule evidence) rules
    unfolding evaluate_pack
    evaluate_pack-pass e =
        let (clear, decided) = subst (Verdict results) e verdict in
        All-evaluate_rules (λ r. Blocks r.severity → r.status ≡ pass)
          (λ rule. Blocks rule.severity → Conforms from_str rule evidence) conforms_of fresh 0 rules
          (sound results clear decided)
      where
        results : List RuleResult
        results = evaluate_rules from_str fresh 0 rules evidence

        verdict : Verdict results (evaluate_pack from_str fresh run rules evidence).verdict
        verdict = evaluate_pack-Verdict from_str fresh run rules evidence

    -- A pass is complete: when the evidence conforms to every rule, the verdict is `pass`.
    pub evaluate_pack_conforms :
        All (λ rule. Conforms from_str rule evidence) rules
        → (evaluate_pack from_str fresh run rules evidence).verdict ≡ RunVerdict.pass
    unfolding evaluate_pack
    evaluate_pack_conforms h =
        only_pass results
          (evaluate_rules-All (λ r. r.status ≡ pass) (λ rule. Conforms from_str rule evidence)
            (λ rule id. (evaluate_rule-pass_iff from_str rule id evidence).1) fresh 0 rules h)
          _ (evaluate_pack-Verdict from_str fresh run rules evidence)
      where
        results : List RuleResult
        results = evaluate_rules from_str fresh 0 rules evidence
