-- ===== src/Evaluator/Pack/Verdict.antt =====
-- The verdict of a pack and its counts.
use featherlane_ai.Prelude.{
  ℕ, suc, ◌+◌, ◌-◌, ◌≤◌, ◌≡◌, refl, ap, ◌↔◌, ◌⊎◌, inl, inr, true, Option, List, [], ◌∷◌, String,
  same_iff, same-eq, All, Any, any, any_iff, keep, length, Counts, length-keep-Counts, Bool-cases,
  false-ne_true, ltb, and-eq_true, and_intro, ltb→lt, tests, arith,
}
use featherlane_ai.Json.{Numbers, Value}
use featherlane_ai.Domain.Ids.{EvalRunId, RuleResultId}
use featherlane_ai.Domain.Events.{
  Severity, critical, high, medium, advisory, CompiledRule, EvidenceBundle, RuleStatus,
  RuleStatus-discrete, pass, fail, RuleResult, RunVerdict, EvaluationSummary,
}
use featherlane_ai.Evaluator.Pack.{
  is_blocking, has_status, blocking_failure, verdict_of, evaluate_rules, evaluate_pack,
}

-- A severity that blocks.
abbrev pub Blocks : Severity → Type 0
Blocks severity = (severity ≡ critical) ⊎ (severity ≡ high)

-- A failure that decides the run.
abbrev pub IsBlockingFailure : RuleResult → Type 0
IsBlockingFailure r = (r.status ≡ fail) × Blocks r.severity

abbrev pub IsDecided : RuleResult → Type 0
IsDecided r = (r.status ≡ pass) ⊎ (r.status ≡ fail)

is_blocking_iff : (s : Severity) → (is_blocking s ≡ true) ↔ Blocks s
is_blocking_iff critical = ((λ _. inl refl), λ _. refl)
is_blocking_iff high = ((λ _. inr refl), λ _. refl)
is_blocking_iff medium = ((λ h. cc), λ h. elim h [ inl e ↦ cc | inr e ↦ cc ])
is_blocking_iff advisory = ((λ h. cc), λ h. elim h [ inl e ↦ cc | inr e ↦ cc ])

blocking_failure_iff : (r : RuleResult) → (blocking_failure r ≡ true) ↔ IsBlockingFailure r
unfolding blocking_failure
blocking_failure_iff r = (
  λ h.
      let (a, b) = and-eq_true (has_status fail r) (is_blocking r.severity) h in
      (same-eq RuleStatus-discrete _ _ a, (is_blocking_iff r.severity).0 b),
  λ h.
      and_intro _ _ ((same_iff RuleStatus-discrete _ _).1 h.0) ((is_blocking_iff r.severity).1 h.1),
)

has_status_iff : (s : RuleStatus) (r : RuleResult) → (has_status s r ≡ true) ↔ (r.status ≡ s)
has_status_iff s r = same_iff RuleStatus-discrete r.status s

pass-ne_fail : {s : RuleStatus} → s ≡ pass → ¬ (s ≡ fail)
pass-ne_fail e d = cc

-- The results are decided exactly when the two counts add up to all of them.
IsDecided-iff :
    (rs : List RuleResult)
    → (length (keep (has_status pass) rs) + length (keep (has_status fail) rs) ≤ length rs)
      × ((length rs ≤ length (keep (has_status pass) rs) + length (keep (has_status fail) rs))
          ↔ All IsDecided rs)
IsDecided-iff [] = (omega arith, ((λ _. tt), λ _. omega arith))
IsDecided-iff (r ∷ rs) =
    let (le, ends) = IsDecided-iff rs in
    elim (Bool-cases (has_status pass r)) [
      | inl p ↦ elim (Bool-cases (has_status fail r)) [
        | inl f ↦ absurd (pass-ne_fail ((has_status_iff pass r).0 p) ((has_status_iff fail r).0 f))
        | inr g ↦
            rw (p, g)
              (
                omega arith,
                (
                  (λ h. (inl ((has_status_iff pass r).0 p), ends.0 (omega arith))),
                  λ h. omega (arith, ends.1 h.1),
                ),
              )
      ]
      | inr q ↦ elim (Bool-cases (has_status fail r)) [
        | inl f ↦
            rw (q, f)
              (
                omega arith,
                (
                  (λ h. (inr ((has_status_iff fail r).0 f), ends.0 (omega arith))),
                  λ h. omega (arith, ends.1 h.1),
                ),
              )
        | inr g ↦
            rw (q, g)
              (
                omega arith,
                (
                  (λ h. absurd (omega arith)),
                  λ h. elim h.0 [
                    | inl e ↦ false-ne_true ((has_status_iff pass r).1 e) q
                    | inr e ↦ false-ne_true ((has_status_iff fail r).1 e) g
                  ],
                ),
              )
      ]
    ]

-- What a verdict says of the results.
abbrev pub Verdict : List RuleResult → RunVerdict → Type 0
Verdict rs RunVerdict.fail = Any IsBlockingFailure rs
Verdict rs RunVerdict.pass = ¬ Any IsBlockingFailure rs × All IsDecided rs
Verdict rs RunVerdict.inconclusive = ¬ Any IsBlockingFailure rs × ¬ All IsDecided rs

verdict_of-Verdict :
    (rs : List RuleResult)
    → Verdict rs (
        verdict_of
          (any blocking_failure rs)
          (length rs - (length (keep (has_status pass) rs) + length (keep (has_status fail) rs))))
unfolding verdict_of
verdict_of-Verdict rs =
    let blocked = any_iff blocking_failure blocking_failure_iff rs in
    let (le, ends) = IsDecided-iff rs in
    elim (Bool-cases (any blocking_failure rs)) [
      | inl bad ↦ rw bad (blocked.0 bad)
      | inr fine ↦
          let clear : ¬ Any IsBlockingFailure rs = λ a. false-ne_true (blocked.1 a) fine in
          elim (Bool-cases (
            ltb 0 (
              length rs
              - (length (keep (has_status pass) rs) + length (keep (has_status fail) rs))))) [
                | inl open' ↦
                    rw (fine, open')
                      (clear, λ a. absurd (omega (tests, ltb→lt _ _ open', ends.1 a)))
                | inr none' ↦ rw (fine, none') (clear, ends.0 (ground arith))
              ]
    ]

length-evaluate_rules :
    {num : Numbers} (from_str : String → Option (Value num)) (fresh : ℕ → RuleResultId) (n : ℕ)
    (rules : List (CompiledRule num)) (evidence : EvidenceBundle num)
    → length (evaluate_rules from_str fresh n rules evidence) ≡ length rules
unfolding evaluate_rules
length-evaluate_rules from_str fresh n [] evidence = refl
length-evaluate_rules from_str fresh n (rule ∷ rules) evidence =
    ap suc (length-evaluate_rules from_str fresh (suc n) rules evidence)

module _ {num : Numbers} (from_str : String → Option (Value num)) (fresh : ℕ → RuleResultId)
    (run : EvalRunId) (rules : List (CompiledRule num)) (evidence : EvidenceBundle num) where
  abbrev summary : EvaluationSummary
  summary = evaluate_pack from_str fresh run rules evidence

  -- A run fails exactly when some result of critical or high severity failed. Of the others, it passes
  -- when every result passed or failed, and is inconclusive when some result did neither; a failure
  -- of lower severity does not count against a pass.
  pub evaluate_pack-Verdict :
      Verdict
        (evaluate_pack from_str fresh run rules evidence).results
        (evaluate_pack from_str fresh run rules evidence).verdict
  unfolding evaluate_pack
  evaluate_pack-Verdict = verdict_of-Verdict (evaluate_rules from_str fresh 0 rules evidence)

  -- There is a result for each rule, `passed` and `failed` count those of that status, and the three
  -- counts add up to the number of rules.
  evaluate_pack-Counts :
      (length summary.results ≡ length rules)
      × Counts (λ r. r.status ≡ pass) summary.results summary.passed
      × Counts (λ r. r.status ≡ fail) summary.results summary.failed
      × (summary.passed + summary.failed + summary.inconclusive ≡ length rules)
  unfolding evaluate_pack
  evaluate_pack-Counts =
      let results = evaluate_rules from_str fresh 0 rules evidence in
      let size = length-evaluate_rules from_str fresh 0 rules evidence in
      let (le, ends) = IsDecided-iff results in
      (
        size,
        length-keep-Counts (has_status pass) (has_status_iff pass) results,
        length-keep-Counts (has_status fail) (has_status_iff fail) results,
        omega (arith, le, size),
      )
