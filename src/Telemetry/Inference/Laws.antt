-- ===== src/Telemetry/Inference/Laws.antt =====
-- Where the type of an event comes from.
use featherlane_ai.Prelude.{
  ◌≡◌, refl, ap, sym, subst, ◌∙◌, inl, inr, ◌⊎◌, Bool, true, false, Option, none, some, List, [],
  ◌∷◌, String, str_eq, str_eq_iff, find, and_then, or_else, Bool-cases, false-ne_true, or_iff,
}
use featherlane_ai.Json.{Numbers, string, lookup}
use featherlane_ai.Domain.Events.{
  EventType, scenario_input, agent_start, model_call, model_result, tool_call, tool_result,
  retrieval, handoff, guardrail_decision, human_approval_request, human_approval_decision,
  final_output, side_effect, retry, timeout, cancellation, unclassified, event_type_of_name,
  event_type_name, all_event_types,
}
use featherlane_ai.Telemetry.{TraceSpan}
use featherlane_ai.Telemetry.Correlation.Reading.{IsText, IsText-cases, no_text, text_of, text_inj}
use featherlane_ai.Telemetry.Inference.{
  attr_event_type, legacy_event_type, parse_event_type, is_agent_operation, explicit_of, kind_of,
  operation_type, type_of_kind, infer_event_type,
}

-- Each type is told apart by its name.
event_type_of_name_again : (t : EventType) → event_type_of_name (event_type_name t) ≡ some t
unfolding event_type_of_name event_type_name
event_type_of_name_again scenario_input = refl
event_type_of_name_again agent_start = refl
event_type_of_name_again model_call = refl
event_type_of_name_again model_result = refl
event_type_of_name_again tool_call = refl
event_type_of_name_again tool_result = refl
event_type_of_name_again retrieval = refl
event_type_of_name_again handoff = refl
event_type_of_name_again guardrail_decision = refl
event_type_of_name_again human_approval_request = refl
event_type_of_name_again human_approval_decision = refl
event_type_of_name_again final_output = refl
event_type_of_name_again side_effect = refl
event_type_of_name_again retry = refl
event_type_of_name_again EventType.error = refl
event_type_of_name_again timeout = refl
event_type_of_name_again cancellation = refl
event_type_of_name_again unclassified = refl

some_inj : {t u : EventType} → (let o : Option EventType = some t in o ≡ some u) → t ≡ u
some_inj h = cc

find-some :
    (p : EventType → Bool) (ts : List EventType) (t : EventType) → find p ts ≡ some t → p t ≡ true
find-some p [] t h = cc
find-some p (x ∷ xs) t h = elim (Bool-cases (p x)) [
  | inl hit ↦ subst (λ u. p u ≡ true) (some_inj (rw hit at h)) hit
  | inr miss ↦ find-some p xs t (rw miss at h)
]

event_type_name-event_type_of_name :
    (s : String) (t : EventType) → event_type_of_name s ≡ some t → event_type_name t ≡ s
unfolding event_type_of_name
event_type_name-event_type_of_name s t h =
    (str_eq_iff (event_type_name t) s).0
      (find-some (λ u. str_eq (event_type_name u) s) all_event_types t h)

-- The span kinds of OpenInference that stand for a type.
pub data KindOf : String → EventType → Type 0 where
  tool : KindOf "TOOL" tool_call
  llm : KindOf "LLM" model_call
  retriever : KindOf "RETRIEVER" retrieval
  guardrail : KindOf "GUARDRAIL" guardrail_decision
  agent : KindOf "AGENT" agent_start
  chain : KindOf "CHAIN" agent_start

abbrev HasNoType : String → Type 0
HasNoType kind = (t : EventType) → ¬ KindOf kind t

KindOf-missed :
    (kind : String) (t : EventType)
    → str_eq kind "TOOL" ≡ false
    → str_eq kind "LLM" ≡ false
    → str_eq kind "RETRIEVER" ≡ false
    → str_eq kind "GUARDRAIL" ≡ false
    → str_eq kind "AGENT" ≡ false
    → str_eq kind "CHAIN" ≡ false
    → ¬ KindOf kind t
KindOf-missed kind t a b c d e f tool = false-ne_true refl a
KindOf-missed kind t a b c d e f llm = false-ne_true refl b
KindOf-missed kind t a b c d e f retriever = false-ne_true refl c
KindOf-missed kind t a b c d e f guardrail = false-ne_true refl d
KindOf-missed kind t a b c d e f agent = false-ne_true refl e
KindOf-missed kind t a b c d e f chain = false-ne_true refl f

-- A kind has a type, or it has none and the other type is taken.
type_of_kind-cases :
    (kind : String) (other : EventType)
    → KindOf kind (type_of_kind kind other) ⊎ HasNoType kind × (type_of_kind kind other ≡ other)
type_of_kind-cases kind other = elim (Bool-cases (str_eq kind "TOOL")) [
  | inl a ↦ rw a (inl (is a tool))
  | inr na ↦ elim (Bool-cases (str_eq kind "LLM")) [
    | inl b ↦ rw (na, b) (inl (is b llm))
    | inr nb ↦ elim (Bool-cases (str_eq kind "RETRIEVER")) [
      | inl c ↦ rw (na, nb, c) (inl (is c retriever))
      | inr nc ↦ elim (Bool-cases (str_eq kind "GUARDRAIL")) [
        | inl d ↦ rw (na, nb, nc, d) (inl (is d guardrail))
        | inr nd ↦ elim (Bool-cases (str_eq kind "AGENT")) [
          | inl e ↦ rw (na, nb, nc, nd, e) (inl (is e agent))
          | inr ne ↦ elim (Bool-cases (str_eq kind "CHAIN")) [
            | inl f ↦ rw (na, nb, nc, nd, ne, f) (inl (is f chain))
            | inr nf ↦
                rw (na, nb, nc, nd, ne, nf)
                  (inr ((λ t. KindOf-missed kind t na nb nc nd ne nf), refl))
          ]
        ]
      ]
    ]
  ]
]
  where
    is : {name : String} {t : EventType} → str_eq kind name ≡ true → KindOf name t → KindOf kind t
    is {name = name} {t = t} h k = subst (λ n. KindOf n t) (sym ((str_eq_iff kind name).0 h)) k

module _ {num : Numbers} (span : TraceSpan num) where
  -- The span names the type: under the canonical key if it is there, or else under the legacy key.
  abbrev pub Declares : EventType → Type 0
  Declares t =
      IsText
        (or_else (lookup attr_event_type span.attributes)
          (lookup legacy_event_type span.attributes))
        (event_type_name t)

  abbrev pub RunsAgent : Type 0
  RunsAgent =
      (name : String) × IsText (lookup "gen_ai.operation.name" span.attributes) name
      × ((name ≡ "invoke_agent") ⊎ (name ≡ "invoke_workflow"))

  abbrev DeclaresNone : Type 0
  DeclaresNone = (t : EventType) → ¬ Declares t

  pub data Infers : EventType → Type 0 where
    declared : {t : EventType} → Declares t → Infers t
    by_kind : {t : EventType} → DeclaresNone → KindOf (kind_of span) t → Infers t
    by_operation : DeclaresNone → HasNoType (kind_of span) → RunsAgent → Infers agent_start
    unknown : DeclaresNone → HasNoType (kind_of span) → ¬ RunsAgent → Infers unclassified

  explicit_of-cases :
      ((t : EventType) × (explicit_of span ≡ some t) × Declares t)
      ⊎ (explicit_of span ≡ none) × DeclaresNone
  explicit_of-cases =
      let v =
        or_else (lookup attr_event_type span.attributes)
          (lookup legacy_event_type span.attributes) in
      elim (IsText-cases v) [
        | inl silent ↦ inr (
          ap (λ o. and_then o parse_event_type) (no_text v silent),
          λ t. silent (event_type_name t),
        )
        | inr (s, h) ↦ go s h (event_type_of_name s) refl
      ]
    where
      go :
          (s : String)
          → IsText
              (or_else
                (lookup attr_event_type span.attributes)
                (lookup legacy_event_type span.attributes))
              s
          → (o : Option EventType) → event_type_of_name s ≡ o
          → ((t : EventType) × (explicit_of span ≡ some t) × Declares t)
            ⊎ (explicit_of span ≡ none) × DeclaresNone
      go s h (some t) e = inl (
        t,
        rw h e,
        h ∙ ap (λ x. some (string x)) (sym (event_type_name-event_type_of_name s t e)),
      )
      go s h none e = inr (
        rw h e,
        λ t d. cc (event_type_of_name_again t, ap event_type_of_name (text_inj (sym h ∙ d)), e),
      )

  operation_type-Infers : DeclaresNone → HasNoType (kind_of span) → Infers (operation_type span)
  operation_type-Infers quiet other =
      let v = lookup "gen_ai.operation.name" span.attributes in
      elim (IsText-cases v) [
        | inl silent ↦ rw (no_text v silent) (unknown quiet other (λ r. silent r.0 r.1))
        | inr (s, h) ↦
            let e =
              or_iff (str_eq s "invoke_agent") (str_eq s "invoke_workflow")
                (str_eq_iff s "invoke_agent") (str_eq_iff s "invoke_workflow") in
            elim (Bool-cases (is_agent_operation s)) [
              | inl runs ↦ rw (text_of v s h, runs) (by_operation quiet other (s, h, e.0 runs))
              | inr idle ↦
                  rw (text_of v s h, idle)
                    (unknown quiet other (λ r.
                      false-ne_true
                        (e.1 (
                          subst (λ n. (n ≡ "invoke_agent") ⊎ (n ≡ "invoke_workflow"))
                            (text_inj (sym r.1 ∙ h)) r.2))
                        idle))
            ]
      ]

  -- No event type is made up: a span has the type that it names, if it names one; or else that of its
  -- span kind, letter case aside; or else it starts an agent, if its operation invokes an agent or a
  -- workflow; and in every other case it is unclassified.
  pub infer_event_type-Infers : Infers (infer_event_type span)
  unfolding infer_event_type
  infer_event_type-Infers = elim explicit_of-cases [
    | inl (t, e, d) ↦ rw (infer_event_type, e) (declared d)
    | inr (e, quiet) ↦ elim (type_of_kind-cases (kind_of span) (operation_type span)) [
      | inl k ↦ rw (infer_event_type, e) (by_kind quiet k)
      | inr (other, same) ↦ rw (infer_event_type, e, same) (operation_type-Infers quiet other)
    ]
  ]
