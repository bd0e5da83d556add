-- ===== src/Telemetry/Finalization/Laws.antt =====
-- When the evidence of a run is insufficient.
use featherlane_ai.Prelude.{
  ◌≡◌, refl, inl, inr, ◌⊎◌, ◌↔◌, Bool, true, false, not, Option, List, [], ◌∷◌, ◌++◌, map, String,
  str_eq, str_eq_iff, Any, Any-map, Any-append_right, Any-sort_dedup, any, any_iff, keep, is_empty,
  is_some_and, Bool-cases, false-ne_true, and-eq_true,
}
use featherlane_ai.Json.{Numbers, bool_eq}
use featherlane_ai.Domain.Ids.{EventId}
use featherlane_ai.Domain.Events.{CompletionReason, NormalizedEvent, TraceDefect, insufficient}
use featherlane_ai.Telemetry.Quality.{
  quality_from_defects, trace_level_defects, all_event_defects, assess_trace_quality, is_root,
  is_final,
}
use featherlane_ai.Telemetry.Quality.Laws.{
  blocks, loop_harmless, IsRoot, IsFinal, IsRoot-iff, IsFinal-iff,
}
use featherlane_ai.Telemetry.Finalization.{
  is_terminal_reason, is_forced_reason, without_terminal_defect, with_timeout_defect, defect_lt,
  defect_eq, final_defects,
}

abbrev pub Blocking : TraceDefect → Type 0
Blocking d = d.blocking ≡ true

-- A defect that blocks, where a reason that stands for a terminal event forgives its absence.
abbrev pub Counts : Option CompletionReason → TraceDefect → Type 0
Counts reason d =
    Blocking d × ((is_some_and reason is_terminal_reason ≡ false) ⊎ ¬ (d.code ≡ "missing_terminal"))

pub Any-append_iff :
    {A : Type 0} (P : A → Type 0) (xs ys : List A) → Any P (xs ++ ys) ↔ (Any P xs ⊎ Any P ys)
Any-append_iff P [] ys = (λ h. inr h, λ h. elim h [ inl e ↦ absurd e | inr k ↦ k ])
Any-append_iff P (x ∷ xs) ys =
    let (f, g) = Any-append_iff P xs ys in
    (
      λ h. elim h [
        | inl p ↦ inl (inl p)
        | inr q ↦ elim (f q) [ inl a ↦ inl (inr a) | inr b ↦ inr b ]
      ],
      λ h. elim h [ inl (inl p) ↦ inl p | inl (inr a) ↦ inr (g (inl a)) | inr b ↦ inr (g (inr b)) ],
    )

Any-keep_iff :
    {A : Type 0} (P : A → Type 0) (p : A → Bool) (xs : List A)
    → Any P (keep p xs) ↔ Any (λ a. P a × (p a ≡ true)) xs
Any-keep_iff P p [] = (λ h. h, λ h. h)
Any-keep_iff P p (x ∷ xs) =
    let (f, g) = Any-keep_iff P p xs in
    elim (Bool-cases (p x)) [
      | inl hit ↦ rw hit (
        λ h. elim h [ inl q ↦ inl (q, refl) | inr r ↦ inr (f r) ],
        λ h. elim h [ inl q ↦ inl q.0 | inr r ↦ inr (g r) ],
      )
      | inr miss ↦ rw miss (λ h. inr (f h), λ h. elim h [ inl q ↦ cc q.1 | inr r ↦ g r ])
    ]

bool_eq-eq : (a b : Bool) → bool_eq a b ≡ true → a ≡ b
bool_eq-eq true true h = refl
bool_eq-eq true false h = cc
bool_eq-eq false true h = cc
bool_eq-eq false false h = refl

defect_eq-eq : (a b : TraceDefect) → defect_eq a b ≡ true → a ≡ b
defect_eq-eq a b h =
    let (c, r) = and-eq_true (str_eq a.code b.code) _ h in
    let (m, k) = and-eq_true (str_eq a.message b.message) _ r in
    let p = (str_eq_iff a.code b.code).0 c in
    let q = (str_eq_iff a.message b.message).0 m in
    let s = bool_eq-eq a.blocking b.blocking k in
    λ i. record { code = p i; message = q i; blocking = s i }

without_terminal-Any :
    (reason : Option CompletionReason) (ds : List TraceDefect)
    → Any Blocking (without_terminal_defect reason ds) ↔ Any (Counts reason) ds
without_terminal-Any reason ds = elim (Bool-cases (is_some_and reason is_terminal_reason)) [
  | inr open' ↦ rw open' (λ h. Any-map (λ d b. (b, inl open')) ds h, λ h. Any-map (λ d b. b.0) ds h)
  | inl ended ↦
      let (f, g) = Any-keep_iff Blocking (λ d. not (str_eq d.code "missing_terminal")) ds in
      rw ended (
        λ h. Any-map (λ d b. (b.0, inr (λ e. other d b.1 e))) ds (f h),
        λ h. g (Any-map (λ d b. (b.0, kept d ended b.1)) ds h),
      )
]
  where
    other :
        (d : TraceDefect)
        → not (str_eq d.code "missing_terminal") ≡ true
        → ¬ (d.code ≡ "missing_terminal")
    other d h e = let k = (str_eq_iff d.code "missing_terminal").1 e in cc

    kept :
        (d : TraceDefect)
        → is_some_and reason is_terminal_reason ≡ true
        → (is_some_and reason is_terminal_reason ≡ false) ⊎ ¬ (d.code ≡ "missing_terminal")
        → not (str_eq d.code "missing_terminal") ≡ true
    kept d e (inl h) = false-ne_true e h
    kept d _ (inr h) = elim (Bool-cases (str_eq d.code "missing_terminal")) [
      | inl e ↦ absurd (h ((str_eq_iff d.code "missing_terminal").0 e))
      | inr e ↦ rw e refl
    ]

with_timeout-Any :
    (reason : Option CompletionReason) (ds : List TraceDefect)
    → Any Blocking (with_timeout_defect reason ds)
      ↔ (Any Blocking ds ⊎ (is_some_and reason is_forced_reason ≡ true))
with_timeout-Any reason ds = elim (Bool-cases (is_some_and reason is_forced_reason)) [
  | inr free ↦ rw free (λ h. inl h, λ h. elim h [ inl k ↦ k | inr e ↦ cc ])
  | inl forced ↦ rw forced (λ _. inr refl, λ _. Any-append_right Blocking ds _ (inl refl))
]

-- What blocks in the final defects blocked before, or the run was forced to end.
pub final_defects-Any :
    (reason : Option CompletionReason) (ds : List TraceDefect)
    → Any Blocking (final_defects reason ds)
      ↔ (Any (Counts reason) ds ⊎ (is_some_and reason is_forced_reason ≡ true))
unfolding final_defects
final_defects-Any reason ds =
    let (f, g) =
      Any-sort_dedup defect_lt defect_eq Blocking defect_eq-eq
        (with_timeout_defect reason (without_terminal_defect reason ds)) in
    let (u, v) = with_timeout-Any reason (without_terminal_defect reason ds) in
    let (a, b) = without_terminal-Any reason ds in
    (
      λ h. elim (u (f h)) [ inl k ↦ inl (a k) | inr e ↦ inr e ],
      λ h. g (v (elim h [ inl k ↦ inl (b k) | inr e ↦ inr e ])),
    )

pub quality-Blocking :
    (ds : List TraceDefect) → (quality_from_defects ds ≡ insufficient) ↔ Any Blocking ds
unfolding quality_from_defects
quality-Blocking ds =
    let (f, g) =
      any_iff (λ (d : TraceDefect). d.blocking) {P = Blocking} (λ d. (λ h. h, λ h. h)) ds in
    elim (Bool-cases (any (λ d. d.blocking) ds)) [
      | inl some' ↦ rw some' (λ _. f some', λ _. refl)
      | inr none' ↦ rw none' (
        λ h. elim (Bool-cases (is_empty ds)) [ inl e ↦ cc (rw e at h) | inr e ↦ cc (rw e at h) ],
        λ h. false-ne_true (g h) none',
      )
    ]

-- The defects of the trace as a whole that count.
module _ (reason : Option CompletionReason) where
  abbrev pub IsOpen : Type 0
  IsOpen = is_some_and reason is_terminal_reason ≡ false

  level-Any :
      (a r f : Bool)
      → Any (Counts reason) (trace_level_defects a r f)
        ↔ ((a ≡ true) ⊎ (r ≡ false) ⊎ (f ≡ false) × IsOpen)
  unfolding trace_level_defects
  level-Any true r f = (λ _. inl refl, λ _. inl (refl, inr (λ e. cc)))
  level-Any false false f = (λ _. inr (inl refl), λ _. inl (refl, inr (λ e. cc)))
  level-Any false true true =
      (λ h. absurd h, λ h. elim h [ inl e ↦ cc | inr (inl e) ↦ cc | inr (inr e) ↦ cc e.0 ])
  level-Any false true false = (
    λ h. elim h [
      | inl c ↦ inr (inr (refl, elim c.1 [ inl n ↦ n | inr k ↦ absurd (k refl) ]))
      | inr z ↦ absurd z
    ],
    λ h. elim h [ inl e ↦ cc | inr (inl e) ↦ cc | inr (inr e) ↦ inl (refl, inl e.1) ],
  )

  module _ {num : Numbers} (display : EventId → String) where
    events-harmless :
        (ids : List EventId) (es : List (NormalizedEvent num))
        → ¬ Any (Counts reason) (all_event_defects display ids es)
    events-harmless ids es h =
        false-ne_true
          ((any_iff blocks {P = Blocking} (λ d. (λ e. e, λ e. e))
              (all_event_defects display ids es)).1
            (Any-map (λ d b. b.0) (all_event_defects display ids es) h))
          (loop_harmless display ids es)

    abbrev pub Unfinished : List (NormalizedEvent num) → Type 0
    Unfinished es = ¬ Any IsRoot es ⊎ ¬ Any IsFinal es × IsOpen

    pub assess-Any :
        (es : List (NormalizedEvent num))
        → Any (Counts reason) (assess_trace_quality display es).1 ↔ Unfinished es
    unfolding assess_trace_quality
    assess-Any es =
        let ids = map (λ (e : NormalizedEvent num). e.id) es in
        let (f, g) =
          Any-append_iff (Counts reason)
            (trace_level_defects (is_empty es) (any (is_root display) es)
              (any (is_final display) es))
            (all_event_defects display ids es) in
        let (u, v) =
          level-Any (is_empty es) (any (is_root display) es) (any (is_final display) es) in
        let root = any_iff (is_root display) IsRoot-iff es in
        let final = any_iff (is_final display) IsFinal-iff es in
        (
          λ h. elim (f h) [
            | inr e ↦ absurd (events-harmless ids es e)
            | inl l ↦ elim (u l) [
              | inl empty ↦ inl (no_root es empty)
              | inr (inl r) ↦ inl (λ k. false-ne_true (root.1 k) r)
              | inr (inr (n, o)) ↦ inr ((λ k. false-ne_true (final.1 k) n), o)
            ]
          ],
          λ h. g (
              inl (
                v (elim h [
                  | inl r ↦ inr (
                      inl (elim (Bool-cases (any (is_root display) es)) [
                        | inl t ↦ absurd (r (root.0 t))
                        | inr n ↦ n
                      ]))
                  | inr (r, o) ↦ inr (
                      inr (
                        (elim (Bool-cases (any (is_final display) es)) [
                          | inl t ↦ absurd (r (final.0 t))
                          | inr n ↦ n
                        ]),
                        o,
                      ))
                ]))),
        )
      where
        no_root : (es : List (NormalizedEvent num)) → is_empty es ≡ true → ¬ Any IsRoot es
        no_root [] h = λ k. k
        no_root (e ∷ es) h = cc
