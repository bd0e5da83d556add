-- ===== src/Telemetry/Quality.antt =====
-- crates/governance-telemetry/src/lib.rs: `assess_trace_quality`.
pub mod Laws
use Prim.Native.String.{◌++◌ as str_append}
use featherlane_ai.Prelude.{
  Bool, true, false, not, List, [], ◌∷◌, ◌++◌, map, String, same, any, ltb, ◌==◌, is_empty, is_none,
  is_some_and, if◌then◌else◌,
}
use featherlane_ai.Json.{Numbers}
use featherlane_ai.Domain.Ids.{EventId}
use featherlane_ai.Domain.Events.{
  EventType-discrete, final_output, NormalizedEvent, TraceQualityStatus, complete, degraded,
  insufficient, TraceDefect,
}

abbrev pub defect : String → String → Bool → TraceDefect
defect code message blocking = record { code = code; message = message; blocking = blocking }

unfoldable pub quality_from_defects : List TraceDefect → TraceQualityStatus
quality_from_defects defects =
    if any (λ d. d.blocking) defects
    then insufficient
    else if is_empty defects
    then complete
    else degraded

-- The three `if`s on the whole trace.
unfoldable pub trace_level_defects : Bool → Bool → Bool → List TraceDefect
trace_level_defects empty rooted terminated =
    (if empty then defect "empty_trace" "No trace events were received" true ∷ [] else [])
    ++ ((if rooted then [] else defect "missing_root" "No root event was observed" true ∷ [])
        ++ (if terminated
            then []
            else defect "missing_terminal" "No final output or terminal workflow event was observed"
                true
              ∷ []))

-- `display` prints an event id.
module _ {num : Numbers} (display : EventId → String) where
  abbrev pub is_orphan : List EventId → NormalizedEvent num → Bool
  is_orphan ids event =
      is_some_and event.parent_event_id (λ parent. not (any (λ id. id == parent) ids))

  abbrev pub is_negative : NormalizedEvent num → Bool
  is_negative event = is_some_and event.ended_at (λ ended_at. ltb ended_at event.started_at)

  unfoldable pub event_defects : List EventId → NormalizedEvent num → List TraceDefect
  event_defects ids event =
      (if is_orphan ids event
        then defect "orphan_parent"
            (str_append "Event " (str_append (display event.id) " references an unknown parent"))
            false
          ∷ []
        else [])
      ++ (if is_negative event
          then defect "negative_duration"
              (str_append "Event " (str_append (display event.id) " ends before it starts")) false
            ∷ []
          else [])

  -- The loop.
  unfoldable pub all_event_defects : List EventId → List (NormalizedEvent num) → List TraceDefect
  unfolding event_defects
  all_event_defects ids [] = []
  all_event_defects ids (event ∷ events) = event_defects ids event ++ all_event_defects ids events

  abbrev pub is_root : NormalizedEvent num → Bool
  is_root event = is_none event.parent_event_id

  abbrev pub is_final : NormalizedEvent num → Bool
  is_final event = same EventType-discrete event.event_type final_output

  unfoldable pub assess_trace_quality :
      List (NormalizedEvent num) → TraceQualityStatus × List TraceDefect
  unfolding quality_from_defects trace_level_defects all_event_defects
  assess_trace_quality events =
      let defects =
        trace_level_defects (is_empty events) (any is_root events) (any is_final events)
        ++ all_event_defects (map (λ event. event.id) events) events in
      (quality_from_defects defects, defects)
