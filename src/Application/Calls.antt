-- ===== src/Application/Calls.antt =====
-- The calls that the services of crates/governance-application make to the database, each of which
-- may fail: before it takes effect, or after.
pub mod Faults
pub mod Attempts
use featherlane_ai.Prelude.{Option, none, some, List, [], ◌∷◌, String, Result, ok, err}
use featherlane_ai.Json.{Numbers}
use featherlane_ai.Domain.Events.{
  DomainError, evidence_incomplete, invalid_transition, unapproved_policy_pack, invalid_value,
}
use Prim.Native.String.{◌++◌ as str_append}
use featherlane_ai.Domain.Run.{EvaluationRun, Outcome}
use featherlane_ai.Persistence.{Database}
use featherlane_ai.Application.Ports.{ApplicationError, not_found, conflict}

-- What becomes of a call: `down` fails it without effect, `lost` loses the answer.
pub data Fault : Type 0 where
  fine : Fault
  down lost : ApplicationError → Fault

-- The database, and the faults of the calls to come, after which none fails.
pub record World (num : Numbers) : Type 0 where
  pub database : Database num
  pub faults : List Fault

abbrev pub Service : Numbers → Type 0 → Type 0
Service num A = World num → Result ApplicationError A × World num

module _ {num : Numbers} {A : Type 0} where
  abbrev pub answer :
      Fault
      → Result ApplicationError A × Database num
      → Database num
      → Result ApplicationError A × Database num
  answer fine done db = done
  answer (down e) done db = (err e, db)
  answer (lost e) done db = (err e, done.1)

  abbrev pub call_with :
      (Database num → Result ApplicationError A × Database num)
      → Database num
      → List Fault
      → Result ApplicationError A × World num
  call_with op db [] = ((op db).0, record { database = (op db).1; faults = [] })
  call_with op db (fault ∷ faults) =
      let (result, after) = answer fault (op db) db in
      (result, record { database = after; faults = faults })

  unfoldable pub call : (Database num → Result ApplicationError A × Database num) → Service num A
  call op w = call_with op w.database w.faults

  abbrev pub pure : A → Service num A
  pure a w = (ok a, w)

  abbrev pub fail : ApplicationError → Service num A
  fail e w = (err e, w)

  -- `ok_or_else(|| NotFound(..))?`.
  abbrev pub found : String → Option A → Service num A
  found what none = fail (not_found what)
  found what (some a) = pure a

module _ {num : Numbers} {A B : Type 0} where
  abbrev pub continue :
      (A → Service num B)
      → Result ApplicationError A × World num
      → Result ApplicationError B × World num
  continue k (ok a, w) = k a w
  continue k (err e, w) = (err e, w)

  infixl 5 ◌>>=◌
  abbrev pub ◌>>=◌ : Service num A → (A → Service num B) → Service num B
  (m >>= k) w = continue k (m w)

-- The `Display` of an error, as thiserror derives it.
abbrev pub display_domain_error : DomainError → String
display_domain_error (evidence_incomplete what) = str_append "evidence is incomplete: " what
display_domain_error (invalid_transition what) = str_append "invalid lifecycle transition: " what
display_domain_error unapproved_policy_pack = "policy pack must be approved before publishing"
display_domain_error (invalid_value what) = str_append "invalid domain value: " what

-- `map_err(|error| Conflict(error.to_string()))?` of a method of the run.
abbrev pub settled_run : {num : Numbers} → Outcome → Service num EvaluationRun
settled_run (Outcome.ok run) = pure run
settled_run (Outcome.err e run) = fail (conflict (display_domain_error e))
