-- ===== src/Application/Calls/Attempts.antt =====
-- A service that is called again until its calls do not fail.
use featherlane_ai.Prelude.{ap, ◌∙◌, ◌≡◌, refl, List, [], ◌∷◌, All, Result, ok, err}
use featherlane_ai.Json.{Numbers}
use featherlane_ai.Persistence.{Database}
use featherlane_ai.Application.Ports.{ApplicationError}
use featherlane_ai.Application.Calls.{Fault, World, Service}
use featherlane_ai.Application.Calls.Faults.{Ends, Triple}

-- The arguments of an attempt, and which of its calls fail.
abbrev pub Attempt : Type 0 → Type 0
Attempt I = I × List Fault

-- Where every argument is valid.
pub each_valid : {I : Type 0} (tries : List (Attempt I)) → All (λ _. Unit {0}) tries
each_valid [] = tt
each_valid (_ ∷ tries) = (tt, each_valid tries)

module _ {num : Numbers} {A I : Type 0} (service : I → Service num A) where
  abbrev pub attempt : Attempt I → Database num → Result ApplicationError A × World num
  attempt (i, faults) db = service i (record { database = db; faults = faults })

  -- The database after all of the attempts.
  unfoldable pub attempts : List (Attempt I) → Database num → Database num
  attempts [] db = db
  attempts (a ∷ rest) db = attempts rest (attempt a db).1.database

  -- The attempt gives an answer, with what is done.
  abbrev pub Succeeds : (A → Database num → Type 0) → Result ApplicationError A × World num → Type 0
  Succeeds Done out = (a : A) × (out.0 ≡ ok a) × Done a out.1.database

  same_after :
      (db : Database num) (faults : List Fault) (out : Result ApplicationError A × World num)
      → Ends (λ d. d ≡ db) (λ _ d. d ≡ db) faults out
      → out.1.database ≡ db
  same_after db faults (ok a, w) (h, _) = h
  same_after db faults (err e, w) (h, _) = h

  -- A service that leaves the tables as they are does so however often it is called.
  pub attempts-same :
      (db : Database num)
      → ((i : I) → Triple (λ d. d ≡ db) (λ _ d. d ≡ db) (service i) db)
      → (later : List (Attempt I)) → attempts later db ≡ db
  unfolding attempts
  attempts-same db keeps [] = refl
  attempts-same db keeps ((i, faults) ∷ later) =
      ap (attempts later) (same_after db faults (attempt (i, faults) db) (keeps i faults))
      ∙ attempts-same db keeps later

  module _ (Valid : I → Type 0) (Held : Database num → Type 0) (Done : A → Database num → Type 0)
      (kept : (a : A) (db : Database num) → Done a db → Held db)
      (holds : (i : I) (db : Database num)
        → Valid i
        → Held db
        → Triple Held Done (service i) db) where
    Held-after :
        (faults : List Fault) (out : Result ApplicationError A × World num)
        → Ends Held Done faults out
        → Held out.1.database
    Held-after faults (ok a, w) (d, _) = kept a w.database d
    Held-after faults (err e, w) (h, _) = h

    pub attempts-Held :
        (tries : List (Attempt I)) (db : Database num)
        → All (λ a. Valid a.0) tries
        → Held db
        → Held (attempts tries db)
    unfolding attempts
    attempts-Held [] db v h = h
    attempts-Held ((i, faults) ∷ tries) db (v, vs) h =
        attempts-Held tries _ vs
          (Held-after faults (attempt (i, faults) db) (holds i db v h faults))

    answered :
        (out : Result ApplicationError A × World num) → Ends Held Done [] out → Succeeds Done out
    answered (ok a, w) (d, _) = (a, refl, d)
    answered (err e, w) (_, no_fault) = absurd (no_fault refl)

    -- However many attempts fail, one whose calls do not fail succeeds.
    pub attempt-Succeeds :
        (last : I) (earlier : List (Attempt I)) (db : Database num)
        → All (λ a. Valid a.0) earlier
        → Valid last
        → Held db
        → Succeeds Done (attempt (last, []) (attempts earlier db))
    attempt-Succeeds last earlier db vs v h =
        answered (attempt (last, []) (attempts earlier db))
          (holds last (attempts earlier db) v (attempts-Held earlier db vs h) [])
