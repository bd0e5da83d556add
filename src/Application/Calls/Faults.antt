-- ===== src/Application/Calls/Faults.antt =====
-- What holds after a service whatever calls of it fail.
use featherlane_ai.Prelude.{◌≡◌, ◌≢◌, List, [], ◌∷◌, Result, ok, err}
use featherlane_ai.Json.{Numbers}
use featherlane_ai.Persistence.{Database}
use featherlane_ai.Application.Ports.{ApplicationError}
use featherlane_ai.Application.Calls.{
  Fault, fine, down, lost, World, Service, call, continue, ◌>>=◌,
}

module _ {num : Numbers} {A : Type 0} (Held : Database num → Type 0)
    (Done : A → Database num → Type 0) where
  -- A failure needs a fault, and leaves what is held; without faults to come none is left.
  abbrev pub Ends : List Fault → Result ApplicationError A × World num → Type 0
  Ends faults (ok a, w) = Done a w.database × (faults ≡ [] → w.faults ≡ [])
  Ends faults (err e, w) = Held w.database × (faults ≢ [])

  abbrev pub Triple : Service num A → Database num → Type 0
  Triple m db = (faults : List Fault) → Ends faults (m (record { database = db; faults = faults }))

  weaken-Ends :
      (fault : Fault) (faults : List Fault) (out : Result ApplicationError A × World num)
      → Ends faults out
      → Ends (fault ∷ faults) out
  weaken-Ends fault faults (ok a, w) (d, _) = (d, λ e. cc)
  weaken-Ends fault faults (err e, w) (h, _) = (h, λ e. cc)

module _ {num : Numbers} {A B : Type 0} (Held : Database num → Type 0)
    (Done : B → Database num → Type 0) where
  -- A call whose effect is known, and what follows it.
  pub call-Triple :
      (op : Database num → Result ApplicationError A × Database num) (k : A → Service num B)
      (db after : Database num) (a : A)
      → op db ≡ (ok a, after)
      → Held db
      → Held after
      → Triple Held Done (k a) after
      → Triple Held Done (call op >>= k) db
  unfolding call
  call-Triple op k db after a e h h' rest [] = rw e (rest [])
  call-Triple op k db after a e h h' rest (fine ∷ faults) =
      rw e (weaken-Ends Held Done fine faults _ (rest faults))
  call-Triple op k db after a e h h' rest (down x ∷ faults) = (h, λ q. cc)
  call-Triple op k db after a e h h' rest (lost x ∷ faults) = rw e (h', λ q. cc)

  chain-Ends :
      (Mid : A → Database num → Type 0) (k : A → Service num B) (faults : List Fault)
      (out : Result ApplicationError A × World num)
      → Ends Held Mid faults out
      → ((a : A) (db : Database num) → Mid a db → Triple Held Done (k a) db)
      → Ends Held Done faults (continue k out)
  chain-Ends Mid k faults (err e, w) h rest = h
  chain-Ends Mid k faults (ok a, w) (m, clear) rest = passed (k a w) (rest a w.database m w.faults)
    where
      passed :
          (last : Result ApplicationError B × World num)
          → Ends Held Done w.faults last
          → Ends Held Done faults last
      passed (ok b, v) (d, f) = (d, λ e. f (clear e))
      passed (err e, v) (h, f) = (h, λ q. f (clear q))

  -- A service, and what follows it.
  pub chain-Triple :
      (Mid : A → Database num → Type 0) (m : Service num A) (k : A → Service num B)
      (db : Database num)
      → Triple Held Mid m db
      → ((a : A) (db : Database num) → Mid a db → Triple Held Done (k a) db)
      → Triple Held Done (m >>= k) db
  chain-Triple Mid m k db first rest faults =
      chain-Ends Mid k faults (m (record { database = db; faults = faults })) (first faults) rest

module _ {num : Numbers} {A : Type 0} {H K : Database num → Type 0}
    {D E : A → Database num → Type 0} (held : (db : Database num) → H db → K db)
    (done : (a : A) (db : Database num) → D a db → E a db) where
  widen-Ends :
      (faults : List Fault) (out : Result ApplicationError A × World num)
      → Ends H D faults out
      → Ends K E faults out
  widen-Ends faults (ok a, w) (d, f) = (done a w.database d, f)
  widen-Ends faults (err e, w) (h, f) = (held w.database h, f)

  -- What is held, and what is done, may be less.
  pub widen-Triple : (m : Service num A) (db : Database num) → Triple H D m db → Triple K E m db
  widen-Triple m db t faults =
      widen-Ends faults (m (record { database = db; faults = faults })) (t faults)
