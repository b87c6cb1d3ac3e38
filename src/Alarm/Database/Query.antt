-- ===== src/Alarm/Database/Query.antt =====
-- Calls that read and write the database and may throw, and the transactions of the services
-- (`withTx` of services/availableTimeService.ts and taskStatusService.ts).
use mathlib.Core.Bool.{Bool}
use task_manger_project.Common.{if◌then◌else◌}
use task_manger_project.Alarm.Errors.{AppError}
use task_manger_project.Alarm.Database.{Db}

pub data Result {ℓ} (A : Type ℓ) : Type ℓ where
  ok : A → Result A
  err : AppError → Result A

-- What a call wrote before it threw is there, until the transaction takes it back.
abbrev pub Query : Type 0 → Type 0
Query A = Db → Result A × Db

module _ {A : Type 0} where
  abbrev pub pure : A → Query A
  pure a db = (ok a, db)

  abbrev pub throw : AppError → Query A
  throw e db = (err e, db)

  abbrev pub of_result : Result A → Query A
  of_result r db = (r, db)

  abbrev pub gets : (Db → A) → Query A
  gets f db = (ok (f db), db)

  abbrev pub committed : Db → Result A × Db → Result A × Db
  committed db (ok a, db') = (ok a, db')
  committed db (err e, db') = (err e, db)

  -- BEGIN, then COMMIT, or ROLLBACK when the body throws.
  abbrev pub with_tx : Query A → Query A
  with_tx body db = committed db (body db)

infixl 5 ◌>>=◌ ◌>>◌
abbrev pub ◌>>=◌ : {A B : Type 0} → Query A → (A → Query B) → Query B
◌>>=◌ m f db = let (r, db') = m db in elim r [ ok a ↦ f a db' | err e ↦ (err e, db') ]

abbrev pub ◌>>◌ : {B : Type 0} → Query (Unit {0}) → Query B → Query B
m >> k = m >>= λ _. k

abbrev pub throw_if : Bool → AppError → Query (Unit {0})
throw_if c e db = (if c then err e else ok tt, db)

abbrev pub update : (Db → Db) → Query (Unit {0})
update f db = (ok tt, f db)
