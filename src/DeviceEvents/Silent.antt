-- ===== src/DeviceEvents/Silent.antt =====
-- The steps of `reconcile_device_event` of app/services/production.py that only read.
use coffee_cloud_mvp.Base.{
  ◌≡◌, refl, Bool, true, false, Option, none, some, Json, Decimal, key_of, get_key,
}
use coffee_cloud_mvp.ProductionState.Jobs.{JobEvent}
use coffee_cloud_mvp.Store.{
  Db, Host, Error, raise_if, Ensures, done, raised, Ensures-bind, Ensures-guard, Ensures-or_raise,
  or_raise-Ensures,
}
use coffee_cloud_mvp.DeviceEvents.Metrics.{
  device_revision_of, validate_metrics, device_progress, revision_from, step_from,
}
use coffee_cloud_mvp.DeviceEvents.Failures.{failure_of, complete_failure}
use coffee_cloud_mvp.DeviceEvents.Apply.{to_column}

-- The tables are the same.
abbrev pub Silent : {A : Type 0} → Db → A → Db → Type 0
Silent db a db' = db' ≡ db

raise_if-Silent : (test : Bool) (e : Error) (db : Db) → Ensures (Silent db) (raise_if test e db)
unfolding raise_if
raise_if-Silent true e db = raised
raise_if-Silent false e db = done refl

revision_from-Silent : (value : Json) (db : Db) → Ensures (Silent db) (revision_from value db)
revision_from-Silent Json.null db = done refl
revision_from-Silent (Json.number n) db = done refl
revision_from-Silent _ db = raised

pub device_revision_of-Silent :
    (payload : Json) (db : Db) → Ensures (Silent db) (device_revision_of payload db)
unfolding device_revision_of
device_revision_of-Silent payload db = revision_from-Silent (get_key "taskRevision" payload) db

pub validate_metrics-Silent :
    (payload : Json) (db : Db) → Ensures (Silent db) (validate_metrics payload db)
unfolding validate_metrics
validate_metrics-Silent payload db =
    Ensures-guard _ _ _ db
      λ e1. Ensures-guard _ _ _ db λ e2. Ensures-guard _ _ _ db λ e3. raise_if-Silent _ _ db

pub step_from-Silent :
    (value : Option Json) (default : Decimal) (db : Db)
    → Ensures (Silent db) (step_from value default db)
step_from-Silent none default db = done refl
step_from-Silent (some value) default db = or_raise-Ensures _ _ db λ d e. refl

pub device_progress-Silent :
    (payload : Json) (overall step : Decimal) (db : Db)
    → Ensures (Silent db) (device_progress payload overall step db)
unfolding device_progress
device_progress-Silent payload overall step db =
    Ensures-bind _ _ db (step_from-Silent (key_of "stepProgress" payload) _ db)
      λ s db' same. done same

complete_failure-Silent :
    (host : Host) (event : JobEvent) (body failure : Json) (db : Db)
    → Ensures (Silent db) (complete_failure host event body failure db)
unfolding complete_failure
complete_failure-Silent host event body failure db = Ensures-or_raise _ _ _ db λ m e. done refl

pub failure_of-Silent :
    (host : Host) (event : JobEvent) (body payload : Json) (db : Db)
    → Ensures (Silent db) (failure_of host event body payload db)
unfolding failure_of
failure_of-Silent host JobEvent.failed body payload db =
    complete_failure-Silent host JobEvent.failed body _ db
failure_of-Silent host JobEvent.rejected body payload db =
    complete_failure-Silent host JobEvent.rejected body _ db
failure_of-Silent host _ body payload db = done refl

pub to_column-Silent :
    (host : Host) (value : Json) (db : Db) → Ensures (Silent db) (to_column host value db)
to_column-Silent host Json.null db = done refl
to_column-Silent host _ db = Ensures-or_raise _ _ _ db λ t e. done refl
