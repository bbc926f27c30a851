-- ===== src/DeviceEvents/Replays.antt =====
-- Events that arrive twice or out of order at `reconcile_device_event` of
-- app/services/production.py, and the range of the progress that an event reports.
use coffee_cloud_mvp.Base.{
  ℕ, ◌≡◌, refl, Bool, true, false, Option, Json, Decimal, inl, inr, ◌⊎◌, Bool-cases, not, ◌||◌,
  get_key, key_of, arith, ◌*◌, ◌^◌, leb, places, le_places, le_decimal, min_decimal, zero_decimal,
  one_decimal,
}
use coffee_cloud_mvp.ProductionState.Jobs.{JobEvent, is_older, is_same, decide_job_event}
use coffee_cloud_mvp.ProductionState.Lockstep.{decide-stale}
use coffee_cloud_mvp.Store.{
  Db, Order, Job, Command, Host, Action, Returns, returned, Ensures, done, Ensures-bind,
}
use coffee_cloud_mvp.DeviceEvents.Replies.{EventType, EventReply}
use coffee_cloud_mvp.DeviceEvents.Metrics.{attempt_of, device_progress, clamp}
use coffee_cloud_mvp.DeviceEvents.Silent.{step_from-Silent}
use coffee_cloud_mvp.DeviceEvents.Apply.{task_event}
use coffee_cloud_mvp.DeviceEvents.Reconcile.{step_event, is_final, is_earlier_attempt, locked_event}

-- Only an answer.
abbrev Unwritten : Db → EventReply → Db → Type 0
Unwritten db r db' = db' ≡ db

refused : (a b : Bool) → a ≡ false → (not a || b) ≡ true
refused a b e = ground arith

stale_last : (a b c d : Bool) → (c ≡ true) ⊎ (d ≡ true) → (a || b || c || d) ≡ true
stale_last a b c d h = ground arith

module _ (host : Host) (terminal : ℕ) (body payload : Json) (revision : Option ℕ) (order : Order)
    (job : Job) (command : Command) (db : Db)
    (stale : (is_older revision job.last_device_revision ≡ true)
      ⊎ (is_same revision job.last_device_revision ≡ true)) where
  task_event-Unwritten :
      (event : JobEvent)
      → Returns
          (Unwritten db)
          (task_event host terminal body payload revision event order job command db)
  unfolding task_event
  task_event-Unwritten event =
      let decision = decide_job_event job.status event revision job.last_device_revision in
      rw
        (refused decision.allowed decision.duplicate
          (decide-stale job.status event revision job.last_device_revision stale))
        (returned refl)

  step_event-Unwritten :
      Returns (Unwritten db) (step_event host body payload revision order job command db)
  unfolding step_event
  step_event-Unwritten = rw (stale_last _ _ _ _ stale) (returned refl)

  -- An event whose revision is at or below the last one of its job, under the row locks of the
  -- job, its order and its command, is answered and writes nothing, whatever its type.
  pub locked_event-stale :
      (type : EventType)
      → Returns
          (λ r db'. db' ≡ db)
          (locked_event host terminal body payload revision type order job command db)
  unfolding locked_event
  locked_event-stale type =
      elim (Bool-cases
        (is_earlier_attempt (attempt_of (get_key "attempt" payload)) job.execution_attempt)) [
          | inl older ↦ rw older (returned refl)
          | inr current ↦ elim (Bool-cases (is_final order job command)) [
            | inl ended ↦ rw (current, ended) (returned refl)
            | inr open' ↦ rw (current, open') (by_type type)
          ]
        ]
    where
      by_type :
          (t : EventType)
          → Returns (Unwritten db) (
              (elim t as (λ x. Action EventReply) [
                | EventType.task event ↦
                    task_event host terminal body payload revision event order job command
                | _ ↦ step_event host body payload revision order job command
              ])
                db)
      by_type (EventType.task event) = task_event-Unwritten event
      by_type _ = step_event-Unwritten

leb-total : (x y : ℕ) → leb x y ≡ false → leb y x ≡ true
leb-total x y e = ground arith

le_places-total :
    (s : Bool) (c e : ℕ) (t : Bool) (d f : ℕ)
    → le_places (s, c, e) (t, d, f) ≡ false
    → le_places (t, d, f) (s, c, e) ≡ true
le_places-total false c e false d f h = leb-total (c * 10 ^ f) (d * 10 ^ e) h
le_places-total true c e true d f h = leb-total (d * 10 ^ e) (c * 10 ^ f) h
le_places-total true c e false d f h = cc
le_places-total false c e true d f h = refl

le_decimal-total : (a b : Decimal) → le_decimal a b ≡ false → le_decimal b a ≡ true
unfolding le_decimal
le_decimal-total a b e =
    let (s, c, p) = places a in let (t, d, q) = places b in le_places-total s c p t d q e

units :
    (le_decimal zero_decimal zero_decimal ≡ true)
    × (le_decimal zero_decimal one_decimal ≡ true)
    × (le_decimal one_decimal one_decimal ≡ true)
unfolding le_decimal
units = (refl, refl, refl)

-- Between 0 and 1.
abbrev pub InUnit : Decimal → Type 0
InUnit d = (le_decimal zero_decimal d ≡ true) × (le_decimal d one_decimal ≡ true)

min_one : (d : Decimal) → le_decimal (min_decimal one_decimal d) one_decimal ≡ true
min_one d = elim (Bool-cases (le_decimal one_decimal d)) [
  | inl big ↦ rw big units.2
  | inr small ↦ rw small (le_decimal-total one_decimal d small)
]

clamp-InUnit : (d : Decimal) → InUnit (clamp d)
clamp-InUnit d =
    let m = min_decimal one_decimal d in
    elim (Bool-cases (le_decimal m zero_decimal)) [
      | inl below ↦ rw below (units.0, units.1)
      | inr above ↦ rw above (le_decimal-total m zero_decimal above, min_one d)
    ]

-- If the progress of an event can be read, nothing is written, and the overall and the step
-- progress lie between 0 and 1, whatever the event reports and whatever the job had.
pub device_progress-InUnit :
    (payload : Json) (overall step : Decimal) (db : Db)
    → Ensures
        (λ p db'. (db' ≡ db) × InUnit p.0 × InUnit p.1)
        (device_progress payload overall step db)
unfolding device_progress
device_progress-InUnit payload overall step db =
    Ensures-bind _ _ db (step_from-Silent (key_of "stepProgress" payload) _ db)
      λ s db' same. done (same, clamp-InUnit _, clamp-InUnit s)
