-- ===== src/DeviceEvents/Metrics.antt =====
-- app/services/production.py: the checks on the payload of an event, and `device_progress` of
-- app/order_logic.py.
use coffee_cloud_mvp.Base.{
  ℕ, Bool, true, false, not, ◌&&◌, ◌||◌, Option, none, some, List, [], ◌∷◌, String, Json, Decimal,
  if◌then◌else◌, ◌==◌, string_eq, nat_eq, leb, any, get_key, key_of, is_truthy, is_object,
  is_text_or_null, is_null, is_finite, le_zero, is_zero, max_decimal, min_decimal, zero_decimal,
  one_decimal, empty_object,
}
use coffee_cloud_mvp.Store.{Action, ◌>>=◌, ◌>>◌, pure, raise, raise_if, or_raise, http, exception}

-- `body.get("payload")` where it is an object, else `{}`
abbrev pub event_payload_of : Json → Json
event_payload_of body =
    let nested = get_key "payload" body in if is_object nested then nested else empty_object

abbrev as_task : Json → Option String
as_task (Json.text s) = if s == "" then none else some s
as_task _ = none

-- `event_task_id`
abbrev pub event_task_id : Json → Option String
event_task_id body =
    let direct = get_key "taskId" body in
    if is_truthy direct then as_task direct else as_task (get_key "taskId" (event_payload_of body))

abbrev pub revision_from : Json → Action (Option ℕ)
revision_from Json.null = pure none
revision_from (Json.number n) = pure (some n)
revision_from _ = raise (http 422 "taskRevision must be a non-negative integer")

-- `_revision`
unfoldable pub device_revision_of : Json → Action (Option ℕ)
device_revision_of payload = revision_from (get_key "taskRevision" payload)

abbrev is_attempt : Json → Bool
is_attempt Json.null = true
is_attempt (Json.number n) = leb 1 n && leb n 2147483647
is_attempt _ = false

-- A finite number, not below zero; -0.0 is zero.
abbrev pub is_metric : Json → Bool
is_metric Json.null = true
is_metric (Json.number n) = true
is_metric (Json.real d) = is_finite d && (is_zero d || not (le_zero d))
is_metric _ = false

abbrev text_keys : List String
text_keys = "taskId" ∷ "messageId" ∷ "orderId" ∷ "stepId" ∷ "stepName" ∷ "state" ∷ []

abbrev number_keys : List String
number_keys =
    "overallProgress" ∷ "stepProgress" ∷ "progress" ∷ "plannedDurationSeconds" ∷ "elapsedSeconds"
    ∷ "remainingSeconds" ∷ []

-- `_validate_metrics`
unfoldable pub validate_metrics : Json → Action (Unit {0})
validate_metrics payload = do
  raise_if (not (is_attempt (get_key "attempt" payload)))
      (http 422 "attempt must be a positive integer")
  raise_if (any (λ key. not (is_text_or_null (get_key key payload))) text_keys)
      (http 422 "must be a string")
  raise_if (any (λ key. not (is_metric (get_key key payload))) number_keys)
      (http 422 "must be a finite non-negative number")
  raise_if
      (not (is_null (get_key "failure" payload)) && not (is_object (get_key "failure" payload)))
      (http 422 "failure must be an object")

-- `payload.get(key)` for a number that was checked.
abbrev pub number_of : Json → Option Decimal
number_of (Json.number n) = some (Decimal.above false n 0)
number_of (Json.real d) = some d
number_of _ = none

abbrev pub attempt_of : Json → Option ℕ
attempt_of (Json.number n) = some n
attempt_of _ = none

-- `payload.get(key)` for a text that was checked.
abbrev pub text_of : Json → Option String
text_of (Json.text s) = some s
text_of _ = none

abbrev overall_from : Option Decimal → Option Decimal → Decimal → Decimal
overall_from (some overall) legacy current = overall
overall_from none (some old) current = max_decimal current old
overall_from none none current = current

abbrev or_current : Option Decimal → Decimal → Decimal
or_current none current = current
or_current (some d) current = d

-- `max(0.0, min(1.0, value))`
abbrev pub clamp : Decimal → Decimal
clamp d = max_decimal zero_decimal (min_decimal one_decimal d)

-- `float(payload.get("stepProgress", ...))`: a key with the value null is `float(None)`.
abbrev pub step_from : Option Json → Decimal → Action Decimal
step_from none default = pure default
step_from (some value) default = or_raise (exception "TypeError") (number_of value)

-- `device_progress`
unfoldable pub device_progress : Json → Decimal → Decimal → Action (Decimal × Decimal)
device_progress payload current_overall current_step =
    let legacy = number_of (get_key "progress" payload) in
    let overall =
      overall_from (number_of (get_key "overallProgress" payload)) legacy current_overall in
    do
      step ← step_from (key_of "stepProgress" payload) (or_current legacy current_step)
      pure (clamp overall, clamp step)
