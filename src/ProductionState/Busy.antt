-- ===== src/ProductionState/Busy.antt =====
-- app/production_state.py: `device_is_busy`, on the status that a device reported.
use coffee_cloud_mvp.Base.{
  Bool, true, not, ◌||◌, List, [], ◌∷◌, String, Json, if◌then◌else◌, get_key, or_json, is_object,
  is_text_or_null, is_text_in, empty_object,
}

abbrev busy_tasks : List String
busy_tasks = "RECEIVED" ∷ "VALIDATING" ∷ "ACKNOWLEDGED" ∷ "RUNNING" ∷ "PAUSED" ∷ "RETRY_WAIT" ∷ []

abbrev busy_devices : List String
busy_devices = "BUSY" ∷ "RESERVED" ∷ "RECOVERING" ∷ "RUNNING" ∷ "PAUSED" ∷ "RETRY_WAIT" ∷ []

-- Of a report that is an object, with the task that it names.
abbrev is_task_busy : Json → Json → Bool
is_task_busy value task =
    let state = or_json (get_key "currentTaskState" value) (get_key "state" task) in
    let device = get_key "deviceStatus" value in
    if not (is_text_or_null state)
    then true
    else if not (is_text_or_null device)
    then true
    else is_text_in state busy_tasks || is_text_in device busy_devices

unfoldable pub device_is_busy : Json → Bool
device_is_busy reported =
    let value = or_json reported empty_object in
    let task = or_json (get_key "currentTask" value) empty_object in
    if not (is_object value)
    then true
    else if not (is_object task)
    then true
    else is_task_busy value task
