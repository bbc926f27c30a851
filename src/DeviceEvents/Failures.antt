-- ===== src/DeviceEvents/Failures.antt =====
-- app/failure_info.py: `REASONS` and the message of `failure_info`, and the failure that
-- `reconcile_device_event` of app/services/production.py makes of a payload.
use coffee_cloud_mvp.Base.{
  ◌||◌, Option, none, some, List, [], ◌∷◌, ◌<>◌, String, Json, Fields, if◌then◌else◌, ◌==◌,
  string_eq, contains, get_key, or_json, is_truthy, set_key, empty_object,
}
use coffee_cloud_mvp.ProductionState.Jobs.{JobEvent}
use coffee_cloud_mvp.Store.{Host, Action, ◌>>=◌, pure, or_raise, exception}

abbrev reasons : List (String × String)
reasons =
    ("COMPILED_RECIPE_MISMATCH", "云端指令缺少配方指纹，或配方与设备不一致，设备已拒绝制作。")
    ∷ ("RECIPE_VERSION_MISMATCH", "订单配方版本与设备已安装版本不一致。")
    ∷ ("RECIPE_NOT_FOUND", "设备未安装该饮品配方。")
    ∷ ("RECIPE_DISABLED", "该饮品配方已停用。")
    ∷ ("INVALID_CUSTOMIZATION", "饮品定制选项无法执行。")
    ∷ ("MATERIAL_INSUFFICIENT", "设备物料不足，无法制作。")
    ∷ ("PICKUP_OCCUPIED", "取杯位仍被占用，设备无法开始制作。")
    ∷ ("DEVICE_BUSY", "设备正在处理其他任务，暂时无法接单。")
    ∷ ("COMMAND_EXPIRED", "制作指令已超时。")
    ∷ ("PRODUCTION_FAILED", "设备制作失败，未提供具体故障原因。")
    ∷ ("COMMAND_REJECTED", "设备拒绝了制作指令，未提供具体原因。")
    ∷ []

abbrev friendly : String → List (String × String) → String
friendly code [] = "设备报告错误：" <> code
friendly code ((known, message) ∷ rest) = if known == code then message else friendly code rest

module _ (host : Host) where
  -- `friendly if generic else original`
  abbrev shown : String → Json → String
  shown code (Json.text s) =
      if s == "" || contains s ("制作失败" ∷ "任务失败" ∷ []) || host.starts_with "任务被拒绝：" s
      then friendly code reasons
      else s
  shown code _ = friendly code reasons

  -- `failure_info(...)["message"]` for a code that is set: a code that is no string is dropped,
  -- and then the result is `None`.
  abbrev info_message : Json → Json → Json → Option String
  info_message (Json.text code) failure message =
      if code == "" then none else some (shown code (or_json (get_key "message" failure) message))
  info_message _ failure message = none

  abbrev default_code : JobEvent → Json
  default_code JobEvent.rejected = Json.text "COMMAND_REJECTED"
  default_code _ = Json.text "PRODUCTION_FAILED"

  -- `failure['code']` and `failure['message']` of a failed or rejected task
  unfoldable pub complete_failure : JobEvent → Json → Json → Action Json
  complete_failure event body failure =
      let code =
        or_json (or_json (get_key "code" failure) (get_key "errorCode" failure))
          (default_code event) in
      let coded = set_key "code" code failure in
      do
        message ←
            or_raise (exception "TypeError") (info_message code coded (get_key "message" body))
        pure (set_key "message" (Json.text message) coded)

  -- `event_payload.get("failure") or ({...} if event_type == "task.rejected" else None)`
  abbrev reported_failure : JobEvent → Json → Json
  reported_failure event payload =
      let failure = get_key "failure" payload in
      if is_truthy failure then failure else elim event [
        | JobEvent.rejected ↦ Json.object (
            Fields.field "code" (get_key "reasonCode" payload)
              (Fields.field "details" (get_key "details" payload) Fields.end))
        | _ ↦ Json.null
      ]

  -- `dict(failure or {})` for the two events
  unfoldable pub failure_of : JobEvent → Json → Json → Action Json
  failure_of event body payload =
      let failure = reported_failure event payload in
      elim event [
        | JobEvent.failed ↦ complete_failure JobEvent.failed body (or_json failure empty_object)
        | JobEvent.rejected ↦ complete_failure JobEvent.rejected body (or_json failure empty_object)
        | _ ↦ pure failure
      ]
