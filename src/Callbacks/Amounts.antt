-- ===== src/Callbacks/Amounts.antt =====
-- app/payment_service.py: `callback_event_id` and `callback_amount_minor`.
use coffee_cloud_mvp.Base.{
  ℕ, Bool, true, false, not, ◌||◌, Option, none, some, List, [], ◌∷◌, String, ◌<>◌, Json, Fields,
  Decimal, times_100, is_finite, le_zero, is_integral, to_int, if◌then◌else◌, ◌==◌, string_eq,
}
use coffee_cloud_mvp.Store.{Host, Result, ok, err, Error, http}

-- The channel's form fields.
abbrev pub Values : Type 0
Values = List (String × String)

-- `values.get(key)`
unfoldable pub get : String → Values → Option String
get key [] = none
get key ((k, v) ∷ vs) = if k == key then some v else get key vs

-- `values.get(key) or None`: an empty text is false.
abbrev pub truthy : Option String → Option String
truthy none = none
truthy (some text) = if text == "" then none else some text

-- `a or b`
abbrev pub or_else : Option String → Option String → Option String
or_else a b = elim (truthy a) [ none ↦ b | some text ↦ some text ]

-- `{key: value for key, value in values.items() if key != 'sign'}`, as JSON.
abbrev pub unsigned : Values → Fields
unsigned [] = Fields.end
unsigned ((k, v) ∷ vs) =
    if k == "sign" then unsigned vs else Fields.field k (Json.text v) (unsigned vs)

abbrev pub as_json : Values → Fields
as_json [] = Fields.end
as_json ((k, v) ∷ vs) = Fields.field k (Json.text v) (as_json vs)

module _ (host : Host) where
  unfoldable pub callback_event_id : Values → String
  unfolding get
  callback_event_id values =
      elim (truthy (or_else (get "notify_id" values) (get "event_id" values))) [
        | some explicit ↦ explicit
        | none ↦ "digest:" <> host.digest (Json.object (unsigned values))
      ]

  -- `raw is None or str(raw).strip() == ""`
  abbrev pub is_blank : Option String → Bool
  is_blank none = true
  is_blank (some raw) = host.strip raw == ""

  abbrev pub invalid_amount : Error
  invalid_amount = http 409 "payment callback amount is invalid"

  abbrev pub fractional_amount : Error
  fractional_amount = http 409 "payment callback amount has fractional minor units"

  -- The amount in minor units: yuan are multiplied by 100.
  unfoldable pub to_minor : Bool → Option Decimal → Result (Option ℕ)
  to_minor total none = err invalid_amount
  to_minor total (some amount) =
      let cents = if total then times_100 amount else amount in
      if not (is_finite amount) || le_zero amount
      then err invalid_amount
      else if not (is_integral cents)
      then err fractional_amount
      else ok (some (to_int cents))

  abbrev pub parse : Bool → Option String → Result (Option ℕ)
  parse total none = ok none
  parse total (some raw) = to_minor total (host.decimal raw)

  unfoldable pub callback_amount_minor : Values → Result (Option ℕ)
  unfolding get to_minor
  callback_amount_minor values =
      if not (is_blank (get "total_amount" values))
      then parse true (get "total_amount" values)
      else if not (is_blank (get "amount_minor" values))
      then parse false (get "amount_minor" values)
      else ok none
