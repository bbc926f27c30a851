-- ===== src/Base/Objects.antt =====
-- Python's operations on JSON values, with `None` for a missing key.
use Prim.Native.String.{String}
use mathlib.Core.Bool.{Bool, true, false, not}
use mathlib.Core.Option.{Option, none, some}
use mathlib.Core.List.{List, [], ◌∷◌}
use coffee_cloud_mvp.Base.Tests.{nat_beq, string_eq, ◌==◌, contains, if◌then◌else◌}
use coffee_cloud_mvp.Base.Values.{Json, Items, Fields}
use coffee_cloud_mvp.Base.Decimals.{is_zero}

abbrev find_field : String → Fields → Option Json
find_field key Fields.end = none
find_field key (Fields.field k value rest) = if k == key then some value else find_field key rest

-- `value[key]` of an object, `none` for `KeyError`.
abbrev pub key_of : String → Json → Option Json
key_of key (Json.object fields) = find_field key fields
key_of key _ = none

-- `value.get(key)` of an object
abbrev pub get_key : String → Json → Json
get_key key value = elim (key_of key value) [ none ↦ Json.null | some v ↦ v ]

-- `bool(value)`
abbrev pub is_truthy : Json → Bool
is_truthy Json.null = false
is_truthy (Json.boolean b) = b
is_truthy (Json.number n) = not (nat_beq n 0)
is_truthy (Json.negative n) = true
is_truthy (Json.real d) = not (is_zero d)
is_truthy (Json.text s) = not (s == "")
is_truthy (Json.array Items.nil) = false
is_truthy (Json.array (Items.cons v vs)) = true
is_truthy (Json.object Fields.end) = false
is_truthy (Json.object (Fields.field k v fs)) = true

-- `a or b`
abbrev pub or_json : Json → Json → Json
or_json a b = if is_truthy a then a else b

-- `isinstance(value, dict)`
abbrev pub is_object : Json → Bool
is_object (Json.object fields) = true
is_object _ = false

-- `value is None or isinstance(value, str)`
abbrev pub is_text_or_null : Json → Bool
is_text_or_null (Json.text s) = true
is_text_or_null Json.null = true
is_text_or_null _ = false

-- `value in {...}`, of strings.
abbrev pub is_text_in : Json → List String → Bool
is_text_in (Json.text s) options = contains s options
is_text_in _ options = false

-- An object of texts.
abbrev pub texts : List (String × String) → Fields → Fields
texts [] rest = rest
texts ((key, value) ∷ more) rest = Fields.field key (Json.text value) (texts more rest)

-- `value == text`
abbrev pub is_text : String → Json → Bool
is_text s (Json.text t) = t == s
is_text s _ = false

-- `value is None`
abbrev pub is_null : Json → Bool
is_null Json.null = true
is_null _ = false

abbrev set_field : String → Json → Fields → Fields
set_field key value Fields.end = Fields.field key value Fields.end
set_field key value (Fields.field k v rest) =
    let more = set_field key value rest in
    if k == key then Fields.field k value rest else Fields.field k v more

-- `value[key] = ...` of an object
abbrev pub set_key : String → Json → Json → Json
set_key key value (Json.object fields) = Json.object (set_field key value fields)
set_key key value other = other
