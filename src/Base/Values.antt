-- ===== src/Base/Values.antt =====
-- JSON values, as the payload columns hold them: a `float` is the decimal that it stands for.
use Prim.Native.Nat.{ℕ}
use Prim.Native.String.{String}
use mathlib.Core.Bool.{Bool}
use coffee_cloud_mvp.Base.Decimals.{Decimal}

mutual
  pub data Json : Type 0 where
    null : Json
    boolean : Bool → Json
    number : ℕ → Json  -- an `int` from 0 on
    negative : ℕ → Json  -- the `int` of one below the negated number
    real : Decimal → Json  -- a `float`
    text : String → Json
    array : Items → Json
    object : Fields → Json

  pub data Items : Type 0 where
    nil : Items
    cons : Json → Items → Items

  pub data Fields : Type 0 where
    end : Fields
    field : String → Json → Fields → Fields

-- `{}`
abbrev pub empty_object : Json
empty_object = Json.object Fields.end

-- `{key: value}`
abbrev pub one_field : String → String → Json
one_field key value = Json.object (Fields.field key (Json.text value) Fields.end)
