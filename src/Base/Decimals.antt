-- ===== src/Base/Decimals.antt =====
-- Python's `decimal.Decimal`, as far as app/payment_service.py uses it: products in the default
-- context of 28 digits, rounded half to even.
use Prim.Native.Nat.{ℕ, zero, suc, ◌+◌, ◌-◌, ◌*◌, ◌/◌, ◌%◌, ◌^◌}
use mathlib.Core.Bool.{Bool, true, false, ◌||◌, ◌&&◌}
use coffee_cloud_mvp.Base.Tests.{ltb, leb, nat_beq, if◌then◌else◌}

-- ± coefficient · 10 ^ exponent, the exponent as `above` 0 or `below` it.
pub data Decimal : Type 0 where
  above below : Bool → ℕ → ℕ → Decimal
  special : Decimal  -- an infinity or a NaN

-- The number of decimal digits, up to the fuel.
unfoldable pub digits : ℕ → ℕ → ℕ
digits zero n = 0
digits (suc fuel) n = let rest = digits fuel (n / 10) in if nat_beq n 0 then 0 else suc rest

-- A coefficient without its last `drop` digits, rounded half to even.
unfoldable pub round_off : ℕ → ℕ → ℕ
round_off coefficient drop =
    let q = coefficient / 10 ^ drop in
    let twice = 2 * (coefficient % 10 ^ drop) in
    if ltb (10 ^ drop) twice || (nat_beq twice (10 ^ drop) && nat_beq (q % 2) 1) then q + 1 else q

abbrev pub precision : ℕ
precision = 28

-- `coefficient · 10 ^ - places` in the context, with `drop` digits too many. The decimal point
-- moves right by the digits dropped.
unfoldable pub shift_below : Bool → ℕ → ℕ → ℕ → Decimal
shift_below sign coefficient places drop =
    if ltb places drop
    then Decimal.above sign coefficient (drop - places)
    else Decimal.below sign coefficient (places - drop)

-- `amount * 100`. The fuel of `digits` is the coefficient, which has no more digits.
unfoldable pub times_100 : Decimal → Decimal
unfolding digits round_off shift_below
times_100 (Decimal.above sign c e) =
    let n = c * 100 in
    let drop = digits n n - precision in Decimal.above sign (round_off n drop) (e + drop)
times_100 (Decimal.below sign c places) =
    let n = c * 100 in
    let drop = digits n n - precision in shift_below sign (round_off n drop) places drop
times_100 Decimal.special = Decimal.special

abbrev pub is_finite : Decimal → Bool
is_finite Decimal.special = false
is_finite _ = true

-- `amount <= 0`, of a finite amount.
abbrev pub le_zero : Decimal → Bool
le_zero (Decimal.above sign c e) = sign || nat_beq c 0
le_zero (Decimal.below sign c e) = sign || nat_beq c 0
le_zero Decimal.special = false

-- `amount == amount.to_integral_value()`
abbrev pub is_integral : Decimal → Bool
is_integral (Decimal.above sign c e) = true
is_integral (Decimal.below sign c e) = nat_beq (c % 10 ^ e) 0
is_integral Decimal.special = false

-- `int(amount)`, of a positive amount.
abbrev pub to_int : Decimal → ℕ
to_int (Decimal.above sign c e) = c * 10 ^ e
to_int (Decimal.below sign c e) = c / 10 ^ e
to_int Decimal.special = 0

abbrev pub is_zero : Decimal → Bool
is_zero (Decimal.above sign c e) = nat_beq c 0
is_zero (Decimal.below sign c e) = nat_beq c 0
is_zero Decimal.special = false

-- A finite number as a sign, a coefficient and a number of decimal places.
abbrev pub places : Decimal → Bool × ℕ × ℕ
places (Decimal.above sign c e) = (sign, c * 10 ^ e, 0)
places (Decimal.below sign c e) = (sign, c, e)
places Decimal.special = (false, 0, 0)

abbrev pub le_places : Bool × ℕ × ℕ → Bool × ℕ × ℕ → Bool
le_places (false, c, e) (false, d, f) = leb (c * 10 ^ f) (d * 10 ^ e)
le_places (true, c, e) (true, d, f) = leb (d * 10 ^ e) (c * 10 ^ f)
le_places (true, c, e) (false, d, f) = true
le_places (false, c, e) (true, d, f) = nat_beq c 0 && nat_beq d 0

-- `a <= b`, of finite numbers.
unfoldable pub le_decimal : Decimal → Decimal → Bool
le_decimal a b = le_places (places a) (places b)

-- Python's `max(a, b)` and `min(a, b)`: the first one, unless the second is strictly beyond.
abbrev pub max_decimal : Decimal → Decimal → Decimal
max_decimal a b = if le_decimal b a then a else b

abbrev pub min_decimal : Decimal → Decimal → Decimal
min_decimal a b = if le_decimal a b then a else b

abbrev pub zero_decimal : Decimal
zero_decimal = Decimal.above false 0 0

abbrev pub one_decimal : Decimal
one_decimal = Decimal.above false 1 0
