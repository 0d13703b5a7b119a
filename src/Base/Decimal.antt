-- ===== src/Base/Decimal.antt =====
-- `String(n)` and `padStart(2, "0")` of JavaScript on a number that is a native number.
use Prim.Native.String.{◌++◌}
use senecial.Base.Tests.{ltb, ◌==◌, if◌then◌else◌}
use Prim.Native.Nat.{ℕ, zero, suc, ◌/◌, ◌%◌}
use Prim.Native.String.{String}

digit : ℕ → String
digit n =
    if n == 0
    then "0"
    else if n == 1
    then "1"
    else if n == 2
    then "2"
    else if n == 3
    then "3"
    else if n == 4
    then "4"
    else if n == 5
    then "5"
    else if n == 6
    then "6"
    else if n == 7
    then "7"
    else if n == 8
    then "8"
    else "9"

-- One digit for each unit of fuel at most; `n` has no more than `n + 1` digits.
digits_from : ℕ → ℕ → String → String
digits_from zero n acc = acc
digits_from (suc fuel) n acc =
    let here = digit (n % 10) ++ acc in
    let more = digits_from fuel (n / 10) here in if ltb n 10 then here else more

unfoldable pub show_nat : ℕ → String
unfolding digits_from digit
show_nat n = digits_from (suc n) n ""

unfoldable pub pad_start_two : ℕ → String
unfolding show_nat
pad_start_two n = if ltb n 10 then "0" ++ show_nat n else show_nat n
