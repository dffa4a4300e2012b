-- ===== src/Base/Strconv.antt =====
-- Go's `strconv.Atoi`: an optional sign and decimal digits, within the range of an `int`.
use Prim.Native.Char.{code}
use Prim.Native.String.{String}
use minkube.Base.Eq.{◌==◌, string_eq, nat_eq}
use minkube.Base.Int.{ℤ, pos, sub_ℕ, int_bound}
use minkube.Base.Tests.{leb, ltb, if◌then◌else◌}
use Prim.Native.Nat.{ℕ, ◌+◌, ◌-◌, ◌*◌}
use mathlib.Core.Bool.{◌&&◌}
use mathlib.Core.Option.{Option, none, some}

-- The value of the digits, from the value of those before them; `none` for any other character.
unfoldable pub digits_from : ℕ → String → Option ℕ
digits_from acc String.[] = some acc
digits_from acc (String.◌∷◌ c s) =
    let rest = digits_from (acc * 10 + (code c - b'0')) s in
    if leb b'0' (code c) && leb (code c) b'9' then rest else none

unfoldable pub digits : String → Option ℕ
unfolding digits_from
digits s = if s == "" then none else digits_from 0 s

-- The numbers from 0 on that fit, and those from 0 down.
abbrev pub in_range : Option ℕ → Option ℤ
in_range none = none
in_range (some n) = if ltb n int_bound then some (pos n) else none

abbrev pub in_range_negative : Option ℕ → Option ℤ
in_range_negative none = none
in_range_negative (some n) = if leb n int_bound then some (sub_ℕ 0 n) else none

-- `none` is an error.
unfoldable pub atoi : String → Option ℤ
unfolding digits
atoi String.[] = none
atoi (String.◌∷◌ c s) =
    if code c == b'-'
    then in_range_negative (digits s)
    else (if code c == b'+' then in_range (digits s) else in_range (digits (String.◌∷◌ c s)))
