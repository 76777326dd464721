-- ===== src/Common/Numbers.antt =====
-- Go's package `strconv` on decimal numbers.
use Prim.Native.Nat.{ℕ, zero, suc, ◌+◌, ◌-◌, ◌*◌, ◌/◌, ◌%◌, ◌^◌, ◌≤◌}
use mathlib.Core.Path.{◌≡◌}
use native.Mathlib.Omega.{arith}
use mathlib.Core.Bool.{Bool, true, false, ◌&&◌}
use mathlib.Core.List.{[], ◌∷◌}
use mathlib.Core.Option.{Option, none, some}
use flakes.Common.Tests.{◌==◌, ltb, leb, if◌then◌else◌}
use flakes.Common.Strings.{Bytes}

-- The digits of a number to base 10, with the value so far.
unfoldable pub digits : ℕ → Bytes → Option ℕ
digits n [] = some n
digits n (c ∷ s) =
    let rest = digits (n * 10 + (c - b'0')) s in if leb b'0' c && leb c b'9' then rest else none

unfoldable pub unsigned : Bytes → Option ℕ
unfolding digits
unsigned [] = none
unsigned (c ∷ s) = digits 0 (c ∷ s)

-- `strconv.Atoi`, as the 64 bits of its result; `none` is an error.
unfoldable pub atoi_signed : Bool → Option ℕ → Option ℕ
atoi_signed negative none = none
atoi_signed true (some n) = if leb n (2 ^ 63) then some ((2 ^ 64 - n) % 2 ^ 64) else none
atoi_signed false (some n) = if ltb n (2 ^ 63) then some n else none

unfoldable pub atoi : Bytes → Option ℕ
unfolding unsigned atoi_signed
atoi [] = none
atoi (c ∷ s) =
    if c == b'-'
    then atoi_signed true (unsigned s)
    else if c == b'+'
    then atoi_signed false (unsigned s)
    else atoi_signed false (unsigned (c ∷ s))

-- The digits of `n` before `s`, where `fuel` is over their count less one.
unfoldable pub decimal_onto : ℕ → ℕ → Bytes → Bytes
decimal_onto zero n s = (b'0' + n % 10) ∷ s
decimal_onto (suc fuel) n s = elim (ltb n 10) [
  | true ↦ (b'0' + n % 10) ∷ s
  | false ↦ decimal_onto fuel (n / 10) ((b'0' + n % 10) ∷ s)
]

-- A number as `%d` writes it.
unfoldable pub decimal : ℕ → Bytes
unfolding decimal_onto
decimal n = decimal_onto n n []

digits-decimal_onto :
    (fuel n : ℕ) (s : Bytes) → n ≤ fuel → digits 0 (decimal_onto fuel n s) ≡ digits n s
unfolding decimal_onto digits
digits-decimal_onto zero n s h = ground arith
digits-decimal_onto (suc fuel) n s h =
    ground (arith, digits-decimal_onto fuel (n / 10) ((b'0' + n % 10) ∷ s))

-- A number that `%d` writes is read as it was.
pub digits-decimal : (n : ℕ) → digits 0 (decimal n) ≡ some n
unfolding decimal digits
digits-decimal n = digits-decimal_onto n n [] (omega arith)
