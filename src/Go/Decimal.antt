-- ===== src/Go/Decimal.antt =====
-- Go's package strconv: Itoa on numbers that are not negative, Atoi and ParseInt in base 10.
use openpreflight.Prelude.{
  ℕ, zero, suc, ◌+◌, ◌-◌, ◌*◌, ◌/◌, ◌%◌, ◌^◌, ◌≡◌, refl, Bool, true, false, ◌&&◌, [], ◌∷◌, Option,
  none, some, ℤ, pos, negsuc, ltb, leb, ◌==◌, if◌then◌else◌, is_nil,
}
use openpreflight.Go.Strings.{Text, codes}

-- The digits of `n` before `out`; `n` rounds are enough.
digits_from : ℕ → ℕ → Text → Text
digits_from zero n out = out
digits_from (suc fuel) n out =
    let more = digits_from fuel (n / 10) ((b'0' + n % 10) ∷ out) in if n == 0 then out else more

unfoldable pub itoa : ℕ → Text
unfolding digits_from
itoa n = if n == 0 then b'0' ∷ [] else digits_from n n []

itoa_example : itoa 90210 ≡ codes "90210"
unfolding itoa
itoa_example = refl

digits_value : ℕ → Text → Option ℕ
digits_value acc [] = some acc
digits_value acc (c ∷ s) =
    let rest = digits_value (acc * 10 + (c - b'0')) s in
    if leb b'0' c && leb c b'9' then rest else none

unsigned_value : Text → Option ℕ
unsigned_value s = if is_nil s then none else digits_value 0 s

-- The range of a signed 64-bit integer.
in_range : Bool → Option ℕ → Option ℤ
in_range negative none = none
in_range negative (some zero) = some (pos 0)
in_range negative (some (suc n)) =
    if negative
    then if ltb n (2 ^ 63) then some (negsuc n) else none
    else if ltb (suc n) (2 ^ 63)
    then some (pos (suc n))
    else none

-- `none` is an error of syntax or of range.
unfoldable pub atoi : Text → Option ℤ
unfolding in_range unsigned_value digits_value
atoi [] = none
atoi (c ∷ s) =
    if c == b'-'
    then in_range true (unsigned_value s)
    else if c == b'+'
    then in_range false (unsigned_value s)
    else in_range false (unsigned_value (c ∷ s))

atoi_example : atoi (codes "-0120") ≡ some (negsuc 119)
unfolding atoi
atoi_example = refl
