-- ===== src/Go/Duration.antt =====
-- Go's time.ParseDuration and Duration.String. A duration is a number of nanoseconds in an int64.
-- The one product of floats, for the digits behind a point, is the parameter `float_scale`.
pub mod Parse
use openpreflight.Prelude.{
  ℕ, zero, suc, ◌+◌, ◌-◌, ◌*◌, ◌/◌, ◌%◌, ◌^◌, ◌≡◌, refl, Bool, true, false, not, ◌&&◌, ◌||◌, [],
  ◌∷◌, ◌++◌, Option, none, some, ℤ, pos, negsuc, ltb, leb, ◌==◌, if◌then◌else◌, length, is_nil,
}
use openpreflight.Go.Strings.{Text, codes, str_eq}
use openpreflight.Go.Decimal.{itoa}

abbrev pub second : ℕ
second = 1_000_000_000

abbrev pub minute : ℕ
minute = 60 * second

abbrev pub hour : ℕ
hour = 60 * minute

abbrev pub max_int64 : ℕ
max_int64 = 2 ^ 63 - 1

abbrev pub is_digit : ℕ → Bool
is_digit c = leb b'0' c && leb c b'9'

-- `unitMap`.
unfoldable pub unit_value : Text → Option ℕ
unfolding str_eq
unit_value u =
    if str_eq u (codes "ns")
    then some 1
    else if str_eq u (codes "us") || str_eq u (0xB5 ∷ b's' ∷ []) || str_eq u (0x3BC ∷ b's' ∷ [])
    then some 1_000
    else if str_eq u (codes "ms")
    then some 1_000_000
    else if str_eq u (codes "s")
    then some second
    else if str_eq u (codes "m")
    then some minute
    else if str_eq u (codes "h")
    then some hour
    else none

-- `leadingInt`.
unfoldable pub leading_int : ℕ → Text → Option (ℕ × Text)
leading_int x [] = some (x, [])
leading_int x (c ∷ s) =
    let y = x * 10 + (c - b'0') in
    let rest = leading_int y s in
    if not (is_digit c)
    then some (x, c ∷ s)
    else if ltb (2 ^ 63 / 10) x
    then none
    else if ltb (2 ^ 63) y
    then none
    else rest

-- `leadingFraction`, with its flag `overflow`: the digits read, ten to their number, the rest.
unfoldable pub leading_fraction : ℕ → ℕ → Bool → Text → ℕ × ℕ × Text
leading_fraction x scale overflow [] = (x, scale, [])
leading_fraction x scale overflow (c ∷ s) =
    let y = x * 10 + (c - b'0') in
    let full = overflow || ltb (max_int64 / 10) x || ltb (2 ^ 63) y in
    let rest =
      leading_fraction (if full then x else y) (if full then scale else scale * 10) full s in
    if not (is_digit c) then (x, scale, c ∷ s) else rest

-- The unit's name: what stands before the next point or digit.
unfoldable pub cut_unit : Text → Text × Text
cut_unit [] = ([], [])
cut_unit (c ∷ s) =
    let (u, rest) = cut_unit s in if c == b'.' || is_digit c then ([], c ∷ s) else (c ∷ u, rest)

-- The part behind a point, if there is one: its digits, their scale, whether there were any.
unfoldable pub read_fraction : Text → ℕ × ℕ × Bool × Text
unfolding leading_fraction
read_fraction [] = (0, 1, false, [])
read_fraction (c ∷ s) =
    let (f, scale, rest) = leading_fraction 0 1 false s in
    if c == b'.' then (f, scale, not (length rest == length s), rest) else (0, 1, false, c ∷ s)

abbrev starts_number : Text → Bool
starts_number [] = false
starts_number (c ∷ s) = c == b'.' || is_digit c

abbrev signed : Bool → ℕ → Option ℤ
signed true zero = some (pos 0)
signed true (suc d) = some (negsuc d)
signed false d = if ltb max_int64 d then none else some (pos d)

module _ (float_scale : ℕ → ℕ → ℕ → ℕ) where
  -- What stands behind the whole number `v` of a component, which begins the text `s`.
  behind_int : Text → ℕ × Text → Option (ℕ × Text)
  behind_int s (v, s₁) =
      let (f, scale, post, s₂) = read_fraction s₁ in
      let (u, s₃) = cut_unit s₂ in
      if length s₁ == length s && not post
      then none
      else if is_nil u
      then none
      else elim (unit_value u) [
        | none ↦ none
        | some unit ↦
            let w = (if ltb 0 f then v * unit + float_scale f unit scale else v * unit) in
            if ltb (2 ^ 63 / unit) v then none else if ltb (2 ^ 63) w then none else some (w, s₃)
      ]

  -- One component `123.45unit` in nanoseconds, below 2^63 + 1, and the text behind it.
  component : Text → Option (ℕ × Text)
  component s =
      if not (starts_number s)
      then none
      else elim (leading_int 0 s) [ none ↦ none | some r ↦ behind_int s r ]

  -- The loop over the components. `d += v` is in uint64. Each round reads a character, so the
  -- length of the text is enough fuel.
  components : ℕ → ℕ → Text → Option ℕ
  components fuel d [] = some d
  components zero d (c ∷ s) = none
  components (suc fuel) d (c ∷ s) = elim (component (c ∷ s)) [
    | none ↦ none
    | some (v, rest) ↦
        let sum = (d + v) % 2 ^ 64 in
        let go = components fuel sum rest in if ltb (2 ^ 63) sum then none else go
  ]

  -- What stands behind the sign.
  unsigned : Bool → Text → Option ℤ
  unsigned neg s =
      if str_eq s (codes "0")
      then some (pos 0)
      else if is_nil s
      then none
      else elim (components (length s) 0 s) [ none ↦ none | some d ↦ signed neg d ]

  -- The sign, and what stands behind it.
  parse_signed : Text → Option ℤ
  parse_signed [] = none
  parse_signed (c ∷ s) =
      if c == b'-'
      then unsigned true s
      else if c == b'+'
      then unsigned false s
      else unsigned false (c ∷ s)

  unfoldable pub parse_duration : Text → Option ℤ
  unfolding parse_signed unsigned components component leading_int behind_int read_fraction cut_unit
      unit_value str_eq
  parse_duration s = parse_signed s

parse_duration_tests :
    (parse_duration (λ f unit scale. f * unit / scale) (codes "1h30m") ≡ some (pos (90 * minute)))
    × (parse_duration (λ f unit scale. f * unit / scale) (codes "1.5s") ≡ some (pos 1_500_000_000))
    × (parse_duration (λ f unit scale. f * unit / scale) (codes "-90s")
        ≡ some (negsuc (90 * second - 1)))
    × (parse_duration (λ f unit scale. f * unit / scale) (codes "15") ≡ none)
    × (parse_duration (λ f unit scale. f * unit / scale) (codes "9999999h") ≡ none)
unfolding parse_duration
parse_duration_tests = (refl, refl, refl, refl, refl)

-- `fmtFrac`: the last `prec` digits of `v` behind a point, without the zeros at their end.
abbrev pub digit : ℕ → ℕ
digit n = b'0' + n % 10

unfoldable pub fraction_digits : ℕ → ℕ → Text → Text
fraction_digits zero v out = if is_nil out then [] else b'.' ∷ out
fraction_digits (suc prec) v out =
    fraction_digits prec (v / 10) (if is_nil out && v % 10 == 0 then [] else digit v ∷ out)

-- Duration.String of a duration that is not negative.
unfoldable pub duration_string : ℕ → Text
unfolding itoa fraction_digits
duration_string d =
    if d == 0
    then codes "0s"
    else if ltb d 1_000
    then itoa d ++ codes "ns"
    else if ltb d 1_000_000
    then itoa (d / 1_000) ++ (fraction_digits 3 d [] ++ 0xB5 ∷ b's' ∷ [])
    else if ltb d second
    then itoa (d / 1_000_000) ++ (fraction_digits 6 d [] ++ codes "ms")
    else let secs = itoa (d / second % 60) ++ (fraction_digits 9 d [] ++ codes "s") in
      let mins = itoa (d / minute % 60) ++ (b'm' ∷ secs) in
      if ltb d minute then secs else if ltb d hour then mins else itoa (d / hour) ++ (b'h' ∷ mins)

duration_string_tests :
    (duration_string (15 * minute) ≡ codes "15m0s")
    × (duration_string 1_500_000_000 ≡ codes "1.5s")
    × (duration_string (90 * minute) ≡ codes "1h30m0s")
unfolding duration_string
duration_string_tests = (refl, refl, refl)
