-- ===== src/Go/Duration/Parse.antt =====
-- What `time.ParseDuration` accepts and returns.

use native.Mathlib.Nat.{le-div_iff_mul-le, div-le_self}
use openpreflight.Prelude.{
  ℕ, zero, suc, ◌+◌, ◌-◌, ◌*◌, ◌/◌, ◌^◌, ◌≤◌, ◌<◌, ◌≡◌, ◌≢◌, refl, inl, inr, Bool, true, false,
  Bool-cases, [], ◌∷◌, ◌++◌, Option, none, some, pos, arith, All, length, length-append,
}
use openpreflight.Go.Strings.{Text, codes, str_eq}
use openpreflight.Go.Duration.{
  is_digit, max_int64, leading_int, read_fraction, cut_unit, behind_int, unit_value, component,
  components, signed, unsigned, parse_signed, parse_duration,
}

signed_bound : (neg : Bool) (d n : ℕ) → signed neg d ≡ some (pos n) → n ≤ max_int64
signed_bound true zero n h = ground arith
signed_bound true (suc d) n h = ground arith
signed_bound false d n h = ground arith

module _ (float_scale : ℕ → ℕ → ℕ → ℕ) where
  unsigned_bound :
      (neg : Bool) (s : Text) (n : ℕ) → unsigned float_scale neg s ≡ some (pos n) → n ≤ max_int64
  unfolding unsigned
  unsigned_bound neg s n h = elim (Bool-cases (str_eq s (codes "0"))) [
    | inl e ↦ ground (arith, e)
    | inr e ↦ ground (arith, e, signed_bound neg)
  ]

  parse_signed_bound :
      (s : Text) (n : ℕ) → parse_signed float_scale s ≡ some (pos n) → n ≤ max_int64
  unfolding parse_signed
  parse_signed_bound [] n h = cc
  parse_signed_bound (c ∷ s) n h =
      ground
        (arith, unsigned_bound true s n, unsigned_bound false s n, unsigned_bound false (c ∷ s) n)

  -- A duration that is not negative fits into an int64.
  pub parse_duration_bound :
      (s : Text) (n : ℕ) → parse_duration float_scale s ≡ some (pos n) → n ≤ max_int64
  unfolding parse_duration
  parse_duration_bound s n h = parse_signed_bound s n h

abbrev pub Digits : Text → Type 0
Digits = All (λ c. is_digit c ≡ true)

-- The number that digits spell behind `n`.
abbrev pub value : ℕ → Text → ℕ
value n [] = n
value n (c ∷ s) = value (n * 10 + (c - b'0')) s

leading_int-Digits :
    (s : Text) (x y : ℕ) (r : Text) → Digits s → leading_int x s ≡ some (y, r) → r ≡ []
unfolding leading_int
leading_int-Digits [] x y r h e = cc
leading_int-Digits (c ∷ s) x y r h e =
    ground (arith, leading_int-Digits s (x * 10 + (c - b'0')) y r)

-- A text that does not begin with a digit.
abbrev Stops : Text → Type 0
Stops [] = Unit
Stops (c ∷ s) = is_digit c ≡ false

le-value : (ds : Text) (x : ℕ) → x ≤ value x ds
le-value [] x = omega arith
le-value (d ∷ ds) x = ground (arith, le-value ds (x * 10 + (d - b'0')))

leading_int-value :
    (ds rest : Text) (x : ℕ)
    → Digits ds
    → Stops rest
    → value x ds ≤ 2 ^ 63
    → leading_int x (ds ++ rest) ≡ some (value x ds, rest)
unfolding leading_int
leading_int-value [] [] x h e fits = refl
leading_int-value [] (c ∷ rest) x h e fits = rw e
leading_int-value (c ∷ ds) rest x h e fits =
    let m = x * 10 + (c - b'0') in ground (arith, leading_int-value ds rest m, le-value ds m)

read_fraction-none : (u : ℕ) (us : Text) → u ≢ b'.' → read_fraction (u ∷ us) ≡ (0, 1, false, u ∷ us)
unfolding read_fraction
read_fraction-none u us h = ground arith

module _ (float_scale : ℕ → ℕ → ℕ → ℕ) where
  behind_int-nil : (c : ℕ) (s : Text) (v : ℕ) → behind_int float_scale (c ∷ s) (v, []) ≡ none
  unfolding behind_int read_fraction cut_unit
  behind_int-nil c s v = ground arith

  component-Digits : (c : ℕ) (s : Text) → Digits (c ∷ s) → component float_scale (c ∷ s) ≡ none
  component-Digits c s h = go (leading_int 0 (c ∷ s)) refl
    where
      go :
          (o : Option (ℕ × Text)) → leading_int 0 (c ∷ s) ≡ o → component float_scale (c ∷ s) ≡ none
      go none e = unfold component in ground (arith, e)
      go (some (v, r)) e =
          unfold component in
          ground (arith, e, leading_int-Digits (c ∷ s) 0 v r h e, behind_int-nil c s v)

  behind_int-unit :
      (c : ℕ) (ds : Text) (u : ℕ) (us : Text) (unit v : ℕ)
      → u ≢ b'.'
      → cut_unit (u ∷ us) ≡ (u ∷ us, [])
      → unit_value (u ∷ us) ≡ some unit
      → v ≤ 2 ^ 63 / unit
      → v * unit ≤ max_int64
      → behind_int float_scale (c ∷ (ds ++ u ∷ us)) (v, u ∷ us) ≡ some (v * unit, [])
  unfolding behind_int
  behind_int-unit c ds u us unit v np cu uv small fits =
      ground (arith, read_fraction-none u us np, cu, uv, length-append ds (u ∷ us))

  component-unit :
      (c : ℕ) (ds : Text) (u : ℕ) (us : Text) (unit : ℕ)
      → Digits (c ∷ ds)
      → is_digit u ≡ false
      → u ≢ b'.'
      → cut_unit (u ∷ us) ≡ (u ∷ us, [])
      → unit_value (u ∷ us) ≡ some unit
      → 0 < unit
      → value 0 (c ∷ ds) * unit ≤ max_int64
      → component float_scale (c ∷ (ds ++ u ∷ us)) ≡ some (value 0 (c ∷ ds) * unit, [])
  unfolding component
  component-unit c ds u us unit h nd np cu uv positive fits =
      let n = value 0 (c ∷ ds) in
      let small : n ≤ 2 ^ 63 / unit = (le-div_iff_mul-le positive).1 (omega (arith, fits)) in
      ground (
        arith,
        h.0,
        leading_int-value (c ∷ ds) (u ∷ us) 0 h nd
            (omega (arith, small, div-le_self (2 ^ 63) unit)),
        behind_int-unit c ds u us unit n np cu uv small fits,
      )

str_eq-nil : (ds : Text) (u : ℕ) (us : Text) → str_eq (ds ++ u ∷ us) [] ≡ false
unfolding str_eq
str_eq-nil [] u us = refl
str_eq-nil (d ∷ ds) u us = refl

module _ (float_scale : ℕ → ℕ → ℕ → ℕ) where
  components-one :
      (fuel : ℕ) (c : ℕ) (s : Text) (w : ℕ)
      → component float_scale (c ∷ s) ≡ some (w, [])
      → w ≤ max_int64
      → components float_scale (suc fuel) 0 (c ∷ s) ≡ some w
  unfolding components
  components-one fuel c s w e fits = ground (arith, e)

  parse_signed-unit :
      (c : ℕ) (ds : Text) (u : ℕ) (us : Text) (n : ℕ)
      → is_digit c ≡ true
      → components float_scale (suc (length (ds ++ u ∷ us))) 0 (c ∷ (ds ++ u ∷ us)) ≡ some n
      → n ≤ max_int64
      → parse_signed float_scale (c ∷ (ds ++ u ∷ us)) ≡ some (pos n)
  unfolding parse_signed unsigned str_eq
  parse_signed-unit c ds u us n hc e fits = ground (arith, hc, e, str_eq-nil ds u us)

  -- Digits and a unit are their number of that unit, if it fits into an int64.
  pub parse_duration-unit :
      (c : ℕ) (ds : Text) (u : ℕ) (us : Text) (unit : ℕ)
      → Digits (c ∷ ds)
      → is_digit u ≡ false
      → u ≢ b'.'
      → cut_unit (u ∷ us) ≡ (u ∷ us, [])
      → unit_value (u ∷ us) ≡ some unit
      → 0 < unit
      → value 0 (c ∷ ds) * unit ≤ max_int64
      → parse_duration float_scale (c ∷ (ds ++ u ∷ us)) ≡ some (pos (value 0 (c ∷ ds) * unit))
  parse_duration-unit c ds u us unit h nd np cu uv positive fits =
      let one =
        components-one (length (ds ++ u ∷ us)) c (ds ++ u ∷ us) (value 0 (c ∷ ds) * unit)
          (component-unit float_scale c ds u us unit h nd np cu uv positive fits) fits in
      let whole = parse_signed-unit c ds u us (value 0 (c ∷ ds) * unit) h.0 one fits in
      unfold parse_duration in whole

  parse_signed-Digits :
      (s : Text) (n : ℕ) → Digits s → parse_signed float_scale s ≢ some (pos (suc n))
  unfolding parse_signed unsigned components
  parse_signed-Digits [] n h e = cc
  parse_signed-Digits (c ∷ s) n h e = ground (arith, h.0, component-Digits float_scale c s h)

  -- Digits alone are no positive duration.
  pub parse_duration-Digits :
      (s : Text) (n : ℕ) → Digits s → parse_duration float_scale s ≢ some (pos (suc n))
  unfolding parse_duration
  parse_duration-Digits s n h = parse_signed-Digits s n h
